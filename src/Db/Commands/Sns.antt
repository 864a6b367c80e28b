-- ===== src/Db/Commands/Sns.antt =====
-- The distinct, ordered serials of src/db/queries.rs.
use noobscenic.Prelude.{
  Bytes, List, [], ◌∷◌, In, inl, inr, ◌⊎◌, text_eq, text_iff, if◌then◌else◌, Bool-cases, sym, refl,
  All, ◌≡◌,
}
use noobscenic.Db.Commands.{insert_sn, text_lt}

pub insert_sn-new : (sn : Bytes) (ks : List Bytes) → In sn (insert_sn sn ks)
unfolding insert_sn
insert_sn-new sn [] = inl refl
insert_sn-new sn (k ∷ ks) =
    let rest = insert_sn-new sn ks in
    elim (Bool-cases (text_eq sn k)) [
      | inl e ↦ rw (e, if◌then◌else◌) (inl (sym ((text_iff sn k).0 e)))
      | inr e ↦ elim (Bool-cases (text_lt sn k)) [
        | inl l ↦ rw (e, l, if◌then◌else◌) (inl refl)
        | inr l ↦ rw (e, l, if◌then◌else◌) (inr rest)
      ]
    ]

pub insert_sn-old : (sn j : Bytes) (ks : List Bytes) → In j ks → In j (insert_sn sn ks)
unfolding insert_sn
insert_sn-old sn j [] m = absurd m
insert_sn-old sn j (k ∷ ks) m =
    let go = insert_sn-old sn j ks in
    elim (Bool-cases (text_eq sn k)) [
      | inl e ↦ rw (e, if◌then◌else◌) m
      | inr e ↦ elim (Bool-cases (text_lt sn k)) [
        | inl l ↦ rw (e, l, if◌then◌else◌) (inr m)
        | inr l ↦ rw (e, l, if◌then◌else◌) (later go m)
      ]
    ]
  where
    later :
        (In j ks → In j (insert_sn sn ks)) → (k ≡ j) ⊎ In j ks → (k ≡ j) ⊎ In j (insert_sn sn ks)
    later go (inl e) = inl e
    later go (inr m) = inr (go m)

pub All-insert_sn {κ} :
    (P : Bytes → Type κ) (sn : Bytes) (ks : List Bytes) → P sn → All P ks → All P (insert_sn sn ks)
unfolding insert_sn
All-insert_sn P sn [] p all = (p, tt)
All-insert_sn P sn (k ∷ ks) p all =
    let rest = All-insert_sn P sn ks p all.1 in
    elim (Bool-cases (text_eq sn k)) [
      | inl e ↦ rw (e, if◌then◌else◌) all
      | inr e ↦ elim (Bool-cases (text_lt sn k)) [
        | inl l ↦ rw (e, l, if◌then◌else◌) (p, all)
        | inr l ↦ rw (e, l, if◌then◌else◌) (all.0, rest)
      ]
    ]
