-- ===== src/Web/Recovery/Newest.antt =====
-- The newest bind or unbind of each device, as the loop of src/web.rs collects them.
use noobscenic.Prelude.{
  Bytes, Bool, true, false, [], ◌∷◌, Option, none, some, or_else, ◌>>=◌, text_eq, text_iff,
  text_refl, subst, find_first, if◌then◌else◌, inl, inr, Bool-cases, ◌≡◌, refl, ap, ◌∙◌,
}
use noobscenic.Json.{Value}
use noobscenic.Db.Events.{Events}
use noobscenic.Db.Rows.Laws.{find-upsert, find-upsert_other, upserted}
use noobscenic.Web.Recovery.{
  Bind, Latest, put_bind, get_bind, serial_of, bind_of, note, latest_binds,
}

get-put_bind_self : (sn : Bytes) (b : Bind) (l : Latest) → get_bind sn (put_bind sn b l) ≡ some b
unfolding put_bind
get-put_bind_self sn b l =
    let found =
      find-upsert (λ (e : Bytes × Bind). text_eq e.0 sn) (λ e. (e.0, b)) (sn, b) (λ r. refl)
        (text_refl sn) l in
    ap (λ o. o >>= λ e. some e.1) found ∙ renewed (find_first (λ e. text_eq e.0 sn) l)
  where
    renewed : (o : Option (Bytes × Bind)) → some (upserted (λ e. (e.0, b)) (sn, b) o).1 ≡ some b
    renewed none = unfold upserted in refl
    renewed (some e) = unfold upserted in refl

other_text : (a b c : Bytes) → text_eq b c ≡ false → text_eq a b ≡ true → text_eq a c ≡ false
other_text a b c e k = rw ((text_iff a b).0 k) e

get-put_bind :
    (sn k : Bytes) (b : Bind) (l : Latest)
    → get_bind k (put_bind sn b l) ≡ (if text_eq sn k then some b else get_bind k l)
unfolding put_bind
get-put_bind sn k b l = elim (Bool-cases (text_eq sn k)) [
  | inl e ↦
      rw (e, if◌then◌else◌)
        (subst (λ s. get_bind s (put_bind sn b l) ≡ some b) ((text_iff sn k).0 e)
          (get-put_bind_self sn b l))
  | inr e ↦
      rw (e, if◌then◌else◌)
        (ap (λ o. o >>= λ e. some e.1)
          (find-upsert_other (λ (e : Bytes × Bind). text_eq e.0 sn) (λ e. (e.0, b))
            (λ e. text_eq e.0 k) (λ r h. other_text r.0 sn k e h) (λ r h. other_text r.0 sn k e h)
            (sn, b) e l))
]

joined :
    (c : Bool) (b : Bind) (o : Option Bind)
    → (if c then some b else o) ≡ or_else (if c then some b else none) o
joined true b o = refl
joined false b o = refl

module _ (from_str : Bytes → Option Value) (lossy : Bytes → Bytes) where
  -- The newest event of a device, read off the end of the list.
  pub last_bind : Bytes → Events → Option Bind
  last_bind sn [] = none
  last_bind sn (e ∷ es) = or_else (last_bind sn es) (elim (serial_of from_str lossy e) [
    | none ↦ none
    | some k ↦ if text_eq k sn then some (bind_of from_str lossy e) else none
  ])

  pub get-latest_binds :
      (sn : Bytes) (es : Events) (l : Latest)
      → get_bind sn (latest_binds from_str lossy es l) ≡ or_else (last_bind sn es) (get_bind sn l)
  unfolding latest_binds last_bind note
  get-latest_binds sn [] l = refl
  get-latest_binds sn (e ∷ es) l =
      get-latest_binds sn es (note from_str lossy e l)
      ∙ noted (last_bind sn es) (serial_of from_str lossy e) refl
    where
      noted :
          (o : Option Bind) (k : Option Bytes)
          → serial_of from_str lossy e ≡ k
          → or_else o (get_bind sn (note from_str lossy e l))
            ≡ or_else
                (or_else o (elim k [
                  | none ↦ none
                  | some k ↦ if text_eq k sn then some (bind_of from_str lossy e) else none
                ]))
                (get_bind sn l)
      noted (some b) k q = refl
      noted none none q = rw (note, q) refl
      noted none (some k) q =
          rw (note, q)
            (get-put_bind k sn (bind_of from_str lossy e) l
              ∙ joined (text_eq k sn) (bind_of from_str lossy e) (get_bind sn l))
