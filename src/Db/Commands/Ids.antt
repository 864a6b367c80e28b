-- ===== src/Db/Commands/Ids.antt =====
-- The order of the row ids of the `commands` table: src/db/queries.rs.
use native.Mathlib.Omega.{arith}
use noobscenic.Prelude.{
  unwrap_or, ◌<◌, ◌≤◌, ◌∙◌, sym, Option-cases, ℕ, Bool, [], ◌∷◌, ◌++◌, some, keep, ◌≡◌, ap,
  if◌then◌else◌, Bool-cases, inl, inr, In,
}
use noobscenic.Db.Commands.{Row, Table, max_id, update, newest, comes_after}

-- Ids ascend from above `lo`.
abbrev pub Ascends : ℕ → Table → Type 0
Ascends lo [] = Unit
Ascends lo (r ∷ t) = (lo < r.id) × Ascends r.id t

lower : (lo hi : ℕ) (t : Table) → lo ≤ hi → Ascends hi t → Ascends lo t
lower lo hi [] l h = tt
lower lo hi (r ∷ t) l h = (omega arith, h.1)

In-above : (lo : ℕ) (t : Table) (r : Row) → Ascends lo t → In r t → lo < r.id
In-above lo [] r h m = absurd m
In-above lo (x ∷ t) r h (inl e) = let q = ap (λ r. r.id) e in omega arith
In-above lo (x ∷ t) r h (inr m) = let q = In-above x.id t r h.1 m in omega arith

pub one_row :
    (lo : ℕ) (t : Table) (r b : Row) → Ascends lo t → In r t → In b t → r.id ≡ b.id → r ≡ b
one_row lo [] r b h m n q = absurd m
one_row lo (x ∷ t) r b h (inl e) (inl f) q = sym e ∙ f
one_row lo (x ∷ t) r b h (inl e) (inr n) q =
    let w = ap (λ r. r.id) e in let v = In-above x.id t b h.1 n in absurd (omega arith)
one_row lo (x ∷ t) r b h (inr m) (inl f) q =
    let w = ap (λ r. r.id) f in let v = In-above x.id t r h.1 m in absurd (omega arith)
one_row lo (x ∷ t) r b h (inr m) (inr n) q = one_row x.id t r b h.1 m n q

pub keep-Ascends : (p : Row → Bool) (lo : ℕ) (t : Table) → Ascends lo t → Ascends lo (keep p t)
unfolding keep
keep-Ascends p lo [] h = tt
keep-Ascends p lo (r ∷ t) h =
    let rest = keep-Ascends p r.id t h.1 in
    elim (Bool-cases (p r)) [
      | inl e ↦ rw (e, if◌then◌else◌) (h.0, rest)
      | inr e ↦ rw (e, if◌then◌else◌) (lower lo r.id (keep p t) (omega arith) rest)
    ]

pub update-Ascends :
    (p : Row → Bool) (f : Row → Row)
    → ((r : Row) → (f r).id ≡ r.id)
    → (lo : ℕ) (t : Table) → Ascends lo t
    → Ascends lo (update p f t)
update-Ascends p f same lo [] h = tt
update-Ascends p f same lo (r ∷ t) h =
    let rest = update-Ascends p f same r.id t h.1 in
    elim (Bool-cases (p r)) [
      | inl e ↦ rw (e, if◌then◌else◌, same r) (h.0, rest)
      | inr e ↦ rw (e, if◌then◌else◌) (h.0, rest)
    ]

pub append-Ascends :
    (lo : ℕ) (t : Table) (n : Row)
    → Ascends lo t
    → lo < n.id
    → max_id t < n.id
    → Ascends lo (t ++ n ∷ [])
append-Ascends lo [] n h l m = (l, tt)
append-Ascends lo (r ∷ t) n h l m = (h.0, append-Ascends r.id t n h.1 (omega arith) (omega arith))

pub newest-In : (t : Table) (b : Row) → newest t ≡ some b → In b t
unfolding newest
newest-In [] b e = ground arith
newest-In (r ∷ t) b e =
    let go = newest-In t in
    elim (Option-cases (newest t)) [
      | inl n ↦ inl (ap (unwrap_or r) (rw (n) at e))
      | inr (best, n) ↦ elim (Bool-cases (comes_after r best)) [
        | inl c ↦ inr (go b (n ∙ rw (n, c, if◌then◌else◌) at e))
        | inr c ↦ inl (ap (unwrap_or r) (rw (n, c, if◌then◌else◌) at e))
      ]
    ]
