-- ===== src/CleanPath/Progress.antt =====
-- What `filled`, `next_index` and `is_complete` say of the slots.
use noobscenic.Prelude.{
  ℕ, zero, suc, ◌+◌, ◌-◌, ◌≤◌, ◌<◌, ◌≡◌, ◌↔◌, refl, true, List, [], ◌∷◌, ◌++◌, none, some, arith,
  length, length-set, get_elem?, set, replicate, is_some, if◌then◌else◌,
}
use noobscenic.CleanPath.{
  Chunk, Assembly, grow, fill, needed, merge, count_filled, next_index, all_some, is_complete,
  point_at,
}
use noobscenic.CleanPath.Merge.{length-grow}

module _ {P : Type 0} where
  count-append_none :
      (a : Assembly P) (n : ℕ) → count_filled (a ++ replicate n none) ≡ count_filled a
  unfolding count_filled
  count-append_none [] zero = refl
  count-append_none [] (suc n) = omega (arith, count-append_none [] n)
  count-append_none (entry ∷ a) n = rw (count-append_none a n)

  count-grow : (a : Assembly P) (n : ℕ) → count_filled (grow a n) ≡ count_filled a
  unfolding grow
  count-grow a n = ground (arith, count-append_none a (n - length a))

  -- What `fill` adds to its count for one slot.
  gain : Assembly P → ℕ → ℕ → ℕ
  gain a slot n = elim (get_elem? a slot) [
    | none ↦ n
    | some entry ↦ if is_some entry then n else n + 1
  ]

  count-set :
      (a : Assembly P) (slot n : ℕ) (p : P)
      → slot < length a
      → count_filled (set a slot (some p)) + n ≡ count_filled a + gain a slot n
  unfolding count_filled gain
  count-set [] slot n p h = absurd (omega arith)
  count-set (none ∷ a) zero n p h = omega arith
  count-set (some q ∷ a) zero n p h = omega arith
  count-set (entry ∷ a) (suc slot) n p h = omega (arith, count-set a slot n p)

  count-fill :
      (slot : ℕ) (ps : List P) (a : Assembly P) (n : ℕ)
      → slot + length ps ≤ length a
      → count_filled (fill slot ps a n).0 + n ≡ count_filled a + (fill slot ps a n).1
  unfolding fill gain
  count-fill slot [] a n h = refl
  count-fill slot (p ∷ ps) a n h = omega (
    arith,
    count-fill (suc slot) ps (set a slot (some p)) (gain a slot n)
        (omega (arith, length-set {0} a slot (some p))),
    count-set a slot n p (omega arith),
  )

  -- The number that `merge` returns is by how many the filled slots have grown.
  pub count-merge :
      (a : Assembly P) (c : Chunk P) → count_filled (merge a c).0 ≡ count_filled a + (merge a c).1
  unfolding merge
  count-merge a c = omega (
    arith,
    count-fill c.start_pos c.points (grow a (needed c)) 0 (omega (arith, length-grow a (needed c))),
    count-grow a (needed c),
  )

  next_index_empty : (a : Assembly P) → point_at a (next_index a) ≡ none
  unfolding next_index point_at
  next_index_empty [] = refl
  next_index_empty (none ∷ a) = refl
  next_index_empty (some p ∷ a) = next_index_empty a

  next_index_before :
      (a : Assembly P) (i : ℕ) → i < next_index a → (p : P) × (point_at a i ≡ some p)
  unfolding next_index point_at
  next_index_before [] i h = absurd (omega arith)
  next_index_before (none ∷ a) i h = absurd (omega arith)
  next_index_before (some p ∷ a) zero h = (p, refl)
  next_index_before (some p ∷ a) (suc i) h = next_index_before a i (omega arith)

  -- `next_index` is the first slot with no point: every slot before it holds one, and the slot
  -- itself, which may be the end, holds none.
  pub next_index_first :
      (a : Assembly P)
      → (point_at a (next_index a) ≡ none)
        × ((i : ℕ) → i < next_index a → (p : P) × (point_at a i ≡ some p))
  next_index_first a = (next_index_empty a, next_index_before a)

  all_some_iff : (a : Assembly P) → (all_some a ≡ true) ↔ (next_index a ≡ length a)
  unfolding all_some next_index
  all_some_iff [] = ground arith
  all_some_iff (none ∷ a) = ground arith
  all_some_iff (some p ∷ a) = ground (arith, all_some_iff a)

  -- A path is complete exactly when it has a slot and the next index to ask for is its end.
  pub is_complete_iff :
      (a : Assembly P) → (is_complete a ≡ true) ↔ ((next_index a ≡ length a) × (0 < length a))
  unfolding is_complete
  is_complete_iff [] = ground arith
  is_complete_iff (entry ∷ a) = ground (arith, all_some_iff (entry ∷ a))
