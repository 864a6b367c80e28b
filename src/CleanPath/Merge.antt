-- ===== src/CleanPath/Merge.antt =====
-- What `merge` writes, and what its result counts.
use noobscenic.Prelude.{
  ℕ, zero, suc, ◌+◌, ◌-◌, ◌≤◌, ◌<◌, max, ◌≡◌, refl, ◌∙◌, List, [], ◌∷◌, ◌++◌, Option, none, some,
  arith, ltb, leb, length, length-append, length-replicate, length-set, get_elem?, set, replicate,
  or_else, if◌then◌else◌, Bool-cases, ltb→lt, ◌==◌, inl, inr,
}
use noobscenic.CleanPath.{Chunk, Assembly, grow, fill, needed, merge, point_at, chunk_at}

module _ {P : Type 0} where
  pub length-grow : (a : Assembly P) (n : ℕ) → length (grow a n) ≡ max (length a) n
  unfolding grow
  length-grow a n = elim (Bool-cases (ltb (length a) n)) [
    | inl short ↦ rw short (
        omega (
          arith,
          length-append {0} a (replicate (n - length a) none),
          length-replicate {0} {A = Option P} (n - length a) none,
          ltb→lt (length a) n short,
        ))
    | inr long ↦ rw long (ground arith)
  ]

  length-fill :
      (slot : ℕ) (ps : List P) (a : Assembly P) (n : ℕ) → length (fill slot ps a n).0 ≡ length a
  unfolding fill
  length-fill slot [] a n = refl
  length-fill slot (p ∷ ps) a n = length-fill (suc slot) ps _ _ ∙ length-set a slot (some p)

  -- The slots after a merge: as many as before, or as the chunk needs.
  pub length-merge :
      (a : Assembly P) (c : Chunk P) → length (merge a c).0 ≡ max (length a) (needed c)
  unfolding merge
  length-merge a c = length-fill c.start_pos c.points _ 0 ∙ length-grow a (needed c)

  point_at-append_none :
      (a : Assembly P) (n i : ℕ) → point_at (a ++ replicate n none) i ≡ point_at a i
  unfolding point_at
  point_at-append_none [] zero i = refl
  point_at-append_none [] (suc n) zero = refl
  point_at-append_none [] (suc n) (suc i) = point_at-append_none [] n i
  point_at-append_none (entry ∷ a) n zero = refl
  point_at-append_none (entry ∷ a) n (suc i) = point_at-append_none a n i

  point_at-grow : (a : Assembly P) (n i : ℕ) → point_at (grow a n) i ≡ point_at a i
  unfolding grow
  point_at-grow a n i = ground (arith, point_at-append_none a (n - length a) i)

  -- The point that the loop, begun at `slot`, writes for slot `i`.
  written : ℕ → List P → ℕ → Option P
  written slot ps i = if leb slot i then get_elem? ps (i - slot) else none

  written-cons :
      (slot : ℕ) (p : P) (ps : List P) (i : ℕ)
      → written slot (p ∷ ps) i ≡ (if i == slot then some p else written (suc slot) ps i)
  unfolding written
  written-cons slot p ps i = ground arith

  written_self : (slot : ℕ) (ps : List P) (i : ℕ) → i ≡ slot → written (suc slot) ps i ≡ none
  unfolding written
  written_self slot ps i e = ground arith

  point_at-set :
      (a : Assembly P) (slot i : ℕ) (p : P)
      → slot < length a
      → point_at (set a slot (some p)) i ≡ (if i == slot then some p else point_at a i)
  unfolding point_at
  point_at-set [] slot i p h = absurd (omega arith)
  point_at-set (entry ∷ a) zero zero p h = refl
  point_at-set (entry ∷ a) zero (suc i) p h = ground arith
  point_at-set (entry ∷ a) (suc slot) zero p h = ground arith
  point_at-set (entry ∷ a) (suc slot) (suc i) p h = ground (arith, point_at-set a slot i p)

  written-nil : (slot i : ℕ) → written slot [] i ≡ none
  unfolding written
  written-nil slot i = ground arith

  point_at-fill :
      (slot : ℕ) (ps : List P) (a : Assembly P) (n i : ℕ)
      → slot + length ps ≤ length a
      → point_at (fill slot ps a n).0 i ≡ or_else (written slot ps i) (point_at a i)
  unfolding fill
  point_at-fill slot [] a n i h = ground (arith, written-nil slot i)
  point_at-fill slot (p ∷ ps) a n i h =
      point_at-fill (suc slot) ps (set a slot (some p)) _ i
        (omega (arith, length-set a slot (some p)))
      ∙ ground (arith, point_at-set a slot i p, written-cons slot p ps i, written_self slot ps i)

  -- After a merge a slot holds the chunk's point for it, and keeps its old content where the chunk
  -- has none.
  pub point_at-merge :
      (a : Assembly P) (c : Chunk P) (i : ℕ)
      → point_at (merge a c).0 i ≡ or_else (chunk_at c i) (point_at a i)
  unfolding merge
  point_at-merge a c i =
      point_at-fill c.start_pos c.points (grow a (needed c)) 0 i
        (omega (arith, length-grow a (needed c)))
      ∙ unfold written chunk_at in rw (point_at-grow a (needed c) i)
