-- ===== src/Tests/Path.antt =====
-- A path of five points in overlapping chunks: src/path.rs at concrete inputs.
use noobscenic.Prelude.{
  ℕ, ◌<◌, pos, true, List, [], ◌∷◌, Option, none, some, ◌≡◌, inl, inr, refl, arith, leb,
  if◌then◌else◌, get_elem?, suc, zero, ◌-◌,
}
use noobscenic.CleanPath.{Chunk, Assembly, merge, chunk_at}
use noobscenic.CleanPath.Reassembly.{IsChunkOf, Covered}

abbrev chunk : ℕ → List ℕ → Chunk ℕ
chunk start points = record {
  path_id = pos 7;
  start_pos = start;
  total_points = 5;
  user_id = none;
  points = points;
}

abbrev front : Chunk ℕ
front = chunk 0 (10 ∷ 11 ∷ 12 ∷ [])

abbrev back : Chunk ℕ
back = chunk 2 (12 ∷ 13 ∷ 14 ∷ [])

abbrev path : List ℕ
path = 10 ∷ 11 ∷ 12 ∷ 13 ∷ 14 ∷ []

abbrev begun : Assembly ℕ
begun = some 9 ∷ []

abbrev gap : Assembly ℕ
gap = some 9 ∷ none ∷ some 8 ∷ []

back_first : (merge (merge [] back).0 front).1 ≡ 2
unfolding merge
back_first = refl

front_end : (i : ℕ) → chunk_at front (suc (suc (suc i))) ≡ none
unfolding chunk_at
front_end i =
    let here : leb 0 (suc (suc (suc i))) ≡ true = ground arith in
    let same : suc (suc (suc i)) - 0 ≡ suc (suc (suc i)) = omega arith in
    rw (here, if◌then◌else◌, same) refl

back_end : (i : ℕ) → chunk_at back (suc (suc (suc (suc (suc i))))) ≡ none
unfolding chunk_at
back_end i =
    let here : leb 2 (suc (suc (suc (suc (suc i))))) ≡ true = ground arith in
    let same : suc (suc (suc (suc (suc i)))) - 2 ≡ suc (suc (suc i)) = omega arith in
    rw (here, if◌then◌else◌, same) refl

no_point : {o : Option ℕ} (p : ℕ) → o ≡ none → o ≡ some p → ⊥
no_point p e q = ground arith

front_of : (i p : ℕ) → chunk_at front i ≡ some p → get_elem? path i ≡ some p
unfolding chunk_at
front_of zero p e = e
front_of (suc zero) p e = e
front_of (suc (suc zero)) p e = e
front_of (suc (suc (suc i))) p e = absurd (no_point p (front_end i) e)

back_of : (i p : ℕ) → chunk_at back i ≡ some p → get_elem? path i ≡ some p
unfolding chunk_at
back_of zero p e = absurd (no_point p refl e)
back_of (suc zero) p e = absurd (no_point p refl e)
back_of (suc (suc zero)) p e = e
back_of (suc (suc (suc zero))) p e = e
back_of (suc (suc (suc (suc zero)))) p e = e
back_of (suc (suc (suc (suc (suc i))))) p e = absurd (no_point p (back_end i) e)

front-IsChunkOf : IsChunkOf path front
front-IsChunkOf = record { points_match = front_of; claims = omega arith }

back-IsChunkOf : IsChunkOf path back
back-IsChunkOf = record { points_match = back_of; claims = omega arith }

chunks-Covered : (i : ℕ) → i < 5 → Covered (back ∷ front ∷ back ∷ []) i
unfolding chunk_at
chunks-Covered zero l = inr (inl refl)
chunks-Covered (suc zero) l = inr (inl refl)
chunks-Covered (suc (suc zero)) l = inl refl
chunks-Covered (suc (suc (suc zero))) l = inl refl
chunks-Covered (suc (suc (suc (suc zero)))) l = inl refl
chunks-Covered (suc (suc (suc (suc (suc i))))) l = absurd (omega arith)
