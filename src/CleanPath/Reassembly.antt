-- ===== src/CleanPath/Reassembly.antt =====
-- Merging the chunks of one path, in any order and with repetition: src/path.rs.
use noobscenic.Prelude.{
  ℕ, suc, ◌≤◌, ◌<◌, ◌≡◌, ◌⊎◌, inl, inr, refl, ap, ◌∙◌, true, List, [], ◌∷◌, Option, none, some,
  arith, length, get_elem?, or_else, is_some, map, All,
}
use noobscenic.CleanPath.{
  Chunk, Assembly, needed, merge, count_filled, point_at, chunk_at, is_complete, all_some,
}
use noobscenic.CleanPath.Merge.{length-merge, point_at-merge}
use noobscenic.CleanPath.Progress.{count-merge}

module _ {P : Type 0} where
  -- Slots are all that an assembly has.
  assembly_ext :
      (a b : Assembly P) → length a ≡ length b → ((i : ℕ) → point_at a i ≡ point_at b i) → a ≡ b
  unfolding point_at
  assembly_ext [] [] l h = refl
  assembly_ext [] (y ∷ b) l h = absurd (omega arith)
  assembly_ext (x ∷ a) [] l h = absurd (omega arith)
  assembly_ext (x ∷ a) (y ∷ b) l h = cc (h 0, assembly_ext a b (omega arith) (λ i. h (suc i)))

  or_else_self : (o p : Option P) → or_else o (or_else o p) ≡ or_else o p
  or_else_self none p = refl
  or_else_self (some q) p = refl

  -- A chunk that arrives again changes nothing and fills nothing.
  pub merge_again : (a : Assembly P) (c : Chunk P) → merge (merge a c).0 c ≡ ((merge a c).0, 0)
  merge_again a c =
      let b : Assembly P = (merge a c).0 in
      let same : (merge b c).0 ≡ b =
        assembly_ext (merge b c).0 b (omega (arith, length-merge b c, length-merge a c)) (λ i.
          point_at-merge b c i
          ∙ rw (point_at-merge a c i) (or_else_self (chunk_at c i) (point_at a i))) in
      let nothing : (merge b c).1 ≡ 0 = omega (arith, count-merge b c, ap count_filled same) in
      λ i. (same i, nothing i)

  -- Two chunks that bring different points for no slot.
  abbrev pub Agree : Chunk P → Chunk P → Type 0
  Agree c d =
      (i : ℕ) → (chunk_at c i ≡ none) ⊎ ((chunk_at d i ≡ none) ⊎ (chunk_at c i ≡ chunk_at d i))

  or_else_swap :
      (o p q : Option P)
      → (o ≡ none) ⊎ ((p ≡ none) ⊎ (o ≡ p))
      → or_else p (or_else o q) ≡ or_else o (or_else p q)
  or_else_swap o p q h = ground arith

  -- Chunks that agree may arrive in either order.
  pub merge_comm :
      (a : Assembly P) (c d : Chunk P)
      → Agree c d
      → (merge (merge a c).0 d).0 ≡ (merge (merge a d).0 c).0
  merge_comm a c d agree =
      assembly_ext _ _
        (omega (
          arith,
          length-merge (merge a c).0 d,
          length-merge a c,
          length-merge (merge a d).0 c,
          length-merge a d,
        ))
        (λ i.
          point_at-merge (merge a c).0 d i
          ∙ rw (point_at-merge a c i, point_at-merge (merge a d).0 c i, point_at-merge a d i)
              (or_else_swap (chunk_at c i) (chunk_at d i) (point_at a i) (agree i)))

  unfoldable pub merge_all : Assembly P → List (Chunk P) → Assembly P
  merge_all a [] = a
  merge_all a (c ∷ cs) = merge_all (merge a c).0 cs

  -- A chunk of the path `ps`: its points stand in `ps` where it says, and it claims no more slots.
  pub record IsChunkOf (ps : List P) (c : Chunk P) : Type 0 where
    pub points_match : (i : ℕ) (p : P) → chunk_at c i ≡ some p → get_elem? ps i ≡ some p
    pub claims : needed c ≤ length ps

  -- Some chunk brings a point for slot `i`.
  abbrev pub Covered : List (Chunk P) → ℕ → Type 0
  Covered [] i = ⊥
  Covered (c ∷ cs) i = (is_some (chunk_at c i) ≡ true) ⊎ Covered cs i

  -- An assembly that holds points of `ps` only.
  pub record Holds (ps : List P) (a : Assembly P) : Type 0 where
    pub agrees : (i : ℕ) (p : P) → point_at a i ≡ some p → get_elem? ps i ≡ some p
    pub within : length a ≤ length ps

  pub nil-Holds : (ps : List P) → Holds ps []
  nil-Holds ps = record { agrees = λ i p e. unfold point_at in cc e; within = omega arith }

  pub merge-Holds :
      (ps : List P) (a : Assembly P) (c : Chunk P)
      → Holds ps a
      → IsChunkOf ps c
      → Holds ps (merge a c).0
  merge-Holds ps a c h k = record {
    agrees = λ i p e. ground (arith, point_at-merge a c i, h.agrees i p, k.points_match i p);
    within = omega (arith, length-merge a c, h.within, k.claims);
  }

  keeps_points :
      (a : Assembly P) (cs : List (Chunk P)) (i : ℕ)
      → (is_some (point_at a i) ≡ true) ⊎ Covered cs i
      → is_some (point_at (merge_all a cs) i) ≡ true
  unfolding merge_all
  keeps_points a [] i (inl h) = h
  keeps_points a [] i (inr h) = absurd h
  keeps_points a (c ∷ cs) i h = keeps_points (merge a c).0 cs i (later h)
    where
      later :
          (is_some (point_at a i) ≡ true) ⊎ ((is_some (chunk_at c i) ≡ true) ⊎ Covered cs i)
          → (is_some (point_at (merge a c).0 i) ≡ true) ⊎ Covered cs i
      later (inl old) = inl (ground (arith, point_at-merge a c i))
      later (inr (inl new)) = inl (ground (arith, point_at-merge a c i))
      later (inr (inr rest)) = inr rest

  merge_all-Holds :
      (ps : List P) (a : Assembly P) (cs : List (Chunk P))
      → Holds ps a
      → All (IsChunkOf ps) cs
      → Holds ps (merge_all a cs)
  unfolding merge_all
  merge_all-Holds ps a [] h k = h
  merge_all-Holds ps a (c ∷ cs) h k =
      merge_all-Holds ps (merge a c).0 cs (merge-Holds ps a c h k.0) k.1

  full :
      (ps : List P) (a : Assembly P)
      → Holds ps a
      → ((i : ℕ) → i < length ps → is_some (point_at a i) ≡ true)
      → a ≡ map some ps
  unfolding point_at
  full [] [] h k = refl
  full [] (x ∷ a) h k = absurd (omega (arith, h.within))
  full (p ∷ ps) [] h k = cc (k 0 (omega arith))
  full (p ∷ ps) (none ∷ a) h k = cc (k 0 (omega arith))
  full (p ∷ ps) (some q ∷ a) h k = cc (
    h.agrees 0 q refl,
    full ps a (record { agrees = λ i r e. h.agrees (suc i) r e; within = omega (arith, h.within) })
        (λ i l. k (suc i) (omega arith)),
  )

  all_some-map : (ps : List P) → all_some (map some ps) ≡ true
  unfolding all_some
  all_some-map [] = refl
  all_some-map (p ∷ ps) = all_some-map ps

  -- Chunks of one path, in whatever order and with whatever repetition, that between them bring
  -- each of its points, make the whole path, which is complete when it has a point.
  pub merge_all_reassembles :
      (ps : List P) (cs : List (Chunk P))
      → All (IsChunkOf ps) cs
      → ((i : ℕ) → i < length ps → Covered cs i)
      → (merge_all [] cs ≡ map some ps) × (0 < length ps → is_complete (merge_all [] cs) ≡ true)
  merge_all_reassembles ps cs chunks covered =
      let whole : merge_all [] cs ≡ map some ps =
        full ps (merge_all [] cs) (merge_all-Holds ps [] cs (nil-Holds ps) chunks)
          (λ i l. keeps_points [] cs i (inr (covered i l))) in
      (whole, λ l. rw whole (complete ps l))
    where
      complete : (ps : List P) → 0 < length ps → is_complete (map some ps) ≡ true
      complete [] l = absurd (omega arith)
      complete (p ∷ ps) l = unfold is_complete in all_some-map (p ∷ ps)
