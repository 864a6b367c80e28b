-- ===== src/Web/Drawn/Segments.antt =====
-- The segments that a path is drawn in, of src/web.rs.
use noobscenic.Prelude.{
  ℤ, true, false, List, [], ◌∷◌, ◌++◌, Option, none, some, ◌≡◌, ◌≢◌, refl, sym, ap, ◌∙◌, inl, inr,
  if◌then◌else◌, Bool-cases, join, append-nil, append_assoc, arith,
}
use noobscenic.Web.Zones.{Point, same_point}
use noobscenic.Web.Drawn.{
  points_are_adjacent, last_of, joined, append_to, append_path_chunk, add_points, point_of,
}

-- The point does not continue a segment that ends in `o`.
abbrev pub Far : Option Point → Point → Type 0
Far none p = Unit
Far (some e) p = points_are_adjacent e p ≡ false

-- No segment is empty, and none continues the one in front.
abbrev pub Parted : Option Point → List (List Point) → Type 0
Parted o [] = Unit
Parted o ([] ∷ ss) = ⊥
Parted o ((p ∷ ps) ∷ ss) = Far o p × Parted (last_of (p ∷ ps)) ss

append_to-Parted :
    (p : Point) (ps : List Point) (o : Option Point) (s : List Point) (ss : List (List Point))
    → Parted o (s ∷ ss)
    → Parted o (append_to p ps (s ∷ ss))
unfolding append_to joined
append_to-Parted p ps o [] ss h = absurd h
append_to-Parted p ps o (q ∷ qs) (t ∷ ss) h =
    (h.0, append_to-Parted p ps (last_of (q ∷ qs)) t ss h.1)
append_to-Parted p ps o (q ∷ qs) [] h = ends (last_of (q ∷ qs)) refl
  where
    ends : (e : Option Point) → last_of (q ∷ qs) ≡ e → Parted o (append_to p ps ((q ∷ qs) ∷ []))
    ends none k = rw (append_to, joined, k) (h.0, (rw (k) tt, tt))
    ends (some e) k = elim (Bool-cases (points_are_adjacent e p)) [
      | inl a ↦ rw (append_to, joined, k, a, if◌then◌else◌) (h.0, tt)
      | inr a ↦ rw (append_to, joined, k, a, if◌then◌else◌) (h.0, (rw (k) a, tt))
    ]

pub append_path_chunk-Parted :
    (c : List Point) (ss : List (List Point))
    → Parted none ss
    → Parted none (append_path_chunk c ss)
unfolding append_path_chunk append_to
append_path_chunk-Parted [] ss h = h
append_path_chunk-Parted (p ∷ ps) [] h = (tt, tt)
append_path_chunk-Parted (p ∷ ps) (s ∷ ss) h = append_to-Parted p ps none s ss h

-- The points without those that repeat the one in front.
pub squeeze : Option Point → List Point → List Point
squeeze o [] = []
squeeze o (p ∷ ps) = let rest = squeeze (some p) ps in if same_point o p then rest else p ∷ rest

ends : Option Point → List Point → Option Point
ends o [] = o
ends o (p ∷ ps) = ends (some p) ps

squeeze-append :
    (o : Option Point) (a b : List Point) → squeeze o (a ++ b) ≡ squeeze o a ++ squeeze (ends o a) b
unfolding squeeze ends
squeeze-append o [] b = refl
squeeze-append o (p ∷ a) b =
    let go = squeeze-append (some p) a b in
    elim (Bool-cases (same_point o p)) [
      | inl e ↦ rw (e, if◌then◌else◌) go
      | inr e ↦ rw (e, if◌then◌else◌) (ap (◌∷◌ p) go)
    ]

ends-last : (o : Option Point) (p : Point) (ps : List Point) → ends o (p ∷ ps) ≡ last_of (p ∷ ps)
unfolding ends
ends-last o p [] = refl
ends-last o p (q ∷ ps) = ends-last (some p) q ps

ends_some : (o : Option Point) (s : List Point) (e : Point) → last_of s ≡ some e → ends o s ≡ some e
ends_some o [] e k = absurd (none_some k)
  where
    none_some : none ≢ some e
    none_some q = absurd (cc)
ends_some o (p ∷ ps) e k = ends-last o p ps ∙ k

-- A point that repeats the end of a segment is not missed.
repeated :
    (e p : Point) (b : List Point)
    → same_point (some e) p ≡ true
    → squeeze (some e) b ≡ squeeze (some e) (p ∷ b)
unfolding squeeze
repeated e p b k = rw (k, if◌then◌else◌) (ap (λ q. squeeze (some q) b) (same e p k))
  where
    same : (e p : Point) → same_point (some e) p ≡ true → e ≡ p
    same (a, b) (c, d) k =
        let x : (a ≡ c) = ground arith in let y : (b ≡ d) = ground arith in rw (x, y) refl

-- The points that are drawn once a chunk is appended, before whatever follows.
squeeze-append_to :
    (p : Point) (ps r : List Point) (o : Option Point) (ss : List (List Point))
    → squeeze o (join (append_to p ps ss) ++ r) ≡ squeeze o (join ss ++ ((p ∷ ps) ++ r))
unfolding append_to joined
squeeze-append_to p ps r o [] = rw (append-nil ps) refl
squeeze-append_to p ps r o (s ∷ t ∷ ss) =
    ap (squeeze o) (append_assoc s _ r)
    ∙ squeeze-append o s _
    ∙ ap (λ q. squeeze o s ++ q) (squeeze-append_to p ps r (ends o s) (t ∷ ss))
    ∙ sym (squeeze-append o s _)
    ∙ ap (squeeze o) (sym (append_assoc s (join (t ∷ ss)) _))
squeeze-append_to p ps r o (s ∷ []) = at_end (last_of s) refl
  where
    whole : (s ++ []) ++ ((p ∷ ps) ++ r) ≡ s ++ ((p ∷ ps) ++ r)
    whole = ap (λ a. a ++ ((p ∷ ps) ++ r)) (append-nil s)

    split : (s ++ ((p ∷ ps) ++ [])) ++ r ≡ s ++ ((p ∷ ps) ++ r)
    split = append_assoc s ((p ∷ ps) ++ []) r ∙ ap (λ a. s ++ (a ++ r)) (append-nil (p ∷ ps))

    one : (a : List Point) → ((s ++ a) ++ []) ++ r ≡ s ++ (a ++ r)
    one a = ap (λ b. b ++ r) (append-nil (s ++ a)) ∙ append_assoc s a r

    at_end :
        (e : Option Point)
        → last_of s ≡ e
        → squeeze o (join (append_to p ps (s ∷ [])) ++ r) ≡ squeeze o ((s ++ []) ++ ((p ∷ ps) ++ r))
    at_end none k = rw (append_to, joined, k, whole) (ap (squeeze o) split)
    at_end (some e) k = elim (Bool-cases (points_are_adjacent e p)) [
      | inr a ↦ rw (append_to, joined, k, a, if◌then◌else◌, whole) (ap (squeeze o) split)
      | inl a ↦ elim (Bool-cases (same_point (some e) p)) [
        | inr b ↦
            rw (append_to, joined, k, a, b, if◌then◌else◌, whole) (ap (squeeze o) (one (p ∷ ps)))
        | inl b ↦
            rw (append_to, joined, k, a, b, if◌then◌else◌, whole)
              (ap (squeeze o) (one ps)
                ∙ squeeze-append o s _
                ∙ ap (λ q. squeeze o s ++ q) (rw (ends_some o s e k) (repeated e p (ps ++ r) b))
                ∙ sym (squeeze-append o s _))
      ]
    ]

pub squeeze-append_path_chunk :
    (c r : List Point) (o : Option Point) (ss : List (List Point))
    → squeeze o (join (append_path_chunk c ss) ++ r) ≡ squeeze o (join ss ++ (c ++ r))
unfolding append_path_chunk
squeeze-append_path_chunk [] r o ss = refl
squeeze-append_path_chunk (p ∷ ps) r o ss = squeeze-append_to p ps r o ss

module _ {F : Type 0} (as_i64 : F → ℤ) where
  -- The points of the slots that are filled.
  pub points_of : List (Option (F × F)) → List Point
  points_of [] = []
  points_of (none ∷ slots) = points_of slots
  points_of (some xy ∷ slots) = point_of as_i64 xy ∷ points_of slots

  pub add_points-Parted :
      (slots : List (Option (F × F))) (c : List Point) (ss : List (List Point))
      → Parted none ss
      → Parted none (add_points as_i64 slots c ss)
  unfolding add_points
  add_points-Parted [] c ss h = append_path_chunk-Parted c ss h
  add_points-Parted (some xy ∷ slots) c ss h = add_points-Parted slots _ ss h
  add_points-Parted (none ∷ slots) c ss h =
      add_points-Parted slots [] _ (append_path_chunk-Parted c ss h)

  pub squeeze-add_points :
      (slots : List (Option (F × F))) (c r : List Point) (ss : List (List Point))
      → squeeze none (join (add_points as_i64 slots c ss) ++ r)
        ≡ squeeze none (join ss ++ (c ++ (points_of slots ++ r)))
  unfolding add_points points_of
  squeeze-add_points [] c r ss = squeeze-append_path_chunk c r none ss
  squeeze-add_points (some xy ∷ slots) c r ss =
      squeeze-add_points slots _ r ss
      ∙ ap (λ q. squeeze none (join ss ++ q)) (append_assoc c (point_of as_i64 xy ∷ []) _)
  squeeze-add_points (none ∷ slots) c r ss =
      squeeze-add_points slots [] r _ ∙ squeeze-append_path_chunk c (points_of slots ++ r) none ss
