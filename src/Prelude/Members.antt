-- ===== src/Prelude/Members.antt =====
-- Membership as data, with what `keep` and `map` do to it.
use mathlib.Core.Path.{◌≡◌, refl, ap, transport}
use mathlib.Core.Bool.{Bool, true}
use mathlib.Core.Logic.{◌⊎◌, inl, inr}
use mathlib.Core.List.{List, [], ◌∷◌}
use noobscenic.Prelude.Tests.{if◌then◌else◌, Bool-cases}
use noobscenic.Prelude.Options.{keep, All}

abbrev pub In : {A : Type 0} → A → List A → Type 0
In a [] = ⊥
In a (x ∷ xs) = (x ≡ a) ⊎ In a xs

module _ {A : Type 0} where
  pub In-keep : (p : A → Bool) (a : A) (xs : List A) → In a (keep p xs) → In a xs × (p a ≡ true)
  unfolding keep
  In-keep p a [] h = absurd h
  In-keep p a (x ∷ xs) h =
      let go = In-keep p a xs in
      elim (Bool-cases (p x)) [
        | inl e ↦ kept (λ m. go m) e (rw (e, if◌then◌else◌) at h)
        | inr e ↦ let r = go (rw (e, if◌then◌else◌) at h) in (inr r.0, r.1)
      ]
    where
      kept :
          (In a (keep p xs) → In a xs × (p a ≡ true))
          → p x ≡ true
          → (x ≡ a) ⊎ In a (keep p xs)
          → ((x ≡ a) ⊎ In a xs) × (p a ≡ true)
      kept go e (inl s) = (inl s, rw (← s) e)
      kept go e (inr m) = (inr (go m).0, (go m).1)

  pub keep-In : (p : A → Bool) (a : A) (xs : List A) → In a xs → p a ≡ true → In a (keep p xs)
  unfolding keep
  keep-In p a [] h t = h
  keep-In p a (x ∷ xs) (inl e) t = rw (e, t, if◌then◌else◌) (inl refl)
  keep-In p a (x ∷ xs) (inr h) t =
      let r = keep-In p a xs h t in
      elim (Bool-cases (p x)) [
        | inl e ↦ rw (e, if◌then◌else◌) (inr r)
        | inr e ↦ rw (e, if◌then◌else◌) r
      ]

  pub All-In {κ} : (P : A → Type κ) (xs : List A) → ((a : A) → In a xs → P a) → All P xs
  All-In P [] h = tt
  All-In P (x ∷ xs) h = (h x (inl refl), All-In P xs (λ a m. h a (inr m)))

  pub In-All {κ} : (P : A → Type κ) (a : A) (xs : List A) → All P xs → In a xs → P a
  In-All P a [] h m = absurd m
  In-All P a (x ∷ xs) h (inl e) = transport (ap P e) h.0
  In-All P a (x ∷ xs) h (inr m) = In-All P a xs h.1 m
