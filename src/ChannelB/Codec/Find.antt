-- ===== src/ChannelB/Codec/Find.antt =====
-- What `find_delimiter` of src/channel_b/codec.rs finds, also with more input behind the buffer.
use noobscenic.Prelude.{
  ℕ, zero, suc, ◌+◌, ◌≤◌, ◌≡◌, refl, ap, Bytes, true, [], ◌∷◌, ◌++◌, some, arith, length,
  length-append, take, drop, starts_with, Bool-cases, inl, inr,
}
use noobscenic.ChannelB.Codec.{delimiter, find_delimiter}

starts_with-append_mono : (p s y : Bytes) → starts_with p s ≡ true → starts_with p (s ++ y) ≡ true
unfolding starts_with
starts_with-append_mono [] s y h = refl
starts_with-append_mono (a ∷ p) [] y h = ground arith
starts_with-append_mono (a ∷ p) (c ∷ s) y h = ground (arith, starts_with-append_mono p s y)

starts_with-split : (p s : Bytes) → starts_with p s ≡ true → s ≡ p ++ drop (length p) s
unfolding starts_with
starts_with-split [] s h = refl
starts_with-split (a ∷ p) [] h = ground arith
starts_with-split (a ∷ p) (c ∷ s) h = ground (arith, starts_with-split p s)

-- Where the delimiter is found it stands, with what precedes it in front.
pub find_split :
    (b : Bytes) (at : ℕ)
    → find_delimiter b ≡ some at
    → (b ≡ take at b ++ (delimiter ++ drop 3 (drop at b))) × (length (take at b) ≡ at)
unfolding find_delimiter
find_split [] at h = ground arith
find_split (c ∷ cs) zero h = elim (Bool-cases (starts_with delimiter (c ∷ cs))) [
  | inl here ↦ (starts_with-split delimiter (c ∷ cs) here, refl)
  | inr later ↦ ground arith
]
find_split (c ∷ cs) (suc at) h = ground (arith, find_split cs at)

starts_with_long : (p s y : Bytes) → length p ≤ length s → starts_with p (s ++ y) ≡ starts_with p s
unfolding starts_with
starts_with_long [] s y h = refl
starts_with_long (a ∷ p) [] y h = absurd (omega arith)
starts_with_long (a ∷ p) (c ∷ s) y h = ground (arith, starts_with_long p s y)

pub find_bound : (b : Bytes) (at : ℕ) → find_delimiter b ≡ some at → at + 3 ≤ length b
find_bound b at h =
    let (split, place) = find_split b at h in
    omega (
      arith,
      place,
      ap length split,
      length-append {0} (take at b) (delimiter ++ drop 3 (drop at b)),
      length-append {0} delimiter (drop 3 (drop at b)),
    )

pub find-append :
    (b y : Bytes) (at : ℕ) → find_delimiter b ≡ some at → find_delimiter (b ++ y) ≡ some at
unfolding find_delimiter
find-append [] y at h = ground arith
find-append (c ∷ cs) y zero h = ground (arith, starts_with-append_mono delimiter (c ∷ cs) y)
find-append (c ∷ cs) y (suc at) h =
    ground (arith, starts_with_long delimiter (c ∷ cs) y, find_bound cs at, find-append cs y at)

pub find_within :
    (b y : Bytes) (at : ℕ)
    → find_delimiter (b ++ y) ≡ some at
    → at + 3 ≤ length b
    → find_delimiter b ≡ some at
unfolding find_delimiter
find_within [] y at h fits = absurd (omega arith)
find_within (c ∷ cs) y zero h fits =
    ground (arith, starts_with_long delimiter (c ∷ cs) y (omega arith))
find_within (c ∷ cs) y (suc at) h fits =
    ground (arith, starts_with_long delimiter (c ∷ cs) y (omega arith), find_within cs y at)
