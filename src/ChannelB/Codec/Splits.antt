-- ===== src/ChannelB/Codec/Splits.antt =====
-- What it means that a run of bytes is a sequence of frames and a rest with no delimiter in it.
use noobscenic.Prelude.{
  ◌≡◌, refl, ap, ap₂, sym, ◌∙◌, Bytes, List, [], ◌∷◌, ◌++◌, none, some, arith, length, append_assoc,
}
use noobscenic.ChannelB.Codec.{delimiter, encode, find_delimiter}
use noobscenic.ChannelB.Codec.Find.{find-append}

-- Each frame ends at the first delimiter behind its start, and the rest holds none.
abbrev pub Splits : Bytes → List Bytes → Bytes → Type 0
Splits b [] r = (find_delimiter b ≡ none) × (b ≡ r)
Splits b (f ∷ fs) r =
    (tail : Bytes) × (b ≡ f ++ (delimiter ++ tail))
    × (find_delimiter b ≡ some (length f))
    × Splits tail fs r

-- The frames, each with its delimiter, one behind the other.
abbrev pub stream : List Bytes → Bytes
stream [] = []
stream (f ∷ fs) = encode f ++ stream fs

append_cancel {ℓ} :
    {A : Type ℓ} (f g s t : List A) → length f ≡ length g → f ++ s ≡ g ++ t → (f ≡ g) × (s ≡ t)
append_cancel [] [] s t l h = (refl, h)
append_cancel [] (y ∷ g) s t l h = absurd (omega arith)
append_cancel (x ∷ f) [] s t l h = absurd (omega arith)
append_cancel (x ∷ f) (y ∷ g) s t l h = ground (arith, append_cancel f g s t)

-- The first frame of an input is that of any longer one, and what follows it stays behind it.
pub first_frame :
    (x y f g t u : Bytes)
    → x ≡ f ++ (delimiter ++ t)
    → find_delimiter x ≡ some (length f)
    → x ++ y ≡ g ++ (delimiter ++ u)
    → find_delimiter (x ++ y) ≡ some (length g)
    → (f ≡ g) × (t ++ y ≡ u)
first_frame x y f g t u hb hf kb kf =
    let shape : f ++ (delimiter ++ (t ++ y)) ≡ g ++ (delimiter ++ u) =
      sym (append_assoc f (delimiter ++ t) y) ∙ ap (λ (w : Bytes). w ++ y) (sym hb) ∙ kb in
    let (same, behind) =
      append_cancel f g _ _ (ground (arith, hf, kf, find-append x y (length f) hf)) shape in
    (same, (append_cancel delimiter delimiter (t ++ y) u refl behind).1)

-- A run of bytes splits in one way.
pub Splits-unique :
    (b : Bytes) (fs gs : List Bytes) (r s : Bytes)
    → Splits b fs r
    → Splits b gs s
    → (fs ≡ gs) × (r ≡ s)
Splits-unique b [] [] r s h k = (refl, sym h.1 ∙ k.1)
Splits-unique b [] (g ∷ gs) r s h k = cc (h.0, k.2)
Splits-unique b (f ∷ fs) [] r s h k = cc (h.2, k.0)
Splits-unique b (f ∷ fs) (g ∷ gs) r s (t, hb, hf, hs) (u, kb, kf, ks) =
    let same = append_cancel f g _ _ (ground (arith, hf, kf)) (sym hb ∙ kb) in
    let tails = append_cancel delimiter delimiter t u refl same.1 in
    let (rest, left) = Splits-unique t fs gs r s hs (rw tails.1 ks) in (ap₂ ◌∷◌ same.0 rest, left)

pub Splits-append :
    (b y : Bytes) (fs gs : List Bytes) (r s : Bytes)
    → Splits b fs r
    → Splits (r ++ y) gs s
    → Splits (b ++ y) (fs ++ gs) s
Splits-append b y [] gs r s h k = rw h.1 k
Splits-append b y (f ∷ fs) gs r s (t, hb, hf, hs) k = (
  t ++ y,
  rw hb (append_assoc f (delimiter ++ t) y),
  find-append b y (length f) hf,
  Splits-append t y fs gs r s hs k,
)

-- No byte is lost: the frames with their delimiters, and the rest, are the run.
pub Splits-stream : (b : Bytes) (fs : List Bytes) (r : Bytes) → Splits b fs r → b ≡ stream fs ++ r
unfolding encode
Splits-stream b [] r h = h.1
Splits-stream b (f ∷ fs) r (t, hb, hf, hs) = hb ∙ rw (Splits-stream t fs r hs) (simp append_assoc)
