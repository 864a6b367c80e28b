-- ===== src/Web/Text.antt =====
-- The cut of a text to a robot's fixed buffer: `cap_bytes` of src/web.rs, on the UTF-8 bytes.
use noobscenic.Prelude.{
  ℕ, zero, suc, ◌≤◌, Bytes, Bool, true, false, [], ◌∷◌, none, some, ltb, leb, ◌==◌, ◌||◌, length,
  get_elem?, take, take_all, if◌then◌else◌, ◌≡◌, refl, ap, sym, arith, Bool-cases, inl, inr,
  length-take, ◌∙◌, ==_iff,
}

-- `str::is_char_boundary`
unfoldable pub is_char_boundary : Bytes → ℕ → Bool
is_char_boundary text zero = true
is_char_boundary text (suc i) = elim (get_elem? text (suc i)) [
  | none ↦ suc i == length text
  | some b ↦ ltb b 0x80 || leb 0xc0 b
]

-- The `while` loop, from `end` down.
unfoldable pub boundary_below : Bytes → ℕ → ℕ
boundary_below text zero = 0
boundary_below text (suc n) =
    let below = boundary_below text n in if is_char_boundary text (suc n) then suc n else below

unfoldable pub cap_bytes : Bytes → ℕ → Bytes
unfolding boundary_below
cap_bytes text limit =
    if leb (length text) limit then text else take (boundary_below text limit) text

boundary_below-Boundary :
    (text : Bytes) (n : ℕ)
    → (boundary_below text n ≤ n)
      × (is_char_boundary text (boundary_below text n) ≡ true)
      × ((i : ℕ) → i ≤ n → is_char_boundary text i ≡ true → i ≤ boundary_below text n)
unfolding boundary_below
boundary_below-Boundary text zero = (omega arith, unfold is_char_boundary in refl, λ i l e. l)
boundary_below-Boundary text (suc n) =
    let (low, at, most) = boundary_below-Boundary text n in
    elim (Bool-cases (is_char_boundary text (suc n))) [
      | inl e ↦ rw (e, if◌then◌else◌) (omega arith, e, λ i l b. l)
      | inr e ↦ rw (e, if◌then◌else◌) (omega arith, at, λ i l b. most i (lower i l b e) b)
    ]
  where
    clash : true ≡ false → ⊥
    clash q = cc

    lower :
        (i : ℕ)
        → i ≤ suc n
        → is_char_boundary text i ≡ true
        → is_char_boundary text (suc n) ≡ false
        → i ≤ n
    lower i l b e = elim (Bool-cases (i == suc n)) [
      | inl p ↦ absurd (clash (sym b ∙ ap (is_char_boundary text) ((==_iff i (suc n)).0 p) ∙ e))
      | inr p ↦ ground arith
    ]

-- What a capped text is: a prefix of the text within the limit, cut between two characters, and no
-- such prefix is longer.
pub record IsCap (text : Bytes) (limit : ℕ) (capped : Bytes) : Type 0 where
  pub within : length capped ≤ limit
  pub prefix : take (length capped) text ≡ capped
  pub whole : is_char_boundary text (length capped) ≡ true
  pub longest :
      (i : ℕ) → i ≤ limit → i ≤ length text → is_char_boundary text i ≡ true → i ≤ length capped

end_boundary : (text : Bytes) → is_char_boundary text (length text) ≡ true
end_boundary [] = unfold is_char_boundary in refl
end_boundary (x ∷ xs) = unfold is_char_boundary in rw (is_char_boundary, past xs) (ground arith)
  where
    past : (ys : Bytes) → get_elem? ys (length ys) ≡ none
    past [] = refl
    past (y ∷ ys) = past ys

-- A text that goes to the robot is cut to the longest prefix that fits and splits no character; one
-- that fits is left as it is.
pub cap_bytes-IsCap : (text : Bytes) (limit : ℕ) → IsCap text limit (cap_bytes text limit)
unfolding cap_bytes
cap_bytes-IsCap text limit = elim (Bool-cases (leb (length text) limit)) [
  | inl short ↦
      rw (short, if◌then◌else◌)
        (record {
          within = ground arith;
          prefix = take_all (length text) text refl;
          whole = end_boundary text;
          longest = λ i l m b. m;
        })
  | inr long ↦
      let (low, at, most) = boundary_below-Boundary text limit in
      let len : length (take (boundary_below text limit) text) ≡ boundary_below text limit =
        length-take (boundary_below text limit) text ∙ ground arith in
      rw (long, if◌then◌else◌)
        (record {
          within = omega (arith, len);
          prefix = rw len refl;
          whole = rw len at;
          longest = λ i l m b. rw len (most i l b);
        })
]
