-- ===== src/ChannelB/Crypto/Blocks.antt =====
-- What the device gets back from src/channel_b/crypto.rs by decrypting block by block.
use native.Mathlib.Omega.{arith}
use noobscenic.Prelude.{
  ℕ, zero, suc, ◌+◌, ◌-◌, ◌%◌, ◌<◌, ◌≤◌, ltb, Bytes, true, false, List, [], ◌∷◌, ◌++◌, Option, none,
  some, ◌==◌, if◌then◌else◌, Bool-cases, length, take, drop, ◌≡◌, refl, inl, inr, length-append,
  length-replicate, take-append-drop, length-take, length-drop, take_exact, drop_exact, join, map,
  All, ap, ap₂, sym, ◌∙◌, replicate, ◌*◌, ◌/◌,
}
use noobscenic.Json.{Value}
use noobscenic.ChannelB.Crypto.{padding, space_pad, each_block, aes_key, encrypt_message}

-- The padded text is the text with fewer than 16 spaces behind it, in whole blocks.
length-padding : (n : ℕ) → ((n + length (padding n)) % 16 ≡ 0) × (length (padding n) < 16)
unfolding padding
length-padding n = elim (Bool-cases (n % 16 == 0)) [
  | inl e ↦ rw (e, if◌then◌else◌) (whole n e, omega arith)
  | inr e ↦
      rw (e, if◌then◌else◌, length-replicate {0} {A = ℕ} (16 - n % 16) b' ')
        (omega arith, ground arith)
]
  where
    whole : (n : ℕ) → (n % 16 == 0) ≡ true → ((n + 0) % 16 ≡ 0)
    whole n e = let q : n % 16 ≡ 0 = ground arith in omega arith

first : (s : Bytes) → ltb (length s) 16 ≡ false → length (take 16 s) ≡ 16
first s e = ground (arith, length-take 16 s)

long : (a b : Bytes) → length a ≡ 16 → ltb (length (a ++ b)) 16 ≡ false
long a b z = ground (arith, length-append {0} a b)

each_block-each_block :
    (f g : Bytes → Bytes)
    → ((b : Bytes) → length b ≡ 16 → length (f b) ≡ 16)
    → ((b : Bytes) → length b ≡ 16 → g (f b) ≡ b)
    → (fuel : ℕ) (s : Bytes) → each_block g fuel (each_block f fuel s) ≡ s
unfolding each_block
each_block-each_block f g size inverse zero s = refl
each_block-each_block f g size inverse (suc fuel) s =
    let rest = each_block-each_block f g size inverse fuel (drop 16 s) in
    elim (Bool-cases (ltb (length s) 16)) [
      | inl e ↦ rw (e, if◌then◌else◌, e) refl
      | inr e ↦
          let a = f (take 16 s) in
          let z = size (take 16 s) (first s e) in
          rw
            (
              e,
              if◌then◌else◌,
              long a (each_block f fuel (drop 16 s)) z,
              if◌then◌else◌,
              take_exact 16 a (each_block f fuel (drop 16 s)) z,
              drop_exact 16 a (each_block f fuel (drop 16 s)) z,
              inverse (take 16 s) (first s e),
              rest,
            )
            (take-append-drop 16 s)
    ]

length-each_block :
    (f : Bytes → Bytes)
    → ((b : Bytes) → length b ≡ 16 → length (f b) ≡ 16)
    → (fuel : ℕ) (s : Bytes) → length (each_block f fuel s) ≡ length s
unfolding each_block
length-each_block f size zero s = refl
length-each_block f size (suc fuel) s =
    let rest = length-each_block f size fuel (drop 16 s) in
    elim (Bool-cases (ltb (length s) 16)) [
      | inl e ↦ rw (e, if◌then◌else◌) refl
      | inr e ↦
          rw (e, if◌then◌else◌)
            (sum s (each_block f fuel (drop 16 s)) (f (take 16 s)) (size (take 16 s) (first s e))
              rest e)
    ]
  where
    sum :
        (s b a : Bytes)
        → length a ≡ 16
        → length b ≡ length (drop 16 s)
        → ltb (length s) 16 ≡ false
        → length (a ++ b) ≡ length s
    sum s b a z r e = ground (arith, length-append {0} a b, length-drop 16 s)

blocks_from :
    (f : Bytes → Bytes) (fuel : ℕ) (blocks : List Bytes)
    → All (λ b. length b ≡ 16) blocks
    → length (join blocks) ≤ fuel
    → each_block f fuel (join blocks) ≡ join (map f blocks)
unfolding each_block
blocks_from f zero [] h l = refl
blocks_from f (suc fuel) [] h l = refl
blocks_from f zero (b ∷ bs) h l = absurd (omega (arith, length-append {0} b (join bs), h.0))
blocks_from f (suc fuel) (b ∷ bs) h l =
    let rest = blocks_from f fuel bs h.1 (omega (arith, length-append {0} b (join bs), h.0)) in
    rw
      (
        long b (join bs) h.0,
        if◌then◌else◌,
        take_exact 16 b (join bs) h.0,
        drop_exact 16 b (join bs) h.0,
        rest,
      )
      refl

-- The loop replaces every block of a text of whole blocks by its encryption, in order; its fuel, the
-- length of the text, is enough.
pub each_block-join :
    (f : Bytes → Bytes) (blocks : List Bytes)
    → All (λ b. length b ≡ 16) blocks
    → each_block f (length (join blocks)) (join blocks) ≡ join (map f blocks)
each_block-join f blocks h = blocks_from f _ blocks h (omega arith)

-- The first 16 bytes, and so on, of a text of whole blocks.
cut :
    (n : ℕ) (s : Bytes)
    → length s ≡ n * 16
    → (blocks : List Bytes) × (All (λ b. length b ≡ 16) blocks) × (join blocks ≡ s)
cut zero [] e = ([], tt, refl)
cut zero (x ∷ s) e = absurd (omega arith)
cut (suc n) s e =
    let rest = cut n (drop 16 s) (omega (arith, length-drop 16 s)) in
    (
      take 16 s ∷ rest.0,
      (omega (arith, length-take 16 s), rest.1),
      ap (λ q. take 16 s ++ q) rest.2 ∙ take-append-drop 16 s,
    )

-- The JSON with fewer than 16 spaces behind it, cut in blocks of 16 bytes.
pub record Padded (json : Bytes) (blocks : List Bytes) : Type 0 where
  pub spaces : ℕ
  pub few : spaces < 16
  pub sized : All (λ b. length b ≡ 16) blocks
  pub same : join blocks ≡ json ++ replicate spaces b' '

padding-spaces : (n : ℕ) → (k : ℕ) × (k < 16) × (padding n ≡ replicate k b' ')
unfolding padding
padding-spaces n = elim (Bool-cases (n % 16 == 0)) [
  | inl e ↦ (0, omega arith, rw (e, if◌then◌else◌) refl)
  | inr e ↦ (16 - n % 16, ground arith, rw (e, if◌then◌else◌) refl)
]

-- A message that can be written and a key of 16 bytes or more give the encryption of the JSON of the
-- message, with fewer than 16 spaces behind it, under the first 16 bytes of the key: each of its
-- blocks of 16 bytes encrypted, in their order, and all of it written in base64. So where AES is
-- undone by its inverse, the blocks decrypted one by one are the padded JSON. A shorter key gives
-- nothing.
pub encrypt_message_lem :
    (encrypt_block decrypt_block : Bytes → Bytes → Bytes) (base64 : Bytes → Bytes)
    (to_vec : Value → Option Bytes) (message : Value) (session_key json : Bytes)
    → ((k b : Bytes) → length b ≡ 16 → decrypt_block k (encrypt_block k b) ≡ b)
    → to_vec message ≡ some json
    → (16 ≤ length session_key
        → (blocks : List Bytes) × (Padded json blocks)
          × (encrypt_message encrypt_block base64 to_vec message session_key
              ≡ some (base64 (join (map (encrypt_block (take 16 session_key)) blocks))))
          × (map
                (decrypt_block (take 16 session_key))
                (map (encrypt_block (take 16 session_key)) blocks)
              ≡ blocks))
      × (length session_key < 16
          → encrypt_message encrypt_block base64 to_vec message session_key ≡ none)
unfolding encrypt_message aes_key space_pad
encrypt_message_lem enc dec base64 to_vec message key json inverse h = (
  λ l. (
    blocks.0,
    record {
      spaces = spaces.0;
      few = spaces.1;
      sized = blocks.1;
      same = blocks.2 ∙ ap (λ q. json ++ q) spaces.2;
    },
    rw (enough l, encrypt_message, h) (ap (λ c. some (base64 c)) cipher),
    undone blocks.0 blocks.1,
  ),
  λ l. rw (short l, encrypt_message) refl,
)
  where
    spaces : (k : ℕ) × (k < 16) × (padding (length json) ≡ replicate k b' ')
    spaces = padding-spaces (length json)

    whole : length (space_pad json) ≡ length (space_pad json) / 16 * 16
    whole =
        let z = (length-padding (length json)).0 in
        omega (arith, length-append {0} json (padding (length json)))

    blocks : (bs : List Bytes) × (All (λ b. length b ≡ 16) bs) × (join bs ≡ space_pad json)
    blocks = cut (length (space_pad json) / 16) (space_pad json) whole

    cipher :
        each_block (enc (take 16 key)) (length (space_pad json)) (space_pad json)
        ≡ join (map (enc (take 16 key)) blocks.0)
    cipher =
        ap (λ s. each_block (enc (take 16 key)) (length s) s) (sym blocks.2)
        ∙ each_block-join (enc (take 16 key)) blocks.0 blocks.1

    undone :
        (bs : List Bytes)
        → All (λ b. length b ≡ 16) bs
        → map (dec (take 16 key)) (map (enc (take 16 key)) bs) ≡ bs
    undone [] k = refl
    undone (b ∷ bs) k = ap₂ ◌∷◌ (inverse (take 16 key) b k.0) (undone bs k.1)

    enough : 16 ≤ length key → aes_key key ≡ some (take 16 key)
    enough l = ground arith

    short : length key < 16 → aes_key key ≡ none
    short l = ground arith
