-- ===== src/ChannelB/Crypto.antt =====
-- The encryption of a command's message: src/channel_b/crypto.rs.
-- AES on one block, base64 and the JSON writer are libraries: parameters here.
pub mod Blocks
use noobscenic.Prelude.{
  ℕ, zero, suc, ◌+◌, ◌-◌, ◌*◌, ◌%◌, ◌/◌, ◌<◌, ◌≤◌, ltb, Bytes, Bool, true, false, List, [], ◌∷◌,
  ◌++◌, Option, none, some, ◌==◌, if◌then◌else◌, Bool-cases, length, take, drop, replicate, ◌≡◌,
  refl, ap, sym, ◌∙◌, inl, inr, ◌⊎◌, length-append, length-replicate, take-append-drop, length-take,
  length-drop, take_exact, drop_exact, append-nil,
}
use noobscenic.Json.{Value}

-- What `space_pad` appends.
unfoldable pub padding : ℕ → Bytes
padding n = if n % 16 == 0 then [] else replicate (16 - n % 16) b' '

unfoldable pub space_pad : Bytes → Bytes
space_pad plaintext = plaintext ++ padding (length plaintext)

-- The loop over the whole blocks; a rest of less than 16 bytes stays. `fuel` is the number of
-- blocks: the length is enough.
unfoldable pub each_block : (Bytes → Bytes) → ℕ → Bytes → Bytes
each_block f zero s = s
each_block f (suc fuel) s =
    if ltb (length s) 16 then s else f (take 16 s) ++ each_block f fuel (drop 16 s)

-- `get(..16)`
unfoldable pub aes_key : Bytes → Option Bytes
aes_key session_key = if ltb (length session_key) 16 then none else some (take 16 session_key)

module _ (encrypt_block : Bytes → Bytes → Bytes) (base64 : Bytes → Bytes)
    (to_vec : Value → Option Bytes) where
  unfoldable pub encrypt_message : Value → Bytes → Option Bytes
  encrypt_message message session_key = elim (aes_key session_key) [
    | none ↦ none
    | some key ↦ elim (to_vec message) [
      | none ↦ none
      | some json ↦
          let plaintext = space_pad json in
          some (base64 (each_block (encrypt_block key) (length plaintext) plaintext))
    ]
  ]
