-- ===== src/Wire/Mask.antt =====
-- The masking of secrets in a trace line, src/wire/mod.rs. `trim_start` is `str::trim_start`.
use noobscenic.Prelude.{
  ℕ, zero, suc, ◌+◌, ◌-◌, Bytes, Bool, true, false, List, [], ◌∷◌, ◌++◌, Option, none, some, codes,
  ◌==◌, ◌||◌, length, take, drop, if◌then◌else◌, get_elem?, position, unwrap_or, is_some, ◌>>=◌,
}
use noobscenic.ChannelA.Multipart.{find_in}

abbrev pub redacted_keys : List Bytes
redacted_keys = codes "session" ∷ codes "cookies" ∷ codes "sig" ∷ []

abbrev pub stars : Bytes
stars = codes "***"

-- `at == 0 || matches!(rest[at - 1], b'&' | b'?')`
unfoldable pub starts_field : ℕ → Bytes → Bool
starts_field zero rest = true
starts_field (suc at) rest = elim (get_elem? rest at) [
  | none ↦ false
  | some b ↦ b == b'&' || b == b'?'
]

-- The end of a field's value.
unfoldable pub value_end : Bytes → ℕ
value_end rest = unwrap_or (length rest) (position (λ b. b == b'&') rest)

-- The loop, on what is left of the text: a round takes at least the needle off it.
unfoldable pub mask_form : ℕ → Bytes → Bytes → Bytes
unfolding starts_field value_end find_in
mask_form zero needle rest = rest
mask_form (suc fuel) needle rest = elim (find_in needle rest) [
  | none ↦ rest
  | some at ↦
      let front = take (at + length needle) rest in
      let behind = drop (at + length needle) rest in
      let end_at = if starts_field at rest then value_end behind else 0 in
      let mark = if end_at == 0 then [] else stars in
      front ++ (mark ++ mask_form fuel needle (drop end_at behind))
]

-- `sig=abc&ts=0` becomes `sig=***&ts=0`.
unfoldable pub mask_form_value : Bytes → Bytes → Bytes
unfolding mask_form
mask_form_value text key = mask_form (suc (length text)) (key ++ codes "=") text

-- `str::strip_prefix` of one byte.
unfoldable pub strip_byte : ℕ → Bytes → Option Bytes
strip_byte c [] = none
strip_byte c (b ∷ s) = if b == c then some s else none

module _ (trim_start : Bytes → Bytes) where
  -- A colon and a quoted value: what stands in front of the value, and what follows it.
  unfoldable pub quoted_value : Bytes → Option (Bytes × Bytes)
  unfolding strip_byte
  quoted_value rest =
      let after = trim_start rest in
      strip_byte b':' after >>= λ colon.
      (let value = trim_start colon in
        strip_byte b'"' value >>= λ open_value. position (λ b. b == b'"') open_value >>= λ end_at.
        some (
          take (length rest - length after) rest
              ++ (codes ":" ++ take (length colon - length value) colon),
          drop (end_at + 1) open_value,
        ))

  unfoldable pub mask_json : ℕ → Bytes → Bytes → Bytes
  unfolding quoted_value find_in
  mask_json zero needle rest = rest
  mask_json (suc fuel) needle rest = elim (find_in needle rest) [
    | none ↦ rest
    | some at ↦
        let front = take (at + length needle) rest in
        let behind = drop (at + length needle) rest in
        let (lead, next) = unwrap_or ([], behind) (quoted_value behind) in
        let mark = if is_some (quoted_value behind) then codes "\"***\"" else [] in
        front ++ (lead ++ (mark ++ mask_json fuel needle next))
  ]

  -- `"session":"abc"` becomes `"session":"***"`.
  unfoldable pub mask_json_value : Bytes → Bytes → Bytes
  unfolding mask_json
  mask_json_value text key = mask_json (suc (length text)) (codes "\"" ++ (key ++ codes "\"")) text

  -- The loop over the keys.
  unfoldable pub redact_keys : List Bytes → Bytes → Bytes
  unfolding mask_form_value mask_json_value
  redact_keys [] out = out
  redact_keys (key ∷ keys) out = redact_keys keys (mask_json_value (mask_form_value out key) key)

  unfoldable pub redact_secrets : Bytes → Bytes
  unfolding redact_keys
  redact_secrets = redact_keys redacted_keys
