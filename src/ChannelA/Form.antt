-- ===== src/ChannelA/Form.antt =====
-- The lenient form parser of src/channel_a/form.rs.
-- `from_str` is `serde_json`'s, and `lossy` is `String::from_utf8_lossy`.
pub mod Escapes
use noobscenic.Prelude.{
  ℕ, zero, suc, ◌+◌, ◌-◌, ◌*◌, leb, Bytes, Bool, true, false, List, [], ◌∷◌, ◌++◌, Option, none,
  some, ◌==◌, ◌&&◌, text_eq, if◌then◌else◌, length, take, drop, or_else, codes, any, not, keep,
  position,
}
use noobscenic.Json.{Value}

unfoldable pub hex : ℕ → Option ℕ
hex byte =
    if leb b'0' byte && leb byte b'9'
    then some (byte - b'0')
    else if leb b'a' byte && leb byte b'f'
    then some (byte - b'a' + 10)
    else if leb b'A' byte && leb byte b'F'
    then some (byte - b'A' + 10)
    else none

-- The byte of two digits.
unfoldable pub escape : ℕ → ℕ → Option ℕ
escape h l = elim (hex h) [
  | none ↦ none
  | some high ↦ elim (hex l) [ none ↦ none | some low ↦ some (high * 16 + low) ]
]

abbrev pub plus_to_space : ℕ → ℕ
plus_to_space c = if c == b'+' then b' ' else c

-- The loop of `percent_decode`: `%` is an escape only with two bytes behind it.
unfoldable pub decode_bytes : Bytes → Bytes
decode_bytes [] = []
decode_bytes (c ∷ []) = plus_to_space c ∷ []
decode_bytes (c ∷ d ∷ []) = plus_to_space c ∷ plus_to_space d ∷ []
decode_bytes (c ∷ h ∷ l ∷ s) =
    let behind = decode_bytes s in
    let next = decode_bytes (h ∷ l ∷ s) in
    if c == b'%'
    then elim (escape h l) [ none ↦ c ∷ next | some byte ↦ byte ∷ behind ]
    else plus_to_space c ∷ next

-- `str::find` of one byte: what stands before it, and what stands behind it.
unfoldable pub split_once : ℕ → Bytes → Bytes × Option Bytes
split_once sep [] = ([], none)
split_once sep (c ∷ s) =
    let rest = split_once sep s in if c == sep then ([], some s) else (c ∷ rest.0, rest.1)

-- The positions of `&`, counted from `at`, and then the end.
unfoldable pub ends : ℕ → Bytes → List ℕ
ends at [] = at ∷ []
ends at (c ∷ s) = let rest = ends (suc at) s in if c == b'&' then at ∷ rest else rest

-- A parsed form body: `data` is not among the fields.
pub record Form : Type 0 where
  pub fields : List (Bytes × Bytes)
  pub data_raw : Option Bytes
  pub parsed_data : Option Value

-- `.find(|(k, _)| k == key)`
unfoldable pub get_field : Bytes → List (Bytes × Bytes) → Option Bytes
get_field key [] = none
get_field key ((k, v) ∷ fields) = if text_eq k key then some v else get_field key fields

-- The fields whose key is not among the known ones.
unfoldable pub unknown : List Bytes → List (Bytes × Bytes) → List (Bytes × Bytes)
unknown known = keep (λ field. not (any (λ k. text_eq k field.0) known))

module _ (from_str : Bytes → Option Value) (lossy : Bytes → Bytes) where
  unfoldable pub percent_decode : Bytes → Bytes
  percent_decode text = lossy (decode_bytes text)

  unfoldable pub parse_data : Bytes → Option Value
  parse_data raw = or_else (from_str raw) (from_str (percent_decode raw))

  -- The first end whose prefix parses: the prefix, its value and the end.
  unfoldable pub first_parsed : Bytes → List ℕ → Option (Bytes × Value × ℕ)
  first_parsed remainder [] = none
  first_parsed remainder (end_at ∷ more) = elim (parse_data (take end_at remainder)) [
    | none ↦ first_parsed remainder more
    | some value ↦ some (take end_at remainder, value, end_at)
  ]

  unfoldable pub split_data : Bytes → Option (Bytes × Value × ℕ)
  split_data remainder = first_parsed remainder (ends 0 remainder)

  -- The loop of `parse`: `rest` is the text from the cursor. Every round takes a byte or more off
  -- it, so its length bounds the rounds.
  unfoldable pub parse_from : ℕ → Bytes → Form → Form
  parse_from zero rest form = form
  parse_from (suc fuel) [] form = form
  parse_from (suc fuel) (c ∷ s) form =
      let cut = split_once b'&' (c ∷ s) in
      let member = split_once b'=' cut.0 in
      let next : Bytes = elim cut.1 [ none ↦ [] | some t ↦ t ] in
      let value : Bytes = elim member.1 [ none ↦ [] | some t ↦ t ] in
      if text_eq member.0 (codes "data")
      then elim (split_data (drop 5 (c ∷ s))) [
        | none ↦ record form { data_raw = some (drop 5 (c ∷ s)) }
        | some (raw, parsed, end_at) ↦
            parse_from fuel (drop 1 (drop end_at (drop 5 (c ∷ s))))
              (record form { data_raw = some raw; parsed_data = some parsed })
      ]
      else parse_from fuel next (record form {
        fields = form.fields ++ (percent_decode member.0, percent_decode value) ∷ [];
      })

  unfoldable pub parse : Bytes → Form
  parse body =
      let text = lossy body in
      parse_from (length text) text (record { fields = []; data_raw = none; parsed_data = none })
