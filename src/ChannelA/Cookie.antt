-- ===== src/ChannelA/Cookie.antt =====
-- The cookie of a request: `cookie_value` of src/session.rs.
-- A header that is text is visible ASCII with spaces and tabs, so `str::trim` is by those two.
use noobscenic.Prelude.{
  ℕ, Bytes, Bool, List, [], ◌∷◌, Option, none, some, ◌==◌, ◌||◌, if◌then◌else◌, codes, starts_with,
  drop,
}

pub data CookieLookup : Type 0 where
  missing empty : CookieLookup
  value : Bytes → CookieLookup

unfoldable pub is_space : ℕ → Bool
is_space c = c == b' ' || c == b'\t'

unfoldable pub trim_start : Bytes → Bytes
trim_start [] = []
trim_start (c ∷ s) = if is_space c then trim_start s else c ∷ s

unfoldable pub trim_end : Bytes → Bytes
trim_end [] = []
trim_end (c ∷ s) =
    let rest = trim_end s in
    elim rest [ [] ↦ if is_space c then [] else c ∷ [] | (d ∷ t) ↦ c ∷ d ∷ t ]

unfoldable pub trim : Bytes → Bytes
trim s = trim_start (trim_end s)

-- `str::split(';')`: at least one part.
unfoldable pub split_parts : Bytes → Bytes × List Bytes
split_parts [] = ([], [])
split_parts (c ∷ s) =
    let rest = split_parts s in if c == b';' then ([], rest.0 ∷ rest.1) else (c ∷ rest.0, rest.1)

abbrev pub cookies_prefix : Bytes
cookies_prefix = codes "cookies="

-- The first part with the prefix decides.
unfoldable pub first_cookie : List Bytes → CookieLookup
first_cookie [] = missing
first_cookie (part ∷ parts) =
    if starts_with cookies_prefix (trim part)
    then elim (drop 8 (trim part)) [ [] ↦ empty | (c ∷ cs) ↦ value (c ∷ cs) ]
    else first_cookie parts

-- `header` is the `Cookie:` header of the request, if there is one; `to_str` is `HeaderValue`'s.
unfoldable pub cookie_value : (Bytes → Option Bytes) → Option Bytes → CookieLookup
cookie_value to_str none = missing
cookie_value to_str (some raw) = elim (to_str raw) [
  | none ↦ missing
  | some text ↦ elim (trim text) [
    | [] ↦ empty
    | (c ∷ cs) ↦ let parts = split_parts text in first_cookie (parts.0 ∷ parts.1)
  ]
]
