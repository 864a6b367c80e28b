-- ===== src/ChannelA/Multipart.antt =====
-- The reader of multipart bodies, src/channel_a/multipart.rs.
pub mod Fuel
use noobscenic.Prelude.{
  ℕ, zero, suc, ◌+◌, ◌-◌, Bytes, Bool, List, [], ◌∷◌, ◌++◌, Option, none, some, codes, ltb, leb,
  ◌==◌, ◌&&◌, ◌||◌, not, text_eq, starts_with, length, take, drop, map, find_first, if◌then◌else◌,
  ◌>>=◌,
}

pub record Part : Type 0 where
  pub name : Bytes
  pub filename : Option Bytes
  pub content : Bytes

-- `some` of the parts, `none` of the source, or the panic of a slice whose start is behind its end.
pub data Parsed : Type 0 where
  parts : List Part → Parsed
  refused panics : Parsed
  -- The loop of the model ran out of fuel, which the code has no counterpart of.
  unfinished : Parsed

-- `find`: the first place of the needle from `from` on.
unfoldable pub find_in : Bytes → Bytes → Option ℕ
find_in needle [] = if starts_with needle [] then some 0 else none
find_in needle (b ∷ s) =
    let rest = find_in needle s in
    if starts_with needle (b ∷ s)
    then some 0
    else elim rest [ none ↦ none | some at ↦ some (suc at) ]

unfoldable pub find_from : Bytes → Bytes → ℕ → Option ℕ
unfolding find_in
find_from haystack needle from =
    if ltb (length haystack) from
    then none
    else elim (find_in needle (drop from haystack)) [ none ↦ none | some at ↦ some (at + from) ]

-- `str::split` on one byte.
unfoldable pub split_on : ℕ → Bytes → List Bytes
split_on sep [] = [] ∷ []
split_on sep (b ∷ s) = elim (split_on sep s) [
  | [] ↦ (b ∷ []) ∷ []
  | piece ∷ pieces ↦ if b == sep then [] ∷ piece ∷ pieces else (b ∷ piece) ∷ pieces
]

abbrev pub lower_byte : ℕ → ℕ
lower_byte b = if leb b'A' b && leb b b'Z' then b + 32 else b

-- `to_ascii_lowercase`
unfoldable pub lower : Bytes → Bytes
lower = map lower_byte

-- A carriage return at the end of a line goes with it.
unfoldable pub strip_return : Bytes → Bytes
strip_return [] = []
strip_return (b ∷ []) = if b == 13 then [] else b ∷ []
strip_return (b ∷ c ∷ s) = b ∷ strip_return (c ∷ s)

-- `str::lines`: the last piece has no line feed behind it and keeps its carriage return.
unfoldable pub lines_of : List Bytes → List Bytes
unfolding strip_return
lines_of [] = []
lines_of (last ∷ []) = last ∷ []
lines_of (line ∷ next ∷ rest) = strip_return line ∷ lines_of (next ∷ rest)

-- `trim_matches('"')` is `unquote`, with the two ends in turn.
unfoldable pub drop_quotes : Bytes → Bytes
drop_quotes [] = []
drop_quotes (b ∷ s) = let rest = drop_quotes s in if b == b'"' then rest else b ∷ s

unfoldable pub drop_last_quotes : Bytes → Bytes
drop_last_quotes [] = []
drop_last_quotes (b ∷ s) =
    let rest = drop_last_quotes s in if b == b'"' && length rest == 0 then [] else b ∷ rest

unfoldable pub unquote : Bytes → Bytes
unfolding drop_quotes drop_last_quotes
unquote s = drop_last_quotes (drop_quotes s)

-- `strip_prefix`
abbrev pub strip_prefix : Bytes → Bytes → Option Bytes
strip_prefix p s = if starts_with p s then some (drop (length p) s) else none

abbrev pub crlf : Bytes
crlf = 13 ∷ 10 ∷ []

-- `str::trim`, `str::trim_start` and the test of `str::from_utf8` are the library's.
pub record Texts : Type 0 where
  pub trim : Bytes → Bytes
  pub trim_start : Bytes → Bytes
  pub is_utf8 : Bytes → Bool

module _ (t : Texts) where
  open t use {trim, trim_start, is_utf8}

  unfoldable pub text : Part → Option Bytes
  text part = if is_utf8 part.content then some (trim part.content) else none

  -- The first piece that names a boundary.
  boundary_of : List Bytes → Option Bytes
  boundary_of [] = none
  boundary_of (piece ∷ pieces) =
      let rest = boundary_of pieces in
      elim (strip_prefix (codes "boundary=") (trim piece)) [
        | none ↦ rest
        | some value ↦ some (unquote value)
      ]

  unfoldable pub boundary : Bytes → Option Bytes
  unfolding boundary_of split_on lower unquote
  boundary content_type =
      if not (starts_with (codes "multipart/") (lower (trim_start content_type)))
      then none
      else boundary_of (split_on b';' content_type)

  -- The loop over the pieces of the header, with what was found before.
  name_and_file : List Bytes → Option Bytes → Option Bytes → Option (Bytes × Option Bytes)
  name_and_file [] none file = none
  name_and_file [] (some name) file = some (name, file)
  name_and_file (piece ∷ pieces) name file =
      let value = strip_prefix (codes "name=") (trim piece) in
      let as_file = strip_prefix (codes "filename=") (trim piece) in
      name_and_file pieces (elim value [ none ↦ name | some v ↦ some (unquote v) ])
        (elim value [
          | some v ↦ file
          | none ↦ elim as_file [ none ↦ file | some v ↦ some (unquote v) ]
        ])

  is_disposition : Bytes → Bool
  is_disposition line = starts_with (codes "content-disposition:") (lower line)

  unfoldable pub disposition : Bytes → Option (Bytes × Option Bytes)
  unfolding name_and_file is_disposition split_on lines_of lower unquote
  disposition headers = find_first is_disposition (lines_of (split_on 10 headers)) >>= λ line.
      name_and_file (drop 1 (split_on b';' line)) none none

  -- The part whose headers begin at `cursor`, and the delimiter behind it.
  unfoldable pub part_at : Bytes → Bytes → ℕ → Option (Part × (ℕ × Bool))
  part_at delimiter body cursor = find_from body (crlf ++ crlf) cursor >>= λ header_end.
      (let headers = take (header_end - cursor) (drop cursor body) in
        if not (is_utf8 headers)
        then none
        else disposition headers >>= λ named.
            (let content_start = header_end + 4 in
              find_from body delimiter content_start >>= λ next.
              (if ltb next 2 || not (text_eq (take 2 (drop (next - 2) body)) crlf)
                then none
                else some (
                  record {
                    name = named.0;
                    filename = named.1;
                    content = take (next - 2 - content_start) (drop content_start body);
                  },
                  (next, leb content_start (next - 2)),
                ))))

  -- The loop: a round takes at least a delimiter, so that `fuel` of the body's length is enough.
  unfoldable pub rounds : ℕ → Bytes → Bytes → ℕ → List Part → Parsed
  rounds zero delimiter body cursor done = Parsed.unfinished
  rounds (suc fuel) delimiter body cursor done =
      let at = cursor + length delimiter in
      if starts_with (codes "--") (drop at body)
      then Parsed.parts done
      else if not (starts_with crlf (drop at body))
      then Parsed.refused
      else elim (part_at delimiter body (at + 2)) [
        | none ↦ Parsed.refused
        | some (part, (next, ordered)) ↦
            if ordered then rounds fuel delimiter body next (done ++ part ∷ []) else Parsed.panics
      ]

  unfoldable pub parse : Bytes → Bytes → Parsed
  unfolding boundary disposition part_at rounds find_from
  parse content_type body = elim (boundary content_type) [
    | none ↦ Parsed.refused
    | some name ↦
        if length name == 0 then Parsed.refused else elim (find_from body (codes "--" ++ name) 0) [
          | none ↦ Parsed.refused
          | some cursor ↦ rounds (suc (length body)) (codes "--" ++ name) body cursor []
        ]
  ]
