-- ===== src/Tests/Multipart.antt =====
-- A body of two parts, and one without a line break in front of the delimiter:
-- src/channel_a/multipart.rs at concrete inputs.
use noobscenic.Prelude.{
  Bytes, true, [], ◌∷◌, ◌++◌, none, some, codes, ◌≡◌, ◌≢◌, refl, starts_with, find_first, text_eq,
}
use noobscenic.ChannelA.Multipart.{
  Texts, Parsed, parse, crlf, boundary, disposition, find_from, find_in, split_on, strip_return,
  lines_of, lower, unquote, drop_quotes, drop_last_quotes,
}
use noobscenic.ChannelA.Multipart.Fuel.{parse-finishes}

abbrev texts : Texts
texts = record { trim = λ s. s; trim_start = λ s. s; is_utf8 = λ s. true }

abbrev kind : Bytes
kind = codes "multipart/x;boundary=b"

abbrev head : Bytes → Bytes
head name =
    codes "--b" ++ crlf ++ codes "Content-Disposition: form-data;name=" ++ name ++ crlf ++ crlf

abbrev two_parts : Bytes
two_parts =
    head (codes "\"sn\"")
    ++ codes "A"
    ++ crlf
    ++ head (codes "md5;filename=\"f\"")
    ++ crlf
    ++ codes "--b--"

parse-two_parts :
    parse texts kind two_parts
    ≡ Parsed.parts (
        record { name = codes "sn"; filename = none; content = codes "A" }
        ∷ record { name = codes "md5"; filename = some (codes "f"); content = [] }
        ∷ [])
unfolding parse boundary disposition find_from find_in split_on strip_return lines_of lower unquote
    drop_quotes drop_last_quotes starts_with find_first text_eq
parse-two_parts = refl

-- The blank line behind the headers is taken for the line break in front of the delimiter.
empty_part_panics : parse texts kind (head (codes "sn") ++ codes "--b--") ≡ Parsed.panics
unfolding parse boundary disposition find_from find_in split_on strip_return lines_of lower unquote
    drop_quotes drop_last_quotes starts_with find_first text_eq
empty_part_panics = refl

parse-finishes_example : parse texts kind two_parts ≢ Parsed.unfinished
parse-finishes_example = parse-finishes texts kind two_parts
