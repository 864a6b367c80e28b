-- ===== src/ChannelB/Codec.antt =====
-- Channel-B framing, src/channel_b/codec.rs: `encode` and the incremental `Decoder`.
pub mod Find
pub mod Splits
pub mod Push
pub mod Stream
pub mod Limits
use noobscenic.Prelude.{
  ℕ, zero, suc, ◌+◌, Bytes, List, [], ◌∷◌, ◌++◌, Option, none, some, ltb, if◌then◌else◌, length,
  take, drop, starts_with,
}

-- `#\t#`
abbrev pub delimiter : Bytes
delimiter = b'#' ∷ b'\t' ∷ b'#' ∷ []

pub data DecodeError : Type 0 where
  oversize : ℕ → ℕ → DecodeError

pub data Result {ℓ} (A : Type ℓ) : Type ℓ where
  ok : A → Result A
  err : DecodeError → Result A

unfoldable pub encode : Bytes → Bytes
encode frame = frame ++ delimiter

pub record Decoder : Type 0 where
  pub buf : Bytes
  pub max : ℕ

abbrev pub new : ℕ → Decoder
new max_frame_bytes = record { buf = []; max = max_frame_bytes }

-- The first position at which the delimiter stands: `windows(3).position(..)`.
unfoldable pub find_delimiter : Bytes → Option ℕ
find_delimiter [] = none
find_delimiter (c ∷ cs) =
    let rest = find_delimiter cs in
    if starts_with delimiter (c ∷ cs)
    then some 0
    else elim rest [ none ↦ none | some at ↦ some (suc at) ]

-- The frames found, and what is left of the buffer behind the last delimiter.
pub record Scan : Type 0 where
  pub frames : List Bytes
  pub rest : Bytes

abbrev pub prepend : Bytes → Result Scan → Result Scan
prepend frame (ok s) = ok (record s { frames = frame ∷ s.frames })
prepend frame (err e) = err e

-- The `while let` loop of `push`: `rest` is `self.buf[start..]`. Every round takes at least the
-- three delimiter bytes off `rest`, so its length bounds the rounds.
unfoldable pub scan : ℕ → ℕ → ℕ → Bytes → Result Scan
scan zero max start rest = ok (record { frames = []; rest = rest })
scan (suc fuel) max start rest = elim (find_delimiter rest) [
  | none ↦ ok (record { frames = []; rest = rest })
  | some at ↦
      if ltb max (start + at)
      then err (oversize (start + at) max)
      else prepend (take at rest) (scan fuel max (start + at + 3) (drop 3 (drop at rest)))
]

-- What `push` does behind the loop. An error in the loop leaves the whole buffer in place.
pub settle : Decoder → Bytes → Result Scan → Decoder × Result (List Bytes)
settle d buf (err e) = (record d { buf = buf }, err e)
settle d buf (ok s) =
    if ltb d.max (length s.rest)
    then (record d { buf = s.rest }, err (oversize (length s.rest) d.max))
    else (record d { buf = s.rest }, ok s.frames)

unfoldable pub push : Decoder → Bytes → Decoder × Result (List Bytes)
unfolding settle
push d chunk = let buf = d.buf ++ chunk in settle d buf (scan (length buf + 1) d.max 0 buf)

-- What the reads of one connection have delivered, and the error that ended them.
pub record Fed : Type 0 where
  pub decoder : Decoder
  pub frames : List Bytes
  pub error : Option DecodeError

after_push : Decoder × Result (List Bytes) → Fed → Fed
after_push (d, ok fs) later = record later { frames = fs ++ later.frames }
after_push (d, err e) later = record { decoder = d; frames = []; error = some e }

-- The chunks that the socket returns, as `read_task` feeds them: the first error ends the loop.
unfoldable pub feed : Decoder → List Bytes → Fed
unfolding after_push
feed d [] = record { decoder = d; frames = []; error = none }
feed d (chunk ∷ chunks) =
    let pushed = push d chunk in let later = feed pushed.0 chunks in after_push pushed later
