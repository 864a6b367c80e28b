-- ===== src/Tests/Writer.antt =====
-- The writer of a connection at concrete inputs.
use noobscenic.Prelude.{
  Bytes, true, false, List, [], ◌∷◌, ◌++◌, none, codes, pos, ◌≡◌, refl, any, keep, text_eq, arith,
}
use noobscenic.Json.{Value, obj, end, field, int, str, find, as_object, as_i64}
use noobscenic.ChannelB.Codec.{new, encode, feed}
use noobscenic.ChannelB.Registry.{Outbound, frame_only}
use noobscenic.ChannelB.Writer.{separated, in_order, write_styled, Writer, write_task}
use noobscenic.ChannelB.Writer.Sent.{bodies, feed-write_task}
use noobscenic.Wire.Tap.{Outside}

-- A writer that knows no JSON but this.
abbrev to_text : Value → Bytes
to_text v = codes "1"

abbrev outside : Outside
outside = record {
  show = λ n. codes "1";
  can_open = λ b. true;
  to_text = to_text;
  is_utf8 = λ b. true;
  encode64 = λ b. b;
  trim_start = λ b. b;
  today = codes "d";
  ts = codes "t";
}

abbrev to_struct : List (Bytes × Value) → Bytes
to_struct ms = codes "{}"

abbrev pong : Value
pong = obj (field (codes "data") (int (pos 1)) (field (codes "infoType") (int (pos 1)) end))

-- Keys as they are, and every other value as 1.
abbrev plain : Value → Bytes
plain (str s) = s
plain _ = codes "1"

-- The type stands in front, and the other members keep their order.
styled_in_order : write_styled plain pong ≡ codes "{infoType : 1, data : 1}"
unfolding write_styled any keep text_eq separated in_order
styled_in_order = refl

abbrev start : Writer
start = record { sent = []; tap = record { inner = none; traces = []; raw = [] }; commands = [] }

abbrev queue : List Outbound
queue = frame_only pong ∷ frame_only (int (pos 2)) ∷ []

-- The socket takes the first frame, and the second one, which has the same bytes.
feed-write_task_example :
    let r = write_task outside to_struct false (codes "c") (codes "p") (λ b. true) queue start in
    (done : List Outbound) × (left : List Outbound) × (queue ≡ done ++ left)
    × (r.1 ≡ true → left ≡ [])
    × ((feed (new 64) (r.0.sent ∷ [])).error ≡ none)
    × ((feed (new 64) (r.0.sent ∷ [])).frames ≡ bodies outside to_struct false done)
unfolding write_task find text_eq encode as_object as_i64
feed-write_task_example =
    feed-write_task outside to_struct false (codes "c") (codes "p") (λ b. true) 2 16 64 queue start
      ((write_task outside to_struct false (codes "c") (codes "p") (λ b. true) queue start).0.sent
        ∷ [])
      ((λ v. (omega arith, tt)), (λ ms. (omega arith, (omega arith, tt)))) refl
      (omega arith, (omega arith, tt)) (omega arith) (omega arith, tt) refl
