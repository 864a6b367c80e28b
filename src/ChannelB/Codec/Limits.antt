-- ===== src/ChannelB/Codec/Limits.antt =====
-- How `Decoder::push` measures a frame against its limit.
use noobscenic.Prelude.{
  ℕ, suc, ◌+◌, ◌≤◌, ◌<◌, ◌≡◌, Bytes, [], ◌++◌, arith, ltb, length, length-append, append_assoc,
  take-append_left, drop-append_left, if◌then◌else◌, ◌-◌,
}
use noobscenic.ChannelB.Codec.{delimiter, oversize, err, new, encode, prepend, scan, settle, push}
use noobscenic.ChannelB.Codec.Stream.{NoTab, find-NoTab_frame}

-- One round of the loop over a frame that is sent first.
scan-frame :
    (fuel max start : ℕ) (f rest : Bytes)
    → NoTab f
    → scan (suc fuel) max start (f ++ (delimiter ++ rest)) ≡ (
        if ltb max (start + length f)
        then err (oversize (start + length f) max)
        else prepend f (scan fuel max (start + length f + 3) rest))
unfolding scan
scan-frame fuel max start f rest tab = rw (
  find-NoTab_frame f rest tab,
  scan,
  take-append_left f (delimiter ++ rest),
  drop-append_left f (delimiter ++ rest),
)

scan_two_frames :
    (fuel max : ℕ) (f g : Bytes)
    → NoTab f
    → NoTab g
    → length f ≤ max
    → max < length f + 3 + length g
    → scan (suc (suc fuel)) max 0 (encode f ++ encode g)
      ≡ err (oversize (length f + 3 + length g) max)
unfolding encode
scan_two_frames fuel max f g tf tg fits over =
    let shape : (f ++ delimiter) ++ (g ++ delimiter)
        ≡ f ++ (delimiter ++ (g ++ (delimiter ++ []))) =
      append_assoc f delimiter (g ++ delimiter) in
    rw shape (
      ground (
        arith,
        scan-frame (suc fuel) max 0 f (g ++ (delimiter ++ [])) tf,
        scan-frame fuel max (0 + length f + 3) g [] tg,
      ))

-- Two tab-free frames that are both within the limit are refused by a new decoder as one
-- oversized frame, when one read brings them together and their bytes, with the delimiter
-- between them, pass the limit: the length reported is the offset of the end of the second
-- frame.
pub push_two_frames_oversize :
    (max : ℕ) (f g : Bytes)
    → NoTab f
    → NoTab g
    → length f ≤ max
    → length g ≤ max
    → max < length f + 3 + length g
    → (push (new max) (encode f ++ encode g)).1 ≡ err (oversize (length f + 3 + length g) max)
unfolding push settle
push_two_frames_oversize max f g tf tg fits fits' over =
    let sent : Bytes = encode f ++ encode g in
    let rounds : length sent + 1 ≡ suc (suc (length sent - 1)) =
      unfold encode in
      omega (
        arith,
        length-append {0} (encode f) (encode g),
        length-append {0} f delimiter,
        length-append {0} g delimiter,
      ) in
    rw (rounds, scan_two_frames (length sent - 1) max f g tf tg fits over)
