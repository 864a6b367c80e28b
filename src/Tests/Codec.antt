-- ===== src/Tests/Codec.antt =====
-- The unit tests of src/channel_b/codec.rs, and the framing theorems at concrete inputs.
use noobscenic.Prelude.{
  ◌≡◌, refl, Bytes, List, [], ◌∷◌, ◌++◌, none, codes, join, arith, starts_with,
}
use noobscenic.ChannelB.Codec.{oversize, err, new, encode, find_delimiter, scan, push, feed}
use noobscenic.ChannelB.Codec.Push.{Pushed, push-Pushed}
use noobscenic.ChannelB.Codec.Stream.{feed-stream, feed_chunking}
use noobscenic.ChannelB.Codec.Limits.{push_two_frames_oversize}

-- A delimiter that straddles two reads.
abbrev split_reads : List Bytes
split_reads = codes "{1}#" ∷ codes "\t" ∷ codes "#{2}#\t#{" ∷ []

split_reads-feed : (feed (new 64) split_reads).frames ≡ codes "{1}" ∷ codes "{2}" ∷ []
unfolding feed push scan find_delimiter starts_with
split_reads-feed = refl

oversize_frame : (push (new 8) (codes "{\"a\":123456}#\t#")).1 ≡ err (oversize 12 8)
unfolding push scan find_delimiter starts_with
oversize_frame = refl

two_small_frames : (push (new 8) (codes "12345#\t#67890#\t#")).1 ≡ err (oversize 13 8)
unfolding push scan find_delimiter starts_with
two_small_frames = refl

push-Pushed_example : Pushed (new 8) (codes "{1}#\t#{") (push (new 8) (codes "{1}#\t#{"))
push-Pushed_example = push-Pushed (new 8) (codes "{1}#\t#{")

feed-stream_example :
    ((feed (new 64) split_reads).error ≡ none)
    × ((feed (new 64) split_reads).frames ≡ codes "{1}" ∷ codes "{2}" ∷ [])
    × ((feed (new 64) split_reads).decoder.buf ≡ codes "{")
feed-stream_example =
    feed-stream 8 16 64 (codes "{1}" ∷ codes "{2}" ∷ []) (codes "{") split_reads (omega arith)
      (omega arith) (omega arith) (omega arith) (omega arith) (omega arith) (unfold encode in refl)

feed_chunking_example :
    ((feed (new 64) split_reads).frames ≡ (feed (new 64) (join split_reads ∷ [])).frames)
    × ((feed (new 64) split_reads).decoder.buf
        ≡ (feed (new 64) (join split_reads ∷ [])).decoder.buf)
unfolding feed push scan find_delimiter starts_with
feed_chunking_example =
    feed_chunking (new 64) split_reads (join split_reads ∷ []) refl refl refl refl

push_two_frames_oversize_example :
    (push (new 8) (encode (codes "12345") ++ encode (codes "67890"))).1 ≡ err (oversize 13 8)
push_two_frames_oversize_example =
    push_two_frames_oversize 8 (codes "12345") (codes "67890") (omega arith) (omega arith)
      (omega arith) (omega arith) (omega arith)
