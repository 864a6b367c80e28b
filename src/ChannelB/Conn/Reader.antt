-- ===== src/ChannelB/Conn/Reader.antt =====
-- `handle_frame` and `read_task` of src/channel_b/conn.rs: a read, its frames, and the watchdog.
use noobscenic.Prelude.{
  ℕ, suc, ℤ, pos, ◌+ℤ◌, leb_ℤ, Bytes, Bool, true, false, List, [], ◌∷◌, ◌++◌, Option, none, some,
  ◌==◌, ◌&&◌, ◌||◌, not, unwrap_or, every, if◌then◌else◌,
}
use noobscenic.Json.{Value}
use noobscenic.ChannelB.Codec
use noobscenic.ChannelB.Codec.{Decoder, Result, ok, err}
use noobscenic.ChannelB.Registry.{Registry}
use noobscenic.ChannelB.Conn.{Settings, Effect, store_text, Conn, handle_value}

-- What the tap and the clock say when a frame is handled.
pub record Stamp : Type 0 where
  pub trace : Option Bytes
  pub now : ℤ

-- `u8::is_ascii_whitespace`
unfoldable pub is_ascii_whitespace : ℕ → Bool
is_ascii_whitespace c = c == b' ' || c == b'\t' || c == b'\n' || c == 12 || c == b'\r'

-- What a read leaves: the registry, the connection, its decoder and what the frames caused.
-- `is_open` is false when `read_task` returns, which closes the connection.
pub record Reading : Type 0 where
  pub registry : Registry
  pub conn : Conn
  pub decoder : Decoder
  pub effects : List Effect
  pub is_open : Bool

pub data ReadEvent : Type 0 where
  -- the bytes of one read, none of them at the end of the stream
  bytes : Bytes → ReadEvent
  failed : ReadEvent
  -- the watchdog's sleep ends before the read does
  watchdog : ReadEvent

-- `serde_json::from_slice(..).ok()` and `String::from_utf8_lossy` are the libraries'.
module _ (from_slice : Bytes → Option Value) (from_utf8_lossy : Bytes → Bytes) where
  unfoldable pub handle_frame :
      Settings → Registry → Conn → Bytes → Stamp → Registry × Conn × List Effect
  handle_frame s r c frame stamp = elim (from_slice frame) [
    | none ↦ (r, c, store_text (unwrap_or [] c.sn) (from_utf8_lossy frame) stamp.trace ∷ [])
    | some value ↦ handle_value s r c stamp.trace value stamp.now
  ]

  -- The frames of one read in order; one of blanks only is passed over.
  unfoldable pub handle_frames :
      Settings → Registry → Conn → List Bytes → (ℕ → Stamp) → Registry × Conn × List Effect
  handle_frames s r c [] stamps = (r, c, [])
  handle_frames s r c (frame ∷ frames) stamps =
      let here =
        if every is_ascii_whitespace frame
        then (r, c, [])
        else handle_frame s r c frame (stamps 0) in
      let rest = handle_frames s here.0 here.1 frames (λ i. stamps (suc i)) in
      (rest.0, rest.1, here.2 ++ rest.2)

  -- What a push of the decoder leads to.
  unfoldable pub after_push :
      Settings → Registry → Conn → Decoder × Result (List Bytes) → (ℕ → Stamp) → Reading
  after_push s r c (d, err e) stamps = record {
    registry = r;
    conn = c;
    decoder = d;
    effects = [];
    is_open = false;
  }
  after_push s r c (d, ok frames) stamps =
      let handled = handle_frames s r c frames stamps in
      record {
        registry = handled.0;
        conn = handled.1;
        decoder = d;
        effects = handled.2;
        is_open = true;
      }

  -- One round of the loop in `read_task`.
  unfoldable pub read_round :
      Settings → Registry → Conn → Decoder → ReadEvent → (ℕ → Stamp) → Reading
  unfolding after_push
  read_round s r c d failed stamps = record {
    registry = r;
    conn = c;
    decoder = d;
    effects = [];
    is_open = false;
  }
  read_round s r c d watchdog stamps = record {
    registry = r;
    conn = c;
    decoder = d;
    effects = [];
    is_open = false;
  }
  read_round s r c d (bytes []) stamps = record {
    registry = r;
    conn = c;
    decoder = d;
    effects = [];
    is_open = false;
  }
  read_round s r c d (bytes (b ∷ bs)) stamps = after_push s r c (Codec.push d (b ∷ bs)) stamps

-- When the watchdog may win the `select!`: a time-out is configured, and it has passed since the
-- last ping. `timeout_ms` is the time-out in milliseconds.
unfoldable pub watchdog_due : ℕ → Conn → ℤ → Bool
watchdog_due timeout_ms c now = not (timeout_ms == 0) && leb_ℤ (c.last_ping +ℤ pos timeout_ms) now
