-- ===== src/ChannelB/Conn/Answers.antt =====
-- What the frames of the robot are answered with, and what keeps its connection alive.
use noobscenic.Prelude.{
  ℕ, suc, ℤ, ◌≡◌, refl, ◌∙◌, Bytes, Bool, true, false, List, [], ◌∷◌, ◌++◌, Option, none, some,
  arith, ◌&&◌, every, All, if◌then◌else◌, Bool-cases, inl, inr, Option-cases, ◌+◌,
}
use noobscenic.Json.{Value}
use noobscenic.Proto.InfoType
use noobscenic.ChannelB.Codec.{Decoder, ok, err}
use noobscenic.ChannelB.Codec
use noobscenic.ChannelB.Registry.{Registry}
use noobscenic.ChannelB.Conn.{
  Settings, Effect, send, store_text, dispatch, Conn, bind, handshake, handshake_sn, pong,
  frame_type, handle_value,
}
use noobscenic.ChannelB.Conn.Reader.{
  Stamp, is_ascii_whitespace, handle_frame, handle_frames, after_push, ReadEvent, bytes, read_round,
}

abbrev pub is_ping : Option Value → Bool
is_ping none = false
is_ping (some value) = InfoType.is InfoType.ping (frame_type value)

last_ping-bind :
    (r : Registry) (c : Conn) (sn : Bytes) (now : ℤ) → (bind r c sn now).1.last_ping ≡ c.last_ping
unfolding bind
last_ping-bind r c sn now = ground arith

handshake_no_ping :
    (t : Option ℤ) → InfoType.is InfoType.handshake t ≡ true → InfoType.is InfoType.ping t ≡ false
handshake_no_ping t h = ground arith

last_ping-handle_value :
    (s : Settings) (r : Registry) (c : Conn) (trace : Option Bytes) (value : Value) (now : ℤ)
    → (handle_value s r c trace value now).1.last_ping
      ≡ (if is_ping (some value) then now else c.last_ping)
unfolding handle_value handshake pong
last_ping-handle_value s r c trace value now =
    ground
      (arith, last_ping-bind r c (handshake_sn value) now, handshake_no_ping (frame_type value))

module _ (from_slice : Bytes → Option Value) (from_utf8_lossy : Bytes → Bytes) where
  -- A ping, and nothing else that the robot sends, restarts the watchdog's clock.
  pub last_ping-handle_frame :
      (s : Settings) (r : Registry) (c : Conn) (frame : Bytes) (stamp : Stamp)
      → (handle_frame from_slice from_utf8_lossy s r c frame stamp).1.last_ping
        ≡ (if is_ping (from_slice frame) then stamp.now else c.last_ping)
  unfolding handle_frame
  last_ping-handle_frame s r c frame stamp = elim (Option-cases (from_slice frame)) [
    | inl text ↦ rw (text, handle_frame)
    | inr (value, json) ↦
        rw (json, handle_frame) (last_ping-handle_value s r c stamp.trace value stamp.now)
  ]

  last_ping-handle_frames :
      (s : Settings) (r : Registry) (c : Conn) (frames : List Bytes) (stamps : ℕ → Stamp)
      → All (λ f. is_ping (from_slice f) ≡ false) frames
      → (handle_frames from_slice from_utf8_lossy s r c frames stamps).1.last_ping ≡ c.last_ping
  unfolding handle_frames
  last_ping-handle_frames s r c [] stamps h = refl
  last_ping-handle_frames s r c (f ∷ fs) stamps h =
      elim (Bool-cases (every is_ascii_whitespace f)) [
        | inl blank ↦ rw blank (last_ping-handle_frames s r c fs (λ i. stamps (suc i)) h.1)
        | inr text ↦
            let first = handle_frame from_slice from_utf8_lossy s r c f (stamps 0) in
            rw text (
              last_ping-handle_frames s first.0 first.1 fs (λ i. stamps (suc i)) h.1
              ∙ last_ping-handle_frame s r c f (stamps 0)
              ∙ rw (h.0))
      ]

  after_push-last_ping :
      (s : Settings) (r : Registry) (c : Conn) (p : Decoder × Codec.Result (List Bytes))
      (stamps : ℕ → Stamp)
      → ((fs : List Bytes) → p.1 ≡ ok fs → All (λ f. is_ping (from_slice f) ≡ false) fs)
      → (after_push from_slice from_utf8_lossy s r c p stamps).conn.last_ping ≡ c.last_ping
  unfolding after_push
  after_push-last_ping s r c (d, err e) stamps h = refl
  after_push-last_ping s r c (d, ok fs) stamps h =
      last_ping-handle_frames s r c fs stamps (h fs refl)

  -- A read that completes no ping leaves the watchdog's clock as it was, whatever else it brings.
  pub read_round-keeps_watchdog :
      (s : Settings) (r : Registry) (c : Conn) (d : Decoder) (e : ReadEvent) (stamps : ℕ → Stamp)
      → ((chunk : Bytes) (fs : List Bytes)
          → e ≡ bytes chunk
          → (Codec.push d chunk).1 ≡ ok fs
          → All (λ f. is_ping (from_slice f) ≡ false) fs)
      → (read_round from_slice from_utf8_lossy s r c d e stamps).conn.last_ping ≡ c.last_ping
  unfolding read_round
  read_round-keeps_watchdog s r c d (bytes []) stamps h = refl
  read_round-keeps_watchdog s r c d (bytes (b ∷ bs)) stamps h =
      after_push-last_ping s r c (Codec.push d (b ∷ bs)) stamps (λ fs. h (b ∷ bs) fs refl)
  read_round-keeps_watchdog s r c d _ stamps h = refl

-- The frames that are sent back.
abbrev pub replies : List Effect → ℕ
replies [] = 0
replies (send value ∷ es) = suc (replies es)
replies (store_text _ _ _ ∷ es) = replies es
replies (dispatch _ ∷ es) = replies es

replies-append : (es fs : List Effect) → replies (es ++ fs) ≡ replies es + replies fs
replies-append [] fs = omega arith
replies-append (send value ∷ es) fs = omega (arith, replies-append es fs)
replies-append (store_text _ _ _ ∷ es) fs = replies-append es fs
replies-append (dispatch _ ∷ es) fs = replies-append es fs

-- The answers that the settings allow for one frame.
abbrev pub due : Settings → Option Value → ℕ
due s none = 0
due s (some value) =
    (if s.ack_handshake && InfoType.is InfoType.handshake (frame_type value) then 1 else 0)
    + (if s.pongs && InfoType.is InfoType.ping (frame_type value) then 1 else 0)

module _ (from_slice : Bytes → Option Value) (from_utf8_lossy : Bytes → Bytes) where
  abbrev pub all_due : Settings → List Bytes → ℕ
  all_due s [] = 0
  all_due s (f ∷ fs) =
      (if every is_ascii_whitespace f then 0 else due s (from_slice f)) + all_due s fs

  replies-handle_frame :
      (s : Settings) (r : Registry) (c : Conn) (frame : Bytes) (stamp : Stamp)
      → replies (handle_frame from_slice from_utf8_lossy s r c frame stamp).2
        ≡ due s (from_slice frame)
  unfolding handle_frame handle_value handshake pong
  replies-handle_frame s r c frame stamp = elim (Option-cases (from_slice frame)) [
    | inl text ↦ rw (text, handle_frame)
    | inr (value, json) ↦
        rw (json, handle_frame) (ground (arith, handshake_no_ping (frame_type value)))
  ]

  -- Each handshake and each ping in a read is answered once, as far as the settings allow, and
  -- no other frame is answered.
  pub replies-handle_frames :
      (s : Settings) (r : Registry) (c : Conn) (frames : List Bytes) (stamps : ℕ → Stamp)
      → replies (handle_frames from_slice from_utf8_lossy s r c frames stamps).2 ≡ all_due s frames
  unfolding handle_frames
  replies-handle_frames s r c [] stamps = refl
  replies-handle_frames s r c (f ∷ fs) stamps = elim (Bool-cases (every is_ascii_whitespace f)) [
    | inl blank ↦ rw blank (omega (arith, replies-handle_frames s r c fs (λ i. stamps (suc i))))
    | inr text ↦ rw text (
        replies-append (handle_frame from_slice from_utf8_lossy s r c f (stamps 0)).2 _
        ∙ omega (
          arith,
          replies-handle_frame s r c f (stamps 0),
          replies-handle_frames s (handle_frame from_slice from_utf8_lossy s r c f (stamps 0)).0
              (handle_frame from_slice from_utf8_lossy s r c f (stamps 0)).1 fs
              (λ i. stamps (suc i)),
        ))
  ]
