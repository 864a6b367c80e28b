-- ===== src/Tests/Gateway.antt =====
-- Connections that dial in, greet and leave: src/channel_b at concrete inputs.
use noobscenic.Prelude.{
  ℕ, pos, Bytes, true, false, List, [], ◌∷◌, Option, none, some, ◌≡◌, ◌≢◌, refl, codes, arith,
  text_eq, starts_with, if◌then◌else◌, All, subst, sym, ap, ◌∙◌,
}
use noobscenic.Json
use noobscenic.Json.{Value, str, int, obj, end, field, find}
use noobscenic.Proto.InfoType
use noobscenic.ChannelB.Codec
use noobscenic.ChannelB.Codec.{new, push, scan, find_delimiter}
use noobscenic.ChannelB.Registry.{ConnHandle, get, handle, register, take_out, drop_registration}
use noobscenic.ChannelB.Conn.{
  Settings, Conn, open_conn, handle_value, handshake, handshake_sn, bind, is_bound, frame_type,
}
use noobscenic.ChannelB.Conn.Reader.{Stamp, ReadEvent, bytes, handle_frames}
use noobscenic.ChannelB.Conn.Answers.{is_ping, all_due, replies, replies-handle_frames}
use noobscenic.ChannelB.Gateway.{
  Gateway, init, accept, receive, close, accepts, receives, Reach, here, next,
}
use noobscenic.ChannelB.Gateway.Addressing.{registry_live, close_keeps_others, handshake_registers}

abbrev settings : Settings
settings = record { ack_handshake = true; announce_app_online = true; pongs = true }

abbrev hello : Value
hello = obj (
    field (codes "data") (obj (field (codes "sn") (str (codes "A")) end))
      (field (codes "infoType") (int (pos InfoType.handshake)) end))

abbrev ping : Value
ping = obj (field (codes "infoType") (int (pos InfoType.ping)) end)

abbrev caller : Conn
caller = open_conn 1 (codes "peer") (pos 0)

abbrev dialled : Gateway
dialled = accept init (codes "peer") (pos 0)

abbrev greeted : Gateway
greeted = receive dialled settings 1 caller none hello (pos 5)

abbrev bound_caller : Conn
bound_caller = (handle_value settings [] caller none hello (pos 5)).1

dialled-Reach : Reach init dialled
dialled-Reach = next here (accepts (codes "peer") (pos 0) refl)

greeted-Reach : Reach init greeted
unfolding accept
greeted-Reach = next dialled-Reach (receives settings 1 caller none hello (pos 5) refl refl)

greeted-get : get (codes "A") greeted.registry ≡ some (handle 1 (codes "peer") (pos 5))
unfolding get receive accept handle_value handshake handshake_sn Json.get find text_eq bind is_bound
    register take_out drop_registration Json.as_i64 Json.as_str
greeted-get = refl

registry_live_example :
    (c : Conn) × (greeted.conns 1 ≡ some c) × (c.conn_id ≡ 1) × (c.sn ≡ some (codes "A"))
registry_live_example =
    registry_live greeted (codes "A") (handle 1 (codes "peer") (pos 5)) greeted-Reach greeted-get

close_keeps_others_example :
    ((h : ConnHandle)
      → get (codes "A") greeted.registry ≡ some h
      → h.conn_id ≢ 1
      → get (codes "A") (close greeted 1 bound_caller).registry ≡ some h)
    × ((h : ConnHandle)
        → get (codes "A") (close greeted 1 bound_caller).registry ≡ some h
        → h.conn_id ≢ 1)
unfolding receive accept
close_keeps_others_example =
    close_keeps_others greeted 1 bound_caller (codes "A") greeted-Reach refl

hello_type : InfoType.is InfoType.handshake (frame_type hello) ≡ true
unfolding Json.get find text_eq Json.as_i64
hello_type = refl

hello_sn : handshake_sn hello ≡ codes "A"
unfolding handshake_sn Json.get find text_eq Json.as_str
hello_sn = refl

handshake_registers_example :
    (get (handshake_sn hello) (receive dialled settings 1 caller none hello (pos 5)).registry
      ≡ some (handle 1 (codes "peer") (pos 5)))
    × ((sn : Bytes) (h : ConnHandle)
        → sn ≢ handshake_sn hello
        → get sn dialled.registry ≡ some h
        → h.conn_id ≢ 1
        → get sn (receive dialled settings 1 caller none hello (pos 5)).registry ≡ some h)
unfolding accept
handshake_registers_example =
    handshake_registers dialled settings 1 caller none hello (pos 5) dialled-Reach refl hello_type
      (ground (arith, hello_sn)) (ground arith)

-- A parser that knows two texts.
abbrev from_slice : Bytes → Option Value
from_slice text =
    if text_eq text (codes "ping")
    then some ping
    else if text_eq text (codes "hello")
    then some hello
    else none

abbrev same_text : Bytes → Bytes
same_text text = text

abbrev stamps : ℕ → Stamp
stamps i = record { trace = none; now = pos 9 }

abbrev chunk_of : ReadEvent → Bytes
chunk_of (bytes chunk) = chunk
chunk_of _ = []

abbrev pushed_frames : Codec.Result (List Bytes) → List Bytes
pushed_frames (Codec.ok fs) = fs
pushed_frames (Codec.err e) = []

part-push : pushed_frames (push (new 64) (codes "pin")).1 ≡ []
unfolding push scan find_delimiter starts_with
part-push = refl

no_frame :
    (chunk : Bytes) (fs : List Bytes)
    → bytes (codes "pin") ≡ bytes chunk
    → (push (new 64) chunk).1 ≡ Codec.ok fs
    → All (λ f. is_ping (from_slice f) ≡ false) fs
no_frame chunk fs e q =
    subst (All (λ f. is_ping (from_slice f) ≡ false))
      (sym part-push
        ∙ ap (λ c. pushed_frames (push (new 64) c).1) (ap chunk_of e)
        ∙ ap pushed_frames q)
      tt

replies-handle_frames_example :
    replies
      (handle_frames from_slice same_text settings [] caller
        (codes "ping" ∷ codes " " ∷ codes "x" ∷ [])
        stamps).2
    ≡ all_due from_slice same_text settings (codes "ping" ∷ codes " " ∷ codes "x" ∷ [])
replies-handle_frames_example =
    replies-handle_frames from_slice same_text settings [] caller
      (codes "ping" ∷ codes " " ∷ codes "x" ∷ []) stamps
