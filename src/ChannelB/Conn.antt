-- ===== src/ChannelB/Conn.antt =====
-- One device connection, src/channel_b/conn.rs: the frames of the robot and the answers to them.
pub mod Reader
pub mod Answers
use noobscenic.Prelude.{
  ℕ, ℤ, pos, Bytes, Bool, true, false, List, [], ◌∷◌, Option, none, some, text_eq, codes, ◌==◌,
  ◌>>=◌, unwrap_or, if◌then◌else◌, length,
}
use noobscenic.Json
use noobscenic.Json.{Value, Fields, null, bool, int, obj, end, field}
use noobscenic.Proto.InfoType
use noobscenic.Proto.Incoming.{Incoming}
use noobscenic.ChannelB.Envelope.{envelope, message}
use noobscenic.ChannelB.Registry.{Registry, Registration, register, drop_registration, handle}

-- The parts of the configuration and of the console's switches that the gateway reads.
pub record Settings : Type 0 where
  pub ack_handshake : Bool
  pub announce_app_online : Bool
  pub pongs : Bool

-- What a frame causes outside the connection and the registry.
pub data Effect : Type 0 where
  -- `self.send(value)`: the frame joins the queue of the connection's writer
  send : Value → Effect
  -- `insert_event` for a frame that is no JSON: the serial, the text and the trace reference
  store_text : Bytes → Bytes → Option Bytes → Effect
  -- `proto::dispatch`
  dispatch : Incoming → Effect

pub record Conn : Type 0 where
  pub conn_id : ℕ
  pub peer : Bytes
  pub sn : Option Bytes
  pub registration : Option Registration
  pub last_ping : ℤ

abbrev pub open_conn : ℕ → Bytes → ℤ → Conn
open_conn conn_id peer now = record {
  conn_id = conn_id;
  peer = peer;
  sn = none;
  registration = none;
  last_ping = now;
}

-- `self.sn.as_deref() == Some(sn)`
unfoldable pub is_bound : Option Bytes → Bytes → Bool
is_bound none sn = false
is_bound (some bound) sn = text_eq bound sn

-- The new entry first, then the old guard, which the assignment of the new one drops.
unfoldable pub bind : Registry → Conn → Bytes → ℤ → Registry × Conn
unfolding is_bound
bind r c sn now = if is_bound c.sn sn then (r, c) else (
  drop_registration c.registration (register sn (handle c.conn_id c.peer now) r).0,
  record c { registration = some (record { sn = sn; conn_id = c.conn_id }); sn = some sn },
)

-- `data.sn` of the handshake, or the empty text.
unfoldable pub handshake_sn : Value → Bytes
handshake_sn value =
    unwrap_or []
      (Json.get (codes "data") value >>= λ inner. Json.get (codes "sn") inner >>= Json.as_str)

abbrev pub handshake_ack : Value
handshake_ack = envelope (pos 0) (message (pos InfoType.handshake) (obj end) none)

unfoldable pub handshake : Settings → Registry → Conn → Value → ℤ → Registry × Conn × List Effect
handshake s r c value now =
    let sn = handshake_sn value in
    let bound = if length sn == 0 then (r, c) else bind r c sn now in
    (bound.0, bound.1, if s.ack_handshake then send handshake_ack ∷ [] else [])

abbrev pub pong_frame : Settings → Value
pong_frame s = envelope (pos 0) (
    message (pos InfoType.ping)
      (obj (if s.announce_app_online then field (codes "isExistConnect") (bool true) end else end))
      none)

unfoldable pub pong : Settings → Conn → ℤ → Conn × List Effect
pong s c now = (record c { last_ping = now }, if s.pongs then send (pong_frame s) ∷ [] else [])

-- `info_type` of a parsed frame.
abbrev pub frame_type : Value → Option ℤ
frame_type value = Json.get (codes "infoType") value >>= Json.as_i64

-- The `match info_type` of `handle_frame`.
unfoldable pub handle_value :
    Settings → Registry → Conn → Option Bytes → Value → ℤ → Registry × Conn × List Effect
handle_value s r c trace value now =
    if InfoType.is InfoType.handshake (frame_type value)
    then handshake s r c value now
    else if InfoType.is InfoType.ping (frame_type value)
    then (r, (pong s c now).0, (pong s c now).1)
    else (
      r,
      c,
      dispatch (record {
        sn = unwrap_or [] c.sn;
        channel = codes "B";
        endpoint = none;
        trace_ref = trace;
        info_type = frame_type value;
        payload = unwrap_or null (Json.get (codes "data") value);
        event = none;
        task_id = none;
        device_ts = none;
        user_id = none;
      })
          ∷ [],
    )
