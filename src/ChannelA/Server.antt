-- ===== src/ChannelA/Server.antt =====
-- What the HTTP handlers of src/channel_a share: the state that they read and write, the settings,
-- the request and the answers (src/channel_a/handlers/mod.rs).
use noobscenic.Prelude.{ℕ, ℤ, ◌*◌, Bytes, Bool, List, [], Option, ltb, length, if◌then◌else◌, ◌>>=◌}
use noobscenic.Json.{Value, obj, end}
use noobscenic.ChannelA.Form
use noobscenic.ChannelA.Form.{Form, get_field}
use noobscenic.ChannelA.Multipart.{Texts}
use noobscenic.ChannelA.Register
use noobscenic.Db.Commands.{Table}
use noobscenic.Db.Devices.{Devices}
use noobscenic.Db.Sessions.{Sessions}
use noobscenic.Db.Slots.{MapBackup}
use noobscenic.Proto.Dispatch.{Libraries, Store}

-- A row of `uploads_raw`.
pub record Upload : Type 0 where
  pub sn : Option Bytes
  pub endpoint : Bytes
  pub fields_json : Bytes
  pub trace_ref : Option Bytes
  pub received_ms : ℤ

-- The database.
pub record Server (F : Type 0) : Type 0 where
  pub devices : Devices
  pub sessions : Sessions
  pub commands : Table
  pub store : Store F
  pub backups : List MapBackup
  pub uploads : List Upload

pub record AdvertisedAddr : Type 0 where
  pub ip : Bytes
  pub port : ℕ

-- The settings that the handlers read, with the two Cargo features that change a table.
pub record Settings : Type 0 where
  pub history : Bool
  pub debug_raw : Bool
  pub accept_all : Bool
  pub session_ttl_secs : Option ℕ
  pub command_ttl_secs : ℕ
  pub advertise : Option (List AdvertisedAddr)
  pub gateway_port : ℕ

-- What the handlers call of the libraries: those of the dispatcher, serde_json's reader, the lossy
-- decoding, `str::trim` and its like, the text of a header, `str::parse::<i64>` and MD5.
pub record Externals (F : Type 0) : Type 0 where
  pub libraries : Libraries F
  pub from_str : Bytes → Option Value
  pub to_text : Value → Bytes
  pub lossy : Bytes → Bytes
  pub texts : Texts
  pub to_str : Bytes → Option Bytes
  pub parse_i64 : Bytes → Option ℤ
  pub digest : Bytes → Bytes

-- A request as the handlers see it, with what they take from their surroundings: the clock, the
-- random bytes that `rand::fill` writes, and the local address that the system would use to reach
-- the peer, where it tells one. `query` is the parsed query, `trace_ref` the tap's reference.
pub record Request : Type 0 where
  pub method : Bytes
  pub path : Bytes
  pub query : List (Bytes × Bytes)
  pub cookie : Option Bytes
  pub content_type : Option Bytes
  pub body : Bytes
  pub trace_ref : Option Bytes
  pub now : ℤ
  pub minted : List (Bytes × Bytes)
  pub token : Bytes
  pub local_ip : Option Bytes

pub data Answer : Type 0 where
  -- `ok(data)`
  ok : Value → Answer
  -- `code:102`, `code:1` with the status 500, and the answer to a version check
  sid_expired upload_failed no_update : Answer
  registered : Register.Response → Answer
  -- one of the routes of the page, in src/web.rs
  page : Answer
  -- the method is not one of the path's
  not_allowed : Answer
  -- the multipart reader panics
  panics : Answer

abbrev pub done : Answer
done = Answer.ok (obj end)

abbrev pub max_body_bytes : ℕ
max_body_bytes = 16 * 1024 * 1024

-- `to_bytes(…, MAX_BODY_BYTES).unwrap_or_default()`
abbrev pub body_of : Request → Bytes
body_of r = if ltb max_body_bytes (length r.body) then [] else r.body

module _ {F : Type 0} (x : Externals F) where
  abbrev pub form_of : Request → Form
  form_of r = Form.parse x.from_str x.lossy (body_of r)

  -- `Form::get_i64`
  unfoldable pub get_i64 : Bytes → Form → Option ℤ
  get_i64 key form = get_field key form.fields >>= λ v. x.parse_i64 (x.texts.trim v)
