-- ===== src/Tests/Server.antt =====
-- A login, uploads and a recovery: src/channel_a and src/web.rs at concrete inputs.
use noobscenic.Prelude.{
  ℕ, pos, Bytes, true, false, [], ◌∷◌, ◌++◌, Option, none, some, codes, ◌≡◌, ◌≢◌, ◌⊎◌, refl,
  replicate, arith, text_eq, starts_with, find_first, any, keep, unwrap_or, ◌-ℤ◌,
}
use noobscenic.Json.{Value}
use noobscenic.Proto.Dispatch.{Libraries}
use noobscenic.Db.Events.{Event}
use noobscenic.Db.Sessions.{insert_session}
use noobscenic.Db.Slots.{load_map_backup, load_map_backup_by_token}
use noobscenic.ChannelA.Cookie.{cookies_prefix}
use noobscenic.ChannelA.Credentials.{valid, is_over}
use noobscenic.ChannelA.Form.{Form, get_field, parse_from, split_once, percent_decode, decode_bytes}
use noobscenic.ChannelA.Form
use noobscenic.ChannelA.Multipart.{
  Texts, Part, Parsed, parse, crlf, boundary, disposition, find_from, find_in, split_on,
  strip_return, lines_of, lower, unquote, drop_quotes, drop_last_quotes,
}
use noobscenic.ChannelA.Register.{Minted, mint, minted, hex_of, attempts}
use noobscenic.ChannelA.Register
use noobscenic.ChannelA.Server.{
  Server, Settings, Externals, Request, Answer, done, body_of, form_of,
}
use noobscenic.ChannelA.Handlers.{register}
use noobscenic.ChannelA.Uploads.{upload_raw, find_part, md5_of, serial_of}
use noobscenic.ChannelA.Uploads.Staging.{declared, upload_raw-stages}
use noobscenic.ChannelA.Router.{serve, route, handle, is_open}
use noobscenic.ChannelA.Router.Gate.{checked, serve-registered}

abbrev libraries : Libraries ℕ
libraries = record {
  as_f64 = λ v. none;
  to_string = λ v. none;
  areas_to_string = λ v. none;
  points_to_string = λ a. [];
  points_from_str = λ s. none;
  upload_from_value = λ v. none;
  decode64 = λ s. none;
}

abbrev texts : Texts
texts = record { trim = λ s. s; trim_start = λ s. s; is_utf8 = λ s. true }

abbrev from_str : Bytes → Option Value
from_str s = none

abbrev lossy : Bytes → Bytes
lossy s = s

abbrev externals : Externals ℕ
externals = record {
  libraries = libraries;
  from_str = from_str;
  to_text = λ v. codes "{}";
  lossy = lossy;
  texts = texts;
  to_str = λ s. some s;
  parse_i64 = λ s. none;
  digest = λ b. replicate 16 7;
}

abbrev settings : Settings
settings = record {
  history = true;
  debug_raw = false;
  accept_all = true;
  session_ttl_secs = some 60;
  command_ttl_secs = 60;
  advertise = none;
  gateway_port = 8081;
}

abbrev empty : Server ℕ
empty = record {
  devices = [];
  sessions = [];
  commands = [];
  store = record {
    events = [];
    paths = record { states = []; paths = [] };
    areas = [];
    goods = [];
    device_info = [];
    maps = [];
  };
  backups = [];
  uploads = [];
}

abbrev login : Request
login = record {
  method = codes "POST";
  path = codes "/cleanPack/register";
  query = [];
  cookie = none;
  content_type = none;
  body = codes "sn=A";
  trace_ref = none;
  now = pos 2000;
  minted = (replicate 16 7, replicate 16 9) ∷ [];
  token = 1 ∷ [];
  local_ip = none;
}

abbrev session : Minted
session = mint (replicate 16 7, replicate 16 9)

abbrev next : Request
next = record login {
  path = codes "/cleanPack/sync";
  cookie = some (cookies_prefix ++ session.cookie);
  now = pos 3000;
}

named : get_field (codes "sn") (form_of externals login).fields ≡ some (codes "A")
unfolding get_field Form.parse parse_from split_once percent_decode text_eq decode_bytes
named = refl

logged_in : (serve settings externals login empty).1 ≡ Answer.registered (minted session)
unfolding serve is_open route handle register Register.register attempts insert_session Form.parse
    parse_from split_once percent_decode get_field text_eq any find_first starts_with hex_of
    decode_bytes
logged_in = refl

serve-registered_example :
    let s = (serve settings externals login empty).0 in
    ((checked settings externals next s).0 ≡ valid (codes "A"))
    × (serve settings externals next s
        ≡ route settings externals next
            (record s { sessions = (checked settings externals next s).1 }))
unfolding is_open is_over text_eq starts_with ◌-ℤ◌
serve-registered_example =
    serve-registered settings externals login next empty session (codes "A")
      (cookies_prefix ++ session.cookie) refl logged_in (refl, tt) named refl refl refl refl

abbrev head : Bytes → Bytes
head name =
    codes "--b" ++ crlf ++ codes "Content-Disposition: form-data;name=" ++ name ++ crlf ++ crlf

abbrev backup : Part
backup = record { name = codes "backupMap"; filename = none; content = 9 ∷ [] }

abbrev upload : Request
upload = record login {
  path = codes "/cleanPack/uploadSingle";
  content_type = some (codes "multipart/x;boundary=b");
  body = head (codes "backupMap") ++ (9 ∷ []) ++ crlf ++ codes "--b--";
}

is_parsed :
    parse texts (codes "multipart/x;boundary=b") (body_of upload) ≡ Parsed.parts (backup ∷ [])
unfolding parse boundary disposition find_from find_in split_on strip_return lines_of lower unquote
    drop_quotes drop_last_quotes starts_with find_first text_eq
is_parsed = refl

has_backup : find_part (codes "backupMap") (backup ∷ []) ≡ some backup
unfolding find_part find_first text_eq
has_backup = refl

upload_raw-stages_example :
    let sn = unwrap_or (codes "-") (serial_of settings externals (backup ∷ [])) in
    let q = upload_raw settings externals upload empty in
    ((declared settings externals (backup ∷ []) ≡ some (md5_of settings externals backup))
      × (q.1 ≡ done)
      × (load_map_backup sn q.0.backups ≡ some (md5_of settings externals backup, backup.content))
      × (load_map_backup_by_token sn (hex_of upload.token) q.0.backups ≡ some backup.content))
    ⊎ ((declared settings externals (backup ∷ []) ≢ some (md5_of settings externals backup))
        × (q.1 ≡ Answer.upload_failed)
        × (q.0.backups ≡ empty.backups))
unfolding keep
upload_raw-stages_example =
    upload_raw-stages settings externals upload empty (backup ∷ []) backup is_parsed has_backup
      (omega arith)

abbrev bind : Event
bind = record {
  id = 1;
  sn = none;
  channel = codes "A";
  endpoint = some (codes "/cleanPack/binding");
  info_type = none;
  event_code = none;
  task_id = none;
  user_id = none;
  device_ts = none;
  payload = some (codes "sn=A&userId=u");
  trace_ref = none;
  received_ms = pos 7;
}
