-- ===== src/Web/Restore.antt =====
-- The staged map backups on the page, src/web.rs: the export, the import and the file that the robot
-- fetches. `backup::encode` and `backup::decode` are those of Backup.
pub mod Address
pub mod RoundTrip
use noobscenic.Prelude.{
  ℕ, ◌*◌, ltb, leb, ◌==◌, ℤ, pos, Bytes, Bool, List, [], ◌∷◌, ◌++◌, Option, none, some, codes,
  unwrap_or, ◌&&◌, ◌||◌, not, ◌>>=◌, text_eq, starts_with, length, if◌then◌else◌, Result,
}
use mathlib.Core.List.{reverse}
use noobscenic.Json
use noobscenic.Json.{obj, end, field, str}
use noobscenic.Backup
use noobscenic.Backup.{Hashes, Export, Refusal}
use noobscenic.ChannelA.Form.{split_once}
use noobscenic.ChannelA.Multipart.{lower, split_on}
use noobscenic.ChannelA.Register.{hex_of}
use noobscenic.Db.Devices.{device_sn_by_id, device_label}
use noobscenic.Db.Slots.{MapBackup, upsert_map_backup, load_map_backup, load_map_backup_by_token}
use noobscenic.Web.State.{Web, Env, put, queue}

abbrev pub is_word : ℕ → Bool
is_word c =
    leb b'a' c && leb c b'z'
    || leb b'A' c && leb c b'Z'
    || leb b'0' c && leb c b'9'
    || c == b'-'
    || c == b'_'

-- A byte of a character in UTF-8 that is not its first.
abbrev pub is_continuation : ℕ → Bool
is_continuation c = leb 128 c && leb c 191

-- One `_` for each character that is not kept.
unfoldable pub cleaned : Bytes → Bytes
cleaned [] = []
cleaned (c ∷ s) =
    let rest = cleaned s in
    if is_continuation c then rest else if is_word c then c ∷ rest else b'_' ∷ rest

unfoldable pub trim_start_of : ℕ → Bytes → Bytes
trim_start_of c [] = []
trim_start_of c (b ∷ s) = let rest = trim_start_of c s in if b == c then rest else b ∷ s

-- `trim_matches('_')`
unfoldable pub trim_matches : ℕ → Bytes → Bytes
unfolding trim_start_of
trim_matches c s = reverse (trim_start_of c (reverse (trim_start_of c s)))

unfoldable pub sanitise : Bytes → Bytes
unfolding cleaned trim_matches
sanitise label =
    let name = trim_matches b'_' (cleaned label) in if length name == 0 then codes "robot" else name

unfoldable pub ends_with : Bytes → Bytes → Bool
ends_with s text = starts_with (reverse s) (reverse text)

pub data HostError : Type 0 where
  no_host loopback : HostError

-- The name in front of the port, or in the brackets.
unfoldable pub host_name : Bytes → Bytes
host_name [] = []
host_name (c ∷ s) =
    if c == b'[' then lower (split_once b']' s).0 else lower (split_once b':' (c ∷ s)).0

abbrev pub is_loopback : Bytes → Bool
is_loopback name =
    text_eq name (codes "localhost")
    || ends_with (codes ".localhost") name
    || text_eq name (codes "::1")
    || starts_with (codes "127.") name

-- `trim` is `str::trim`.
unfoldable pub robot_facing_host : (Bytes → Bytes) → Option Bytes → Result Bytes HostError
robot_facing_host trim none = Result.err no_host
robot_facing_host trim (some header) =
    let host = trim header in
    if length host == 0
    then Result.err no_host
    else if is_loopback (host_name host)
    then Result.err loopback
    else Result.ok host

-- The database and the touches, and the table of the staged backups.
pub record Vault (F : Type 0) : Type 0 where
  pub web : Web F
  pub backups : List MapBackup

pub data Answer : Type 0 where
  unknown_robot no_backup : Answer
  -- the name and the bytes of the download
  file : Bytes → Bytes → Answer
  bad_host : HostError → Answer
  bad_export : Refusal → Answer
  -- an export of another robot
  foreign : Bytes → Answer
  -- the command, the address, the digest and the size
  restoring : ℕ → Bytes → Bytes → ℕ → Answer
  -- the panic of an export that is too long for its header
  panics : Answer

abbrev pub max_import_bytes : ℕ
max_import_bytes = 16 * 1024 * 1024

-- `to_bytes(…, limit).unwrap_or_default()`
abbrev pub read_body : Bytes → Bytes
read_body body = if ltb max_import_bytes (length body) then [] else body

unfoldable pub md5_hex : Hashes → Bytes → Bytes
md5_hex h b = hex_of (h.digest b)

abbrev pub down_url : Bytes → Bytes → Bytes → Bytes
down_url host sn token =
    codes "http://" ++ (host ++ (codes "/backup/" ++ (sn ++ (codes "/" ++ token))))

module _ {F : Type 0} (env : Env) (h : Hashes) where
  open env use {to_text, now}

  abbrev pub touched : Bytes → Vault F → Vault F
  touched sn v = record v { web = record (v.web) { watchers = put sn now v.web.watchers } }

  -- The `let Some(sn) = resolve(…)` and the touch that begin both handlers.
  unfoldable pub on_vault :
      Bytes → Vault F → (Bytes → Vault F → Vault F × Answer) → Vault F × Answer
  on_vault id v handle = elim (device_sn_by_id id v.web.devices) [
    | none ↦ (v, unknown_robot)
    | some sn ↦ handle sn (touched sn v)
  ]

  -- `stamp` is the printed time.
  unfoldable pub export_file : Bytes → Bytes → Vault F → Option (Bytes × Bytes) → Answer
  unfolding sanitise
  export_file stamp sn v none = no_backup
  export_file stamp sn v (some (md5, blob)) =
      let label = unwrap_or sn (device_label sn v.web.devices) in
      let name = sanitise label ++ (codes "-" ++ (stamp ++ codes ".nbmap")) in
      elim (Backup.encode h sn blob) [ none ↦ panics | some bytes ↦ file name bytes ]

  unfoldable pub backup_export : Bytes → Bytes → Vault F → Vault F × Answer
  unfolding on_vault export_file
  backup_export id stamp v =
      on_vault id v (λ sn u. (u, export_file stamp sn u (load_map_backup sn u.backups)))

  -- Behind the tests: the blob is staged and the command queued.
  unfoldable pub restore : Bytes → Bytes → Bytes → Bytes → Vault F → Vault F × Answer
  unfolding md5_hex
  restore sn host random blob v =
      let md5 = md5_hex h blob in
      let token = hex_of random in
      let url = down_url host sn token in
      let payload =
        to_text (obj (field (codes "downUrl") (str url) (field (codes "md5") (str md5) end))) in
      let r = queue env sn (pos 21025) payload v.web in
      (
        record { web = r.0; backups = upsert_map_backup sn none md5 token blob now v.backups },
        restoring r.1 url md5 (length blob),
      )

  -- `header` is the request's Host, and `random` what `rand::fill` writes.
  unfoldable pub backup_import :
      (Bytes → Bytes) → Bytes → Option Bytes → Bytes → Bytes → Vault F → Vault F × Answer
  unfolding on_vault restore
  backup_import trim id header random body v = on_vault id v λ sn u.
      elim (robot_facing_host trim header) [
        | Result.err e ↦ (u, bad_host e)
        | Result.ok host ↦ elim (Backup.decode h (read_body body)) [
          | Backup.err e ↦ (u, bad_export e)
          | Backup.ok export ↦
              if text_eq export.sn sn
              then restore sn host random export.blob u
              else (u, foreign export.sn)
        ]
      ]

-- What the robot downloads.
unfoldable pub backup_blob : {F : Type 0} → Bytes → Bytes → Vault F → Option Bytes
backup_blob sn token v = load_map_backup_by_token sn token v.backups

-- The pattern `/backup/{sn}/{token}`, on the segments of a path: a parameter is not empty.
abbrev pub backup_params : List Bytes → Option (Bytes × Bytes)
backup_params (root ∷ name ∷ sn ∷ token ∷ []) =
    if text_eq root []
      && (text_eq name (codes "backup") && (not (length sn == 0) && not (length token == 0)))
    then some (sn, token)
    else none
backup_params _ = none

-- A GET of a path of that route; `percent` is the router's decoding of a parameter.
unfoldable pub download : {F : Type 0} → (Bytes → Bytes) → Bytes → Vault F → Option Bytes
download percent path v =
    backup_params (split_on b'/' path) >>= λ q. backup_blob (percent q.0) (percent q.1) v
