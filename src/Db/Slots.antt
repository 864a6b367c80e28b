-- ===== src/Db/Slots.antt =====
-- The tables of src/db/queries.rs with one row per device, `sn` their primary key: the zone list,
-- the consumables, the network information and the staged map backup.
pub mod Versions
use noobscenic.Prelude.{
  ℕ, ◌+◌, ℤ, Bytes, Bool, List, Option, none, some, ◌&&◌, text_eq, find_first, length, ◌>>=◌,
}
use noobscenic.Db.Rows.{upsert}

-- `area_settings`; the source's AreaSettings are its columns that are read.
pub record AreaSettings : Type 0 where
  pub sn : Bytes
  pub version : ℕ
  pub read_ms : Option ℤ
  pub payload : Option Bytes
  pub trace_ref : Option Bytes
  pub previous_payload : Option Bytes
  pub previous_ms : Option ℤ

abbrev pub is_area : Bytes → AreaSettings → Bool
is_area sn a = text_eq a.sn sn

unfoldable pub load_area_settings : Bytes → List AreaSettings → Option AreaSettings
load_area_settings sn = find_first (is_area sn)

-- The `VALUES` of both statements.
unfoldable pub first_area : Bytes → ℤ → Bytes → Option Bytes → AreaSettings
first_area sn now payload trace_ref = record {
  sn = sn;
  version = 1;
  read_ms = some now;
  payload = some payload;
  trace_ref = trace_ref;
  previous_payload = none;
  previous_ms = none;
}

unfoldable pub read_back : ℤ → Bytes → Option Bytes → AreaSettings → AreaSettings
read_back now payload trace_ref a = record a {
  version = a.version + 1;
  read_ms = some now;
  payload = some payload;
  trace_ref = trace_ref;
}

-- The trace of the list before the write stays.
unfoldable pub written_over : ℤ → Bytes → AreaSettings → AreaSettings
written_over now payload a = record a {
  previous_payload = a.payload;
  previous_ms = a.read_ms;
  version = a.version + 1;
  read_ms = some now;
  payload = some payload;
}

abbrev pub version_of : Option AreaSettings → ℕ
version_of none = 0
version_of (some a) = a.version

-- `RETURNING version` is the version of the device's row behind the statement.
unfoldable pub store_area_settings :
    Bytes → Bytes → Option Bytes → ℤ → List AreaSettings → List AreaSettings × ℕ
unfolding load_area_settings
store_area_settings sn payload trace_ref now t =
    let u =
      upsert (is_area sn) (read_back now payload trace_ref) (first_area sn now payload trace_ref)
        t in
    (u, version_of (load_area_settings sn u))

unfoldable pub record_zone_write : Bytes → Bytes → ℤ → List AreaSettings → List AreaSettings × ℕ
unfolding load_area_settings
record_zone_write sn payload now t =
    let u = upsert (is_area sn) (written_over now payload) (first_area sn now payload none) t in
    (u, version_of (load_area_settings sn u))

-- A row of `goods` and of `device_info`.
pub record Snapshot : Type 0 where
  pub sn : Bytes
  pub read_ms : Option ℤ
  pub payload : Option Bytes
  pub trace_ref : Option Bytes

abbrev pub is_snapshot : Bytes → Snapshot → Bool
is_snapshot sn s = text_eq s.sn sn

unfoldable pub store_snapshot : Bytes → Bytes → Option Bytes → ℤ → List Snapshot → List Snapshot
store_snapshot sn payload trace_ref now =
    upsert (is_snapshot sn)
      (λ s. record s { read_ms = some now; payload = some payload; trace_ref = trace_ref })
      (record { sn = sn; read_ms = some now; payload = some payload; trace_ref = trace_ref })

unfoldable pub load_snapshot : Bytes → List Snapshot → Option (Option ℤ × Option Bytes)
load_snapshot sn t = find_first (is_snapshot sn) t >>= λ s. some (s.read_ms, s.payload)

abbrev pub store_goods : Bytes → Bytes → Option Bytes → ℤ → List Snapshot → List Snapshot
store_goods = store_snapshot

abbrev pub load_goods : Bytes → List Snapshot → Option (Option ℤ × Option Bytes)
load_goods = load_snapshot

abbrev pub store_device_info : Bytes → Bytes → Option Bytes → ℤ → List Snapshot → List Snapshot
store_device_info = store_snapshot

abbrev pub load_device_info : Bytes → List Snapshot → Option (Option ℤ × Option Bytes)
load_device_info = load_snapshot

pub record MapBackup : Type 0 where
  pub sn : Bytes
  pub received_ms : ℤ
  pub record_name : Option Bytes
  pub md5 : Bytes
  pub size : ℕ
  pub token : Bytes
  pub blob : Bytes

abbrev pub is_backup : Bytes → MapBackup → Bool
is_backup sn b = text_eq b.sn sn

unfoldable pub new_backup : Bytes → Option Bytes → Bytes → Bytes → Bytes → ℤ → MapBackup
new_backup sn record_name md5 token blob now = record {
  sn = sn;
  received_ms = now;
  record_name = record_name;
  md5 = md5;
  size = length blob;
  token = token;
  blob = blob;
}

unfoldable pub upsert_map_backup :
    Bytes → Option Bytes → Bytes → Bytes → Bytes → ℤ → List MapBackup → List MapBackup
unfolding new_backup
upsert_map_backup sn record_name md5 token blob now =
    upsert (is_backup sn)
      (λ b. record b {
        received_ms = now;
        record_name = record_name;
        md5 = md5;
        size = length blob;
        token = token;
        blob = blob;
      })
      (new_backup sn record_name md5 token blob now)

unfoldable pub load_map_backup_meta :
    Bytes → List MapBackup → Option (ℤ × (Option Bytes × (Bytes × ℕ)))
load_map_backup_meta sn t =
    find_first (is_backup sn) t >>= λ b. some (b.received_ms, (b.record_name, (b.md5, b.size)))

unfoldable pub load_map_backup : Bytes → List MapBackup → Option (Bytes × Bytes)
load_map_backup sn t = find_first (is_backup sn) t >>= λ b. some (b.md5, b.blob)

unfoldable pub load_map_backup_by_token : Bytes → Bytes → List MapBackup → Option Bytes
load_map_backup_by_token sn token t =
    find_first (λ b. text_eq b.sn sn && text_eq b.token token) t >>= λ b. some b.blob
