-- ===== src/Db/Devices.antt =====
-- The `devices` table: src/db/queries.rs. `sn` is its primary key.
pub mod Adoption
use noobscenic.Prelude.{
  not, is_some, ◌&&◌, ℤ, Bytes, Bool, true, false, List, [], ◌∷◌, Option, none, some, or_else,
  text_eq, if◌then◌else◌, any, find_first, keep, ltb_ℤ, ◌>>=◌,
}
use noobscenic.Db.Commands.{insert_sn}
use noobscenic.Db.Rows.{upsert, update_where, newest_by}

pub data BindState : Type 0 where
  unbound bound : BindState

-- What `sync` reports.
pub record Attributes : Type 0 where
  pub company_id : Option ℤ
  pub mcu_ver : Option Bytes
  pub app_version : Option Bytes
  pub version_code : Option ℤ
  pub git_sha : Option Bytes
  pub cloud : Option Bytes

pub record Device : Type 0 where
  pub sn : Bytes
  pub ld_sn : Option Bytes
  pub attributes : Attributes
  pub label : Bytes
  pub bind_state : BindState
  pub bind_user : Option Bytes
  pub bound_ms : Option ℤ
  pub unbound_ms : Option ℤ
  pub first_seen_ms : ℤ
  pub last_seen_ms : ℤ

abbrev pub Devices : Type 0
Devices = List Device

abbrev pub is_device : Bytes → Device → Bool
is_device sn d = text_eq d.sn sn

unfoldable pub device_exists : Bytes → Devices → Bool
device_exists sn = any (is_device sn)

abbrev pub no_attributes : Attributes
no_attributes = record {
  company_id = none;
  mcu_ver = none;
  app_version = none;
  version_code = none;
  git_sha = none;
  cloud = none;
}

abbrev pub adopted : Bytes → ℤ → Device
adopted sn now = record {
  sn = sn;
  ld_sn = none;
  attributes = no_attributes;
  label = sn;
  bind_state = unbound;
  bind_user = none;
  bound_ms = none;
  unbound_ms = none;
  first_seen_ms = now;
  last_seen_ms = now;
}

unfoldable pub upsert_device_seen : Bytes → Option Bytes → ℤ → Devices → Devices
upsert_device_seen sn ld_sn now =
    upsert (is_device sn) (λ d. record d { ld_sn = or_else ld_sn d.ld_sn; last_seen_ms = now })
      (record (adopted sn now) { ld_sn = ld_sn })

-- COALESCE of each column.
unfoldable pub merge_attributes : Attributes → Attributes → Attributes
merge_attributes a b = record {
  company_id = or_else a.company_id b.company_id;
  mcu_ver = or_else a.mcu_ver b.mcu_ver;
  app_version = or_else a.app_version b.app_version;
  version_code = or_else a.version_code b.version_code;
  git_sha = or_else a.git_sha b.git_sha;
  cloud = or_else a.cloud b.cloud;
}

unfoldable pub upsert_device_sync : Bytes → Attributes → ℤ → Devices → Devices
upsert_device_sync sn a now =
    upsert (is_device sn)
      (λ d. record d { attributes = merge_attributes a d.attributes; last_seen_ms = now })
      (record (adopted sn now) { attributes = a })

abbrev pub find_device : Bytes → Devices → Option Device
find_device sn = find_first (is_device sn)

abbrev pub state_of : Option Device → Option BindState
state_of none = none
state_of (some d) = some d.bind_state

unfoldable pub bind_state_of : Bytes → Devices → Option BindState
bind_state_of sn t = state_of (find_device sn t)

unfoldable pub record_bind : Bytes → Bool → Option Bytes → ℤ → Devices → Devices
record_bind sn bind user_id now =
    if bind
    then update_where (is_device sn) (λ d. record d {
      bind_state = bound;
      bind_user = user_id;
      bound_ms = some now;
      last_seen_ms = now;
    })
    else update_where (is_device sn) (λ d. record d {
      bind_state = unbound;
      bind_user = none;
      unbound_ms = some now;
      last_seen_ms = now;
    })

-- The user-visible label, and whether there is such a device.
unfoldable pub set_device_label : Bytes → Bytes → Devices → Devices × Bool
set_device_label sn label t =
    (update_where (is_device sn) (λ d. record d { label = label }) t, any (is_device sn) t)

abbrev pub label_of : Option Device → Option Bytes
label_of none = none
label_of (some d) = some d.label

unfoldable pub device_label : Bytes → Devices → Option Bytes
device_label sn t = label_of (find_device sn t)

-- `ORDER BY last_seen_ms DESC LIMIT 1` over the rows that a test picks.
abbrev pub last_seen : (Device → Bool) → Devices → Option Bytes
last_seen p t = newest_by (λ a b. ltb_ℤ a.last_seen_ms b.last_seen_ms) (keep p t) >>= λ d. some d.sn

abbrev pub is_bound_to : Bytes → Device → Bool
is_bound_to id d = elim d.bind_user [ none ↦ false | some user ↦ text_eq user id ]

-- The label first, then the serial, then the account.
unfoldable pub device_sn_by_id : Bytes → Devices → Option Bytes
device_sn_by_id id t =
    or_else (last_seen (λ d. text_eq d.label id) t)
      (or_else (find_device id t >>= λ d. some d.sn) (last_seen (is_bound_to id) t))

-- The serials of the devices with no account, `ORDER BY sn`.
unfoldable pub unbound_devices : Devices → List Bytes
unbound_devices [] = []
unbound_devices (d ∷ t) =
    let rest = unbound_devices t in if is_some d.bind_user then rest else insert_sn d.sn rest

-- A recovered account is adopted only where nothing has been recorded yet.
unfoldable pub is_adoptable : Bytes → Device → Bool
is_adoptable sn d = text_eq d.sn sn && not (is_some d.bind_user)

unfoldable pub adopt_bind : Bytes → Bytes → ℤ → Devices → Devices × Bool
adopt_bind sn user_id bound_ms t = (
  update_where (is_adoptable sn)
      (λ d. record d { bind_user = some user_id; bind_state = bound; bound_ms = some bound_ms }) t,
  any (is_adoptable sn) t,
)

-- What `transition` of src/channel_a/handlers/binding.rs does to the table for a serial.
unfoldable pub transition : Bytes → Bool → Option Bytes → ℤ → Devices → Devices
transition sn bind user_id now t =
    record_bind sn bind user_id now (upsert_device_seen sn none now t)
