-- ===== src/Proto/InfoType.antt =====
-- The `infoType` numbers of the wire protocol, src/proto/info_type.rs.
use noobscenic.Prelude.{
  ℕ, ℤ, pos, negsuc, Bytes, Bool, false, List, [], ◌∷◌, Option, none, some, codes, ◌==◌, any,
  if◌then◌else◌,
}

abbrev pub handshake : ℕ
handshake = 10001

abbrev pub status : ℕ
status = 20001

abbrev pub grid_map : ℕ
grid_map = 20002

abbrev pub event : ℕ
event = 20003

abbrev pub clean_record : ℕ
clean_record = 20004

abbrev pub schedules_write : ℕ
schedules_write = 21001

abbrev pub schedules_read : ℕ
schedules_read = 21002

abbrev pub zones_write : ℕ
zones_write = 21003

abbrev pub zones_read : ℕ
zones_read = 21004

abbrev pub clean : ℕ
clean = 21005

abbrev pub ping : ℕ
ping = 21006

abbrev pub device_attr : ℕ
device_attr = 21010

abbrev pub clean_path : ℕ
clean_path = 21011

abbrev pub find_charge : ℕ
find_charge = 21012

abbrev pub goods_read : ℕ
goods_read = 21015

abbrev pub goods_write : ℕ
goods_write = 21016

abbrev pub clean_control : ℕ
clean_control = 21017

abbrev pub version : ℕ
version = 21018

abbrev pub network_info : ℕ
network_info = 21019

abbrev pub remote_control : ℕ
remote_control = 21020

abbrev pub ota : ℕ
ota = 21021

abbrev pub suction : ℕ
suction = 21022

abbrev pub zone_clean : ℕ
zone_clean = 21023

abbrev pub config : ℕ
config = 21024

abbrev pub backup_restore : ℕ
backup_restore = 21025

abbrev pub local_endpoint : ℕ
local_endpoint = 21026

abbrev pub echo_query : ℕ
echo_query = 21028

abbrev pub area_edit : ℕ
area_edit = 21030

abbrev pub batch : ℕ
batch = 30000

-- `Some(t)` in a match on an optional `infoType`.
abbrev pub is : ℕ → Option ℤ → Bool
is t none = false
is t (some (pos n)) = n == t
is t (some (negsuc n)) = false

-- The arms of `name`, in the source's order.
abbrev pub names : List (ℕ × Bytes)
names =
    (handshake, codes "handshake")
    ∷ (status, codes "status")
    ∷ (grid_map, codes "map")
    ∷ (event, codes "event")
    ∷ (clean_record, codes "clean-record")
    ∷ (schedules_write, codes "schedules-write")
    ∷ (schedules_read, codes "schedules-read")
    ∷ (zones_write, codes "zone-write")
    ∷ (zones_read, codes "zone-read")
    ∷ (clean, codes "clean")
    ∷ (ping, codes "ping")
    ∷ (device_attr, codes "device-attr")
    ∷ (clean_path, codes "clean-path")
    ∷ (find_charge, codes "find-charge")
    ∷ (goods_read, codes "goods-read")
    ∷ (goods_write, codes "goods-write")
    ∷ (clean_control, codes "clean-control")
    ∷ (version, codes "version")
    ∷ (network_info, codes "network-info")
    ∷ (remote_control, codes "remote-control")
    ∷ (ota, codes "ota")
    ∷ (suction, codes "suction")
    ∷ (zone_clean, codes "zone-clean")
    ∷ (config, codes "config")
    ∷ (backup_restore, codes "map-restore")
    ∷ (local_endpoint, codes "local-endpoint")
    ∷ (echo_query, codes "echo-query")
    ∷ (area_edit, codes "area-edit")
    ∷ (batch, codes "batch")
    ∷ []

lookup_name : ℕ → List (ℕ × Bytes) → Option Bytes
lookup_name n [] = none
lookup_name n ((t, s) ∷ rest) = if n == t then some s else lookup_name n rest

unfoldable pub name : ℤ → Option Bytes
unfolding lookup_name
name (pos n) = lookup_name n names
name (negsuc n) = none

-- The alternatives of the pattern in `is_known_reply`.
abbrev pub replies : List ℕ
replies =
    status ∷ schedules_write ∷ schedules_read ∷ zones_write ∷ zones_read ∷ clean ∷ device_attr
    ∷ clean_path ∷ find_charge ∷ goods_read ∷ goods_write ∷ clean_control ∷ version ∷ network_info
    ∷ ota ∷ suction ∷ zone_clean ∷ config ∷ backup_restore ∷ local_endpoint ∷ echo_query ∷ area_edit
    ∷ batch ∷ []

unfoldable pub is_known_reply : ℤ → Bool
is_known_reply (pos n) = any (λ t. n == t) replies
is_known_reply (negsuc n) = false
