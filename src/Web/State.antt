-- ===== src/Web/State.antt =====
-- What the handlers of src/web.rs share: the state that they read and write, the lookup of a robot,
-- its latest mode, and the answers.
use noobscenic.Prelude.{
  ℕ, ℤ, pos, Bytes, Bool, false, List, [], ◌∷◌, Option, none, some, codes, ◌>>=◌, text_eq, any,
  if◌then◌else◌,
}
use noobscenic.Json
use noobscenic.Json.{Value, obj, end, field}
use noobscenic.Proto.InfoType
use noobscenic.Proto.Dispatch.{Store}
use noobscenic.Db.Rows.{upsert}
use noobscenic.Db.Devices.{Devices, device_sn_by_id}
use noobscenic.Db.Commands.{Table, insert_command}
use noobscenic.Db.Events.{latest_event_payload}
use noobscenic.Web.Zones.{ZoneError}

-- A `HashMap` from serials to times.
abbrev pub Times : Type 0
Times = List (Bytes × ℤ)

-- `HashMap::insert`
unfoldable pub put : Bytes → ℤ → Times → Times
put sn ms = upsert (λ e. text_eq e.0 sn) (λ e. (e.0, ms)) (sn, ms)

-- The database, of which `store` holds what payloads leave, and the touches of the page and of the
-- steering pad.
pub record Web (F : Type 0) : Type 0 where
  pub devices : Devices
  pub commands : Table
  pub store : Store F
  pub watchers : Times
  pub controls : Times

-- Why a request is refused.
pub data Reason : Type 0 where
  unknown_robot : Reason
  offline cleaning no_zone_list : Reason
  zones_changed : ℤ → Reason
  missing_part unknown_part missing_value missing_ids missing_point : Reason
  empty_label long_label : Reason
  unknown_command unsupported_setting : Reason
  bad_zones : ZoneError → Reason

-- 200 with a JSON body, or 404, 409 or 400 with a reason.
pub data Reply : Type 0 where
  accepted : Value → Reply
  not_found conflict bad_request : Reason → Reply

-- serde_json's writer of a value and its reader, the registry's test, and the clock.
pub record Env : Type 0 where
  pub to_text : Value → Bytes
  pub from_str : Bytes → Option Value
  pub is_online : Bytes → Bool
  pub now : ℤ

abbrev pub job_modes : List Bytes
job_modes = codes "sweep" ∷ codes "FindChargerAndWash" ∷ codes "DustCenterWorking" ∷ []

abbrev pub queued : ℕ → Value
queued id = obj (field (codes "queued") (Json.int (pos id)) end)

module _ {F : Type 0} (env : Env) where
  open env use {to_text, from_str, is_online, now}

  unfoldable pub latest_mode : Bytes → Web F → Option Bytes
  latest_mode sn w =
      latest_event_payload sn InfoType.status w.store.events
      >>= from_str
      >>= Json.get (codes "mode")
      >>= Json.as_str

  unfoldable pub cleaning_in_progress : Bytes → Web F → Bool
  unfolding latest_mode
  cleaning_in_progress sn w = elim (latest_mode sn w) [
    | none ↦ false
    | some mode ↦ any (λ m. text_eq m mode) job_modes
  ]

  -- The `let Some(sn) = resolve(…)` and the touch that begin every handler.
  unfoldable pub on_robot : Bytes → Web F → (Bytes → Web F → Web F × Reply) → Web F × Reply
  on_robot id w handle = elim (device_sn_by_id id w.devices) [
    | none ↦ (w, Reply.not_found Reason.unknown_robot)
    | some sn ↦ handle sn (record w { watchers = put sn now w.watchers })
  ]

  unfoldable pub when_online : Bytes → Web F → Web F × Reply → Web F × Reply
  when_online sn w rest = if is_online sn then rest else (w, Reply.conflict Reason.offline)

  unfoldable pub when_idle : Bytes → Web F → Web F × Reply → Web F × Reply
  unfolding cleaning_in_progress
  when_idle sn w rest =
      if cleaning_in_progress sn w then (w, Reply.conflict Reason.cleaning) else rest

  -- `insert_command` of an unencrypted command: the state and the row's number.
  unfoldable pub queue : Bytes → ℤ → Bytes → Web F → Web F × ℕ
  queue sn info_type payload w =
      let r = insert_command sn info_type payload (pos 0) now w.commands in
      (record w { commands = r.0 }, r.1)

  unfoldable pub queue_one : Bytes → ℤ → Bytes → Web F → Web F × Reply
  unfolding queue
  queue_one sn info_type payload w =
      let r = queue sn info_type payload w in (r.0, Reply.accepted (queued r.1))
