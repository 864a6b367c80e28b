-- ===== src/Web/Requests.antt =====
-- The handlers of src/web.rs that queue commands.
pub mod Guards
pub mod Edits
pub mod Cleaning
use noobscenic.Prelude.{
  ℕ, ◌+◌, ℤ, pos, negsuc, ◌+ℤ◌, ◌-ℤ◌, ◌=ℤ◌, leb_ℤ, Bytes, Bool, true, false, List, [], ◌∷◌, ◌++◌,
  Option, none, some, codes, ◌>>=◌, text_eq, any, if◌then◌else◌, ◌&&◌, ◌||◌, not, unwrap_or, length,
  ltb, ◌==◌, leb, find_first, Result,
}
use noobscenic.Json
use noobscenic.Json.{Value, Items, obj, end, field, nil, cons, arr, str}
use noobscenic.Proto.InfoType
use noobscenic.Proto.Dispatch.{Store}
use noobscenic.Db.Devices.{set_device_label}
use noobscenic.Db.Slots.{AreaSettings, load_area_settings, record_zone_write}
use noobscenic.Web.Zones.{validate_zones, wrap_i64}
use noobscenic.Web.State.{
  Web, Env, Reply, Reason, on_robot, when_online, when_idle, queue, queue_one, queued,
}

abbrev pub to_items : List Value → Items
to_items [] = nil
to_items (v ∷ vs) = cons v (to_items vs)

-- The argument-less commands: name, type and payload.
abbrev pub catalog : List (Bytes × (ℕ × Bytes))
catalog =
    (codes "smartClean", (21005, codes "{\"mode\":\"smartClean\"}"))
    ∷ (codes "pause", (21017, codes "{\"cmd\":\"pause\"}"))
    ∷ (codes "continue", (21017, codes "{\"cmd\":\"continue\"}"))
    ∷ (codes "stop", (21017, codes "{\"cmd\":\"stop\"}"))
    ∷ (codes "findCharge", (21012, codes "{\"cmd\":\"start\"}"))
    ∷ (codes "pauseReturn", (21012, codes "{\"cmd\":\"pause\"}"))
    ∷ (codes "deepClean", (21005, codes "{\"mode\":\"depthTotalClean\"}"))
    ∷ (codes "yMop", (21005, codes "{\"mode\":\"smartClean\",\"pathType\":\"y_word\"}"))
    ∷ []

-- The consumables that can be reset.
abbrev pub parts : List Bytes
parts =
    codes "battery"
    ∷ codes "filter"
    ∷ codes "mainBrush"
    ∷ codes "sideBrush"
    ∷ codes "sensors"
    ∷ codes "mop"
    ∷ []

abbrev pub is_between : ℤ → ℤ → ℤ → Bool
is_between low high v = leb_ℤ low v && leb_ℤ v high

-- The settings that may be written, with the limits of their values, or with none.
abbrev pub valued : List (Bytes × (ℤ × ℤ))
valued =
    (codes "setVolume", (pos 0, pos 10))
    ∷ (codes "setledswitch", (pos 0, pos 1))
    ∷ (codes "setWaterPump", (pos 1, pos 4))
    ∷ []

abbrev pub suctions : List Bytes
suctions = codes "quiet" ∷ codes "auto" ∷ codes "strong" ∷ codes "max" ∷ []

-- The `match` of `config`: the payload of a setting that is supported.
unfoldable pub setting : ℤ → Bytes → Option ℤ → Option Value
setting info cmd (some value) =
    if info =ℤ pos InfoType.config
      && any (λ s. text_eq s.0 cmd && is_between s.1.0 s.1.1 value) valued
    then some (obj (field (codes "cmd") (str cmd) (field (codes "value") (Json.int value) end)))
    else none
setting info cmd none =
    if info =ℤ pos InfoType.suction && any (λ s. text_eq s cmd) suctions
    then some (obj (field (codes "cmd") (str cmd) end))
    else none

-- `mapId` of the stored list, which the write repeats.
abbrev pub map_id_of : Env → AreaSettings → Value
map_id_of env a = unwrap_or Json.null (a.payload >>= env.from_str >>= Json.get (codes "mapId"))

unfoldable pub zones_payload : Env → AreaSettings → List Value → Bytes
zones_payload env a zones = env.to_text (
    obj
      (field (codes "mapId") (map_id_of env a) (field (codes "value") (arr (to_items zones)) end)))

abbrev pub same_version : Option ℤ → ℕ → Bool
same_version none stored = false
same_version (some client) stored = client =ℤ pos stored

abbrev pub ids_of : List Value → List Value
ids_of [] = []
ids_of (v ∷ vs) =
    let rest = ids_of vs in elim (Json.as_i64 v) [ none ↦ rest | some id ↦ Json.int id ∷ rest ]

abbrev pub corner : ℤ → ℤ → Value
corner x y = arr (cons (Json.int x) (cons (Json.int y) nil))

-- The square of 1.5 m around a point.
unfoldable pub spot_region : Bytes → ℤ → ℤ → Value
spot_region cover x y =
    let half = pos 750 in
    let left = wrap_i64 (x -ℤ half) in
    let right = wrap_i64 (x +ℤ half) in
    let low = wrap_i64 (y -ℤ half) in
    let high = wrap_i64 (y +ℤ half) in
    obj (
      field (codes "active") (str cover) (
        field (codes "mode") (str (codes "point")) (
          field (codes "vertexs")
            (arr (
              cons (corner left low)
                (cons (corner right low) (cons (corner right high) (cons (corner left high) nil)))))
            end)))

unfoldable pub point_of : Value → Option (ℤ × ℤ)
point_of body = Json.get (codes "x") body >>= Json.as_i64 >>= λ x.
    Json.get (codes "y") body >>= Json.as_i64 >>= λ y. some (x, y)

-- `str::trim` is the library's.
module _ {F : Type 0} (trim : Bytes → Bytes) (env : Env) where
  open env use {to_text, from_str, now}

  unfoldable pub settings : Bytes → Bytes → Web F → Web F × Reply
  settings id text w = on_robot env id w λ sn w.
      let label = trim text in
      if length label == 0
      then (w, Reply.bad_request Reason.empty_label)
      else if ltb 64 (length label)
      then (w, Reply.bad_request Reason.long_label)
      else (let r = set_device_label sn label w.devices in
          if r.1
          then (
            record w { devices = r.0 },
            Reply.accepted (obj (field (codes "label") (str label) end)),
          )
          else (w, Reply.not_found Reason.unknown_robot))

module _ {F : Type 0} (env : Env) where
  open env use {to_text, from_str, now}

  unfoldable pub config : Bytes → ℤ → Bytes → Option ℤ → Web F → Web F × Reply
  config id info cmd value w = on_robot env id w λ sn w. elim (setting info cmd value) [
    | none ↦ (w, Reply.bad_request Reason.unsupported_setting)
    | some payload ↦ queue_one env sn info (to_text payload) w
  ]

  -- `POST …/command`
  unfoldable pub command : Bytes → Bytes → Web F → Web F × Reply
  command id name w = on_robot env id w λ sn w. elim (find_first (λ c. text_eq c.0 name) catalog) [
    | none ↦ (w, Reply.bad_request Reason.unknown_command)
    | some c ↦
        let r = queue env sn (pos c.1.0) c.1.1 w in
        (
          r.0,
          Reply.accepted (
              obj (
                field (codes "name") (str name) (field (codes "queued") (Json.int (pos r.1)) end))),
        )
  ]

  -- A command with a fixed payload that only a robot that is online is sent.
  abbrev pub ask : ℕ → Bytes → Bytes → Web F → Web F × Reply
  ask info_type payload id w =
      on_robot env id w λ sn w. when_online env sn w (queue_one env sn (pos info_type) payload w)

  unfoldable pub goods_refresh : Bytes → Web F → Web F × Reply
  goods_refresh = ask InfoType.goods_read (codes "{}")

  unfoldable pub device_info_refresh : Bytes → Web F → Web F × Reply
  device_info_refresh = ask InfoType.network_info (codes "{}")

  unfoldable pub zones_refresh : Bytes → Web F → Web F × Reply
  zones_refresh = ask InfoType.zones_read (codes "{}")

  unfoldable pub reboot : Bytes → Web F → Web F × Reply
  reboot = ask InfoType.config (codes "{\"cmd\":\"reboot\"}")

  unfoldable pub map_delete : Bytes → Web F → Web F × Reply
  map_delete id w = on_robot env id w λ sn w. when_online env sn w (
      when_idle env sn w
        (queue_one env sn (pos InfoType.config) (codes "{\"cmd\":\"delCurMap\"}") w))

  unfoldable pub reset_part : Bytes → Bytes → Web F → Web F × Reply
  reset_part sn part w =
      let payload = to_text (obj (field part (Json.int (pos 0)) end)) in
      let r = queue env sn (pos InfoType.goods_write) payload w in
      (
        r.0,
        Reply.accepted (
            obj
              (field (codes "part") (str part) (field (codes "queued") (Json.int (pos r.1)) end))),
      )

  unfoldable pub goods_reset : Bytes → Value → Web F → Web F × Reply
  goods_reset id body w = on_robot env id w λ sn w.
      when_online env sn w (elim (Json.get (codes "part") body >>= Json.as_str) [
        | none ↦ (w, Reply.bad_request Reason.missing_part)
        | some part ↦
            if any (λ p. text_eq p part) parts
            then reset_part sn part w
            else (w, Reply.bad_request Reason.unknown_part)
      ])

  -- The two writes of an accepted edit, the command first. In the code other requests may run between
  -- them, and between them and the load of the list.
  unfoldable pub write_zones : Bytes → Bytes → Web F → Web F × Reply
  write_zones sn payload w =
      let r = queue env sn (pos InfoType.zones_write) payload w in
      let s = record_zone_write sn payload now r.0.store.areas in
      let store = r.0.store in
      (
        record r.0 { store = record store { areas = s.0 } },
        Reply.accepted (
            obj (
              field (codes "queued") (Json.int (pos r.1))
                (field (codes "version") (Json.int (pos s.1)) end))),
      )

  -- The tests on the body of an edit, against the list that is stored.
  unfoldable pub edit_zones : Bytes → Value → AreaSettings → Web F → Web F × Reply
  unfolding write_zones zones_payload
  edit_zones sn body stored w =
      let client = Json.get (codes "version") body >>= Json.as_i64 in
      if not (same_version client stored.version)
      then (w, Reply.conflict (Reason.zones_changed (unwrap_or (pos 0) client)))
      else elim (Json.get (codes "value") body) [
        | none ↦ (w, Reply.bad_request Reason.missing_value)
        | some value ↦ elim (validate_zones value) [
          | Result.err e ↦ (w, Reply.bad_request (Reason.bad_zones e))
          | Result.ok zones ↦ write_zones sn (zones_payload env stored zones) w
        ]
      ]

  -- The handler without another request between its awaits. The code takes no transaction and the
  -- UPDATE does not test the version, so that edits that overlap may both load one version.
  unfoldable pub zones_write : Bytes → Value → Web F → Web F × Reply
  unfolding edit_zones
  zones_write id body w = on_robot env id w λ sn w. when_online env sn w (
      when_idle env sn w (elim (load_area_settings sn w.store.areas) [
        | none ↦ (w, Reply.conflict Reason.no_zone_list)
        | some stored ↦ edit_zones sn body stored w
      ]))

  -- The selection and, behind it, the start.
  unfoldable pub start_clean : Bytes → Bytes → Web F → Web F × Reply
  start_clean sn selection w =
      let r = queue env sn (pos InfoType.zone_clean) selection w in
      let s = queue env sn (pos InfoType.clean) (codes "{\"mode\":\"appointClean\"}") r.0 in
      (
        s.0,
        Reply.accepted (
            obj (
              field (codes "queued") (Json.int (pos r.1))
                (field (codes "start") (Json.int (pos s.1)) end))),
      )

  unfoldable pub zones_clean : Bytes → Value → Web F → Web F × Reply
  unfolding start_clean
  zones_clean id body w = on_robot env id w λ sn w. when_online env sn w (
      when_idle env sn w (
        let ids = ids_of (unwrap_or [] (Json.get (codes "ids") body >>= Json.as_array)) in
        if length ids == 0
        then (w, Reply.bad_request Reason.missing_ids)
        else start_clean sn
            (to_text
              (obj (field (codes "cleanId") (arr (to_items (Json.int (negsuc 2) ∷ ids))) end)))
            w))

  unfoldable pub spot_clean : Bytes → Value → Web F → Web F × Reply
  unfolding start_clean spot_region
  spot_clean id body w = on_robot env id w λ sn w. when_online env sn w (
      when_idle env sn w (elim (point_of body) [
        | none ↦ (w, Reply.bad_request Reason.missing_point)
        | some p ↦
            let deep = unwrap_or false (Json.get (codes "deep") body >>= Json.as_bool) in
            let cover = if deep then codes "depth" else codes "normal" in
            start_clean sn
              (to_text (
                obj (
                  field (codes "cleanId") (arr (cons (Json.int (negsuc 2)) nil))
                    (field (codes "extraAreas") (arr (cons (spot_region cover p.0 p.1) nil)) end))))
              w
      ]))
