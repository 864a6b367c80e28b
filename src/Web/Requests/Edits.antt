-- ===== src/Web/Requests/Edits.antt =====
-- The edits of zone lists, `zones_write` of src/web.rs: who is refused, and what an edit leaves.
use noobscenic.Prelude.{
  ℕ, ◌+◌, ℤ, pos, =ℤ_iff, Bytes, true, false, List, Option, none, some, codes, ◌>>=◌, if◌then◌else◌,
  Result, ◌≡◌, ◌≢◌, refl, ap, sym, ◌∙◌, arith, Bool-cases, Option-cases, Result-cases, inl, inr,
  All, subst,
}
use noobscenic.Json
use noobscenic.Json.{Value, obj, arr, field, end}
use noobscenic.Proto.InfoType
use noobscenic.Db.Devices.{device_sn_by_id}
use noobscenic.Db.Commands.{insert_command}
use noobscenic.Db.Slots.{AreaSettings, load_area_settings, version_of}
use noobscenic.Db.Slots.Versions.{version-writes}
use noobscenic.Web.Zones.{validate_zones}
use noobscenic.Web.Zones.Safe.{IsSafe, validate_zones-AllSafe}
use noobscenic.Web.State.{Web, Env, Reply, queue, cleaning_in_progress}
use noobscenic.Web.Requests.Guards.{
  touched, refused, rejected, on_robot-accepted, when_online-accepted, when_idle-accepted,
}
use noobscenic.Web.Requests.{
  to_items, map_id_of, zones_payload, same_version, write_zones, edit_zones, zones_write,
}

-- The commands and the tables are as they were: only the touch of the page may have changed.
abbrev pub Untouched : {F : Type 0} → Web F → Web F → Type 0
Untouched w u = (u.commands ≡ w.commands) × (u.store ≡ w.store)

-- The version that the body of an edit repeats.
abbrev pub version_in : Value → Option ℤ
version_in body = Json.get (codes "version") body >>= Json.as_i64

module _ {F : Type 0} (env : Env) (body : Value) where
  -- An edit of the list `stored` that went through.
  record IsEdit (sn : Bytes) (stored : AreaSettings) (w u : Web F) (v : Value) : Type 0 where
    same : same_version (version_in body) stored.version ≡ true
    list : Value
    value : Json.get (codes "value") body ≡ some list
    zones : List Value
    valid : validate_zones list ≡ Result.ok zones
    writes : write_zones env sn (zones_payload env stored zones) w ≡ (u, Reply.accepted v)

  edit_zones-IsEdit :
      (sn : Bytes) (stored : AreaSettings) (w u : Web F) (v : Value)
      → edit_zones env sn body stored w ≡ (u, Reply.accepted v)
      → IsEdit sn stored w u v
  unfolding edit_zones
  edit_zones-IsEdit sn stored w u v q =
      elim (Bool-cases (same_version (version_in body) stored.version)) [
        | inr e ↦ absurd (refused (rw (e, if◌then◌else◌) at q))
        | inl e ↦
            let q1 = rw (e, if◌then◌else◌) at q in
            elim (Option-cases (Json.get (codes "value") body)) [
              | inl gone ↦ absurd (rejected (rw (gone) at q1))
              | inr (list, e1) ↦
                  let q2 = rw (e1) at q1 in
                  elim (Result-cases (validate_zones list)) [
                    | inr (bad, e2) ↦ absurd (rejected (rw (e2) at q2))
                    | inl (zones, e2) ↦ record {
                      same = e;
                      list = list;
                      value = e1;
                      zones = zones;
                      valid = e2;
                      writes = rw (e2) at q2;
                    }
                  ]
            ]
      ]

  record IsWrite (id : Bytes) (w u : Web F) (v : Value) : Type 0 where
    sn : Bytes
    resolved : device_sn_by_id id w.devices ≡ some sn
    online : env.is_online sn ≡ true
    idle : cleaning_in_progress env sn (touched env sn w) ≡ false
    stored : AreaSettings
    loaded : load_area_settings sn w.store.areas ≡ some stored
    edit : IsEdit sn stored (touched env sn w) u v

  zones_write-IsWrite :
      (id : Bytes) (w u : Web F) (v : Value)
      → zones_write env id body w ≡ (u, Reply.accepted v)
      → IsWrite id w u v
  unfolding zones_write
  zones_write-IsWrite id w u v q =
      let (sn, e, q1) = on_robot-accepted env id w _ u v q in
      let (e1, q2) = when_online-accepted env sn (touched env sn w) _ u v q1 in
      let (e2, q3) = when_idle-accepted env sn (touched env sn w) _ u v q2 in
      elim (Option-cases (load_area_settings sn w.store.areas)) [
        | inl e3 ↦ absurd (refused (rw e3 at q3))
        | inr (stored, e3) ↦ record {
          sn = sn;
          resolved = e;
          online = e1;
          idle = e2;
          stored = stored;
          loaded = e3;
          edit = edit_zones-IsEdit sn stored (touched env sn w) u v (rw e3 at q3);
        }
      ]

-- What an edit that the server accepted has done: the robot is online and not cleaning, the version
-- of the body was the stored one, the list of the body passed the check of a zone list, and every
-- region of what came of it is safe for the robot. Those regions are what the one new command
-- sends, with the id of the map that the stored list names, and what is stored from then on, under
-- the next version.
pub record IsAccepted {F : Type 0} (env : Env) (id : Bytes) (body : Value) (w u : Web F)
    : Type 0 where
  pub sn : Bytes
  pub resolved : device_sn_by_id id w.devices ≡ some sn
  pub online : env.is_online sn ≡ true
  pub idle : cleaning_in_progress env sn w ≡ false
  pub version : version_in body ≡ some (pos (version_of (load_area_settings sn w.store.areas)))
  pub old : AreaSettings
  pub loaded : load_area_settings sn w.store.areas ≡ some old
  pub list : Value
  pub value : Json.get (codes "value") body ≡ some list
  pub zones : List Value
  pub checked : validate_zones list ≡ Result.ok zones
  pub safe : All IsSafe zones
  pub payload : Bytes
  pub written :
      payload
      ≡ env.to_text (
          obj (
            field
              (codes "mapId")
              (map_id_of env old)
              (field (codes "value") (arr (to_items zones)) end)))
  pub sent :
      u.commands
      ≡ (insert_command sn (pos InfoType.zones_write) payload (pos 0) env.now w.commands).0
  pub stored : (load_area_settings sn u.store.areas >>= λ a. a.payload) ≡ some payload
  pub renewed :
      version_of (load_area_settings sn u.store.areas)
      ≡ version_of (load_area_settings sn w.store.areas) + 1
  pub devices : u.devices ≡ w.devices

same_version_iff : (o : Option ℤ) (n : ℕ) → same_version o n ≡ true → o ≡ some (pos n)
same_version_iff none n e = ground (arith, e)
same_version_iff (some z) n e = ap some ((=ℤ_iff z (pos n)).0 e)

-- An edit that the server accepted, handled with no other request between its steps, was for a robot
-- that is online and not cleaning and repeated the stored version. The list of its body passed the
-- check, and the regions that came of it, each safe for the robot, are what the one new command sends
-- and what is stored from then on, under the next version.
pub zones_write-IsAccepted :
    {F : Type 0} (env : Env) (id : Bytes) (body : Value) (w u : Web F) (v : Value)
    → zones_write env id body w ≡ (u, Reply.accepted v)
    → IsAccepted env id body w u
unfolding write_zones queue cleaning_in_progress zones_payload
zones_write-IsAccepted env id body w u v q =
    let i = zones_write-IsWrite env body id w u v q in
    let e = i.edit in
    let a =
      (version-writes i.sn (zones_payload env i.stored e.zones) none env.now w.store.areas).1 in
    let after = ap (λ x. x.0) e.writes in
    subst (λ x. IsAccepted env id body w x) after
      (record {
        sn = i.sn;
        resolved = i.resolved;
        online = i.online;
        idle = i.idle;
        version =
            same_version_iff (version_in body) i.stored.version e.same
            ∙ ap (λ o. some (pos (version_of o))) (sym i.loaded);
        old = i.stored;
        loaded = i.loaded;
        list = e.list;
        value = e.value;
        zones = e.zones;
        checked = e.valid;
        safe = (validate_zones-AllSafe e.list e.zones e.valid).0;
        payload = zones_payload env i.stored e.zones;
        written = refl;
        sent = refl;
        stored = a.2;
        renewed = a.1 ∙ a.0;
        devices = refl;
      })

one_sn : {a b : Bytes} → some a ≡ some b → a ≡ b
one_sn e = cc

next_version : (n m : ℕ) → some (pos n) ≡ some (pos m) → m ≡ n + 1 → ⊥
next_version n m e k = ground (arith, e, k)

-- Of two edits that repeat the same version, the second of which begins when the first has ended and
-- nothing else was written in between, only the first is accepted: the second is refused, whatever
-- list it has. Of edits that overlap nothing is said here.
pub zones_write-once :
    {F : Type 0} (env later : Env) (id : Bytes) (body other : Value) (w u x : Web F) (v y : Value)
    → zones_write env id body w ≡ (u, Reply.accepted v)
    → version_in other ≡ version_in body
    → zones_write later id other u ≢ (x, Reply.accepted y)
zones_write-once env later id body other w u x v y first same second =
    let a = zones_write-IsAccepted env id body w u v first in
    let b = zones_write-IsAccepted later id other u x y second in
    let sn : a.sn ≡ b.sn =
      one_sn (sym a.resolved ∙ ap (device_sn_by_id id) (sym a.devices) ∙ b.resolved) in
    next_version (version_of (load_area_settings a.sn w.store.areas))
      (version_of (load_area_settings a.sn u.store.areas))
      (sym a.version
        ∙ sym same
        ∙ b.version
        ∙ ap (λ k. some (pos (version_of (load_area_settings k u.store.areas)))) (sym sn))
      a.renewed
