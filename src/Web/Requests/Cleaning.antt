-- ===== src/Web/Requests/Cleaning.antt =====
-- The requests of src/web.rs that start a clean or change the map.
use noobscenic.Prelude.{
  pos, ◌==◌, Bytes, true, false, [], some, codes, unwrap_or, ◌>>=◌, if◌then◌else◌, length, ◌≡◌, ap,
  sym, Bool-cases, Option-cases, inl, inr,
}
use noobscenic.Json
use noobscenic.Json.{Value, obj, end, field, arr}
use noobscenic.Proto.InfoType
use noobscenic.Db.Devices.{device_sn_by_id}
use noobscenic.Db.Commands.{insert_command}
use noobscenic.Web.State.{
  Web, Env, Reply, on_robot, when_online, when_idle, queue, cleaning_in_progress,
}
use noobscenic.Web.Requests.{zones_clean, spot_clean, map_delete, start_clean, point_of, ids_of}
use noobscenic.Web.Requests.Guards.{
  touched, rejected, on_robot-accepted, when_online-accepted, when_idle-accepted,
}

module _ {F : Type 0} (env : Env) (id : Bytes) (w u : Web F) (v : Value) where
  -- The robot of the request, which is online and not cleaning.
  pub record IsIdle : Type 0 where
    pub sn : Bytes
    pub resolved : device_sn_by_id id w.devices ≡ some sn
    pub online : env.is_online sn ≡ true
    pub idle : cleaning_in_progress env sn w ≡ false

  -- What behind the tests was accepted, and on which robot.
  guarded :
      (rest : Bytes → Web F → Web F × Reply)
      → on_robot env id w (λ sn x. when_online env sn x (when_idle env sn x (rest sn x)))
        ≡ (u, Reply.accepted v)
      → (i : IsIdle) × (rest i.sn (touched env i.sn w) ≡ (u, Reply.accepted v))
  unfolding cleaning_in_progress
  guarded rest q =
      let (sn, e, q1) = on_robot-accepted env id w _ u v q in
      let (e1, q2) = when_online-accepted env sn (touched env sn w) _ u v q1 in
      let (e2, q3) = when_idle-accepted env sn (touched env sn w) _ u v q2 in
      (record { sn = sn; resolved = e; online = e1; idle = e2 }, q3)

  -- Two commands that follow each other: the selection, and then the start of a clean.
  pub Started : Bytes → Type 0
  Started sn =
      (selection : Bytes) × (u.commands
        ≡ (insert_command sn (pos InfoType.clean) (codes "{\"mode\":\"appointClean\"}") (pos 0)
            env.now
            (insert_command sn (pos InfoType.zone_clean) selection (pos 0) env.now w.commands).0).0)

  start_clean-Started :
      (sn selection : Bytes)
      → start_clean env sn selection (touched env sn w) ≡ (u, Reply.accepted v)
      → Started sn
  unfolding start_clean queue Started
  start_clean-Started sn selection q = (selection, sym (ap (λ x. x.0.commands) q))

  -- A clean of zones that is accepted goes to a robot that is online and not cleaning, as two commands, the
  -- selection of the zones and, behind it, the start.
  pub zones_clean-Started :
      (body : Value)
      → zones_clean env id body w ≡ (u, Reply.accepted v)
      → (i : IsIdle) × Started i.sn
  unfolding zones_clean
  zones_clean-Started body q =
      let (i, q1) = guarded _ q in
      let ids = ids_of (unwrap_or [] (Json.get (codes "ids") body >>= Json.as_array)) in
      elim (Bool-cases (length ids == 0)) [
        | inl e ↦ absurd (rejected (rw (e, if◌then◌else◌) at q1))
        | inr e ↦ (i, start_clean-Started i.sn _ (rw (e, if◌then◌else◌) at q1))
      ]

  -- So does a clean around a point.
  pub spot_clean-Started :
      (body : Value)
      → spot_clean env id body w ≡ (u, Reply.accepted v)
      → (i : IsIdle) × Started i.sn
  unfolding spot_clean
  spot_clean-Started body q =
      let (i, q1) = guarded _ q in
      elim (Option-cases (point_of body)) [
        | inl e ↦ absurd (rejected (rw e at q1))
        | inr (p, e) ↦ (i, start_clean-Started i.sn _ (rw e at q1))
      ]

  -- A map is deleted on a robot that is online and not cleaning.
  pub map_delete-IsIdle : map_delete env id w ≡ (u, Reply.accepted v) → IsIdle
  unfolding map_delete
  map_delete-IsIdle q = (guarded _ q).0
