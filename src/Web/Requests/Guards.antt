-- ===== src/Web/Requests/Guards.antt =====
-- What an accepted request has passed: the tests that the handlers of src/web.rs share.
use noobscenic.Prelude.{
  Bytes, true, false, some, if◌then◌else◌, ◌≡◌, ap, Bool-cases, Option-cases, inl, inr,
}
use noobscenic.Json.{Value}
use noobscenic.Db.Devices.{device_sn_by_id}
use noobscenic.Web.State.{
  Web, Env, Reply, Reason, on_robot, when_online, when_idle, cleaning_in_progress, put,
}

pub refused :
    {F : Type 0} {w u : Web F} {v : Value} {r : Reason}
    → ◌≡◌ {A = Web F × Reply} (w, Reply.conflict r) (u, Reply.accepted v)
    → ⊥
refused q = let p = ap (λ x. x.1) q in cc

pub rejected :
    {F : Type 0} {w u : Web F} {v : Value} {r : Reason}
    → ◌≡◌ {A = Web F × Reply} (w, Reply.bad_request r) (u, Reply.accepted v)
    → ⊥
rejected q = let p = ap (λ x. x.1) q in cc

absent :
    {F : Type 0} {w u : Web F} {v : Value} {r : Reason}
    → ◌≡◌ {A = Web F × Reply} (w, Reply.not_found r) (u, Reply.accepted v)
    → ⊥
absent q = let p = ap (λ x. x.1) q in cc

module _ {F : Type 0} (env : Env) where
  abbrev pub touched : Bytes → Web F → Web F
  touched sn w = record w { watchers = put sn env.now w.watchers }

  pub on_robot-accepted :
      (id : Bytes) (w : Web F) (handle : Bytes → Web F → Web F × Reply) (u : Web F) (v : Value)
      → on_robot env id w handle ≡ (u, Reply.accepted v)
      → (sn : Bytes) × (device_sn_by_id id w.devices ≡ some sn)
        × (handle sn (touched sn w) ≡ (u, Reply.accepted v))
  unfolding on_robot
  on_robot-accepted id w handle u v q = elim (Option-cases (device_sn_by_id id w.devices)) [
    | inl e ↦ absurd (absent (rw (on_robot, e) at q))
    | inr (sn, e) ↦ (sn, e, rw (on_robot, e) at q)
  ]

  pub when_online-accepted :
      (sn : Bytes) (w : Web F) (rest : Web F × Reply) (u : Web F) (v : Value)
      → when_online env sn w rest ≡ (u, Reply.accepted v)
      → (env.is_online sn ≡ true) × (rest ≡ (u, Reply.accepted v))
  unfolding when_online
  when_online-accepted sn w rest u v q = elim (Bool-cases (env.is_online sn)) [
    | inl e ↦ (e, rw (e, if◌then◌else◌) at q)
    | inr e ↦ absurd (refused (rw (e, if◌then◌else◌) at q))
  ]

  pub when_idle-accepted :
      (sn : Bytes) (w : Web F) (rest : Web F × Reply) (u : Web F) (v : Value)
      → when_idle env sn w rest ≡ (u, Reply.accepted v)
      → (cleaning_in_progress env sn w ≡ false) × (rest ≡ (u, Reply.accepted v))
  unfolding when_idle
  when_idle-accepted sn w rest u v q = elim (Bool-cases (cleaning_in_progress env sn w)) [
    | inr e ↦ (e, rw (e, if◌then◌else◌) at q)
    | inl e ↦ absurd (refused (rw (e, if◌then◌else◌) at q))
  ]
