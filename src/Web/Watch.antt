-- ===== src/Web/Watch.antt =====
-- The robots that are watched and those that are steered, and the watchdog: src/web.rs.
pub mod Watchdog
use noobscenic.Prelude.{
  ℕ, ℤ, pos, ◌-ℤ◌, ltb_ℤ, leb_ℤ, ◌=ℤ◌, Bytes, Bool, true, false, List, [], ◌∷◌, ◌++◌, Option, none,
  some, codes, text_eq, any, if◌then◌else◌, not, keep, map, find_first,
}
use noobscenic.Json
use noobscenic.Json.{Value, obj, end, field}
use noobscenic.ChannelB.Envelope.{envelope, message}
use noobscenic.Db.Devices.{device_sn_by_id}
use noobscenic.Web.State.{Web, Times, put}

abbrev pub watcher_ttl_ms : ℤ
watcher_ttl_ms = pos 5000

unfoldable pub fresh : Bytes → ℤ → Times → Bool
fresh sn now t = elim (find_first (λ e. text_eq e.0 sn) t) [
  | none ↦ false
  | some last ↦ ltb_ℤ (now -ℤ last.1) watcher_ttl_ms
]

-- The keys, in the order of the map's own choice.
unfoldable pub watched : Times → List Bytes
watched = map (λ e. e.0)

-- `HashMap::remove`
unfoldable pub clear : Bytes → Times → Times
clear sn = keep (λ e. not (text_eq e.0 sn))

abbrev pub is_stale : ℤ → ℤ → Bytes × ℤ → Bool
is_stale stale_ms now e = leb_ℤ stale_ms (now -ℤ e.1)

unfoldable pub stale : ℤ → ℤ → Times → List Bytes
stale stale_ms now t = map (λ e. e.0) (keep (is_stale stale_ms now) t)

-- Spot clean, steering, locating, mute, brushes and the end of manual mode.
abbrev pub control_codes : List ℕ
control_codes =
    3001 ∷ 3005 ∷ 3006 ∷ 3007 ∷ 3008 ∷ 3010 ∷ 3011 ∷ 3022 ∷ 3025 ∷ 3026 ∷ 4000 ∷ 4001 ∷ []

abbrev pub steering_codes : List ℕ
steering_codes = 3005 ∷ 3006 ∷ 3007 ∷ 3008 ∷ 4001 ∷ []

-- The end of manual mode.
abbrev pub leave : ℤ
leave = pos 4000

abbrev pub is_one_of : List ℕ → ℤ → Bool
is_one_of ns code = any (λ n. pos n =ℤ code) ns

abbrev pub control_frame : ℤ → Value
control_frame code =
    envelope (pos 0) (message (pos 21020) (obj (field (codes "ctrlCode") (Json.int code) end)) none)

-- Whether a robot has a connection, and whether the connection's writer still takes frames.
pub record Line : Type 0 where
  pub is_connected : Bytes → Bool
  pub takes : Bytes → Bool

-- A frame and the robot that it goes to.
abbrev pub Sent : Type 0
Sent = List (Bytes × Value)

pub data Steering : Type 0 where
  unknown_robot offline gone : Steering
  unsupported done : ℤ → Steering

unfoldable pub after_frame : Bytes → ℤ → ℤ → Times → Times
after_frame sn code now t =
    if code =ℤ leave then clear sn t else if is_one_of steering_codes code then put sn now t else t

-- The loop of the watchdog's pass over the stale serials.
unfoldable pub release : Line → List Bytes → Times → Times × Sent
release line [] t = (t, [])
release line (sn ∷ sns) t =
    let r = release line sns (clear sn t) in
    (
      r.0,
      if line.is_connected sn
          then if line.takes sn then (sn, control_frame leave) ∷ r.1 else r.1
          else r.1,
    )

module _ {F : Type 0} (line : Line) (now : ℤ) where
  open line use {is_connected, takes}

  steer : Bytes → ℤ → Web F → Web F × (Sent × Steering)
  steer sn code w =
      if not (is_one_of control_codes code)
      then (w, ([], Steering.unsupported code))
      else if not (is_connected sn)
      then (w, ([], Steering.offline))
      else if not (takes sn)
      then (w, ([], Steering.gone))
      else (
        record w { controls = after_frame sn code now w.controls },
        ((sn, control_frame code) ∷ [], Steering.done code),
      )

  unfoldable pub control : Bytes → ℤ → Web F → Web F × (Sent × Steering)
  unfolding steer
  control id code w = elim (device_sn_by_id id w.devices) [
    | none ↦ (w, ([], Steering.unknown_robot))
    | some sn ↦ steer sn code (record w { watchers = put sn now w.watchers })
  ]

  unfoldable pub poll_control_watchdog_once : ℤ → Web F → Web F × Sent
  unfolding release
  poll_control_watchdog_once stale_ms w =
      let r = release line (stale stale_ms now w.controls) w.controls in
      (record w { controls = r.0 }, r.1)
