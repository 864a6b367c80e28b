-- ===== src/Web/Poller.antt =====
-- The path poller: `poll_paths_once` of src/web.rs.
pub mod Retired
pub mod Single
use noobscenic.Prelude.{
  ℕ, ℤ, pos, ◌-ℤ◌, ltb_ℤ, ◌=ℤ◌, Bytes, Bool, true, false, List, [], ◌∷◌, ◌++◌, Option, none, some,
  codes, text_eq, any, if◌then◌else◌, not, unwrap_or, starts_with, ◌||◌, ◌&&◌, ◌>>=◌,
}
use noobscenic.Json
use noobscenic.Json.{Value, obj, end, field}
use noobscenic.Proto.InfoType
use noobscenic.Proto.Dispatch.{Libraries, assembly_of}
use noobscenic.CleanPath.{next_index}
use noobscenic.Db.Commands.{Row, active_command, fail_command}
use noobscenic.Db.Paths.{CleanPath, clean_path_summary}
use noobscenic.Db.Maps.{latest_map_path_id}
use noobscenic.Web.State.{Web, Env, latest_mode, queue}
use noobscenic.Web.Watch.{fresh, watched}

-- `str::contains`
unfoldable pub contains : Bytes → Bytes → Bool
contains part [] = starts_with part []
contains part (c ∷ s) = starts_with part (c ∷ s) || contains part s

abbrev pub path_request_stale_ms : ℤ
path_request_stale_ms = pos 15000

abbrev pub path_type : ℤ
path_type = pos InfoType.clean_path

abbrev pub timed_out : Bytes
timed_out = codes "path poll timed out; no ACK"

module _ {F : Type 0} (history : Bool) (l : Libraries F) (env : Env) where
  open env use {to_text, is_online, now}

  -- The first point that is missing, or zero for a path that is not the stored one.
  unfoldable pub start_pos : Bytes → Web F → ℕ
  start_pos sn w = elim (clean_path_summary sn none w.store.paths) [
    | none ↦ 0
    | some row ↦
        if elim (latest_map_path_id sn w.store.maps) [
          | none ↦ false
          | some current ↦ not (current =ℤ row.path_id)
        ]
        then 0
        else next_index (assembly_of l (some row))
  ]

  unfoldable pub ask_path : Bytes → Web F → Web F
  unfolding start_pos
  ask_path sn w =
      (queue env sn path_type
        (to_text (
          obj (
            field (codes "mask") (Json.int (pos 0))
              (field (codes "startPos") (Json.int (pos (start_pos sn w))) end))))
        w).0

  -- A request that has gone unanswered for too long.
  unfoldable pub is_overdue : Row → Bool
  is_overdue r = not (ltb_ℤ (now -ℤ unwrap_or r.created_ms r.sent_ms) path_request_stale_ms)

  abbrev pub retire : Row → Web F → Web F
  retire r w = record w { commands = fail_command history r.id timed_out w.commands }

  unfoldable pub poll_request : Bytes → Web F → Web F
  unfolding ask_path is_overdue
  poll_request sn w = elim (active_command sn path_type w.commands) [
    | none ↦ ask_path sn w
    | some r ↦ if is_overdue r then ask_path sn (retire r w) else w
  ]

  -- Whether the robot is charging, or has reported no status.
  unfoldable pub is_resting : Bytes → Web F → Bool
  is_resting sn w = elim (latest_mode env sn w) [
    | none ↦ true
    | some mode ↦ contains (codes "charge") mode
  ]

  -- One turn of the loop.
  unfoldable pub poll_robot : Bytes → Web F → Web F
  unfolding poll_request is_resting
  poll_robot sn w =
      if not (fresh sn now w.watchers) || not (is_online sn)
      then w
      else if is_resting sn w
      then w
      else poll_request sn w

  unfoldable pub poll_robots : List Bytes → Web F → Web F
  unfolding poll_robot
  poll_robots [] w = w
  poll_robots (sn ∷ sns) w = poll_robots sns (poll_robot sn w)

  unfoldable pub poll_paths_once : Web F → Web F
  unfolding poll_robots
  poll_paths_once w = poll_robots (watched w.watchers) w
