-- ===== src/Tests/Tables.antt =====
-- Small tables: src/db/queries.rs at concrete inputs.
use noobscenic.Prelude.{
  ℕ, ◌+◌, ◌≤◌, ◌≤ℤ◌, ℤ, pos, Bytes, true, false, List, [], ◌∷◌, none, some, ◌≡◌, inl, inr, refl,
  codes, arith, keep, length, find_first, text_eq, In,
}
use noobscenic.Proto.InfoType
use noobscenic.Db.Rows.{upsert}
use noobscenic.Db.Events.{Event, insert_event, is_status, of_type, latest_event_payload}
use noobscenic.Db.Events.Latest.{new_id, latest-insert_event}
use noobscenic.Db.Paths.{
  Paths, CleanPath, PathWrite, find_state, was_docked, current_path_run_id, upsert_clean_path,
  observe_path_mode, is_docked, first_state,
}
use noobscenic.Db.Paths.Runs.{Status, observe, observe_all, dockings, run-observe_all}
use noobscenic.Db.Paths.Recent.{IsRecent, PathStep, Reaches, Reaches-IsRecent}
use noobscenic.Db.Slots.{MapBackup, is_backup, upsert_map_backup}

abbrev robot : Bytes
robot = codes "A"

abbrev status : Bytes → ℤ → Status
status mode now = record { sn = robot; mode = mode; now = now }

abbrev a_day : List Status
a_day =
    status (codes "charge") (pos 1)
    ∷ status (codes "sweep") (pos 2)
    ∷ record { sn = codes "B"; mode = codes "charge"; now = pos 3 }
    ∷ status (codes "fullcharge") (pos 4)
    ∷ []

abbrev no_paths : Paths
no_paths = record { states = []; paths = [] }

two_dockings : dockings robot false a_day ≡ 2
unfolding dockings text_eq is_docked
two_dockings = refl

run-observe_all_example :
    current_path_run_id robot (observe_all false no_paths a_day)
    ≡ dockings robot (was_docked (find_state robot [])) a_day + current_path_run_id robot no_paths
run-observe_all_example = run-observe_all false robot no_paths a_day

abbrev write : PathWrite
write = record {
  user_id = none;
  total_points = 1;
  points_json = codes "[null]";
  complete = false;
  now = pos 5;
  trace_ref = none;
}

abbrev docked : Paths
docked = observe false no_paths (status (codes "charge") (pos 1))

Reaches-IsRecent_example : IsRecent (upsert_clean_path robot (pos 7) write docked)
unfolding IsRecent
Reaches-IsRecent_example =
    Reaches-IsRecent no_paths (upsert_clean_path robot (pos 7) write docked)
      (Reaches.then (PathStep.status no_paths (status (codes "charge") (pos 1))) (
        Reaches.then (PathStep.chunk robot (pos 7) write docked)
          (Reaches.done (upsert_clean_path robot (pos 7) write docked))))
      (λ p m. absurd m)

abbrev old_path : CleanPath
old_path = record {
  id = 1;
  sn = robot;
  path_id = pos 7;
  user_id = none;
  total_points = 1;
  points_json = codes "[null]";
  complete = false;
  updated_ms = pos 5;
  trace_ref = none;
  run_id = 0;
}

abbrev one_path : Paths
one_path = record { states = []; paths = old_path ∷ [] }

first_run : current_path_run_id robot (observe false one_path (status (codes "charge") (pos 9))) ≡ 1
unfolding current_path_run_id observe_path_mode upsert first_state text_eq is_docked find_first
first_run = refl

abbrev event : ℕ → Bytes → ℤ → Event
event id payload now = record {
  id = id;
  sn = some robot;
  channel = codes "b";
  endpoint = none;
  info_type = some (pos 20001);
  event_code = none;
  task_id = none;
  user_id = none;
  device_ts = none;
  payload = some payload;
  trace_ref = none;
  received_ms = now;
}

is_a_status : is_status (event 0 (codes "new") (pos 20)) ≡ true
unfolding is_status
is_a_status = refl

older : (r : Event) → In r (event 4 (codes "old") (pos 10) ∷ []) → r.received_ms ≤ℤ pos 20
older r (inl e) = rw (← e) (omega arith)
older r (inr m) = absurd m

latest-insert_event_example :
    (latest_event_payload robot InfoType.status (
        insert_event false robot
          (event 0 (codes "new") (pos 20))
          (event 4 (codes "old") (pos 10) ∷ []))
      ≡ some (codes "new"))
    × (keep (of_type robot InfoType.status) (
          insert_event false robot
            (event 0 (codes "new") (pos 20))
            (event 4 (codes "old") (pos 10) ∷ []))
        ≡ event (new_id (event 4 (codes "old") (pos 10) ∷ [])) (codes "new") (pos 20) ∷ [])
latest-insert_event_example =
    latest-insert_event false robot (event 0 (codes "new") (pos 20))
      (event 4 (codes "old") (pos 10) ∷ []) refl is_a_status older

none_staged : length (keep (is_backup robot) []) ≤ 1
unfolding keep
none_staged = omega arith

abbrev staged : List MapBackup
staged = upsert_map_backup robot none (codes "d") (codes "t") (codes "blob") (pos 3) []
