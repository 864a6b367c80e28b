-- ===== src/Db/Paths.antt =====
-- The `path_state` and `clean_paths` tables: src/db/queries.rs. A run of paths lasts from one
-- docking of the robot to the next. `history` says whether the Cargo feature of that name is on.
pub mod Runs
pub mod Recent
pub mod Stored
pub mod Shown
use noobscenic.Prelude.{
  ℕ, suc, ◌+◌, ◌-◌, ◌≤◌, ℤ, Bytes, Bool, true, false, List, [], ◌∷◌, ◌++◌, Option, none, some,
  or_else, ◌=ℤ◌, ltb_ℤ, ltb, leb, ◌==◌, ◌&&◌, ◌||◌, not, keep, text_eq, if◌then◌else◌, any,
  find_first, is_some, codes, length, max,
}
use noobscenic.Db.Rows.{upsert, update_where, newest_by, max_id}

pub record PathState : Type 0 where
  pub sn : Bytes
  pub docked : Bool
  pub current_run_id : ℕ
  pub previous_run_id : Option ℕ
  pub last_dock_ms : Option ℤ
  pub previous_dock_ms : Option ℤ

pub record CleanPath : Type 0 where
  pub id : ℕ
  pub sn : Bytes
  pub path_id : ℤ
  pub user_id : Option Bytes
  pub total_points : ℕ
  pub points_json : Bytes
  pub complete : Bool
  pub updated_ms : ℤ
  pub trace_ref : Option Bytes
  pub run_id : ℕ

pub record PathModeChange : Type 0 where
  pub entered_dock : Bool
  pub run_id : ℕ
  pub pruned : ℕ

-- The two tables.
pub record Paths : Type 0 where
  pub states : List PathState
  pub paths : List CleanPath

abbrev pub is_state_of : Bytes → PathState → Bool
is_state_of sn s = text_eq s.sn sn

abbrev pub find_state : Bytes → List PathState → Option PathState
find_state sn = find_first (is_state_of sn)

-- `matches!(mode, "charge" | "fullcharge")`
unfoldable pub is_docked : Bytes → Bool
is_docked mode = text_eq mode (codes "charge") || text_eq mode (codes "fullcharge")

abbrev pub was_docked : Option PathState → Bool
was_docked none = false
was_docked (some s) = s.docked

abbrev pub run_of : Option PathState → ℕ
run_of none = 0
run_of (some s) = s.current_run_id

-- The UPDATE of the transaction, on entering the dock and else.
unfoldable pub advance : Bool → Bool → ℤ → PathState → PathState
advance entered docked now s =
    if entered
    then record s {
      docked = true;
      previous_run_id = some s.current_run_id;
      previous_dock_ms = s.last_dock_ms;
      current_run_id = s.current_run_id + 1;
      last_dock_ms = some now;
    }
    else record s { docked = docked }

-- The INSERT: the first status of a device.
unfoldable pub first_state : Bytes → Bool → ℤ → PathState
first_state sn docked now = record {
  sn = sn;
  docked = docked;
  current_run_id = if docked then 1 else 0;
  previous_run_id = if docked then some 0 else none;
  last_dock_ms = if docked then some now else none;
  previous_dock_ms = none;
}

-- `DELETE FROM clean_paths WHERE sn = ? AND run_id < ?`
abbrev pub is_older_run : Bytes → ℕ → CleanPath → Bool
is_older_run sn run p = text_eq p.sn sn && ltb p.run_id run

unfoldable pub observe_path_mode : Bool → Bytes → Bytes → ℤ → Paths → Paths × PathModeChange
observe_path_mode history sn mode now t =
    let docked = is_docked mode in
    let state = find_state sn t.states in
    let entered = docked && not (was_docked state) in
    let run = run_of state + (if entered then 1 else 0) in
    let prunes = not history && entered && leb 2 run in
    (
      record {
        states =
            upsert (is_state_of sn) (advance entered docked now) (first_state sn docked now)
              t.states;
        paths = if prunes then keep (λ p. not (is_older_run sn (run - 1) p)) t.paths else t.paths;
      },
      record {
        entered_dock = entered;
        run_id = run;
        pruned = if prunes then length (keep (is_older_run sn (run - 1)) t.paths) else 0;
      },
    )

-- `EXISTS` over the states: there is at most one for a serial.
unfoldable pub prune_clean_paths_before_previous_run : Paths → Paths
prune_clean_paths_before_previous_run t = record t {
  paths =
      keep
        (λ p. not (
          any
            (λ s.
              text_eq s.sn p.sn && leb 2 s.current_run_id && ltb p.run_id (s.current_run_id - 1))
            t.states))
        t.paths;
}

abbrev pub is_path : Bytes → ℤ → CleanPath → Bool
is_path sn path_id p = text_eq p.sn sn && p.path_id =ℤ path_id

-- The row whose columns the source takes.
unfoldable pub load_clean_path : Bytes → ℤ → Paths → Option CleanPath
load_clean_path sn path_id t = find_first (is_path sn path_id) t.paths

unfoldable pub current_path_run_id : Bytes → Paths → ℕ
current_path_run_id sn t = run_of (find_state sn t.states)

-- What is stored of an assembly: the account, the slots, their JSON, whether they are all
-- filled, the clock and the trace.
pub record PathWrite : Type 0 where
  pub user_id : Option Bytes
  pub total_points : ℕ
  pub points_json : Bytes
  pub complete : Bool
  pub now : ℤ
  pub trace_ref : Option Bytes

-- `DO UPDATE SET`: the run stays the one in which the path was first seen.
unfoldable pub rewrite : PathWrite → CleanPath → CleanPath
rewrite w p = record p {
  user_id = or_else w.user_id p.user_id;
  total_points = w.total_points;
  points_json = w.points_json;
  complete = w.complete;
  updated_ms = w.now;
  trace_ref = w.trace_ref;
}

unfoldable pub fresh_path : ℕ → Bytes → ℤ → ℕ → PathWrite → CleanPath
fresh_path id sn path_id run w = record {
  id = id;
  sn = sn;
  path_id = path_id;
  user_id = w.user_id;
  total_points = w.total_points;
  points_json = w.points_json;
  complete = w.complete;
  updated_ms = w.now;
  trace_ref = w.trace_ref;
  run_id = run;
}

unfoldable pub upsert_clean_path : Bytes → ℤ → PathWrite → Paths → Paths
upsert_clean_path sn path_id w t = record t {
  paths =
      upsert (is_path sn path_id) (rewrite w)
        (fresh_path (suc (max_id (λ p. p.id) t.paths)) sn path_id (current_path_run_id sn t) w)
        t.paths;
}

-- `ORDER BY updated_ms DESC LIMIT 1`, or the row that is named.
unfoldable pub clean_path_summary : Bytes → Option ℤ → Paths → Option CleanPath
unfolding load_clean_path
clean_path_summary sn (some path_id) t = load_clean_path sn path_id t
clean_path_summary sn none t =
    newest_by (λ a b. ltb_ℤ a.updated_ms b.updated_ms) (keep (λ p. text_eq p.sn sn) t.paths)
