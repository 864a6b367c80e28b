-- ===== src/Tests/Web.antt =====
-- Two edits of one list, a poll and a watchdog pass: src/web.rs at concrete inputs.
use noobscenic.Prelude.{
  false, ℤ, Bytes, map, In, ℕ, ◌≤◌, pos, ◌+ℤ◌, ◌-ℤ◌, ◌*ℤ◌, true, [], ◌∷◌, none, some, ◌≡◌, ◌≢◌,
  refl, codes, length, All, unwrap_or, find_first, keep, starts_with, text_eq, Result,
}
use noobscenic.Json
use noobscenic.Json.{Value, Items, obj, arr, int, str, cons, nil, field, end, find}
use noobscenic.Db.Rows.{upsert, newest_by}
use noobscenic.Db.Commands.{insert_command, text_lt, active_command}
use noobscenic.Db.Devices.{adopted, device_sn_by_id}
use noobscenic.Db.Events.{Event, latest_event_payload, of_type, is_of}
use noobscenic.Db.Slots.{AreaSettings, load_area_settings, record_zone_write, written_over}
use noobscenic.Proto.Dispatch.{Libraries}
use noobscenic.Web.Text.{cap_bytes}
use noobscenic.Web.Fields.{insert}
use noobscenic.Web.Zones.{
  validate_zones, wrap_i64, is_zero_i128, edges, polygon_area, cap_field, cap_fields, vertex_of,
  vertices, max_of, min_of, span, check_polygon, validate_region, validate_from,
}
use noobscenic.Web.Zones.Safe.{IsSafe, validate_zones-AllSafe}
use noobscenic.Web.State.{
  Web, Env, Reply, put, latest_mode, cleaning_in_progress, on_robot, when_online, when_idle, queue,
}
use noobscenic.Web.Requests.{zones_write, edit_zones, write_zones, zones_payload}
use noobscenic.Web.Requests.Edits.{IsAccepted, zones_write-IsAccepted, zones_write-once}
use noobscenic.Web.Watch.{Line, fresh, watched, poll_control_watchdog_once}
use noobscenic.Web.Watch.Watchdog.{idle, end_frame, is_released, watchdog_once}
use noobscenic.Web.Poller.{
  poll_paths_once, poll_robots, poll_robot, poll_request, ask_path, is_resting, contains,
}
use noobscenic.Web.Poller.Single.{live, live_none, live-poll_paths_once}

abbrev corner : ℕ → ℕ → Items → Items
corner x y = cons (arr (cons (int (pos x)) (cons (int (pos y)) nil)))

-- A triangle of 200 mm, with one vertex twice.
abbrev region : Value
region = obj (
    field (codes "name") (str (codes "kitchen")) (
      field (codes "vertexs") (arr (corner 0 0 (corner 0 0 (corner 200 0 (corner 0 200 nil)))))
        end))

abbrev triangle : Value
triangle = obj (
    field (codes "name") (str (codes "kitchen"))
      (field (codes "vertexs") (arr (corner 0 0 (corner 200 0 (corner 0 200 nil)))) end))

region_passes : validate_zones (arr (cons region nil)) ≡ Result.ok (triangle ∷ [])
unfolding validate_zones validate_from validate_region check_polygon span max_of min_of vertices
    vertex_of cap_fields cap_field polygon_area edges is_zero_i128 wrap_i64 insert cap_bytes find
    Json.as_array Json.as_object Json.as_i64 Json.as_str text_eq ◌+ℤ◌ ◌-ℤ◌ ◌*ℤ◌ text_lt
region_passes = refl

validate_zones-AllSafe_example :
    All IsSafe (triangle ∷ [])
    × (length (triangle ∷ []) ≡ length (unwrap_or [] (Json.as_array (arr (cons region nil)))))
validate_zones-AllSafe_example =
    validate_zones-AllSafe (arr (cons region nil)) (triangle ∷ []) region_passes

abbrev stored_list : AreaSettings
stored_list = record {
  sn = codes "A";
  version = 3;
  read_ms = some (pos 1);
  payload = none;
  trace_ref = none;
  previous_payload = none;
  previous_ms = none;
}

abbrev home : Web ℕ
home = record {
  devices = adopted (codes "A") (pos 1) ∷ [];
  commands = [];
  store = record {
    events = [];
    paths = record { states = []; paths = [] };
    areas = stored_list ∷ [];
    goods = [];
    device_info = [];
    maps = [];
  };
  watchers = [];
  controls = (codes "A", pos 1) ∷ (codes "B", pos 2999) ∷ [];
}

abbrev env : Env
env = record {
  to_text = λ v. codes "{}";
  from_str = λ text. some (obj (field (codes "mode") (str (codes "sweep")) end));
  is_online = λ sn. true;
  now = pos 3000;
}

abbrev edit : Value
edit =
    obj (field (codes "value") (arr (cons region nil)) (field (codes "version") (int (pos 3)) end))

abbrev edited : Web ℕ
edited =
    (write_zones env (codes "A") (zones_payload env stored_list (triangle ∷ []))
      (record home { watchers = put (codes "A") (pos 3000) [] })).0

abbrev answer : Value
answer = obj (field (codes "queued") (int (pos 1)) (field (codes "version") (int (pos 4)) end))

edit_passes : zones_write env (codes "A") edit home ≡ (edited, Reply.accepted answer)
unfolding zones_write edit_zones write_zones zones_payload on_robot when_online when_idle queue
    cleaning_in_progress latest_mode latest_event_payload insert_command load_area_settings
    record_zone_write device_sn_by_id put upsert newest_by keep find_first find Json.get Json.as_i64
    text_eq written_over
edit_passes = rw region_passes refl

-- An edit that loaded the list at the version it repeats is written whatever was written since.
overlapping_edit_passes :
    (w : Web ℕ)
    → edit_zones env (codes "A") edit stored_list w
      ≡ write_zones env (codes "A") (zones_payload env stored_list (triangle ∷ [])) w
unfolding edit_zones find Json.get Json.as_i64 text_eq
overlapping_edit_passes w = rw region_passes refl

zones_write-IsAccepted_example : IsAccepted env (codes "A") edit home edited
zones_write-IsAccepted_example =
    zones_write-IsAccepted env (codes "A") edit home edited answer edit_passes

zones_write-once_example : zones_write env (codes "A") edit edited ≢ (edited, Reply.accepted answer)
zones_write-once_example =
    zones_write-once env env (codes "A") edit edit home edited edited answer answer edit_passes refl

abbrev line : Line
line = record { is_connected = λ sn. true; takes = λ sn. true }

one_released :
    map (λ e. e.0) (keep (is_released line (pos 2000) (pos 3000)) home.controls) ≡ codes "A" ∷ []
unfolding keep ◌+ℤ◌
one_released = refl

watchdog_once_example :
    let r = poll_control_watchdog_once line (pos 3000) (pos 2000) home in
    (r.1
      ≡ map (λ e. (e.0, end_frame)) (keep (is_released line (pos 2000) (pos 3000)) home.controls))
    × ((e : Bytes × ℤ)
        → In e r.0.controls
        → In e home.controls × (idle (pos 2000) (pos 3000) e ≡ false))
    × ((e : Bytes × ℤ)
        → In e home.controls
        → ((d : Bytes × ℤ) → In d home.controls → d.0 ≡ e.0 → idle (pos 2000) (pos 3000) d ≡ false)
        → In e r.0.controls)
    × (r.0 ≡ record home { controls = r.0.controls })
    × (poll_control_watchdog_once line (pos 3000) (pos 2000) r.0 ≡ (r.0, []))
watchdog_once_example = watchdog_once line (pos 3000) (pos 2000) home

abbrev libraries : Libraries ℕ
libraries = record {
  as_f64 = λ v. none;
  to_string = λ v. none;
  areas_to_string = λ vs. none;
  points_to_string = λ a. [];
  points_from_str = λ b. none;
  upload_from_value = λ v. none;
  decode64 = λ b. some b;
}

abbrev sweep : Event
sweep = record {
  id = 1;
  sn = some (codes "A");
  channel = codes "b";
  endpoint = none;
  info_type = some (pos 20001);
  event_code = none;
  task_id = none;
  user_id = none;
  device_ts = none;
  payload = some (codes "{}");
  trace_ref = none;
  received_ms = pos 2;
}

-- The robot sweeps and its page is open.
abbrev sweeping : Web ℕ
sweeping =
    let store = home.store in
    record home {
      watchers = (codes "A", pos 2999) ∷ [];
      store = record store { events = sweep ∷ [] };
    }

asks_once : length (poll_paths_once true libraries env sweeping).commands ≡ 1
unfolding poll_paths_once poll_robots poll_robot poll_request ask_path is_resting latest_mode
    latest_event_payload of_type is_of newest_by keep find_first find Json.get Json.as_str text_eq
    fresh watched contains starts_with active_command insert_command queue ◌-ℤ◌
asks_once = refl

none_live : live (codes "A") [] ≤ 1
none_live = live_none (codes "A")

live-poll_paths_once_example :
    live (codes "A") (poll_paths_once true libraries env sweeping).commands ≤ 1
live-poll_paths_once_example =
    live-poll_paths_once true libraries env (codes "A") sweeping none_live
