-- ===== src/Proto/Dispatch.antt =====
-- What becomes of an incoming payload, `dispatch` of src/proto/dispatch.rs, over the tables.
-- The log lines are left out, and so are failures of the database.
pub mod PathRows
use noobscenic.Prelude.{
  ℕ, ℤ, Bytes, Bool, true, false, List, [], ◌∷◌, ◌++◌, Option, none, some, codes, unwrap_or,
  or_else, ◌>>=◌, if◌then◌else◌, Result, length, text_eq, ◌&&◌, ◌=ℤ◌,
}
use noobscenic.Json
use noobscenic.Json.{Value}
use noobscenic.Proto.InfoType
use noobscenic.Proto.Incoming.{Incoming}
use noobscenic.CleanPath
use noobscenic.CleanPath.{Assembly, Chunk}
use noobscenic.CleanPath.Storage.{from_json, to_json}
use noobscenic.Map
use noobscenic.Map.{MapUpload, MapError}
use noobscenic.Db.Events.{Event, Events, insert_event}
use noobscenic.Db.Paths.{
  Paths, PathWrite, CleanPath, observe_path_mode, load_clean_path, upsert_clean_path,
}
use noobscenic.Db.Slots.{
  AreaSettings, Snapshot, store_area_settings, store_goods, store_device_info,
}
use noobscenic.Db.Maps.{MapRow, insert_map_upload}

-- What the program calls of its libraries here: serde_json's numbers, its writer for values, lists
-- of values and lists of points, its readers of points and of uploads, and base64.
pub record Libraries (F : Type 0) : Type 0 where
  pub as_f64 : Value → Option F
  pub to_string : Value → Option Bytes
  pub areas_to_string : List Value → Option Bytes
  pub points_to_string : Assembly (F × F) → Bytes
  pub points_from_str : Bytes → Option (Assembly (F × F))
  pub upload_from_value : Value → Option (MapUpload F)
  pub decode64 : Bytes → Option Bytes

-- The tables that payloads are stored in.
pub record Store (F : Type 0) : Type 0 where
  pub events : Events
  pub paths : Paths
  pub areas : List AreaSettings
  pub goods : List Snapshot
  pub device_info : List Snapshot
  pub maps : List (MapRow F)

module _ {F : Type 0} (l : Libraries F) where
  open l use {to_string, points_to_string, points_from_str}

  unfoldable pub payload_text : Value → Bytes
  payload_text v = unwrap_or (codes "null") (to_string v)

  -- The assembly of a stored row, or a new one.
  unfoldable pub assembly_of : Option CleanPath → Assembly (F × F)
  unfolding from_json
  assembly_of none = []
  assembly_of (some row) = from_json points_to_string points_from_str row.points_json

-- `history` is the Cargo feature, `now` the clock.
module _ {F : Type 0} (history : Bool) (l : Libraries F) (now : ℤ) where
  open l use {
    as_f64, areas_to_string, points_to_string, points_from_str, upload_from_value, decode64,
  }

  -- The arguments of `insert_event`.
  unfoldable pub event_of : Incoming → Event
  unfolding payload_text
  event_of m = record {
    id = 0;
    sn = some m.sn;
    channel = m.channel;
    endpoint = m.endpoint;
    info_type = m.info_type;
    event_code = m.event;
    task_id = m.task_id;
    user_id = m.user_id;
    device_ts = m.device_ts;
    payload = some (payload_text l m.payload);
    trace_ref = m.trace_ref;
    received_ms = now;
  }

  unfoldable pub store_event : Incoming → Store F → Store F
  unfolding event_of
  store_event m s = record s { events = insert_event history m.sn (event_of m) s.events }

  unfoldable pub store_zones : Incoming → Store F → Store F
  unfolding payload_text
  store_zones m s = record s {
    areas = (store_area_settings m.sn (payload_text l m.payload) m.trace_ref now s.areas).0;
  }

  unfoldable pub store_goods_reply : Incoming → Store F → Store F
  unfolding payload_text
  store_goods_reply m s = record s {
    goods = store_goods m.sn (payload_text l m.payload) m.trace_ref now s.goods;
  }

  unfoldable pub store_info_reply : Incoming → Store F → Store F
  unfolding payload_text
  store_info_reply m s = record s {
    device_info = store_device_info m.sn (payload_text l m.payload) m.trace_ref now s.device_info;
  }

  -- The grid is stored as it was received, whether or not it decodes; an upload that does not parse
  -- is an event.
  unfoldable pub store_map : Incoming → Store F → Store F
  unfolding store_event
  store_map m s = elim (Map.parse upload_from_value m.payload) [
    | Result.err e ↦ store_event m s
    | Result.ok upload ↦
        let compressed = unwrap_or [] (upload.map >>= decode64) in
        record s {
          maps = insert_map_upload areas_to_string m.sn upload compressed m.trace_ref now s.maps;
        }
  ]

  unfoldable pub path_write : Incoming → Chunk (F × F) → Assembly (F × F) → PathWrite
  unfolding to_json
  path_write m chunk a = record {
    user_id = or_else chunk.user_id m.user_id;
    total_points = length a;
    points_json = to_json points_to_string points_from_str a;
    complete = CleanPath.is_complete a;
    now = now;
    trace_ref = m.trace_ref;
  }

  -- `path::parse` never fails.
  unfoldable pub store_path : Incoming → Store F → Store F
  unfolding assembly_of path_write
  store_path m s =
      let chunk = CleanPath.parse as_f64 m.payload in
      let assembly = assembly_of l (load_clean_path m.sn chunk.path_id s.paths) in
      let merged = (CleanPath.merge assembly chunk).0 in
      record s { paths = upsert_clean_path m.sn chunk.path_id (path_write m chunk merged) s.paths }

  unfoldable pub observe_status : Incoming → Store F → Store F
  observe_status m s = elim (Json.get (codes "mode") m.payload >>= Json.as_str) [
    | none ↦ s
    | some mode ↦ record s { paths = (observe_path_mode history m.sn mode now s.paths).0 }
  ]

  -- The arms that only differ in what they log are one.
  unfoldable pub dispatch : Incoming → Store F → Store F
  unfolding store_map store_path store_zones store_goods_reply store_info_reply store_event
      observe_status
  dispatch m s =
      if InfoType.is InfoType.grid_map m.info_type
      then store_map m s
      else if InfoType.is InfoType.clean_path m.info_type
      then store_path m s
      else if InfoType.is InfoType.zones_read m.info_type
      then store_zones m s
      else if InfoType.is InfoType.goods_read m.info_type
      then store_goods_reply m s
      else if InfoType.is InfoType.network_info m.info_type
      then store_info_reply m s
      else if InfoType.is InfoType.status m.info_type
      then store_event m (observe_status m s)
      else store_event m s
