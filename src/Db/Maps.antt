-- ===== src/Db/Maps.antt =====
-- The `map_uploads` table: src/db/queries.rs. `F` is the type of floating-point numbers.
pub mod Newest
use noobscenic.Prelude.{
  ℕ, suc, ◌==◌, ℤ, Bytes, Bool, List, [], ◌∷◌, ◌++◌, Option, none, some, ◌&&◌, not, keep, text_eq,
  ltb_ℤ, unwrap_or, codes, ◌>>=◌,
}
use noobscenic.Db.Rows.{max_id, newest_by}
use noobscenic.Json.{Value}
use noobscenic.Map.{MapUpload}

pub record MapRow (F : Type 0) : Type 0 where
  pub id : ℕ
  pub sn : Bytes
  pub map_id : Option ℤ
  pub auto_area_id : Option ℤ
  pub path_id : Option ℤ
  pub width : Option ℤ
  pub height : Option ℤ
  pub resolution : Option F
  pub x_min : Option F
  pub y_min : Option F
  pub lz4_len : Option ℤ
  pub cells_lz4 : Bytes
  pub dock_x : Option ℤ
  pub dock_y : Option ℤ
  pub dock_phi : Option ℤ
  pub dock_state : Option Bytes
  pub areas_json : Bytes
  pub trace_ref : Option Bytes
  pub received_ms : ℤ

-- Both coordinates of the dock, or neither.
abbrev pub dock : Option (List ℤ) → Option ℤ × Option ℤ
dock (some (x ∷ y ∷ _)) = (some x, some y)
dock _ = (none, none)

module _ {F : Type 0} where
  -- `areas` is `serde_json::to_string` of a list of values.
  unfoldable pub map_row :
      (List Value → Option Bytes) → ℕ → Bytes → MapUpload F → Bytes → Option Bytes → ℤ → MapRow F
  map_row areas id sn u compressed trace_ref now = record {
    id = id;
    sn = sn;
    map_id = u.map_id;
    auto_area_id = u.auto_area_id;
    path_id = u.path_id;
    width = u.width;
    height = u.height;
    resolution = u.resolution;
    x_min = u.x_min;
    y_min = u.y_min;
    lz4_len = u.lz4_len;
    cells_lz4 = compressed;
    dock_x = (dock u.charge_handle_pos).0;
    dock_y = (dock u.charge_handle_pos).1;
    dock_phi = u.charge_handle_phi;
    dock_state = u.charge_handle_state;
    areas_json = unwrap_or (codes "[]") (areas u.area);
    trace_ref = trace_ref;
    received_ms = now;
  }

  abbrev pub next_id : List (MapRow F) → ℕ
  next_id t = suc (max_id (λ r. r.id) t)

  -- The DELETE of the transaction: `sn = ? AND id <> ?`.
  abbrev pub is_superseded : Bytes → ℕ → MapRow F → Bool
  is_superseded sn id r = text_eq r.sn sn && not (r.id == id)

  unfoldable pub insert_map_upload :
      (List Value → Option Bytes)
      → Bytes
      → MapUpload F
      → Bytes
      → Option Bytes
      → ℤ
      → List (MapRow F)
      → List (MapRow F)
  insert_map_upload areas sn u compressed trace_ref now t =
      keep (λ r. not (is_superseded sn (next_id t) r))
        (t ++ map_row areas (next_id t) sn u compressed trace_ref now ∷ [])

  -- `WHERE sn = ? ORDER BY received_ms DESC LIMIT 1`
  unfoldable pub latest_map : Bytes → List (MapRow F) → Option (MapRow F)
  latest_map sn t =
      newest_by (λ a b. ltb_ℤ a.received_ms b.received_ms) (keep (λ r. text_eq r.sn sn) t)

  unfoldable pub latest_map_path_id : Bytes → List (MapRow F) → Option ℤ
  unfolding latest_map
  latest_map_path_id sn t = latest_map sn t >>= λ r. r.path_id

  unfoldable pub latest_map_meta :
      Bytes → List (MapRow F) → Option (Option ℤ × (Option ℤ × (Option ℤ × ℤ)))
  unfolding latest_map
  latest_map_meta sn t =
      latest_map sn t >>= λ r. some (r.map_id, (r.width, (r.height, r.received_ms)))
