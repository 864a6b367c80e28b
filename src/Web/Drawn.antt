-- ===== src/Web/Drawn.antt =====
-- The path that the page draws, `DisplayPathRun` and `display_path` of src/web.rs. `F` is the type
-- of floating-point numbers.
pub mod Segments
pub mod Runs
pub mod Displayed
use noobscenic.Prelude.{
  ℕ, ◌+◌, ◌*◌, ◌/◌, ◌-◌, ◌%◌, ℤ, pos, negsuc, ◌+ℤ◌, ◌-ℤ◌, ◌*ℤ◌, leb_ℤ, ltb_ℤ, ◌=ℤ◌, ltb, ◌==◌, ◌&&◌,
  Bytes, Bool, true, List, [], ◌∷◌, ◌++◌, Option, none, some, codes, unwrap_or, or_else, length,
  any, find_first, if◌then◌else◌, join,
}
use noobscenic.Json.{Value, Items, nil, cons, arr, obj, field, end, bool, str, int}
use noobscenic.Db.Paths.{CleanPath, Paths, current_path_run_id}
use noobscenic.Db.Paths.Shown.{recent_clean_path_rows}
use noobscenic.Web.Zones.{Point, same_point, wrap_i64, to_items}

abbrev pub path_segment_join_mm : ℕ
path_segment_join_mm = 100

pub record DisplayPathRun : Type 0 where
  pub run_id : ℕ
  pub current_run_id : ℕ
  pub path_id : ℤ
  pub segments : List (List Point)
  pub span : ℕ
  pub total : ℕ
  pub complete : Bool
  pub updated_ms : ℤ

abbrev pub new : CleanPath → ℕ → DisplayPathRun
new row current_run_id = record {
  run_id = row.run_id;
  current_run_id = current_run_id;
  path_id = row.path_id;
  segments = [];
  span = 0;
  total = 0;
  complete = true;
  updated_ms = row.updated_ms;
}

unfoldable pub point_count : List (List Point) → ℕ
point_count [] = 0
point_count (s ∷ ss) = length s + point_count ss

unfoldable pub drawable : DisplayPathRun → Bool
drawable run = any (λ s. ltb 1 (length s)) run.segments

abbrev pub kind : DisplayPathRun → Bytes
kind run = if run.run_id == run.current_run_id then codes "current" else codes "previous"

-- `show` prints a number.
module _ (show : ℤ → Bytes) where
  unfoldable pub revision : DisplayPathRun → Bytes
  unfolding point_count
  revision run =
      show (pos run.run_id)
      ++ (codes ":"
          ++ (show (pos (point_count run.segments)) ++ (codes ":" ++ show run.updated_ms)))

  abbrev pub to_segments : List (List Point) → Items
  to_segments [] = nil
  to_segments (s ∷ ss) = cons (arr (to_items s)) (to_segments ss)

  -- What the page gets, the members in key order.
  unfoldable pub payload : DisplayPathRun → Value
  unfolding revision drawable
  payload run = obj (
      field (codes "complete") (bool run.complete) (
        field (codes "drawable") (bool (drawable run)) (
          field (codes "kind") (str (kind run)) (
            field (codes "path_id") (int run.path_id) (
              field (codes "points") (arr (to_items (join run.segments))) (
                field (codes "revision") (str (revision run)) (
                  field (codes "run_id") (int (pos run.run_id)) (
                    field (codes "segments") (arr (to_segments run.segments))
                      (field (codes "updated_ms") (int run.updated_ms) end)))))))))

-- The products and the sum wrap around, as those of `i64` in the release build.
unfoldable pub points_are_adjacent : Point → Point → Bool
unfolding wrap_i64
points_are_adjacent left right =
    let dx = wrap_i64 (left.0 -ℤ right.0) in
    let dy = wrap_i64 (left.1 -ℤ right.1) in
    leb_ℤ (wrap_i64 (wrap_i64 (dx *ℤ dx) +ℤ wrap_i64 (dy *ℤ dy)))
      (pos (path_segment_join_mm * path_segment_join_mm))

abbrev pub last_of : List Point → Option Point
last_of [] = none
last_of (p ∷ []) = some p
last_of (p ∷ q ∷ ps) = last_of (q ∷ ps)

-- The last segment with the points behind it, if they begin near its end. A first point that is
-- its end is not repeated.
unfoldable pub joined : List Point → Point → List Point → Option (List Point)
unfolding points_are_adjacent
joined segment p ps = elim (last_of segment) [
  | none ↦ none
  | some e ↦
      if points_are_adjacent e p
      then some (segment ++ (if same_point (some e) p then ps else p ∷ ps))
      else none
]

unfoldable pub append_to : Point → List Point → List (List Point) → List (List Point)
unfolding joined
append_to p ps [] = (p ∷ ps) ∷ []
append_to p ps (s ∷ []) = elim (joined s p ps) [ none ↦ s ∷ (p ∷ ps) ∷ [] | some t ↦ t ∷ [] ]
append_to p ps (s ∷ t ∷ ss) = s ∷ append_to p ps (t ∷ ss)

-- No points change nothing.
unfoldable pub append_path_chunk : List Point → List (List Point) → List (List Point)
unfolding append_to
append_path_chunk [] segments = segments
append_path_chunk (p ∷ ps) segments = append_to p ps segments

-- `v & !3`, without the two bits that hold the type of a point.
abbrev pub tagless : ℤ → ℤ
tagless (pos n) = pos (n - n % 4)
tagless (negsuc n) = negsuc (n / 4 * 4 + 3)

-- `as_i64` is the cast from a floating-point number.
module _ {F : Type 0} (as_i64 : F → ℤ) where
  abbrev pub point_of : F × F → Point
  point_of xy = (tagless (as_i64 xy.0), tagless (as_i64 xy.1))

  -- The loop over the stored slots, with the points since the last empty one.
  unfoldable pub add_points :
      List (Option (F × F)) → List Point → List (List Point) → List (List Point)
  unfolding append_path_chunk
  add_points [] contiguous segments = append_path_chunk contiguous segments
  add_points (some xy ∷ slots) contiguous segments =
      add_points slots (contiguous ++ (point_of xy ∷ [])) segments
  add_points (none ∷ slots) contiguous segments =
      add_points slots [] (append_path_chunk contiguous segments)

-- The first run that has something to draw, or else the newest one.
unfoldable pub chosen_run : List DisplayPathRun → Option DisplayPathRun
unfolding drawable
chosen_run [] = none
chosen_run (r ∷ rs) = some (unwrap_or r (find_first drawable (r ∷ rs)))

-- `from_str` is serde_json's.
abbrev pub stored :
    {F : Type 0} → (Bytes → Option (List (Option (F × F)))) → CleanPath → List (Option (F × F))
stored from_str row = unwrap_or [] (from_str row.points_json)

module _ {F : Type 0} (as_i64 : F → ℤ) (from_str : Bytes → Option (List (Option (F × F)))) where
  unfoldable pub add_path_row : CleanPath → DisplayPathRun → DisplayPathRun
  unfolding add_points
  add_path_row row run = record run {
    path_id = row.path_id;
    segments = add_points as_i64 (stored from_str row) [] run.segments;
    span = run.span + length (stored from_str row);
    total = run.total + row.total_points;
    complete = run.complete && row.complete;
    updated_ms = if ltb_ℤ run.updated_ms row.updated_ms then row.updated_ms else run.updated_ms;
  }

  -- One round of the loop over the rows: a row of another run than the last begins a new one.
  unfoldable pub add_row : ℕ → CleanPath → List DisplayPathRun → List DisplayPathRun
  unfolding add_path_row
  add_row current row [] = add_path_row row (new row current) ∷ []
  add_row current row (r ∷ []) =
      if r.run_id == row.run_id
      then add_path_row row r ∷ []
      else r ∷ add_path_row row (new row current) ∷ []
  add_row current row (r ∷ s ∷ rs) = r ∷ add_row current row (s ∷ rs)

  unfoldable pub add_rows : ℕ → List CleanPath → List DisplayPathRun → List DisplayPathRun
  unfolding add_row
  add_rows current [] runs = runs
  add_rows current (row ∷ rows) runs = add_rows current rows (add_row current row runs)

  unfoldable pub display_path : Bytes → Paths → Option DisplayPathRun
  unfolding add_rows chosen_run current_path_run_id
  display_path sn t =
      chosen_run (add_rows (current_path_run_id sn t) (recent_clean_path_rows sn t) [])
