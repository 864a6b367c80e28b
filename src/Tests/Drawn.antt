-- ===== src/Tests/Drawn.antt =====
-- The drawn path at concrete inputs.
use noobscenic.Prelude.{
  ℕ, ℤ, pos, negsuc, Bytes, true, List, [], ◌∷◌, Option, none, some, codes, keep, text_eq,
  find_first, any, ◌+ℤ◌, ◌*ℤ◌, ◌-ℤ◌, ◌≡◌, refl,
}
use noobscenic.Db.Paths.{CleanPath, Paths}
use noobscenic.Db.Paths.Shown.{recent_clean_path_rows}
use noobscenic.Web.Drawn.{DisplayPathRun, display_path, tagless}
use noobscenic.Web.Drawn.Displayed.{Drawn}

-- Two points, an empty slot, and a point far from them.
abbrev slots : List (Option (ℤ × ℤ))
slots = some (pos 1, pos 2) ∷ some (pos 40, pos 0) ∷ none ∷ some (pos 900, pos 0) ∷ []

abbrev from_str : Bytes → Option (List (Option (ℤ × ℤ)))
from_str [] = none
from_str (b ∷ _) = some slots

abbrev row : ℕ → ℕ → Bytes → CleanPath
row id run_id points_json = record {
  id = id;
  sn = codes "A";
  path_id = pos 7;
  user_id = none;
  total_points = 4;
  points_json = points_json;
  complete = true;
  updated_ms = pos id;
  trace_ref = none;
  run_id = run_id;
}

-- The newest run has no points yet, and the oldest of the three is not among the two.
abbrev tables : Paths
tables = record {
  states = [];
  paths = row 1 1 (codes "[") ∷ row 2 2 (codes "[") ∷ row 3 3 [] ∷ row 4 2 (codes "[") ∷ [];
}

abbrev identity : ℤ → ℤ
identity z = z

abbrev segments_of : Option DisplayPathRun → List (List (ℤ × ℤ))
segments_of none = []
segments_of (some u) = u.segments

-- The run before the newest one is drawn, and its second row begins where no segment ends.
display_path-previous :
    segments_of (display_path identity from_str (codes "A") tables)
    ≡ ((pos 0, pos 0) ∷ (pos 40, pos 0) ∷ [])
      ∷ ((pos 900, pos 0) ∷ [])
      ∷ ((pos 0, pos 0) ∷ (pos 40, pos 0) ∷ [])
      ∷ ((pos 900, pos 0) ∷ [])
      ∷ []
unfolding display_path recent_clean_path_rows keep text_eq find_first any ◌+ℤ◌ ◌*ℤ◌ ◌-ℤ◌
display_path-previous = refl

tagless-negative : tagless (negsuc 4) ≡ negsuc 7
tagless-negative = refl
