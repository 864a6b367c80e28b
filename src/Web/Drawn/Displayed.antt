-- ===== src/Web/Drawn/Displayed.antt =====
-- The path that the page draws, `display_path` of src/web.rs.
use noobscenic.Prelude.{
  ℤ, Bytes, true, false, List, [], ◌∷◌, ◌++◌, Option, none, some, ◌≡◌, ◌⊎◌, All,
}
use noobscenic.Db.Paths.{CleanPath, Paths, current_path_run_id}
use noobscenic.Db.Paths.Shown.{recent_clean_path_rows}
use noobscenic.Db.Paths.Shown.Recency.{IsRecent}
use noobscenic.Web.Drawn.{DisplayPathRun, drawable, add_rows}
use noobscenic.Web.Drawn.Runs.{Shows, Descends}

-- The first run that is drawable: those in front of it are not.
pub record First (runs : List DisplayPathRun) (u : DisplayPathRun) : Type 0 where
  pub before : List DisplayPathRun
  pub after : List DisplayPathRun
  pub split : runs ≡ before ++ (u ∷ after)
  pub fails : All (λ r. drawable r ≡ false) before
  pub holds : drawable u ≡ true

abbrev pub NoneDrawable : List DisplayPathRun → Type 0
NoneDrawable = All (λ r. drawable r ≡ false)

abbrev Found : List DisplayPathRun → Option DisplayPathRun → Type 0
Found runs none = NoneDrawable runs
Found runs (some u) = First runs u

-- None of no runs; else the first run that is drawable, with only runs in front that are not, or the
-- head of the list where none is.
abbrev pub Chosen : List DisplayPathRun → Option DisplayPathRun → Type 0
Chosen [] o = o ≡ none
Chosen (r ∷ rs) o =
    (u : DisplayPathRun) × (o ≡ some u) × (First (r ∷ rs) u ⊎ (NoneDrawable (r ∷ rs) × (u ≡ r)))

module _ {F : Type 0} (as_i64 : F → ℤ) (from_str : Bytes → Option (List (Option (F × F)))) where
  abbrev runs_of : Bytes → Paths → List DisplayPathRun
  runs_of sn t =
      add_rows as_i64 from_str (current_path_run_id sn t) (recent_clean_path_rows sn t) []

  -- The rows are of the newest runs, and grouped with the newest run in front; the one that is drawn
  -- is the first with something to draw, or the newest where none has; each run shows its rows.
  pub record Drawn (sn : Bytes) (t : Paths) (rows : List CleanPath) (o : Option DisplayPathRun)
      : Type 0 where
    pub recent : IsRecent sn t rows
    pub newest_first : Descends (runs_of sn t)
    pub chosen : Chosen (runs_of sn t) o
    pub shows : All (Shows as_i64 from_str rows) (runs_of sn t)
