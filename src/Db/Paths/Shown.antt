-- ===== src/Db/Paths/Shown.antt =====
-- The rows of the paths that the page draws, `recent_clean_path_rows` of src/db/queries.rs.
pub mod Recency
use noobscenic.Prelude.{
  ℕ, Bytes, Bool, List, [], ◌∷◌, Option, none, some, ltb, leb, ◌==◌, ◌&&◌, ◌||◌, ltb_ℤ, ◌=ℤ◌, not,
  keep, text_eq, if◌then◌else◌,
}
use noobscenic.Db.Paths.{CleanPath, Paths}

-- The largest `run_id` of the rows.
unfoldable pub newest_run : List CleanPath → Option ℕ
newest_run [] = none
newest_run (p ∷ ps) = elim (newest_run ps) [
  | none ↦ some p.run_id
  | some k ↦ some (if ltb k p.run_id then p.run_id else k)
]

abbrev pub is_run : Option ℕ → CleanPath → Bool
is_run none p = Bool.false
is_run (some k) p = p.run_id == k

-- `latest_runs`: the two largest, `GROUP BY run_id ORDER BY run_id DESC LIMIT 2`.
unfoldable pub latest_runs : List CleanPath → Option ℕ × Option ℕ
unfolding newest_run
latest_runs ps =
    let first = newest_run ps in (first, newest_run (keep (λ p. not (is_run first p)) ps))

-- `ORDER BY run_id DESC, updated_ms ASC, id ASC`
abbrev pub comes_first : CleanPath → CleanPath → Bool
comes_first p q =
    ltb q.run_id p.run_id
    || p.run_id == q.run_id
      && (ltb_ℤ p.updated_ms q.updated_ms || p.updated_ms =ℤ q.updated_ms && leb p.id q.id)

unfoldable pub insert_row_by : CleanPath → List CleanPath → List CleanPath
insert_row_by p [] = p ∷ []
insert_row_by p (q ∷ qs) =
    let rest = insert_row_by p qs in if comes_first p q then p ∷ q ∷ qs else q ∷ rest

unfoldable pub sort_rows : List CleanPath → List CleanPath
unfolding insert_row_by
sort_rows [] = []
sort_rows (p ∷ ps) = insert_row_by p (sort_rows ps)

unfoldable pub recent_clean_path_rows : Bytes → Paths → List CleanPath
unfolding latest_runs sort_rows
recent_clean_path_rows sn t =
    let own = keep (λ p. text_eq p.sn sn) t.paths in
    let runs = latest_runs own in sort_rows (keep (λ p. is_run runs.0 p || is_run runs.1 p) own)
