-- ===== src/Web/Drawn/Runs.antt =====
-- The runs that a path is drawn from, of src/web.rs.
use noobscenic.Prelude.{
  ℕ, ◌≤◌, ◌<◌, ℤ, Bytes, true, false, List, [], ◌∷◌, ◌++◌, Option, none, ◌≡◌, refl, sym, ap, subst,
  ◌∙◌, inl, inr, if◌then◌else◌, Bool-cases, join, keep, ◌==◌, All, All-In, In-All, arith,
  append-nil, append_assoc,
}
use noobscenic.Db.Paths.{CleanPath}
use noobscenic.Db.Paths.Shown.Recency.{Falls}
use noobscenic.Web.Zones.{Point}
use noobscenic.Web.Drawn.{DisplayPathRun, new, stored, add_path_row, add_row, add_rows}
use noobscenic.Web.Drawn.Segments.{
  Parted, squeeze, points_of, add_points-Parted, squeeze-add_points,
}

-- The rows of a run.
abbrev pub of_run : ℕ → List CleanPath → List CleanPath
of_run k = keep (λ p. p.run_id == k)

keep-snoc :
    (k : ℕ) (done : List CleanPath) (row : CleanPath)
    → of_run k (done ++ (row ∷ [])) ≡ of_run k done ++ (if row.run_id == k then row ∷ [] else [])
unfolding keep
keep-snoc k [] row = refl
keep-snoc k (d ∷ done) row =
    let go = keep-snoc k done row in
    elim (Bool-cases (d.run_id == k)) [
      | inl e ↦ rw (e, if◌then◌else◌) (ap (◌∷◌ d) go)
      | inr e ↦ rw (e, if◌then◌else◌) go
    ]

none_of : (k : ℕ) (done : List CleanPath) → All (λ d. k < d.run_id) done → of_run k done ≡ []
unfolding keep
none_of k [] h = refl
none_of k (d ∷ done) h =
    let e : (d.run_id == k) ≡ false = ground arith in rw (e, if◌then◌else◌) (none_of k done h.1)

-- The ids of the runs go down strictly.
abbrev pub Descends : List DisplayPathRun → Type 0
Descends [] = Unit
Descends (r ∷ []) = Unit
Descends (r ∷ s ∷ rs) = (s.run_id < r.run_id) × Descends (s ∷ rs)

-- In front of them is a run with a larger id.
abbrev Below : ℕ → List DisplayPathRun → Type 0
Below k [] = Unit
Below k (r ∷ rs) = r.run_id < k

cons-Descends :
    (r : DisplayPathRun) (rs : List DisplayPathRun)
    → Below r.run_id rs
    → Descends rs
    → Descends (r ∷ rs)
cons-Descends r [] l h = tt
cons-Descends r (s ∷ rs) l h = (l, h)

module _ {F : Type 0} (as_i64 : F → ℤ) (from_str : Bytes → Option (List (Option (F × F)))) where
  -- The stored points of the rows, in their order.
  pub points_of_rows : List CleanPath → List Point
  points_of_rows [] = []
  points_of_rows (row ∷ rows) = points_of as_i64 (stored from_str row) ++ points_of_rows rows

  points-snoc :
      (rows : List CleanPath) (row : CleanPath)
      → points_of_rows (rows ++ (row ∷ []))
        ≡ points_of_rows rows ++ points_of as_i64 (stored from_str row)
  unfolding points_of_rows
  points-snoc [] row = append-nil _
  points-snoc (r ∷ rows) row =
      ap (λ q. points_of as_i64 (stored from_str r) ++ q) (points-snoc rows row)
      ∙ sym (append_assoc (points_of as_i64 (stored from_str r)) _ _)

  -- A run that shows the rows of its id: no segment is empty or continues the one in front, and
  -- the points are those of the rows, in their order, but for points that repeat the one in front.
  pub record Shows (rows : List CleanPath) (run : DisplayPathRun) : Type 0 where
    pub parted : Parted none run.segments
    pub shown :
        squeeze none (join run.segments) ≡ squeeze none (points_of_rows (of_run run.run_id rows))

  -- Before whatever follows.
  abbrev Keeps : List CleanPath → DisplayPathRun → Type 0
  Keeps rows run =
      Parted none run.segments
      × ((r : List Point)
          → squeeze none (join run.segments ++ r)
            ≡ squeeze none (points_of_rows (of_run run.run_id rows) ++ r))

  add_path_row-Keeps :
      (done : List CleanPath) (row : CleanPath) (run : DisplayPathRun)
      → run.run_id ≡ row.run_id
      → Keeps done run
      → Keeps (done ++ (row ∷ [])) (add_path_row as_i64 from_str row run)
  unfolding add_path_row
  add_path_row-Keeps done row run e h = (
    add_points-Parted as_i64 (stored from_str row) [] run.segments h.0,
    λ r.
        squeeze-add_points as_i64 (stored from_str row) [] r run.segments
        ∙ h.1 _
        ∙ ap (squeeze none) (sym (append_assoc (points_of_rows (of_run run.run_id done)) _ r))
        ∙ ap (λ q. squeeze none (q ++ r)) (sym (points-snoc (of_run run.run_id done) row))
        ∙ ap (λ q. squeeze none (points_of_rows q ++ r)) (sym taken),
  )
    where
      same : (row.run_id == run.run_id) ≡ true
      same = ground arith

      taken : of_run run.run_id (done ++ (row ∷ [])) ≡ of_run run.run_id done ++ (row ∷ [])
      taken = keep-snoc run.run_id done row ∙ rw (same, if◌then◌else◌) refl

  other-Keeps :
      (done : List CleanPath) (row : CleanPath) (run : DisplayPathRun)
      → row.run_id < run.run_id
      → Keeps done run
      → Keeps (done ++ (row ∷ [])) run
  other-Keeps done row run l h =
      (h.0, λ r. h.1 r ∙ ap (λ q. squeeze none (points_of_rows q ++ r)) (sym left))
    where
      other : (row.run_id == run.run_id) ≡ false
      other = ground arith

      left : of_run run.run_id (done ++ (row ∷ [])) ≡ of_run run.run_id done
      left = keep-snoc run.run_id done row ∙ rw (other, if◌then◌else◌) (append-nil _)

  new-Keeps :
      (current : ℕ) (done : List CleanPath) (row : CleanPath)
      → All (λ d. row.run_id < d.run_id) done
      → Keeps (done ++ (row ∷ [])) (add_path_row as_i64 from_str row (new row current))
  unfolding points_of_rows
  new-Keeps current done row h =
      add_path_row-Keeps done row (new row current) refl
        (tt, λ r. ap (λ q. squeeze none (points_of_rows q ++ r)) (sym (none_of row.run_id done h)))

  -- The last run has the id `k`, and the others larger ones.
  abbrev Ends : ℕ → List DisplayPathRun → Type 0
  Ends k [] = ⊥
  Ends k (r ∷ []) = r.run_id ≡ k
  Ends k (r ∷ s ∷ rs) = (k < r.run_id) × Ends k (s ∷ rs)

  cons-Ends :
      (k : ℕ) (r : DisplayPathRun) (rs : List DisplayPathRun)
      → k < r.run_id
      → Ends k rs
      → Ends k (r ∷ rs)
  cons-Ends k r [] l h = absurd h
  cons-Ends k r (s ∷ rs) l h = (l, h)

  -- The runs behind the rows `done`.
  record Grouped (done : List CleanPath) (k : ℕ) (runs : List DisplayPathRun) : Type 0 where
    kept : All (Keeps done) runs
    ends : Ends k runs
    descends : Descends runs

  add_row-Below :
      (current k : ℕ) (row : CleanPath) (r : DisplayPathRun) (rs : List DisplayPathRun)
      → r.run_id < k
      → Below k (add_row as_i64 from_str current row (r ∷ rs))
  unfolding add_row add_path_row
  add_row-Below current k row r [] l = elim (Bool-cases (r.run_id == row.run_id)) [
    | inl e ↦ rw (e, if◌then◌else◌) l
    | inr e ↦ rw (e, if◌then◌else◌) l
  ]
  add_row-Below current k row r (s ∷ rs) l = l

  add_row-Grouped :
      (current k : ℕ) (done : List CleanPath) (row : CleanPath) (runs : List DisplayPathRun)
      → All (λ d. k ≤ d.run_id) done
      → row.run_id ≤ k
      → Grouped done k runs
      → Grouped (done ++ (row ∷ [])) row.run_id (add_row as_i64 from_str current row runs)
  unfolding add_row
  add_row-Grouped current k done row [] low l h = absurd h.ends
  add_row-Grouped current k done row (r ∷ s ∷ rs) low l h =
      let go =
        add_row-Grouped current k done row (s ∷ rs) low l
          (record { kept = h.kept.1; ends = h.ends.1; descends = h.descends.1 }) in
      record {
        kept = (other-Keeps done row r (let m = h.ends.0 in omega arith) h.kept.0, go.kept);
        ends = cons-Ends row.run_id r _ (let m = h.ends.0 in omega arith) go.ends;
        descends =
            cons-Descends r _ (add_row-Below current r.run_id row s rs h.descends.0) go.descends;
      }
  add_row-Grouped current k done row (r ∷ []) low l h = elim (Bool-cases (r.run_id == row.run_id)) [
    | inl e ↦
        rw (e, if◌then◌else◌)
          (record {
            kept = (add_path_row-Keeps done row r (ground arith) h.kept.0, tt);
            ends = ground arith;
            descends = tt;
          })
    | inr e ↦
        rw (e, if◌then◌else◌)
          (let below : row.run_id < k = let m = h.ends in ground arith in
            let above : row.run_id < r.run_id = let m = h.ends in omega arith in
            let apart =
              All-In (λ d. row.run_id < d.run_id) done
                (λ d m. let q = In-All (λ d. k ≤ d.run_id) d done low m in omega arith) in
            record {
              kept =
                  (other-Keeps done row r above h.kept.0, (new-Keeps current done row apart, tt));
              ends = (above, refl);
              descends = (above, tt);
            })
  ]

  All-snoc :
      (k : ℕ) (done : List CleanPath) (row : CleanPath)
      → All (λ d. k ≤ d.run_id) done
      → row.run_id ≤ k
      → All (λ d. row.run_id ≤ d.run_id) (done ++ (row ∷ []))
  All-snoc k [] row h l = (omega arith, tt)
  All-snoc k (d ∷ done) row h l = (let m = h.0 in omega arith, All-snoc k done row h.1 l)

  add_rows-Keeps :
      (current k : ℕ) (done rows : List CleanPath) (runs : List DisplayPathRun)
      → All (λ d. k ≤ d.run_id) done
      → Falls k rows
      → Grouped done k runs
      → All (Keeps (done ++ rows)) (add_rows as_i64 from_str current rows runs)
  unfolding add_rows
  add_rows-Keeps current k done [] runs low f h = rw (append-nil done) h.kept
  add_rows-Keeps current k done (row ∷ rows) runs low f h =
      let runs' = add_row as_i64 from_str current row runs in
      subst (λ q. All (Keeps q) (add_rows as_i64 from_str current rows runs'))
        (append_assoc done (row ∷ []) rows)
        (add_rows-Keeps current row.run_id (done ++ (row ∷ [])) rows _ (All-snoc k done row low f.0)
          f.1 (add_row-Grouped current k done row runs low f.0 h))

  add_rows-descend :
      (current k : ℕ) (done rows : List CleanPath) (runs : List DisplayPathRun)
      → All (λ d. k ≤ d.run_id) done
      → Falls k rows
      → Grouped done k runs
      → Descends (add_rows as_i64 from_str current rows runs)
  unfolding add_rows
  add_rows-descend current k done [] runs low f h = h.descends
  add_rows-descend current k done (row ∷ rows) runs low f h =
      add_rows-descend current row.run_id (done ++ (row ∷ [])) rows _ (All-snoc k done row low f.0)
        f.1 (add_row-Grouped current k done row runs low f.0 h)

  -- The runs of rows whose ids never go up have ids that go down.
  pub add_rows-Descends :
      (current hi : ℕ) (rows : List CleanPath)
      → Falls hi rows
      → Descends (add_rows as_i64 from_str current rows [])
  unfolding add_rows add_row
  add_rows-Descends current hi [] f = tt
  add_rows-Descends current hi (row ∷ rows) f =
      add_rows-descend current row.run_id (row ∷ []) rows
        (add_path_row as_i64 from_str row (new row current) ∷ []) (omega arith, tt) f.1
        (record { kept = (new-Keeps current [] row tt, tt); ends = refl; descends = tt })

  -- The runs of rows whose ids never go up each show their rows.
  pub add_rows-Shows :
      (current hi : ℕ) (rows : List CleanPath)
      → Falls hi rows
      → All (Shows rows) (add_rows as_i64 from_str current rows [])
  unfolding add_rows add_row
  add_rows-Shows current hi [] f = tt
  add_rows-Shows current hi (row ∷ rows) f =
      let kept =
        add_rows-Keeps current row.run_id (row ∷ []) rows
          (add_path_row as_i64 from_str row (new row current) ∷ []) (omega arith, tt) f.1
          (record { kept = (new-Keeps current [] row tt, tt); ends = refl; descends = tt }) in
      All-In (Shows (row ∷ rows)) _ λ u m.
        let q = In-All (Keeps (row ∷ rows)) u _ kept m in
        record {
          parted = q.0;
          shown =
              ap (squeeze none) (sym (append-nil (join u.segments)))
              ∙ q.1 []
              ∙ ap (squeeze none) (append-nil (points_of_rows (of_run u.run_id (row ∷ rows))));
        }
