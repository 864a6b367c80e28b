-- ===== src/Db/Paths/Shown/Recency.antt =====
-- Which rows the page draws, and in which order: `recent_clean_path_rows` of src/db/queries.rs.
use noobscenic.Prelude.{
  ℕ, ◌≤◌, Bytes, Bool, true, false, List, [], ◌∷◌, Option, none, some, ◌≡◌, refl, ◌⊎◌, inl, inr,
  ◌==◌, ltb, ◌||◌, not, keep, text_eq, if◌then◌else◌, Bool-cases, In, In-keep, keep-In, All, All-In,
  In-All, arith,
}
use noobscenic.Db.Paths.{CleanPath, Paths}
use noobscenic.Db.Paths.Shown.{
  newest_run, is_run, latest_runs, comes_first, insert_row_by, sort_rows, recent_clean_path_rows,
}

-- Run ids from `hi` on that never go up.
abbrev pub Falls : ℕ → List CleanPath → Type 0
Falls hi [] = Unit
Falls hi (p ∷ ps) = (p.run_id ≤ hi) × Falls p.run_id ps

insert_row_by-Falls :
    (hi : ℕ) (p : CleanPath) (qs : List CleanPath)
    → p.run_id ≤ hi
    → Falls hi qs
    → Falls hi (insert_row_by p qs)
unfolding insert_row_by
insert_row_by-Falls hi p [] l h = (l, tt)
insert_row_by-Falls hi p (q ∷ qs) l h =
    let go = insert_row_by-Falls q.run_id p qs in
    elim (Bool-cases (comes_first p q)) [
      | inl e ↦ rw (e, if◌then◌else◌) (l, (ground arith, h.1))
      | inr e ↦ rw (e, if◌then◌else◌) (h.0, go (ground arith) h.1)
    ]

abbrev pub Bounded : ℕ → List CleanPath → Type 0
Bounded hi = All (λ p. p.run_id ≤ hi)

sort_rows-Falls : (hi : ℕ) (ps : List CleanPath) → Bounded hi ps → Falls hi (sort_rows ps)
unfolding sort_rows
sort_rows-Falls hi [] h = tt
sort_rows-Falls hi (p ∷ ps) h = insert_row_by-Falls hi p _ h.0 (sort_rows-Falls hi ps h.1)

In-insert_row_by :
    (a p : CleanPath) (qs : List CleanPath) → (p ≡ a) ⊎ In a qs → In a (insert_row_by p qs)
unfolding insert_row_by
In-insert_row_by a p [] m = m
In-insert_row_by a p (q ∷ qs) m =
    let go = In-insert_row_by a p qs in
    elim (Bool-cases (comes_first p q)) [
      | inl e ↦ rw (e, if◌then◌else◌) m
      | inr e ↦ rw (e, if◌then◌else◌) (behind go m)
    ]
  where
    behind :
        ((p ≡ a) ⊎ In a qs → In a (insert_row_by p qs))
        → (p ≡ a) ⊎ ((q ≡ a) ⊎ In a qs)
        → (q ≡ a) ⊎ In a (insert_row_by p qs)
    behind go (inl e) = inr (go (inl e))
    behind go (inr (inl e)) = inl e
    behind go (inr (inr m)) = inr (go (inr m))

insert_row_by-In :
    (a p : CleanPath) (qs : List CleanPath) → In a (insert_row_by p qs) → (p ≡ a) ⊎ In a qs
unfolding insert_row_by
insert_row_by-In a p [] m = m
insert_row_by-In a p (q ∷ qs) m =
    let go = insert_row_by-In a p qs in
    elim (Bool-cases (comes_first p q)) [
      | inl e ↦ rw (e, if◌then◌else◌) at m
      | inr e ↦ behind go (rw (e, if◌then◌else◌) at m)
    ]
  where
    behind :
        (In a (insert_row_by p qs) → (p ≡ a) ⊎ In a qs)
        → (q ≡ a) ⊎ In a (insert_row_by p qs)
        → (p ≡ a) ⊎ ((q ≡ a) ⊎ In a qs)
    behind go (inl e) = inr (inl e)
    behind go (inr m) = elim (go m) [ inl e ↦ inl e | inr k ↦ inr (inr k) ]

In-sort_rows : (a : CleanPath) (ps : List CleanPath) → In a ps → In a (sort_rows ps)
unfolding sort_rows
In-sort_rows a [] m = m
In-sort_rows a (p ∷ ps) (inl e) = In-insert_row_by a p _ (inl e)
In-sort_rows a (p ∷ ps) (inr m) = In-insert_row_by a p _ (inr (In-sort_rows a ps m))

sort_rows-In : (a : CleanPath) (ps : List CleanPath) → In a (sort_rows ps) → In a ps
unfolding sort_rows
sort_rows-In a [] m = m
sort_rows-In a (p ∷ ps) m = elim (insert_row_by-In a p _ m) [
  | inl e ↦ inl e
  | inr k ↦ inr (sort_rows-In a ps k)
]

-- The largest run id is that of a row, and there is one unless there are no rows.
pub newest_run-max :
    (p : CleanPath) (ps : List CleanPath)
    → In p ps
    → (k : ℕ) × ((newest_run ps ≡ some k) × (p.run_id ≤ k))
unfolding newest_run
newest_run-max p [] m = absurd m
newest_run-max p (q ∷ ps) m = found (newest_run ps) refl m (newest_run-max p ps)
  where
    larger : ℕ → ℕ
    larger k = if ltb k q.run_id then q.run_id else k

    above : (k : ℕ) → (k ≤ larger k) × (q.run_id ≤ larger k)
    above k = ground arith

    found :
        (o : Option ℕ)
        → newest_run ps ≡ o
        → (q ≡ p) ⊎ In p ps
        → (In p ps → (k : ℕ) × ((newest_run ps ≡ some k) × (p.run_id ≤ k)))
        → (k : ℕ) × ((newest_run (q ∷ ps) ≡ some k) × (p.run_id ≤ k))
    found none e (inl s) go = (q.run_id, (rw (e) refl, rw (s) (omega arith)))
    found none e (inr m) go = let r = go m in let c = r.1.0 in absurd (cc)
    found (some j) e (inl s) go = (larger j, (rw (e) refl, rw (← s) (above j).1))
    found (some j) e (inr m) go =
        let r = go m in
        let c = r.1.0 in
        let same : j ≡ r.0 = cc in
        (larger j, (rw (e) refl, let a = (above j).0 in let b = r.1.1 in omega arith))

Reaches : CleanPath → Option ℕ → Type 0
Reaches p o = (k : ℕ) × ((o ≡ some k) × (p.run_id ≤ k))

up_closed :
    (p q : CleanPath) (first second : Option ℕ)
    → q.run_id ≤ p.run_id
    → Reaches p first
    → (is_run first p ≡ false → Reaches p second)
    → (is_run first q || is_run second q) ≡ true
    → (is_run first p || is_run second p) ≡ true
unfolding Reaches
up_closed p q none second l (k, (e, _)) f d = absurd (cc)
up_closed p q (some a) none l (k, (e, u)) f d = elim (Bool-cases (p.run_id == a)) [
  | inl s ↦ rw (s) refl
  | inr s ↦ let c = (f s).1.0 in absurd (cc)
]
up_closed p q (some a) (some b) l (k, (e, u)) f d = elim (Bool-cases (p.run_id == a)) [
  | inl s ↦ rw (s) refl
  | inr s ↦
      let r = f s in
      let c = r.1.0 in
      let same : a ≡ k = cc in let same' : b ≡ r.0 = cc in let v = r.1.1 in ground arith
]

-- The two runs that are drawn are the largest ids: a row whose run is not older than one of theirs
-- is drawn as well.
latest_runs-closed :
    (p q : CleanPath) (ps : List CleanPath)
    → In p ps
    → q.run_id ≤ p.run_id
    → (is_run (latest_runs ps).0 q || is_run (latest_runs ps).1 q) ≡ true
    → (is_run (latest_runs ps).0 p || is_run (latest_runs ps).1 p) ≡ true
unfolding latest_runs Reaches
latest_runs-closed p q ps m l d =
    up_closed p q (newest_run ps) _ l (newest_run-max p ps m)
      (λ s. newest_run-max p _ (keep-In (λ r. not (is_run (newest_run ps) r)) p ps m (rw (s) refl)))
      d

-- The rows that are drawn are rows of the device, newest run first, and include every row of the
-- device whose run is not older than one that is drawn.
pub record IsRecent (sn : Bytes) (t : Paths) (rows : List CleanPath) : Type 0 where
  pub falls : (hi : ℕ) → Bounded hi t.paths → Falls hi rows
  pub own : (p : CleanPath) → In p rows → In p t.paths × (text_eq p.sn sn ≡ true)
  pub closed :
      (p q : CleanPath)
      → In q rows
      → In p t.paths
      → text_eq p.sn sn ≡ true
      → q.run_id ≤ p.run_id
      → In p rows

pub recent_clean_path_rows-IsRecent :
    (sn : Bytes) (t : Paths) → IsRecent sn t (recent_clean_path_rows sn t)
unfolding recent_clean_path_rows
recent_clean_path_rows-IsRecent sn t = record {
  falls = λ hi h. sort_rows-Falls hi _ (
      All-In (λ p. p.run_id ≤ hi) _
        λ p m.
          In-All (λ p. p.run_id ≤ hi) p t.paths h
            (In-keep is_own p t.paths (In-keep is_recent p own m).0).0);
  own = λ p m. In-keep is_own p t.paths (In-keep is_recent p own (sort_rows-In p _ m)).0;
  closed = λ p q m i s l.
      let k = In-keep is_recent q own (sort_rows-In q _ m) in
      let j = keep-In is_own p t.paths i s in
      In-sort_rows p _ (keep-In is_recent p own j (latest_runs-closed p q own j l k.1));
}
  where
    is_own : CleanPath → Bool
    is_own p = text_eq p.sn sn

    own : List CleanPath
    own = keep is_own t.paths

    is_recent : CleanPath → Bool
    is_recent p = is_run (latest_runs own).0 p || is_run (latest_runs own).1 p
