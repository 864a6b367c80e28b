-- ===== src/Db/Paths/Recent.antt =====
-- The clean paths that stay, `clean_paths` of src/db/queries.rs.
use noobscenic.Prelude.{
  ℕ, ◌+◌, ◌-◌, ◌≤◌, ℤ, Bytes, Bool, true, false, List, not, keep, text_eq, text_refl, text_iff,
  if◌then◌else◌, Bool-cases, ◌≡◌, refl, ap, sym, inl, inr, arith, In, In-keep, keep-In, ◌&&◌, ltb,
  leb,
}
use noobscenic.Db.Rows.Laws.{In-upsert}
use noobscenic.Db.Paths.{
  CleanPath, Paths, find_state, is_docked, was_docked, run_of, is_older_run, observe_path_mode,
  current_path_run_id, PathWrite, rewrite, fresh_path, upsert_clean_path, is_path,
  prune_clean_paths_before_previous_run,
}
use noobscenic.Db.Paths.Runs.{Status, observe, own_run, state-observe_other}

-- Every path is of the device's run in progress or, without `history`, of the one before.
unfoldable pub IsRecent : Paths → Type 0
IsRecent t =
    (p : CleanPath)
    → In p t.paths
    → (current_path_run_id p.sn t ≤ p.run_id + 1) × (p.run_id ≤ current_path_run_id p.sn t)

kept_path :
    (b : Bool) (sn : Bytes) (run : ℕ) (p : CleanPath) (ps : List CleanPath)
    → In p (if b then keep (λ q. not (is_older_run sn run q)) ps else ps)
    → In p ps × (b ≡ true → is_older_run sn run p ≡ false)
kept_path true sn run p ps m =
    let k = In-keep (λ q. not (is_older_run sn run q)) p ps m in (k.0, λ _. ground (arith, k.1))
kept_path false sn run p ps m = (m, λ e. ground (arith, e))

recent_own :
    (entered own : Bool) (old now run : ℕ)
    → own ≡ true
    → now ≡ (if entered then 1 else 0) + old
    → (entered && leb 2 (old + (if entered then 1 else 0)) ≡ true
        → (own && ltb run (old + (if entered then 1 else 0) - 1)) ≡ false)
    → old ≤ run + 1
    → run ≤ old
    → (now ≤ run + 1) × (run ≤ now)
recent_own entered own old now run e f g h k = (ground arith, ground arith)

observe-IsRecent : (t : Paths) (s : Status) → IsRecent t → IsRecent (observe false t s)
unfolding IsRecent observe_path_mode current_path_run_id
observe-IsRecent t s h p m =
    let before = find_state s.sn t.states in
    let entered = is_docked s.mode && not (was_docked before) in
    let run = run_of before + (if entered then 1 else 0) in
    let k = kept_path (entered && leb 2 run) s.sn (run - 1) p t.paths m in
    let old = h p k.0 in
    elim (Bool-cases (text_eq p.sn s.sn)) [
      | inl e ↦
          let q = (text_iff p.sn s.sn).0 e in
          let step = (own_run false t s p.sn (rw q (text_refl s.sn))).0 in
          let same = ap (λ sn. find_state sn t.states) (sym q) in
          recent_own (is_docked s.mode && not (was_docked (find_state p.sn t.states)))
            (text_eq p.sn s.sn) (run_of (find_state p.sn t.states))
            (run_of (find_state p.sn (observe false t s).states)) p.run_id e step (rw same at k.1)
            old.0 old.1
      | inr e ↦ rw (state-observe_other false t s p.sn (apart e)) old
    ]
  where
    apart : text_eq p.sn s.sn ≡ false → text_eq s.sn p.sn ≡ false
    apart e = ground (arith, text_iff p.sn s.sn, text_iff s.sn p.sn)

upsert_clean_path-IsRecent :
    (sn : Bytes) (path_id : ℤ) (w : PathWrite) (t : Paths)
    → IsRecent t
    → IsRecent (upsert_clean_path sn path_id w t)
unfolding IsRecent upsert_clean_path rewrite fresh_path current_path_run_id
upsert_clean_path-IsRecent sn path_id w t h =
    In-upsert
      (λ p.
        (run_of (find_state p.sn t.states) ≤ p.run_id + 1)
        × (p.run_id ≤ run_of (find_state p.sn t.states)))
      (is_path sn path_id) (rewrite w) _ (λ r k. k) (omega arith, omega arith) t.paths h

prune-IsRecent : (t : Paths) → IsRecent t → IsRecent (prune_clean_paths_before_previous_run t)
unfolding IsRecent prune_clean_paths_before_previous_run current_path_run_id
prune-IsRecent t h p m = h p (In-keep _ p t.paths m).0

-- What the server does to the two tables without `history`: a status, a chunk and a start.
pub data PathStep : Paths → Paths → Type 0 where
  status : (t : Paths) (s : Status) → PathStep t (observe false t s)
  chunk :
      (sn : Bytes) (path_id : ℤ) (w : PathWrite) (t : Paths)
      → PathStep t (upsert_clean_path sn path_id w t)
  start : (t : Paths) → PathStep t (prune_clean_paths_before_previous_run t)

pub data Reaches : Paths → Paths → Type 0 where
  done : (t : Paths) → Reaches t t
  then : {t u v : Paths} → PathStep t u → Reaches u v → Reaches t v

step-IsRecent : (t u : Paths) → PathStep t u → IsRecent t → IsRecent u
step-IsRecent _ _ (PathStep.status t s) h = observe-IsRecent t s h
step-IsRecent _ _ (PathStep.chunk sn path_id w t) h = upsert_clean_path-IsRecent sn path_id w t h
step-IsRecent _ _ (PathStep.start t) h = prune-IsRecent t h

-- Without `history`, statuses, chunks and starts in any order leave only paths of a device's run in
-- progress and of the run before it, when only such paths were there.
pub Reaches-IsRecent : (t u : Paths) → Reaches t u → IsRecent t → IsRecent u
Reaches-IsRecent _ _ (Reaches.done t) h = h
Reaches-IsRecent t v (Reaches.then {u = u} step rest) h =
    Reaches-IsRecent u v rest (step-IsRecent t u step h)

recent_stays :
    (entered own : Bool) (old now run : ℕ)
    → own ≡ true
    → now ≡ (if entered then 1 else 0) + old
    → now ≤ run + 1
    → (own && ltb run (old + (if entered then 1 else 0) - 1)) ≡ false
recent_stays entered own old now run e f g = ground arith

keep_path :
    (b : Bool) (sn : Bytes) (run : ℕ) (p : CleanPath) (ps : List CleanPath)
    → In p ps
    → is_older_run sn run p ≡ false
    → In p (if b then keep (λ q. not (is_older_run sn run q)) ps else ps)
keep_path true sn run p ps m e = keep-In (λ q. not (is_older_run sn run q)) p ps m (rw e refl)
keep_path false sn run p ps m e = m

-- A status removes no path of the run that is then in progress, nor of the run before it, and none
-- of another device, with either build.
pub observe_keeps_recent :
    (history : Bool) (t : Paths) (s : Status) (p : CleanPath)
    → In p t.paths
    → (p.sn ≡ s.sn → current_path_run_id s.sn (observe history t s) ≤ p.run_id + 1)
    → In p (observe history t s).paths
unfolding observe_path_mode current_path_run_id
observe_keeps_recent history t s p m h =
    let before = find_state s.sn t.states in
    let entered = is_docked s.mode && not (was_docked before) in
    let run = run_of before + (if entered then 1 else 0) in
    keep_path (not history && entered && leb 2 run) s.sn (run - 1) p t.paths m
      (elim (Bool-cases (text_eq p.sn s.sn)) [
        | inl e ↦
            recent_stays entered (text_eq p.sn s.sn) (run_of before)
              (run_of (find_state s.sn (observe history t s).states)) p.run_id e
              (own_run history t s s.sn (text_refl s.sn)).0 (h ((text_iff p.sn s.sn).0 e))
        | inr e ↦ rw e refl
      ])
