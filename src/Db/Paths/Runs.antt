-- ===== src/Db/Paths/Runs.antt =====
-- The run of paths in progress, `path_state` of src/db/queries.rs, counted in dockings.
use noobscenic.Prelude.{
  ℕ, ◌+◌, ℤ, Bytes, Bool, true, false, List, [], ◌∷◌, Option, none, some, not, text_eq, text_refl,
  text_iff, subst, if◌then◌else◌, Bool-cases, ◌≡◌, refl, ◌∙◌, inl, inr, arith, ◌&&◌,
}
use noobscenic.Db.Rows.Laws.{find-upsert, find-upsert_other, upserted}
use noobscenic.Db.Paths.{
  PathState, Paths, is_state_of, find_state, is_docked, was_docked, run_of, advance, first_state,
  observe_path_mode, current_path_run_id,
}

-- One status push: the device, its mode and the clock.
pub record Status : Type 0 where
  pub sn : Bytes
  pub mode : Bytes
  pub now : ℤ

abbrev pub observe : Bool → Paths → Status → Paths
observe history t s = (observe_path_mode history s.sn s.mode s.now t).0

abbrev pub observe_all : Bool → Paths → List Status → Paths
observe_all history t [] = t
observe_all history t (s ∷ ss) = observe_all history (observe history t s) ss

-- How many of the statuses of a device follow one in which it was not docked, and are docked.
unfoldable pub dockings : Bytes → Bool → List Status → ℕ
dockings sn docked [] = 0
dockings sn docked (s ∷ ss) =
    let rest = dockings sn (is_docked s.mode) ss in
    let same = dockings sn docked ss in
    if text_eq s.sn sn then (if is_docked s.mode && not docked then 1 else 0) + rest else same

change_same :
    (entered docked : Bool) (now : ℤ) (sn : Bytes) (r : PathState)
    → is_state_of sn (advance entered docked now r) ≡ is_state_of sn r
unfolding advance
change_same true docked now sn r = refl
change_same false docked now sn r = refl

state-observe :
    (history : Bool) (t : Paths) (s : Status)
    → find_state s.sn (observe history t s).states
      ≡ some (
          upserted
            (advance
              (is_docked s.mode && not (was_docked (find_state s.sn t.states)))
              (is_docked s.mode)
              s.now)
            (first_state s.sn (is_docked s.mode) s.now)
            (find_state s.sn t.states))
unfolding observe_path_mode
state-observe history t s =
    find-upsert (is_state_of s.sn) _ (first_state s.sn (is_docked s.mode) s.now)
      (change_same _ (is_docked s.mode) s.now s.sn) (unfold first_state in text_refl s.sn) t.states

pub state-observe_other :
    (history : Bool) (t : Paths) (s : Status) (sn : Bytes)
    → text_eq s.sn sn ≡ false
    → find_state sn (observe history t s).states ≡ find_state sn t.states
unfolding observe_path_mode
state-observe_other history t s sn n =
    find-upsert_other (is_state_of s.sn) _ (is_state_of sn) (λ r h. apart r.sn h)
      (λ r h. change_same _ _ s.now sn r ∙ apart r.sn h) (first_state s.sn (is_docked s.mode) s.now)
      (unfold first_state in n) t.states
  where
    apart : (k : Bytes) → text_eq k s.sn ≡ true → text_eq k sn ≡ false
    apart k h = rw ((text_iff k s.sn).0 h) n

-- The state that a status leaves, from the one before.
run_next :
    (docked : Bool) (now : ℤ) (sn : Bytes) (o : Option PathState)
    → let next =
        upserted
          (advance (docked && not (was_docked o)) docked now)
          (first_state sn docked now)
          o in
      (run_of (some next) ≡ (if docked && not (was_docked o) then 1 else 0) + run_of o)
      × (next.docked ≡ docked)
unfolding upserted advance first_state
run_next true now sn none = (omega arith, refl)
run_next false now sn none = (omega arith, refl)
run_next true now sn (some s) = elim (Bool-cases s.docked) [
  | inl e ↦ rw e (omega arith, refl)
  | inr e ↦ rw e (omega arith, refl)
]
run_next false now sn (some s) = (omega arith, refl)

pub own_run :
    (history : Bool) (t : Paths) (s : Status) (sn : Bytes)
    → text_eq s.sn sn ≡ true
    → let before = find_state sn t.states in
      let after = find_state sn (observe history t s).states in
      (run_of after
        ≡ (if is_docked s.mode && not (was_docked before) then 1 else 0) + run_of before)
      × (was_docked after ≡ is_docked s.mode)
own_run history t s sn e =
    subst
      (λ k.
        (run_of (find_state k (observe history t s).states)
          ≡ (if is_docked s.mode && not (was_docked (find_state k t.states)) then 1 else 0)
            + run_of (find_state k t.states))
        × (was_docked (find_state k (observe history t s).states) ≡ is_docked s.mode))
      ((text_iff s.sn sn).0 e)
      (rw (state-observe history t s)
        (run_next (is_docked s.mode) s.now s.sn (find_state s.sn t.states)))

-- The number of a device's run grows by one with each docking and at no other status, whatever
-- statuses of other devices come between, with either build.
pub run-observe_all :
    (history : Bool) (sn : Bytes) (t : Paths) (ss : List Status)
    → current_path_run_id sn (observe_all history t ss)
      ≡ dockings sn (was_docked (find_state sn t.states)) ss + current_path_run_id sn t
unfolding current_path_run_id dockings
run-observe_all history sn t [] = omega arith
run-observe_all history sn t (s ∷ ss) =
    let rest = run-observe_all history sn (observe history t s) ss in
    elim (Bool-cases (text_eq s.sn sn)) [
      | inl e ↦
          let step = own_run history t s sn e in
          let go : run_of (find_state sn (observe_all history (observe history t s) ss).states)
              ≡ dockings sn (is_docked s.mode) ss
                + run_of (find_state sn (observe history t s).states) =
            rw (step.1) at rest in
          rw (e, if◌then◌else◌) (omega (arith, go, step.0))
      | inr e ↦ rw (e, if◌then◌else◌) (rest ∙ rw (state-observe_other history t s sn e) refl)
    ]
