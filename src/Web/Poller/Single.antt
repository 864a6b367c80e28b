-- ===== src/Web/Poller/Single.antt =====
-- The path poller of src/web.rs and the requests that are alive for a robot.
use noobscenic.Prelude.{
  ℕ, ◌+◌, ◌≤◌, max, Bytes, Bool, true, false, List, [], ◌∷◌, ◌++◌, Option, none, some, text_eq,
  text_iff, if◌then◌else◌, not, ◌||◌, keep, length, length-append, find_first, ◌≡◌, refl, ap, ◌∙◌,
  arith, Bool-cases, Option-cases, inl, inr, subst,
}
use noobscenic.Db.Rows.Laws.{keep-append}
use noobscenic.Db.Commands.{Row, Table, is_active, active_command, fail_command, insert_command}
use noobscenic.Proto.Dispatch.{Libraries}
use noobscenic.Web.State.{Web, Env, queue}
use noobscenic.Web.Watch.{fresh, watched}
use noobscenic.Web.Poller.{
  path_type, timed_out, ask_path, is_overdue, retire, poll_request, is_resting, poll_robot,
  poll_robots, poll_paths_once,
}
use noobscenic.Web.Poller.Retired.{
  tally, count, count-cons, shrink, shrink_first, active, fail_command-IsShrinking,
  fail_command_gone,
}

found_none : (p : Row → Bool) (t : Table) → find_first p t ≡ none → count p t ≡ 0
unfolding find_first count keep
found_none p [] e = refl
found_none p (r ∷ t) e = elim (Bool-cases (p r)) [
  | inl k ↦ absurd (clash (rw (k, if◌then◌else◌) at e))
  | inr k ↦ rw (k, if◌then◌else◌) (found_none p t (rw (k, if◌then◌else◌) at e))
]
  where
    clash : ◌≡◌ {A = Option Row} (some r) none → ⊥
    clash e = cc

found_some : (p : Row → Bool) (r : Row) (t : Table) → find_first p t ≡ some r → p r ≡ true
unfolding find_first
found_some p r [] e = absurd (clash e)
  where
    clash : ◌≡◌ {A = Option Row} none (some r) → ⊥
    clash e = cc
found_some p r (x ∷ t) e = elim (Bool-cases (p x)) [
  | inl k ↦ rw (first (rw (k, if◌then◌else◌) at e)) k
  | inr k ↦ found_some p r t (rw (k, if◌then◌else◌) at e)
]
  where
    first : some x ≡ some r → r ≡ x
    first q = cc

count-append :
    (p : Row → Bool) (t : Table) (r : Row) → count p (t ++ r ∷ []) ≡ count p t + tally p r
unfolding count
count-append p t r =
    ap length (keep-append p t (r ∷ []))
    ∙ length-append (keep p t) (keep p (r ∷ []))
    ∙ omega (arith, count-cons p r [], none_kept)
  where
    none_kept : count p [] ≡ 0
    none_kept = unfold count keep in refl

-- How many requests for the path of a robot are pending or unanswered.
unfoldable pub live : Bytes → Table → ℕ
live k t = count (is_active k path_type) t

live-append :
    (k : Bytes) (t : Table) (r : Row)
    → (live k (t ++ r ∷ []) ≤ live k t + 1)
      × (text_eq r.sn k ≡ false → live k (t ++ r ∷ []) ≤ live k t)
unfolding live
live-append k t r =
    let grow = count-append (is_active k path_type) t r in
    (omega (arith, grow, at_most (is_active k path_type r)), λ n. omega (arith, grow, foreign n))
  where
    at_most : (b : Bool) → (if b then 1 else 0) ≤ 1
    at_most b = ground arith

    foreign : text_eq r.sn k ≡ false → tally (is_active k path_type) r ≡ 0
    foreign n = unfold is_active in rw n refl

pub live_none : (k : Bytes) → live k [] ≤ 1
unfolding live count keep
live_none k = omega arith

-- The retirement of the first live request of a robot.
live-fail_command :
    (history : Bool) (sn k text : Bytes) (r : Row) (t : Table)
    → find_first (is_active sn path_type) t ≡ some r
    → (live k (fail_command history r.id text t) ≤ live k t)
      × (sn ≡ k → live k (fail_command history r.id text t) + 1 ≤ live k t)
unfolding live active
live-fail_command history sn k text r t e = (
  shrink (is_active k path_type) (fail_command history r.id text)
      (fail_command-IsShrinking k path_type r.id text history) t,
  λ same.
      subst (λ x. live x (fail_command history r.id text t) + 1 ≤ live x t) same
        (shrink_first (is_active sn path_type) (fail_command history r.id text)
          (fail_command-IsShrinking sn path_type r.id text history) r
          (fail_command_gone sn path_type r.id text history r refl
            (found_some (is_active sn path_type) r t e))
          t e),
)

module _ {F : Type 0} (history : Bool) (l : Libraries F) (env : Env) (k : Bytes) where
  live-ask_path :
      (sn : Bytes) (w : Web F)
      → (live k (ask_path history l env sn w).commands ≤ live k w.commands + 1)
        × (text_eq sn k ≡ false → live k (ask_path history l env sn w).commands ≤ live k w.commands)
  unfolding ask_path queue insert_command
  live-ask_path sn w = live-append k w.commands _

  live-poll_request :
      (sn : Bytes) (w : Web F)
      → live k (poll_request history l env sn w).commands ≤ max 1 (live k w.commands)
  unfolding poll_request live active_command
  live-poll_request sn w = elim (Option-cases (active_command sn path_type w.commands)) [
    | inl e ↦
        let none_alive = found_none (is_active sn path_type) w.commands e in
        let ask = live-ask_path sn w in
        rw (poll_request, e)
          (elim (Bool-cases (text_eq sn k)) [
            | inl f ↦
                let same =
                  ap (λ x. count (is_active x path_type) w.commands) ((text_iff sn k).0 f) in
                omega (arith, ask.0, none_alive, same)
            | inr f ↦ omega (arith, ask.1 f)
          ])
    | inr (r, e) ↦ elim (Bool-cases (is_overdue history l env r)) [
      | inr f ↦ rw (poll_request, e, f, if◌then◌else◌) (omega arith)
      | inl f ↦
          let x = retire history l env r w in
          let ask = live-ask_path sn x in
          let less = live-fail_command history sn k timed_out r w.commands e in
          rw (poll_request, e, f, if◌then◌else◌)
            (elim (Bool-cases (text_eq sn k)) [
              | inl g ↦ omega (arith, ask.0, less.1 ((text_iff sn k).0 g))
              | inr g ↦ omega (arith, ask.1 g, less.0)
            ])
    ]
  ]

  live-poll_robot :
      (sn : Bytes) (w : Web F)
      → live k (poll_robot history l env sn w).commands ≤ max 1 (live k w.commands)
  unfolding poll_robot
  live-poll_robot sn w =
      elim (Bool-cases (not (fresh sn env.now w.watchers) || not (env.is_online sn))) [
        | inl e ↦ rw (e, if◌then◌else◌) (omega arith)
        | inr e ↦ elim (Bool-cases (is_resting history l env sn w)) [
          | inl f ↦ rw (e, f, if◌then◌else◌) (omega arith)
          | inr f ↦ rw (e, f, if◌then◌else◌) (live-poll_request sn w)
        ]
      ]

  live-poll_robots :
      (sns : List Bytes) (w : Web F)
      → live k (poll_robots history l env sns w).commands ≤ max 1 (live k w.commands)
  unfolding poll_robots
  live-poll_robots [] w = omega arith
  live-poll_robots (sn ∷ sns) w =
      omega (arith, live-poll_robots sns (poll_robot history l env sn w), live-poll_robot sn w)

  -- A pass of the poller leaves at most one request for the path of any robot pending or unanswered,
  -- when there was at most one, with either build.
  pub live-poll_paths_once :
      (w : Web F) → live k w.commands ≤ 1 → live k (poll_paths_once history l env w).commands ≤ 1
  unfolding poll_paths_once
  live-poll_paths_once w h = omega (arith, live-poll_robots (watched w.watchers) w)
