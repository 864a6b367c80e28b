-- ===== src/Web/Poller/Retired.antt =====
-- What is left of the live requests once one of them has failed: `fail_command` of
-- src/db/queries.rs, counted.
use noobscenic.Prelude.{
  ℕ, ◌+◌, ◌≤◌, ℤ, Bytes, Bool, true, false, [], ◌∷◌, Option, none, some, if◌then◌else◌, ◌||◌, keep,
  length, find_first, ◌≡◌, refl, ap, arith, Bool-cases, inl, inr, ==_iff,
}
use noobscenic.Db.Commands.{
  Row, State, pending, sent, acked, expired, failed, Table, is_state, is_active, is_failable,
  fail_command,
}

abbrev pub tally : (Row → Bool) → Row → ℕ
tally p r = if p r then 1 else 0

unfoldable pub count : (Row → Bool) → Table → ℕ
count p t = length (keep p t)

pub count-cons : (p : Row → Bool) (r : Row) (t : Table) → count p (r ∷ t) ≡ tally p r + count p t
unfolding count keep
count-cons p r t = elim (Bool-cases (p r)) [
  | inl e ↦ rw (e, if◌then◌else◌) (omega arith)
  | inr e ↦ rw (e, if◌then◌else◌) (omega arith)
]

-- A statement that changes or deletes rows, row by row, and makes none of them a picked one.
pub record IsShrinking (p : Row → Bool) (f : Table → Table) : Type 0 where
  empty : f [] ≡ []
  one : (r : Row) (t : Table) → count p (f (r ∷ t)) ≤ tally p r + count p (f t)

pub shrink :
    (p : Row → Bool) (f : Table → Table) → IsShrinking p f → (t : Table) → count p (f t) ≤ count p t
shrink p f s [] = rw (s.empty) (omega arith)
shrink p f s (r ∷ t) = omega (arith, shrink p f s t, s.one r t, count-cons p r t)

-- The first picked row, once it is not picked any more.
pub shrink_first :
    (p : Row → Bool) (f : Table → Table)
    → IsShrinking p f
    → (r : Row) → ((t : Table) → count p (f (r ∷ t)) ≤ count p (f t))
    → (t : Table) → find_first p t ≡ some r
    → count p (f t) + 1 ≤ count p t
unfolding find_first
shrink_first p f s r gone [] e = absurd (clash e)
  where
    clash : ◌≡◌ {A = Option Row} none (some r) → ⊥
    clash e = cc
shrink_first p f s r gone (x ∷ t) e = elim (Bool-cases (p x)) [
  | inl k ↦
      let same : x ≡ r = first (rw (k, if◌then◌else◌) at e) in
      let loss = gone t in
      rw same (
        omega (arith, shrink p f s t, gone t, count-cons p r t, ap (λ y. tally p y) same, picked k))
  | inr k ↦
      let rest = shrink_first p f s r gone t (rw (k, if◌then◌else◌) at e) in
      omega (arith, rest, s.one x t, count-cons p x t)
]
  where
    first : some x ≡ some r → x ≡ r
    first q = cc

    picked : p x ≡ true → tally p x ≡ 1
    picked k = rw k refl

not_acked : (s : State) → (is_state s pending || is_state s sent) ≡ true → is_state s acked ≡ false
unfolding is_state
not_acked pending h = refl
not_acked sent h = refl
not_acked acked h = absurd (ground arith)
not_acked expired h = absurd (ground arith)
not_acked failed h = absurd (ground arith)

module _ (sn : Bytes) (info_type : ℤ) (id : ℕ) (text : Bytes) where
  unfoldable pub active : Row → Bool
  active = is_active sn info_type

  abbrev failed_row : Row → Row
  failed_row r = record r { state = failed; error = some text; sent_ms = none }

  failed-active : (r : Row) → active (failed_row r) ≡ false
  unfolding active is_active is_state
  failed-active r = ground arith

  no_tally : (r : Row) → active r ≡ false → tally active r ≡ 0
  no_tally r e = rw e refl

  pub fail_command-IsShrinking :
      (history : Bool) → IsShrinking active (fail_command history id text)
  unfolding fail_command keep
  fail_command-IsShrinking true = record {
    empty = refl;
    one = λ r t. elim (Bool-cases (is_failable id r)) [
      | inl e ↦
          rw (e, if◌then◌else◌)
            (omega (
              arith,
              count-cons active (failed_row r) (fail_command true id text t),
              no_tally (failed_row r) (failed-active r),
            ))
      | inr e ↦
          rw (e, if◌then◌else◌) (omega (arith, count-cons active r (fail_command true id text t)))
    ];
  }
  fail_command-IsShrinking false = record {
    empty = refl;
    one = λ r t. elim (Bool-cases (is_failable id r)) [
      | inl e ↦ rw (e, if◌then◌else◌) (omega arith)
      | inr e ↦
          rw (e, if◌then◌else◌) (omega (arith, count-cons active r (fail_command false id text t)))
    ];
  }

  is_failable-active : (r : Row) → r.id ≡ id → active r ≡ true → is_failable id r ≡ true
  unfolding active is_active is_failable
  is_failable-active r e a = ground (arith, ==_iff r.id id, not_acked r.state)

  pub fail_command_gone :
      (history : Bool) (r : Row)
      → r.id ≡ id
      → active r ≡ true
      → (t : Table)
      → count active (fail_command history id text (r ∷ t))
        ≤ count active (fail_command history id text t)
  unfolding fail_command keep
  fail_command_gone true r e a t =
      rw (is_failable-active r e a, if◌then◌else◌)
        (omega (
          arith,
          count-cons active (failed_row r) (fail_command true id text t),
          no_tally (failed_row r) (failed-active r),
        ))
  fail_command_gone false r e a t = rw (is_failable-active r e a, if◌then◌else◌) (omega arith)
