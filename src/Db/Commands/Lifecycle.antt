-- ===== src/Db/Commands/Lifecycle.antt =====
-- What the statements on the `commands` table of src/db/queries.rs may do to a row.
use native.Mathlib.Omega.{arith}
use noobscenic.Prelude.{
  ◌==◌, ◌∙◌, In-keep, text_eq, ◌=ℤ◌, ℕ, ℤ, Bytes, Bool, true, false, [], ◌∷◌, ◌++◌, Option, none,
  some, keep, not, ◌&&◌, ◌||◌, ◌≡◌, refl, ap, if◌then◌else◌, Bool-cases, All, inl, inr, In,
}
use noobscenic.Db.Commands.Ids.{
  Ascends, one_row, newest-In, keep-Ascends, update-Ascends, append-Ascends,
}
use noobscenic.Db.Commands.{
  State, pending, sent, acked, expired, failed, Row, Table, is_state, insert_command, is_stale,
  update, expire_commands, is_claimable, claim_commands, set_command_trace, is_failable,
  fail_command, is_ackable, newest, acknowledge, ack_row, ack_command, prune_terminal_commands,
}

-- One statement on the table.
pub data Op : Type 0 where
  insert : Bytes → ℤ → Bytes → ℤ → ℤ → Op
  expire : ℤ → Op
  claim : Bytes → ℤ → Op
  trace : ℕ → Bytes → Op
  fail : ℕ → Bytes → Op
  ack : Bytes → ℤ → Bytes → ℤ → ℤ → Op
  -- at the start, in the build without `history` alone
  prune : Op

unfoldable pub apply_op : Bool → Op → Table → Table
apply_op history (insert sn info_type payload encrypt now) t =
    (insert_command sn info_type payload encrypt now t).0
apply_op history (expire cutoff_ms) t = (expire_commands history cutoff_ms t).0
apply_op history (claim sn now) t = (claim_commands sn now t).0
apply_op history (trace id trace_ref) t = set_command_trace id trace_ref t
apply_op history (fail id error) t = fail_command history id error t
apply_op history (ack sn info_type payload now since) t =
    (ack_command history sn info_type payload now since t).0
apply_op history prune t = if history then t else prune_terminal_commands t

-- The life of a command. A row is not acknowledged before it is sent, and `acked` is final.
unfoldable pub may_become : State → State → Bool
may_become pending pending = true
may_become pending sent = true
may_become pending expired = true
may_become pending failed = true
may_become sent sent = true
may_become sent acked = true
may_become sent expired = true
may_become sent failed = true
may_become acked acked = true
may_become expired expired = true
may_become expired failed = true
may_become failed failed = true
may_become _ _ = false

-- The same command, in the same state or a later one.
abbrev pub Legal : Row → Row → Type 0
Legal r s =
    (s.id ≡ r.id)
    × (s.sn ≡ r.sn)
    × (s.info_type ≡ r.info_type)
    × (s.payload ≡ r.payload)
    × (s.encrypt ≡ r.encrypt)
    × (may_become r.state s.state ≡ true)

-- Every row is still there, in its place, legally moved; rows after them are new and pending.
abbrev pub Moves : Table → Table → Type 0
Moves [] u = All (λ r. r.state ≡ pending) u
Moves (r ∷ t) [] = ⊥
Moves (r ∷ t) (s ∷ u) = Legal r s × Moves t u

stays : (s : State) → may_become s s ≡ true
unfolding may_become
stays pending = refl
stays sent = refl
stays acked = refl
stays expired = refl
stays failed = refl

update-Moves :
    (p : Row → Bool) (f : Row → Row) (t : Table)
    → ((r : Row) → In r t → p r ≡ true → Legal r (f r))
    → Moves t (update p f t)
update-Moves p f [] h = tt
update-Moves p f (r ∷ t) h = (step, update-Moves p f t (λ s m. h s (inr m)))
  where
    step : Legal r (if p r then f r else r)
    step = elim (Bool-cases (p r)) [
      | inl e ↦ rw (e, if◌then◌else◌) (h r (inl refl) e)
      | inr e ↦ rw (e, if◌then◌else◌) (refl, refl, refl, refl, refl, stays r.state)
    ]

append-Moves : (t : Table) (n : Row) → n.state ≡ pending → Moves t (t ++ n ∷ [])
append-Moves [] n h = (h, tt)
append-Moves (r ∷ t) n h = ((refl, refl, refl, refl, refl, stays r.state), append-Moves t n h)

stale_moves :
    (s : State) (a b : Bool)
    → (is_state s pending && a || is_state s sent && b) ≡ true
    → may_become s expired ≡ true
unfolding is_state may_become
stale_moves pending a b h = refl
stale_moves sent a b h = refl
stale_moves acked a b h = ground arith
stale_moves expired a b h = refl
stale_moves failed a b h = ground arith

claimable_moves :
    (s : State) (a : Bool) → (a && is_state s pending) ≡ true → may_become s sent ≡ true
unfolding is_state may_become
claimable_moves pending a h = refl
claimable_moves sent a h = refl
claimable_moves acked a h = ground arith
claimable_moves expired a h = ground arith
claimable_moves failed a h = ground arith

failable_moves :
    (s : State) (a : Bool) → (a && not (is_state s acked)) ≡ true → may_become s failed ≡ true
unfolding is_state may_become
failable_moves pending a h = refl
failable_moves sent a h = refl
failable_moves acked a h = ground arith
failable_moves expired a h = refl
failable_moves failed a h = refl

sent_moves : (s : State) → is_state s sent ≡ true → may_become s acked ≡ true
unfolding is_state may_become
sent_moves pending h = ground arith
sent_moves sent h = refl
sent_moves acked h = refl
sent_moves expired h = ground arith
sent_moves failed h = ground arith

third : (a b c d : Bool) → (a && b && c && d) ≡ true → c ≡ true
third a b c d h = ground arith

id_eq : (a b : ℕ) → (a == b) ≡ true → a ≡ b
id_eq a b h = ground arith

same-Moves : (t : Table) → Moves t t
same-Moves [] = tt
same-Moves (r ∷ t) = ((refl, refl, refl, refl, refl, stays r.state), same-Moves t)

ack-Moves :
    (t : Table) (best : Option Row) (now : ℤ) (payload : Bytes)
    → Ascends 0 t
    → ((b : Row) → best ≡ some b → In b t × (is_state b.state sent ≡ true))
    → Moves t (ack_row true best now payload t).0
unfolding ack_row
ack-Moves t none now payload asc h = same-Moves t
ack-Moves t (some b) now payload asc h =
    update-Moves (λ r. r.id == b.id) (acknowledge now payload) t moved
  where
    moved : (r : Row) → In r t → (r.id == b.id) ≡ true → Legal r (acknowledge now payload r)
    moved r m e =
        let (n, s) = h b refl in
        (
          refl,
          refl,
          refl,
          refl,
          refl,
          sent_moves r.state
              (ap (λ x. is_state x.state sent) (one_row 0 t r b asc m n (id_eq r.id b.id e)) ∙ s),
        )

-- Where rows are never dropped (the `history` build) and ids ascend, each statement keeps
-- every row of the table in its place, with its id, serial, type, payload and encryption, in
-- the same state or in one that the life of a command allows from it, and the rows that it
-- adds are pending.
pub apply_op-Moves : (op : Op) (t : Table) → Ascends 0 t → Moves t (apply_op true op t)
unfolding apply_op insert_command expire_commands claim_commands set_command_trace fail_command
    ack_command is_stale is_claimable is_failable is_ackable
apply_op-Moves (insert sn info_type payload encrypt now) t asc = append-Moves t _ refl
apply_op-Moves (expire cutoff_ms) t asc =
    update-Moves (is_stale cutoff_ms) _ t
      (λ r m e. (refl, refl, refl, refl, refl, stale_moves r.state _ _ e))
apply_op-Moves (claim sn now) t asc =
    update-Moves (is_claimable sn) _ t
      (λ r m e. (refl, refl, refl, refl, refl, claimable_moves r.state _ e))
apply_op-Moves (trace id trace_ref) t asc =
    update-Moves (λ r. r.id == id) _ t (λ r m e. (refl, refl, refl, refl, refl, stays r.state))
apply_op-Moves (fail id error) t asc =
    update-Moves (is_failable id) _ t
      (λ r m e. (refl, refl, refl, refl, refl, failable_moves r.state _ e))
apply_op-Moves (ack sn info_type payload now since) t asc = ack-Moves t _ now payload asc (λ b e.
    let (m, q) = In-keep (is_ackable sn info_type since) b t (newest-In _ b e) in
    (m, third (text_eq b.sn sn) (b.info_type =ℤ info_type) (is_state b.state sent) _ q))
apply_op-Moves prune t asc = same-Moves t

-- In a table whose ids ascend in rowid order, each statement that writes to the table, the pruning
-- at the start included, leaves them ascending, with either build, so that no two rows share an id.
pub apply_op-Ascends :
    (history : Bool) (op : Op) (t : Table) → Ascends 0 t → Ascends 0 (apply_op history op t)
unfolding apply_op insert_command expire_commands claim_commands set_command_trace fail_command
    ack_command ack_row prune_terminal_commands
apply_op-Ascends history (insert sn info_type payload encrypt now) t asc =
    append-Ascends 0 t _ asc (omega arith) (omega arith)
apply_op-Ascends true (expire cutoff_ms) t asc = update-Ascends _ _ (λ r. refl) 0 t asc
apply_op-Ascends false (expire cutoff_ms) t asc = keep-Ascends _ 0 t asc
apply_op-Ascends history (claim sn now) t asc = update-Ascends _ _ (λ r. refl) 0 t asc
apply_op-Ascends history (trace id trace_ref) t asc = update-Ascends _ _ (λ r. refl) 0 t asc
apply_op-Ascends true (fail id error) t asc = update-Ascends _ _ (λ r. refl) 0 t asc
apply_op-Ascends false (fail id error) t asc = keep-Ascends _ 0 t asc
apply_op-Ascends true prune t asc = asc
apply_op-Ascends false prune t asc = keep-Ascends _ 0 t asc
apply_op-Ascends history (ack sn info_type payload now since) t asc =
    acked_row history (newest (keep (is_ackable sn info_type since) t))
  where
    acked_row :
        (history : Bool) (best : Option Row) → Ascends 0 (ack_row history best now payload t).0
    acked_row history none = asc
    acked_row true (some b) = update-Ascends _ _ (λ r. refl) 0 t asc
    acked_row false (some b) = keep-Ascends _ 0 t asc
