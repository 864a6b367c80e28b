-- ===== src/Db/Commands.antt =====
-- The `commands` table, which is the outbound queue: src/db/queries.rs.
-- `history` says whether the Cargo feature of that name is on.
pub mod Ids
pub mod Sns
pub mod Lifecycle
pub mod Claims
pub mod Acks
use noobscenic.Prelude.{
  ℕ, zero, suc, ◌+◌, max, ℤ, Bytes, Bool, true, false, List, [], ◌∷◌, ◌++◌, Option, none, some,
  ◌==◌, ◌=ℤ◌, ltb_ℤ, leb_ℤ, ltb, ◌&&◌, ◌||◌, not, keep, map, text_eq, unwrap_or, codes,
  if◌then◌else◌, find_first, any, ◌>>=◌, length, leb, is_some,
}

pub data State : Type 0 where
  pending sent acked expired failed : State

pub record Row : Type 0 where
  pub id : ℕ
  pub sn : Bytes
  pub info_type : ℤ
  pub payload : Bytes
  pub encrypt : ℤ
  pub state : State
  pub error : Option Bytes
  pub created_ms : ℤ
  pub sent_ms : Option ℤ
  pub ack_ms : Option ℤ
  pub ack_payload : Option Bytes
  pub trace_ref : Option Bytes

abbrev pub Table : Type 0
Table = List Row

-- `state = '…'`
unfoldable pub is_state : State → State → Bool
is_state pending pending = true
is_state sent sent = true
is_state acked acked = true
is_state expired expired = true
is_state failed failed = true
is_state _ _ = false

abbrev pub max_id : Table → ℕ
max_id [] = 0
max_id (r ∷ t) = max r.id (max_id t)

unfoldable pub insert_command : Bytes → ℤ → Bytes → ℤ → ℤ → Table → Table × ℕ
insert_command sn info_type payload encrypt now t =
    let id = suc (max_id t) in
    (
      t
          ++ record {
            id = id;
            sn = sn;
            info_type = info_type;
            payload = payload;
            encrypt = encrypt;
            state = pending;
            error = none;
            created_ms = now;
            sent_ms = none;
            ack_ms = none;
            ack_payload = none;
            trace_ref = none;
          }
            ∷ [],
      id,
    )

-- The WHERE clause of `expire_commands`.
unfoldable pub is_stale : ℤ → Row → Bool
is_stale cutoff_ms r =
    is_state r.state pending && ltb_ℤ r.created_ms cutoff_ms
    || is_state r.state sent && ltb_ℤ (unwrap_or r.created_ms r.sent_ms) cutoff_ms

-- An UPDATE of the rows that a test picks.
abbrev pub update : (Row → Bool) → (Row → Row) → Table → Table
update p f t = map (λ r. if p r then f r else r) t

-- Both builds: the rows are marked, or dropped. The result is how many they were.
unfoldable pub expire_commands : Bool → ℤ → Table → Table × ℕ
expire_commands history cutoff_ms t = (
  if history
      then update (is_stale cutoff_ms)
          (λ r. record r { state = expired; error = some (codes "ttl") }) t
      else keep (λ r. not (is_stale cutoff_ms r)) t,
  length (keep (is_stale cutoff_ms) t),
)

unfoldable pub prune_terminal_commands : Table → Table
prune_terminal_commands =
    keep (λ r. not (is_state r.state acked || is_state r.state expired || is_state r.state failed))

-- The order of SQLite's BINARY collation.
unfoldable pub text_lt : Bytes → Bytes → Bool
text_lt [] [] = false
text_lt [] (y ∷ ys) = true
text_lt (x ∷ xs) [] = false
text_lt (x ∷ xs) (y ∷ ys) = ltb x y || x == y && text_lt xs ys

-- One more serial for a DISTINCT, ordered result.
unfoldable pub insert_sn : Bytes → List Bytes → List Bytes
insert_sn sn [] = sn ∷ []
insert_sn sn (k ∷ ks) =
    if text_eq sn k then k ∷ ks else if text_lt sn k then sn ∷ k ∷ ks else k ∷ insert_sn sn ks

unfoldable pub pending_command_sns : Table → List Bytes
unfolding insert_sn
pending_command_sns [] = []
pending_command_sns (r ∷ t) =
    let rest = pending_command_sns t in
    if is_state r.state pending then insert_sn r.sn rest else rest

pub record QueuedCommand : Type 0 where
  pub id : ℕ
  pub info_type : ℤ
  pub payload : Bytes
  pub encrypt : ℤ

abbrev pub queued : Row → QueuedCommand
queued r = record { id = r.id; info_type = r.info_type; payload = r.payload; encrypt = r.encrypt }

unfoldable pub is_claimable : Bytes → Row → Bool
is_claimable sn r = text_eq r.sn sn && is_state r.state pending

-- One statement: the rows are marked `sent` and handed out.
unfoldable pub claim_commands : Bytes → ℤ → Table → Table × List QueuedCommand
claim_commands sn now t = (
  update (is_claimable sn) (λ r. record r { state = sent; sent_ms = some now }) t,
  map queued (keep (is_claimable sn) t),
)

unfoldable pub set_command_trace : ℕ → Bytes → Table → Table
set_command_trace id trace_ref =
    update (λ r. r.id == id) (λ r. record r { trace_ref = some trace_ref })

unfoldable pub is_failable : ℕ → Row → Bool
is_failable id r = r.id == id && not (is_state r.state acked)

-- A `failed` row has no `sent_ms`: the frame never crossed the socket.
unfoldable pub fail_command : Bool → ℕ → Bytes → Table → Table
fail_command history id error t =
    if history
    then update (is_failable id)
        (λ r. record r { state = failed; error = some error; sent_ms = none }) t
    else keep (λ r. not (is_failable id r)) t

-- `sent_ms IS NOT NULL AND sent_ms >= ?`
sent_since : ℤ → Option ℤ → Bool
sent_since since none = false
sent_since since (some ms) = leb_ℤ since ms

unfoldable pub is_ackable : Bytes → ℤ → ℤ → Row → Bool
unfolding sent_since
is_ackable sn info_type since r =
    text_eq r.sn sn
    && r.info_type =ℤ info_type
    && is_state r.state sent
    && sent_since since r.sent_ms

-- `ORDER BY sent_ms DESC, id DESC`: whether the first of two ackable rows comes after the second.
unfoldable pub comes_after : Row → Row → Bool
comes_after r best = elim r.sent_ms [
  | none ↦ true
  | some a ↦ elim best.sent_ms [ none ↦ false | some b ↦ ltb_ℤ a b || a =ℤ b && ltb r.id best.id ]
]

-- `LIMIT 1` of that order.
unfoldable pub newest : List Row → Option Row
newest [] = none
newest (r ∷ t) =
    let rest = newest t in
    elim rest [ none ↦ some r | some best ↦ if comes_after r best then some best else some r ]

abbrev pub acknowledge : ℤ → Bytes → Row → Row
acknowledge now payload r = record r {
  state = acked;
  ack_ms = some now;
  ack_payload = some payload;
}

-- What the statement does with the row that its subquery names, if it names one.
unfoldable pub ack_row : Bool → Option Row → ℤ → Bytes → Table → Table × Option ℕ
ack_row history none now ack_payload t = (t, none)
ack_row history (some best) now ack_payload t = (
  if history
      then update (λ r. r.id == best.id) (acknowledge now ack_payload) t
      else keep (λ r. not (r.id == best.id)) t,
  some best.id,
)

-- `since` is `now_ms() - window_ms`.
unfoldable pub ack_command : Bool → Bytes → ℤ → Bytes → ℤ → ℤ → Table → Table × Option ℕ
unfolding ack_row
ack_command history sn info_type ack_payload now since t =
    ack_row history (newest (keep (is_ackable sn info_type since) t)) now ack_payload t

unfoldable pub is_active : Bytes → ℤ → Row → Bool
is_active sn info_type r =
    text_eq r.sn sn
    && r.info_type =ℤ info_type
    && (is_state r.state pending || is_state r.state sent)

-- The oldest live command of a type: `ORDER BY id LIMIT 1`, over rows in rowid order.
unfoldable pub active_command : Bytes → ℤ → Table → Option Row
active_command sn info_type = find_first (is_active sn info_type)
