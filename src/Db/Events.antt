-- ===== src/Db/Events.antt =====
-- The `events` table: src/db/queries.rs. Every message that has no table of its own lands here.
-- `history` says whether the Cargo feature of that name is on.
pub mod Latest
use noobscenic.Prelude.{
  ℕ, suc, ℤ, pos, Bytes, Bool, true, false, List, [], ◌∷◌, ◌++◌, Option, none, some, ◌==◌, ◌=ℤ◌,
  ltb_ℤ, ltb, ◌&&◌, ◌||◌, not, keep, map, text_eq, if◌then◌else◌, any, is_some, codes, take,
}
use mathlib.Core.List.{reverse}
use noobscenic.Proto.InfoType
use noobscenic.Db.Rows.{newest_by, max_id}

pub record Event : Type 0 where
  pub id : ℕ
  pub sn : Option Bytes
  pub channel : Bytes
  pub endpoint : Option Bytes
  pub info_type : Option ℤ
  pub event_code : Option ℤ
  pub task_id : Option Bytes
  pub user_id : Option Bytes
  pub device_ts : Option Bytes
  pub payload : Option Bytes
  pub trace_ref : Option Bytes
  pub received_ms : ℤ

abbrev pub Events : Type 0
Events = List Event

abbrev pub bind_endpoints : List Bytes
bind_endpoints =
    codes "/cleanPack/binding"
    ∷ codes "//cleanPack/binding"
    ∷ codes "/cleanPack/unbinding"
    ∷ codes "//cleanPack/unbinding"
    ∷ []

unfoldable pub is_bind_endpoint : Bytes → Bool
is_bind_endpoint endpoint = any (λ e. text_eq e endpoint) bind_endpoints

-- `endpoint.is_some_and(is_bind_endpoint)`, and `endpoint IN (…)`.
unfoldable pub is_bind : Option Bytes → Bool
is_bind none = false
is_bind (some endpoint) = is_bind_endpoint endpoint

-- `sn = ?`: a NULL matches nothing.
unfoldable pub is_of : Bytes → Event → Bool
is_of sn e = elim e.sn [ none ↦ false | some k ↦ text_eq k sn ]

unfoldable pub is_status : Event → Bool
is_status e = InfoType.is InfoType.status e.info_type

-- The columns of a row, but for the id.
unfoldable pub insert_row : Event → Events → Events
insert_row e t = t ++ record e { id = suc (max_id (λ r. r.id) t) } ∷ []

-- What the second statement of the transaction deletes without `history`.
unfoldable pub is_replaced : Bytes → Bool → ℕ → Event → Bool
is_replaced sn status id r =
    is_of sn r && not (r.id == id) && (if status then is_status r else is_bind r.endpoint)

-- `e` holds the arguments, with the serial and the clock. Without `history` only a status and
-- a bind or unbind are kept, and the newest of each for a device.
unfoldable pub insert_event : Bool → Bytes → Event → Events → Events
insert_event history sn e t =
    if history
    then insert_row e t
    else if not (is_status e) && not (is_bind e.endpoint)
    then t
    else keep (λ r. not (is_replaced sn (is_status e) (suc (max_id (λ r. r.id) t)) r))
        (insert_row e t)

-- `ORDER BY received_ms DESC, id DESC`
unfoldable pub is_before : Event → Event → Bool
is_before a b = ltb_ℤ a.received_ms b.received_ms || a.received_ms =ℤ b.received_ms && ltb a.id b.id

abbrev pub payload_of : Option Event → Option Bytes
payload_of none = none
payload_of (some e) = e.payload

unfoldable pub of_type : Bytes → ℕ → Event → Bool
of_type sn info_type e = is_of sn e && InfoType.is info_type e.info_type

unfoldable pub latest_event_payload : Bytes → ℕ → Events → Option Bytes
latest_event_payload sn info_type t =
    payload_of (newest_by is_before (keep (of_type sn info_type) t))

-- Every stored bind or unbind request, oldest first.
unfoldable pub bind_events : Events → Events
bind_events = keep (λ e. is_bind e.endpoint)

-- `id NOT IN (SELECT max(id) … GROUP BY sn)` over the rows that a test picks: a later row of
-- the same device is among them. NULL serials are one group.
unfoldable pub same_sn : Option Bytes → Option Bytes → Bool
same_sn none none = true
same_sn (some a) (some b) = text_eq a b
same_sn _ _ = false

unfoldable pub is_outdated : (Event → Bool) → Events → Event → Bool
is_outdated p t r = p r && any (λ other. p other && same_sn other.sn r.sn && ltb r.id other.id) t

-- The three statements of `prune_events_latest_only`.
unfoldable pub prune_events_latest_only : Events → Events
prune_events_latest_only t =
    let known = keep (λ r. is_status r || is_bind r.endpoint) t in
    let statuses = keep (λ r. not (is_outdated is_status known r)) known in
    keep (λ r. not (is_outdated (λ x. is_bind x.endpoint && is_some x.sn) statuses r)) statuses

-- `ORDER BY id DESC LIMIT ?`: the rows stand in id order.
unfoldable pub recent_events : Option Bytes → ℕ → Events → Events
recent_events none limit t = take limit (reverse t)
recent_events (some sn) limit t = take limit (reverse (keep (is_of sn) t))
