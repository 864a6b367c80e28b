-- ===== src/Web/Recovery.antt =====
-- The recovery of the accounts at start-up, `recover_bind_ids` of src/web.rs.
pub mod Newest
pub mod Rows
pub mod Recovered
use noobscenic.Prelude.{
  ℕ, suc, ℤ, Bytes, Bool, true, false, List, [], ◌∷◌, Option, none, some, codes, unwrap_or, or_else,
  ◌>>=◌, ◌||◌, text_eq, find_first, if◌then◌else◌,
}
use noobscenic.Json
use noobscenic.Json.{Value}
use noobscenic.ChannelA.Form
use noobscenic.ChannelA.Form.{get_field}
use noobscenic.ChannelA.Handlers.{non_empty}
use noobscenic.Db.Devices.{Devices, unbound_devices, adopt_bind}
use noobscenic.Db.Events.{Event, Events, bind_events}
use noobscenic.Db.Rows.{upsert}

-- `field`: a text that is not empty.
abbrev pub text_field : Option Value → Option Bytes
text_field v = non_empty (v >>= Json.as_str)

-- What an event says of its device: bound or not, the account and the time.
pub record Bind : Type 0 where
  pub is_bound : Bool
  pub user : Option Bytes
  pub received_ms : ℤ

-- A `HashMap` from serials.
abbrev pub Latest : Type 0
Latest = List (Bytes × Bind)

-- `HashMap::insert`
unfoldable pub put_bind : Bytes → Bind → Latest → Latest
put_bind sn b = upsert (λ e. text_eq e.0 sn) (λ e. (e.0, b)) (sn, b)

abbrev pub get_bind : Bytes → Latest → Option Bind
get_bind sn l = find_first (λ e. text_eq e.0 sn) l >>= λ e. some e.1

abbrev pub is_binding : Option Bytes → Bool
is_binding none = false
is_binding (some endpoint) =
    text_eq endpoint (codes "/cleanPack/binding") || text_eq endpoint (codes "//cleanPack/binding")

-- The account that a bind adopts: an unbind is not undone.
abbrev pub account_of : Option Bind → Option (Bytes × ℤ)
account_of none = none
account_of (some b) = if b.is_bound then (b.user >>= λ user. some (user, b.received_ms)) else none

-- The loop over the devices without an account: the devices, and how many were recovered.
unfoldable pub recover : List Bytes → Latest → Devices → Devices × ℕ
recover [] l d = (d, 0)
recover (sn ∷ sns) l d =
    let skipped = recover sns l d in
    elim (account_of (get_bind sn l)) [
      | none ↦ skipped
      | some (user, received_ms) ↦
          let adopted = adopt_bind sn user received_ms d in
          let rest = recover sns l adopted.0 in (rest.0, if adopted.1 then suc rest.1 else rest.1)
    ]

module _ (from_str : Bytes → Option Value) (lossy : Bytes → Bytes) where
  -- Either the JSON that the handler stores, or the body of the form as the catch-all keeps it.
  unfoldable pub bind_fields_from_payload : Bytes → Option Bytes × Option Bytes
  bind_fields_from_payload payload = elim (from_str payload) [
    | some v ↦ (text_field (Json.get (codes "sn") v), text_field (Json.get (codes "userId") v))
    | none ↦
        let form = Form.parse from_str lossy payload in
        (get_field (codes "sn") form.fields, get_field (codes "userId") form.fields)
  ]

  abbrev pub fields_of : Event → Option Bytes × Option Bytes
  fields_of e = bind_fields_from_payload (unwrap_or [] e.payload)

  -- The serial of the row, or else of its payload.
  unfoldable pub serial_of : Event → Option Bytes
  unfolding bind_fields_from_payload
  serial_of e = or_else e.sn (fields_of e).0

  unfoldable pub bind_of : Event → Bind
  unfolding bind_fields_from_payload
  bind_of e = record {
    is_bound = is_binding e.endpoint;
    user = (fields_of e).1;
    received_ms = e.received_ms;
  }

  unfoldable pub note : Event → Latest → Latest
  unfolding serial_of bind_of put_bind
  note e l = elim (serial_of e) [ none ↦ l | some sn ↦ put_bind sn (bind_of e) l ]

  -- The loop over the events, oldest first.
  unfoldable pub latest_binds : Events → Latest → Latest
  unfolding note
  latest_binds [] l = l
  latest_binds (e ∷ es) l = latest_binds es (note e l)

  -- The early return on no devices has the same result as the loop.
  unfoldable pub recover_bind_ids : Events → Devices → Devices × ℕ
  unfolding recover latest_binds
  recover_bind_ids events d = recover (unbound_devices d) (latest_binds (bind_events events) []) d
