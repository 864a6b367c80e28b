-- ===== src/ChannelB/Registry.antt =====
-- The connection registry, src/channel_b/registry.rs: which connection a device is addressed on.
pub mod Laws
use noobscenic.Prelude.{
  ℕ, ℤ, Bytes, Bool, true, false, List, [], ◌∷◌, Option, none, some, text_eq, ◌==◌, ◌&&◌, not,
  is_some, if◌then◌else◌, map,
}
use noobscenic.Json.{Value}

-- The number of a connection stands for its name `b-000001`, …, which is that number padded.
-- The frames that the rest of the server sends through `tx` are kept with the connection.
pub record ConnHandle : Type 0 where
  pub conn_id : ℕ
  pub peer : Bytes
  pub connected_ms : ℤ

-- One frame for the writer of a connection, with the `commands` row it belongs to.
pub record Outbound : Type 0 where
  pub frame : Value
  pub command_id : Option ℕ

abbrev pub frame_only : Value → Outbound
frame_only value = record { frame = value; command_id = none }

abbrev pub command : ℕ → Value → Outbound
command id value = record { frame = value; command_id = some id }

-- The `HashMap` from serials to handles: each key stands once.
abbrev pub Registry : Type 0
Registry = List (Bytes × ConnHandle)

abbrev pub new : Registry
new = []

unfoldable pub get : Bytes → Registry → Option ConnHandle
get sn [] = none
get sn ((k, h) ∷ r) = if text_eq k sn then some h else get sn r

unfoldable pub take_out : Bytes → Registry → Registry
take_out sn [] = []
take_out sn ((k, h) ∷ r) = let rest = take_out sn r in if text_eq k sn then rest else (k, h) ∷ rest

-- The registry, and the entry that was replaced.
unfoldable pub register : Bytes → ConnHandle → Registry → Registry × Option ConnHandle
register sn h r = ((sn, h) ∷ take_out sn r, get sn r)

unfoldable pub belongs_to : ℕ → Option ConnHandle → Bool
belongs_to conn_id none = false
belongs_to conn_id (some h) = h.conn_id == conn_id

-- Only while the entry still belongs to the connection.
unfoldable pub remove : Bytes → ℕ → Registry → Registry
unfolding belongs_to
remove sn conn_id r = if belongs_to conn_id (get sn r) then take_out sn r else r

unfoldable pub is_online : Bytes → Registry → Bool
is_online sn r = is_some (get sn r)

unfoldable pub online : Registry → List ConnHandle
online [] = []
online ((k, h) ∷ r) = h ∷ online r

-- The guard of a connection task.
pub record Registration : Type 0 where
  pub sn : Bytes
  pub conn_id : ℕ

-- `impl Drop for Registration`, where there is a guard.
unfoldable pub drop_registration : Option Registration → Registry → Registry
drop_registration none r = r
drop_registration (some g) r = remove g.sn g.conn_id r

-- `registry::handle`, at the server's clock.
abbrev pub handle : ℕ → Bytes → ℤ → ConnHandle
handle conn_id peer now = record { conn_id = conn_id; peer = peer; connected_ms = now }
