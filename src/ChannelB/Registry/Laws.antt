-- ===== src/ChannelB/Registry/Laws.antt =====
-- What `get` finds behind each operation of the registry.
use noobscenic.Prelude.{
  ℕ, ◌≡◌, Bytes, [], ◌∷◌, none, some, text_eq, text_iff, arith, ◌&&◌, if◌then◌else◌,
}
use noobscenic.ChannelB.Registry.{
  ConnHandle, Registry, get, take_out, register, belongs_to, remove, Registration,
  drop_registration,
}

pub get-take_out :
    (sn k : Bytes) (r : Registry) → get k (take_out sn r) ≡ (if text_eq sn k then none else get k r)
unfolding get take_out
get-take_out sn k [] = ground arith
get-take_out sn k ((j, h) ∷ r) =
    ground (arith, get-take_out sn k r, text_iff j sn, text_iff j k, text_iff sn k)

pub get-register :
    (sn k : Bytes) (h : ConnHandle) (r : Registry)
    → get k (register sn h r).0 ≡ (if text_eq sn k then some h else get k r)
unfolding get register
get-register sn k h r = ground (arith, get-take_out sn k r)

-- `remove` takes the entry of its serial away exactly when that entry is the connection's own.
pub get-remove :
    (sn k : Bytes) (conn_id : ℕ) (r : Registry)
    → get k (remove sn conn_id r)
      ≡ (if text_eq sn k && belongs_to conn_id (get sn r) then none else get k r)
unfolding remove
get-remove sn k conn_id r = ground (arith, get-take_out sn k r)

pub get-drop_registration :
    (g : Registration) (k : Bytes) (r : Registry)
    → get k (drop_registration (some g) r)
      ≡ (if text_eq g.sn k && belongs_to g.conn_id (get g.sn r) then none else get k r)
unfolding drop_registration
get-drop_registration g k r = get-remove g.sn k g.conn_id r
