-- ===== src/ChannelB/Gateway/Addressing.antt =====
-- On which connection a device is addressed, across the ends and handshakes of connections.
use noobscenic.Prelude.{
  ℕ, ℤ, ◌≡◌, ◌≢◌, ◌⊎◌, inl, inr, refl, sym, ap, Bytes, true, false, Option, none, some, ◌==◌,
  text_eq, text_iff, arith, Bool-cases, length, [], ◌∷◌,
}
use noobscenic.Json.{Value}
use noobscenic.Proto.InfoType
use noobscenic.ChannelB.Registry.{
  Registry, ConnHandle, Registration, get, register, belongs_to, drop_registration, handle,
}
use noobscenic.ChannelB.Registry.Laws.{get-register, get-drop_registration}
use noobscenic.ChannelB.Conn.{
  Settings, Conn, is_bound, bind, handshake_sn, handshake, frame_type, handle_value,
}
use noobscenic.ChannelB.Gateway.{Gateway, init, receive, close, Reach}
use noobscenic.ChannelB.Gateway.Owners.{Reach-Inv, init-Inv, close-Inv}

-- Whatever the connections have done since the start, in whatever interleaving, an entry of the
-- registry names a connection that is still open, whose serial is the entry's.
pub registry_live :
    (u : Gateway) (sn : Bytes) (h : ConnHandle)
    → Reach init u
    → get sn u.registry ≡ some h
    → (c : Conn) × (u.conns h.conn_id ≡ some c) × (c.conn_id ≡ h.conn_id) × (c.sn ≡ some sn)
registry_live u sn h r e =
    let v = Reach-Inv init-Inv r in
    let o = v.owned sn h e in
    (
      o.conn,
      o.live,
      (v.named h.conn_id o.conn o.live).0,
      ground (arith, v.named h.conn_id o.conn o.live, o.guard),
    )

get-kept :
    (guard : Option Registration) (r : Registry) (sn : Bytes) (h : ConnHandle)
    → get sn r ≡ some h
    → ((g : Registration) → guard ≡ some g → (g.sn ≢ sn) ⊎ (g.conn_id ≢ h.conn_id))
    → get sn (drop_registration guard r) ≡ some h
unfolding drop_registration belongs_to
get-kept none r sn h e other = e
get-kept (some g) r sn h e other =
    ground (arith, get-drop_registration g sn r, text_iff g.sn sn, other g refl)

-- In a state reached from the start, when an open connection ends, a device addressed on
-- another connection stays there, and none is addressed on the ended connection any more.
pub close_keeps_others :
    (u : Gateway) (id : ℕ) (c : Conn) (sn : Bytes)
    → Reach init u
    → u.conns id ≡ some c
    → ((h : ConnHandle)
        → get sn u.registry ≡ some h
        → h.conn_id ≢ id
        → get sn (close u id c).registry ≡ some h)
      × ((h : ConnHandle) → get sn (close u id c).registry ≡ some h → h.conn_id ≢ id)
close_keeps_others u id c sn r live =
    let v = Reach-Inv init-Inv r in
    (
      λ h e other.
          unfold close in
          get-kept c.registration u.registry sn h e
            (λ g held. inr (ground (arith, v.named id c live))),
      λ h e own.
          let o = (close-Inv u id c v live).owned sn h e in unfold close in ground (arith, o.live),
    )

is_bound-new : (bound : Option Bytes) (sn : Bytes) → bound ≢ some sn → is_bound bound sn ≡ false
unfolding is_bound
is_bound-new none sn h = refl
is_bound-new (some b) sn h = elim (Bool-cases (text_eq b sn)) [
  | inl same ↦ absurd (h (ap some ((text_iff b sn).0 same)))
  | inr other ↦ other
]

is_empty-new : (sn : Bytes) → sn ≢ [] → length sn == 0 ≡ false
is_empty-new [] h = absurd (h refl)
is_empty-new (b ∷ sn) h = ground arith

handle_value-handshake :
    (s : Settings) (r : Registry) (c : Conn) (trace : Option Bytes) (value : Value) (now : ℤ)
    → InfoType.is InfoType.handshake (frame_type value) ≡ true
    → handshake_sn value ≢ []
    → c.sn ≢ some (handshake_sn value)
    → (handle_value s r c trace value now).0
      ≡ drop_registration c.registration
          (register (handshake_sn value) (handle c.conn_id c.peer now) r).0
unfolding handle_value handshake bind
handle_value-handshake s r c trace value now hello serial new =
    rw (hello, is_empty-new _ serial, is_bound-new c.sn _ new)

-- In a state reached from the start, a handshake on an open connection, with a serial that is
-- not empty and that the connection is not bound to yet, makes this connection the one that
-- the device is addressed on, whichever had it before, and takes no other device away from
-- another connection.
pub handshake_registers :
    (u : Gateway) (s : Settings) (id : ℕ) (c : Conn) (trace : Option Bytes) (value : Value)
    (now : ℤ)
    → Reach init u
    → u.conns id ≡ some c
    → InfoType.is InfoType.handshake (frame_type value) ≡ true
    → handshake_sn value ≢ []
    → c.sn ≢ some (handshake_sn value)
    → (get (handshake_sn value) (receive u s id c trace value now).registry
        ≡ some (handle id c.peer now))
      × ((sn : Bytes) (h : ConnHandle)
          → sn ≢ handshake_sn value
          → get sn u.registry ≡ some h
          → h.conn_id ≢ id
          → get sn (receive u s id c trace value now).registry ≡ some h)
handshake_registers u s id c trace value now r live hello serial new =
    let v = Reach-Inv init-Inv r in
    let sn : Bytes = handshake_sn value in
    let added : ConnHandle = handle c.conn_id c.peer now in
    let after : Registry = (register sn added u.registry).0 in
    let step : (receive u s id c trace value now).registry
        ≡ drop_registration c.registration after =
      unfold receive in handle_value-handshake s u.registry c trace value now hello serial new in
    (
      rw (step, sym (v.named id c live).0)
          (get-kept c.registration after sn added
            (ground (arith, get-register sn sn added u.registry, text_iff sn sn))
            (λ g held. inl (ground (arith, v.named id c live)))),
      λ k h other e away. rw step (
          get-kept c.registration after k h
            (ground (arith, get-register sn k added u.registry, text_iff sn k))
            (λ g held. inr (ground (arith, v.named id c live)))),
    )
