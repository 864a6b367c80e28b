-- ===== src/ChannelB/Gateway/Owners.antt =====
-- Which connection owns an entry of the registry: src/channel_b.
use noobscenic.Prelude.{
  ℕ, ℤ, ◌≡◌, ◌≢◌, ◌⊎◌, inl, inr, refl, sym, subst, ◌≤◌, Bytes, false, Option, none, some, ◌==◌,
  text_eq, text_iff, arith, Option-cases, Bool-cases, length,
}
use noobscenic.Json.{Value}
use noobscenic.Proto.InfoType
use noobscenic.ChannelB.Registry.{
  Registry, ConnHandle, Registration, get, register, belongs_to, drop_registration, handle,
}
use noobscenic.ChannelB.Registry.Laws.{get-register, get-drop_registration}
use noobscenic.ChannelB.Conn.{
  Settings, Conn, is_bound, bind, handshake_sn, handshake, pong, frame_type, handle_value,
}
use noobscenic.ChannelB.Gateway.{
  Gateway, init, assign, accept, receive, close, Step, accepts, receives, closes, Reach, here, next,
}

-- What a connection knows of itself: its number, and the serial that its guard is for.
abbrev pub Guarded : Conn → Option Registration → Type 0
Guarded c none = c.sn ≡ none
Guarded c (some g) = (g.conn_id ≡ c.conn_id) × (c.sn ≡ some g.sn)

pub record Owner (g : Gateway) (sn : Bytes) (h : ConnHandle) : Type 0 where
  pub conn : Conn
  pub live : g.conns h.conn_id ≡ some conn
  pub guard : conn.registration ≡ some (record { sn = sn; conn_id = h.conn_id })

pub record Inv (g : Gateway) : Type 0 where
  pub owned : (sn : Bytes) (h : ConnHandle) → get sn g.registry ≡ some h → Owner g sn h
  pub named :
      (id : ℕ) (c : Conn) → g.conns id ≡ some c → (c.conn_id ≡ id) × Guarded c c.registration
  pub fresh : (id : ℕ) → g.next_id ≤ id → g.conns id ≡ none

-- What handling a frame may do to the registry and the connection.
abbrev Kept : Registry → Conn → Registry → Conn → Type 0
Kept r c r' c' =
    (r' ≡ r) × (c'.conn_id ≡ c.conn_id) × (c'.sn ≡ c.sn) × (c'.registration ≡ c.registration)

record Rebound (r : Registry) (c : Conn) (r' : Registry) (c' : Conn) : Type 0 where
  sn : Bytes
  now : ℤ
  new : is_bound c.sn sn ≡ false
  registry_is :
      r' ≡ drop_registration c.registration (register sn (handle c.conn_id c.peer now) r).0
  conn_id_is : c'.conn_id ≡ c.conn_id
  sn_is : c'.sn ≡ some sn
  guard_is : c'.registration ≡ some (record { sn = sn; conn_id = c.conn_id })

bind_cases :
    (r : Registry) (c : Conn) (sn : Bytes) (now : ℤ)
    → Kept r c (bind r c sn now).0 (bind r c sn now).1
      ⊎ Rebound r c (bind r c sn now).0 (bind r c sn now).1
unfolding bind
bind_cases r c sn now = elim (Bool-cases (is_bound c.sn sn)) [
  | inl old ↦ inl (rw old (refl, refl, refl, refl))
  | inr new ↦ inr (
      rw new (record {
        sn = sn;
        now = now;
        new = new;
        registry_is = refl;
        conn_id_is = refl;
        sn_is = refl;
        guard_is = refl;
      }))
]

handle_value_cases :
    (s : Settings) (r : Registry) (c : Conn) (trace : Option Bytes) (value : Value) (now : ℤ)
    → Kept r c (handle_value s r c trace value now).0 (handle_value s r c trace value now).1
      ⊎ Rebound r c (handle_value s r c trace value now).0 (handle_value s r c trace value now).1
unfolding handle_value handshake pong
handle_value_cases s r c trace value now =
    elim (Bool-cases (InfoType.is InfoType.handshake (frame_type value))) [
      | inl hello ↦ elim (Bool-cases (length (handshake_sn value) == 0)) [
        | inl anonymous ↦ inl (rw (hello, anonymous) (refl, refl, refl, refl))
        | inr serial ↦ rw (hello, serial) (bind_cases r c (handshake_sn value) now)
      ]
      | inr other ↦ elim (Bool-cases (InfoType.is InfoType.ping (frame_type value))) [
        | inl ping ↦ inl (rw (other, ping) (refl, refl, refl, refl))
        | inr telemetry ↦ inl (rw (other, telemetry) (refl, refl, refl, refl))
      ]
    ]

-- A connection whose number and guard stay as they were may change in any other way.
Kept-Inv :
    (g : Gateway) (id : ℕ) (c c' : Conn) (r' : Registry)
    → Inv g
    → g.conns id ≡ some c
    → Kept g.registry c r' c'
    → Inv (record g { registry = r'; conns = assign g.conns id (some c') })
Kept-Inv g id c c' r' v live (same, same_id, same_sn, same_guard) = record {
  owned = λ sn h e.
      let o = v.owned sn h (rw same at e) in
      elim (Bool-cases (id == h.conn_id)) [
        | inl own ↦ record {
          conn = c';
          live = rw own refl;
          guard = ground (arith, o.live, o.guard);
        }
        | inr other ↦ record { conn = o.conn; live = rw other o.live; guard = o.guard }
      ];
  named = λ j d e. ground (arith, v.named j d, v.named id c live);
  fresh = λ j l. ground (arith, v.fresh j l);
}

-- The old guard of a connection, dropped behind the registration of another serial, takes away
-- the connection's own entry and no other.
get-rebound :
    (r : Registry) (c : Conn) (sn k : Bytes) (now : ℤ) (h : ConnHandle)
    → Guarded c c.registration
    → is_bound c.sn sn ≡ false
    → get k (drop_registration c.registration (register sn (handle c.conn_id c.peer now) r).0)
      ≡ some h
    → ((sn ≡ k) × (h ≡ handle c.conn_id c.peer now))
      ⊎ ((sn ≢ k)
          × (get k r ≡ some h)
          × (c.registration ≢ some (record { sn = k; conn_id = h.conn_id })))
unfolding is_bound belongs_to drop_registration
get-rebound r c sn k now h guarded new e =
    let added : ConnHandle = handle c.conn_id c.peer now in
    elim (Option-cases c.registration) [
      | inl free ↦ elim (Bool-cases (text_eq sn k)) [
        | inl same ↦ inl (ground (arith, get-register sn k added r, text_iff sn k))
        | inr other ↦
            inr (ground (arith, text_iff sn k), ground (arith, get-register sn k added r), cc)
      ]
      | inr (g, held) ↦ elim (Bool-cases (text_eq sn k)) [
        | inl same ↦ inl ground (
          arith,
          get-drop_registration g k (register sn added r).0,
          get-register sn k added r,
          get-register sn g.sn added r,
          text_iff sn k,
          text_iff sn g.sn,
          text_iff g.sn sn,
          text_iff g.sn k,
        )
        | inr other ↦ inr (
          ground (arith, text_iff sn k),
          ground (
            arith,
            get-drop_registration g k (register sn added r).0,
            get-register sn k added r,
            get-register sn g.sn added r,
            text_iff sn k,
            text_iff sn g.sn,
            text_iff g.sn sn,
            text_iff g.sn k,
          ),
          ground (
            arith,
            get-drop_registration g k (register sn added r).0,
            get-register sn k added r,
            get-register sn g.sn added r,
            text_iff sn k,
            text_iff sn g.sn,
            text_iff g.sn sn,
            text_iff g.sn k,
          ),
        )
      ]
    ]

Rebound-Inv :
    (g : Gateway) (id : ℕ) (c c' : Conn) (r' : Registry)
    → Inv g
    → g.conns id ≡ some c
    → Rebound g.registry c r' c'
    → Inv (record g { registry = r'; conns = assign g.conns id (some c') })
Rebound-Inv g id c c' r' v live b = record {
  owned = λ sn h e.
      elim (get-rebound g.registry c b.sn sn b.now h (v.named id c live).1 b.new
        (rw b.registry_is at e)) [
          | inl (same, mine) ↦ record {
            conn = c';
            live = ground (arith, v.named id c live);
            guard = ground (arith, b.guard_is);
          }
          | inr (other, old, not_mine) ↦
              let o = v.owned sn h old in
              elim (Bool-cases (id == h.conn_id)) [
                | inl own ↦ absurd (not_mine (ground (arith, o.live, o.guard)))
                | inr away ↦ record { conn = o.conn; live = rw away o.live; guard = o.guard }
              ]
        ];
  named =
      λ j d e. ground (arith, v.named j d, v.named id c live, b.sn_is, b.guard_is, b.conn_id_is);
  fresh = λ j l. ground (arith, v.fresh j l);
}

accept-Inv : (g : Gateway) (peer : Bytes) (now : ℤ) → Inv g → Inv (accept g peer now)
unfolding accept
accept-Inv g peer now v = record {
  owned = λ sn h e.
      let o = v.owned sn h e in
      elim (Bool-cases (g.next_id == h.conn_id)) [
        | inl own ↦ absurd (ground (arith, o.live, v.fresh h.conn_id))
        | inr other ↦ record { conn = o.conn; live = rw other o.live; guard = o.guard }
      ];
  named = λ j d e. ground (arith, v.named j d);
  fresh = λ j l. ground (arith, v.fresh j);
}

get-dropped :
    (guard : Option Registration) (r : Registry) (sn : Bytes) (h : ConnHandle)
    → get sn (drop_registration guard r) ≡ some h
    → (get sn r ≡ some h) × (guard ≢ some (record { sn = sn; conn_id = h.conn_id }))
unfolding drop_registration belongs_to
get-dropped none r sn h e = (e, cc)
get-dropped (some g) r sn h e = (
  ground (arith, get-drop_registration g sn r),
  ground (arith, get-drop_registration g sn r, text_iff g.sn sn),
)

pub close-Inv : (g : Gateway) (id : ℕ) (c : Conn) → Inv g → g.conns id ≡ some c → Inv (close g id c)
unfolding close
close-Inv g id c v live = record {
  owned = λ sn h e.
      let (old, not_mine) = get-dropped c.registration g.registry sn h e in
      let o = v.owned sn h old in
      elim (Bool-cases (id == h.conn_id)) [
        | inl own ↦ absurd (not_mine (ground (arith, o.live, o.guard)))
        | inr other ↦ record { conn = o.conn; live = rw other o.live; guard = o.guard }
      ];
  named = λ j d e. ground (arith, v.named j d);
  fresh = λ j l. ground (arith, v.fresh j l);
}

Step-Inv : {g u : Gateway} → Step g u → Inv g → Inv u
unfolding receive
Step-Inv {g} (accepts peer now e) v = subst Inv (sym e) (accept-Inv g peer now v)
Step-Inv {g} (receives s id c trace value now live e) v =
    subst Inv (sym e) (elim (handle_value_cases s g.registry c trace value now) [
      | inl kept ↦ Kept-Inv g id c _ _ v live kept
      | inr rebound ↦ Rebound-Inv g id c _ _ v live rebound
    ])
Step-Inv {g} (closes id c live e) v = subst Inv (sym e) (close-Inv g id c v live)

pub Reach-Inv : {g u : Gateway} → Inv g → Reach g u → Inv u
Reach-Inv v here = v
Reach-Inv v (next r st) = Step-Inv st (Reach-Inv v r)

pub init-Inv : Inv init
unfolding get
init-Inv = record {
  owned = λ sn h e. absurd (cc e);
  named = λ id c e. absurd (cc e);
  fresh = λ id l. refl;
}
