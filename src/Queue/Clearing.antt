-- ===== src/Queue/Clearing.antt =====
-- What a pass of src/commands.rs leaves waiting in the table.
use native.Mathlib.Omega.{arith}
use noobscenic.Prelude.{
  ℕ, ℤ, Bytes, Bool, true, false, List, [], ◌∷◌, Option, none, some, ◌⊎◌, inl, inr, if◌then◌else◌,
  Bool-cases, keep, ◌&&◌, ◌≡◌, refl, ap, sym, ◌∙◌, In, In-keep, text_iff, subst,
}
use noobscenic.Json.{Value}
use noobscenic.ChannelB.Registry
use noobscenic.ChannelB.Registry.{ConnHandle, Registry}
use noobscenic.Db.Commands.Sns.{insert_sn-new, insert_sn-old}
use noobscenic.Db.Commands.{
  pending, sent, failed, Row, Table, is_state, update, insert_sn, pending_command_sns, is_claimable,
  claim_commands, is_failable, fail_command, QueuedCommand,
}
use noobscenic.Db.Sessions.{Sessions}
use noobscenic.Queue.{
  Config, World, Framed, framed, refused, hand_over, push, push_all, drain_device, drain_sns,
  drain_once,
}

-- No row of the device is waiting to be claimed.
abbrev pub Cleared : Bytes → Table → Type 0
Cleared sn t = keep (is_claimable sn) t ≡ []

-- A claimable row of the result was one before.
kept-Cleared : (p q : Row → Bool) (t : Table) → keep p t ≡ [] → keep p (keep q t) ≡ []
unfolding keep
kept-Cleared p q [] h = refl
kept-Cleared p q (r ∷ t) h =
    let go = kept-Cleared p q t in
    elim (Bool-cases (p r)) [
      | inl e ↦ absurd (cons≢ (rw (e, if◌then◌else◌) at h))
      | inr e ↦ elim (Bool-cases (q r)) [
        | inl k ↦ rw (k, if◌then◌else◌, e, if◌then◌else◌) (go (rw (e, if◌then◌else◌) at h))
        | inr k ↦ rw (k, if◌then◌else◌) (go (rw (e, if◌then◌else◌) at h))
      ]
    ]
  where
    cons≢ : {x : Row} {xs : Table} → x ∷ xs ≡ [] → ⊥
    cons≢ q = ground arith

update-Cleared :
    (p q : Row → Bool) (f : Row → Row)
    → ((r : Row) → p (f r) ≡ false)
    → (t : Table) → keep p t ≡ []
    → keep p (update q f t) ≡ []
unfolding keep
update-Cleared p q f never [] h = refl
update-Cleared p q f never (r ∷ t) h =
    let go = update-Cleared p q f never t in
    elim (Bool-cases (p r)) [
      | inl e ↦ absurd (cons≢ (rw (e, if◌then◌else◌) at h))
      | inr e ↦ elim (Bool-cases (q r)) [
        | inl k ↦ rw (k, if◌then◌else◌, never r, if◌then◌else◌) (go (rw (e, if◌then◌else◌) at h))
        | inr k ↦ rw (k, if◌then◌else◌, e, if◌then◌else◌) (go (rw (e, if◌then◌else◌) at h))
      ]
    ]
  where
    cons≢ : {x : Row} {xs : Table} → x ∷ xs ≡ [] → ⊥
    cons≢ q = ground arith

own-Cleared :
    (p : Row → Bool) (f : Row → Row)
    → ((r : Row) → p (f r) ≡ false)
    → (t : Table) → keep p (update p f t) ≡ []
unfolding keep
own-Cleared p f never [] = refl
own-Cleared p f never (r ∷ t) =
    let rest = own-Cleared p f never t in
    elim (Bool-cases (p r)) [
      | inl e ↦ rw (e, if◌then◌else◌, never r, if◌then◌else◌) rest
      | inr e ↦ rw (e, if◌then◌else◌, e, if◌then◌else◌) rest
    ]

claim-Cleared :
    (sn k : Bytes) (now : ℤ) (t : Table) → Cleared k t → Cleared k (claim_commands sn now t).0
unfolding claim_commands is_claimable is_state
claim-Cleared sn k now t h =
    update-Cleared (is_claimable k) (is_claimable sn)
      (λ r. record r { state = sent; sent_ms = some now }) (λ r. ground arith) t h

claimed-Cleared : (sn : Bytes) (now : ℤ) (t : Table) → Cleared sn (claim_commands sn now t).0
unfolding claim_commands is_claimable is_state
claimed-Cleared sn now t =
    own-Cleared (is_claimable sn) (λ r. record r { state = sent; sent_ms = some now })
      (λ r. ground arith) t

fail-Cleared :
    (history : Bool) (id : ℕ) (error k : Bytes) (t : Table)
    → Cleared k t
    → Cleared k (fail_command history id error t)
unfolding fail_command is_claimable is_state
fail-Cleared true id error k t h =
    update-Cleared (is_claimable k) (is_failable id)
      (λ r. record r { state = failed; error = some error; sent_ms = none }) (λ r. ground arith) t h
fail-Cleared false id error k t h = kept-Cleared _ _ t h

hand_over-Cleared :
    (history : Bool) (is_open : ℕ → Bool) (h : ConnHandle) (c : QueuedCommand) (f : Framed)
    (k : Bytes) (w : World)
    → Cleared k w.table
    → Cleared k (hand_over history is_open h c f w).table
unfolding hand_over
hand_over-Cleared history is_open h c (refused error) k w q =
    fail-Cleared history c.id error k w.table q
hand_over-Cleared history is_open h c (framed frame) k w q = elim (Bool-cases (is_open h.conn_id)) [
  | inl e ↦ rw (e, if◌then◌else◌) q
  | inr e ↦ rw (e, if◌then◌else◌) (fail-Cleared history c.id _ k w.table q)
]

push_all-Cleared :
    (from_str : Bytes → Bytes ⊎ Value) (encrypt : Value → Bytes → Option Bytes) (is_open : ℕ → Bool)
    (returning : List QueuedCommand → List QueuedCommand) (cfg : Config) (key : Option Bytes)
    (now : ℤ) (h : ConnHandle) (cs : List QueuedCommand) (k : Bytes) (w : World)
    → Cleared k w.table
    → Cleared k (push_all from_str encrypt is_open returning cfg key now h cs w).table
unfolding push_all push
push_all-Cleared from_str encrypt is_open returning cfg key now h [] k w q = q
push_all-Cleared from_str encrypt is_open returning cfg key now h (c ∷ cs) k w q =
    push_all-Cleared from_str encrypt is_open returning cfg key now h cs k _
      (hand_over-Cleared cfg.history is_open h c _ k w q)

-- Every serial of a pending row is listed.
pending_sn :
    (r : Row) (t : Table)
    → In r t
    → is_state r.state pending ≡ true
    → In r.sn (pending_command_sns t)
unfolding pending_command_sns
pending_sn r [] m h = absurd m
pending_sn r (x ∷ t) (inl e) h =
    subst
      (λ y. In y.sn (
        if is_state x.state pending
        then insert_sn x.sn (pending_command_sns t)
        else pending_command_sns t))
      e
      (rw (ap (λ y. is_state y.state pending) e ∙ h, if◌then◌else◌)
        (insert_sn-new x.sn (pending_command_sns t)))
pending_sn r (x ∷ t) (inr m) h =
    let rest = pending_sn r t m h in
    elim (Bool-cases (is_state x.state pending)) [
      | inl e ↦ rw (e, if◌then◌else◌) (insert_sn-old x.sn r.sn _ rest)
      | inr e ↦ rw (e, if◌then◌else◌) rest
    ]

both : (a b : Bool) → (a && b) ≡ true → (a ≡ true) × (b ≡ true)
both a b h = ground arith

-- A device either has nothing waiting or is listed.
listed : (sn : Bytes) (t : Table) → Cleared sn t ⊎ In sn (pending_command_sns t)
unfolding is_claimable
listed sn t = go (keep (is_claimable sn) t) refl
  where
    go : (l : Table) → keep (is_claimable sn) t ≡ l → Cleared sn t ⊎ In sn (pending_command_sns t)
    go [] e = inl e
    go (r ∷ l) e =
        let (m, q) = In-keep (is_claimable sn) r t (subst (In r) (sym e) (inl refl)) in
        inr (
          subst (λ k. In k (pending_command_sns t)) ((text_iff r.sn sn).0 (both _ _ q).0)
            (pending_sn r t m (both _ _ q).1))

drain_device-Cleared :
    (from_str : Bytes → Bytes ⊎ Value) (encrypt : Value → Bytes → Option Bytes) (is_open : ℕ → Bool)
    (returning : List QueuedCommand → List QueuedCommand) (cfg : Config) (sessions : Sessions)
    (h : Option ConnHandle) (now : ℤ) (sn k : Bytes) (w : World)
    → Cleared k w.table
    → Cleared k (drain_device from_str encrypt is_open returning cfg sessions h now sn w).table
unfolding drain_device
drain_device-Cleared from_str encrypt is_open returning cfg sessions none now sn k w q = q
drain_device-Cleared from_str encrypt is_open returning cfg sessions (some h) now sn k w q =
    push_all-Cleared from_str encrypt is_open returning cfg _ now h _ k _
      (claim-Cleared sn k now w.table q)

drain_sns-Cleared :
    (from_str : Bytes → Bytes ⊎ Value) (encrypt : Value → Bytes → Option Bytes) (is_open : ℕ → Bool)
    (returning : List QueuedCommand → List QueuedCommand) (cfg : Config) (sessions : Sessions)
    (r : Registry) (h : ConnHandle) (now : ℤ) (sns : List Bytes) (k : Bytes) (w : World)
    → Registry.get k r ≡ some h
    → Cleared k w.table ⊎ In k sns
    → Cleared k (drain_sns from_str encrypt is_open returning cfg sessions r now sns w).table
unfolding drain_sns drain_device
drain_sns-Cleared from_str encrypt is_open returning cfg sessions r h now [] k w g (inl q) = q
drain_sns-Cleared from_str encrypt is_open returning cfg sessions r h now [] k w g (inr m) =
    absurd m
drain_sns-Cleared from_str encrypt is_open returning cfg sessions r h now (sn ∷ sns) k w g q =
    drain_sns-Cleared from_str encrypt is_open returning cfg sessions r h now sns k _ g (one q)
  where
    w' : World
    w' = drain_device from_str encrypt is_open returning cfg sessions (Registry.get sn r) now sn w

    one : Cleared k w.table ⊎ (sn ≡ k) ⊎ In k sns → Cleared k w'.table ⊎ In k sns
    one (inl q) = inl (
        drain_device-Cleared from_str encrypt is_open returning cfg sessions (Registry.get sn r) now
          sn k w q)
    one (inr (inl e)) = inl (
        subst
          (λ s.
            Cleared k
              (drain_device from_str encrypt is_open returning cfg sessions (Registry.get s r) now s
                w).table)
          (sym e)
          (rw (g) (
            push_all-Cleared from_str encrypt is_open returning cfg _ now h _ k _
              (claimed-Cleared k now w.table))))
    one (inr (inr m)) = inr m

-- After one pass no command of a device that the registry knows is waiting, whatever the
-- payloads, the keys, the settings, the state of the connection and the order of the claimed
-- rows.
pub drain_once-Cleared :
    (from_str : Bytes → Bytes ⊎ Value) (encrypt : Value → Bytes → Option Bytes) (is_open : ℕ → Bool)
    (returning : List QueuedCommand → List QueuedCommand) (cfg : Config) (sessions : Sessions)
    (r : Registry) (h : ConnHandle) (now : ℤ) (sn : Bytes) (w : World)
    → Registry.get sn r ≡ some h
    → Cleared sn (drain_once from_str encrypt is_open returning cfg sessions r now w).table
unfolding drain_once
drain_once-Cleared from_str encrypt is_open returning cfg sessions r h now sn w g =
    drain_sns-Cleared from_str encrypt is_open returning cfg sessions r h now _ sn _ g (listed sn _)
