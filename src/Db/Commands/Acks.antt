-- ===== src/Db/Commands/Acks.antt =====
-- Which command a reply acknowledges: src/db/queries.rs.
use mathlib.Core.Path.{transport}
use native.Mathlib.Omega.{arith}
use noobscenic.Prelude.{
  is_some, sym, pos, ◌≤ℤ◌, ◌≤◌, ℤ, Bytes, Bool, true, false, [], ◌∷◌, Option, none, some, keep,
  ◌&&◌, ◌||◌, ◌≡◌, refl, ap, if◌then◌else◌, Bool-cases, Option-cases, text_eq, In, inl, inr, ◌⊎◌,
  unwrap_or, In-keep, keep-In, ltb_ℤ, ◌=ℤ◌, ltb, ℕ, ◌∙◌, map, not, ◌==◌,
}
use noobscenic.Db.Commands.Ids.{newest-In}
use noobscenic.Db.Commands.{
  sent, acked, Row, Table, is_state, is_ackable, newest, comes_after, ack_row, ack_command,
  sent_since,
}

-- When a sent row was sent.
abbrev pub stamp : Row → ℤ
stamp r = unwrap_or (pos 0) r.sent_ms

-- `(sent_ms, id)` of the first row is not above that of the second.
abbrev pub NotNewer : Row → Row → Type 0
NotNewer r b = (stamp r ≤ℤ stamp b) × (stamp b ≤ℤ stamp r → r.id ≤ b.id)

abbrev pub IsSent : Row → Type 0
IsSent r = is_some r.sent_ms ≡ true

compare_sent :
    (r b : Row)
    → IsSent r
    → IsSent b
    → comes_after r b ≡ (ltb_ℤ (stamp r) (stamp b) || stamp r =ℤ stamp b && ltb r.id b.id)
unfolding comes_after
compare_sent r b h k = go r.sent_ms b.sent_ms h k
  where
    go :
        (x y : Option ℤ)
        → is_some x ≡ true
        → is_some y ≡ true
        → elim x [
          | none ↦ true
          | some a ↦ elim y [ none ↦ false | some c ↦ ltb_ℤ a c || a =ℤ c && ltb r.id b.id ]
        ]
          ≡ (ltb_ℤ (unwrap_or (pos 0) x) (unwrap_or (pos 0) y)
              || unwrap_or (pos 0) x =ℤ unwrap_or (pos 0) y && ltb r.id b.id)
    go none y h k = ground arith
    go (some a) none h k = ground arith
    go (some a) (some c) h k = refl

later : (r b : Row) → IsSent r → IsSent b → (comes_after r b ≡ true) → NotNewer r b
later r b x y h = let q = sym (compare_sent r b x y) ∙ h in ordered (stamp r) (stamp b) r.id b.id q
  where
    ordered :
        (a c : ℤ) (i j : ℕ) → (ltb_ℤ a c || a =ℤ c && ltb i j) ≡ true → (a ≤ℤ c) × (c ≤ℤ a → i ≤ j)
    ordered a c i j q = ground arith

earlier : (r b : Row) → IsSent r → IsSent b → (comes_after r b ≡ false) → NotNewer b r
earlier r b x y h =
    let q = sym (compare_sent r b x y) ∙ h in ordered (stamp r) (stamp b) r.id b.id q
  where
    ordered :
        (a c : ℤ) (i j : ℕ) → (ltb_ℤ a c || a =ℤ c && ltb i j) ≡ false → (c ≤ℤ a) × (a ≤ℤ c → j ≤ i)
    ordered a c i j q = ground arith

chain : (r b c : Row) → NotNewer r b → NotNewer b c → NotNewer r c
chain r b c h k =
    (omega arith, λ q. let x = h.1 (omega arith) in let y = k.1 (omega arith) in omega arith)

same : (r : Row) → NotNewer r r
same r = (omega arith, λ q. omega arith)

newest-none : (t : Table) → newest t ≡ none → t ≡ []
unfolding newest
newest-none [] e = refl
newest-none (r ∷ t) e = elim (Option-cases (newest t)) [
  | inl n ↦ absurd (none≢ (rw (n) at e))
  | inr (best, n) ↦ elim (Bool-cases (comes_after r best)) [
    | inl c ↦ absurd (none≢ (rw (n, c, if◌then◌else◌) at e))
    | inr c ↦ absurd (none≢ (rw (n, c, if◌then◌else◌) at e))
  ]
]
  where
    none≢ : {x : Row} → some x ≡ none → ⊥
    none≢ q = ground arith

-- The newest of some sent rows: no row of them is newer.
newest-max :
    (t : Table)
    → ((r : Row) → In r t → IsSent r)
    → (b : Row) → newest t ≡ some b
    → (r : Row) → In r t
    → NotNewer r b
unfolding newest
newest-max [] h b e r m = absurd m
newest-max (x ∷ t) h b e r m =
    let go = newest-max t (λ s n. h s (inr n)) in
    elim (Option-cases (newest t)) [
      | inl n ↦
          let q = ap (unwrap_or x) (rw (n) at e) in
          transport (ap (NotNewer r) q)
            (alone (transport (ap (λ t. In r (x ∷ t)) (newest-none t n)) m))
      | inr (best, n) ↦
          let sent_best = h best (inr (newest-In t best n)) in
          elim (Bool-cases (comes_after x best)) [
            | inl c ↦
                let q = ap (unwrap_or x) (rw (n, c, if◌then◌else◌) at e) in
                transport (ap (NotNewer r) q)
                  (below best (later x best (h x (inl refl)) sent_best c) (go best n r) m)
            | inr c ↦
                let q = ap (unwrap_or x) (rw (n, c, if◌then◌else◌) at e) in
                transport (ap (NotNewer r) q) (
                  below x (same x)
                    (λ k.
                      chain r best x (go best n r k) (earlier x best (h x (inl refl)) sent_best c))
                    m)
          ]
    ]
  where
    alone : (x ≡ r) ⊎ ⊥ → NotNewer r x
    alone (inl e) = transport (ap (λ r. NotNewer r x) e) (same x)
    alone (inr k) = absurd k

    below : (c : Row) → NotNewer x c → (In r t → NotNewer r c) → (x ≡ r) ⊎ In r t → NotNewer r c
    below c h k (inl e) = transport (ap (λ r. NotNewer r c) e) h
    below c h k (inr m) = k m

sent_ackable :
    (a b c : Bool) (since : ℤ) (o : Option ℤ)
    → (a && b && c && sent_since since o) ≡ true
    → is_some o ≡ true
unfolding sent_since
sent_ackable a b c since none h = ground arith
sent_ackable a b c since (some ms) h = refl

-- What `ack_command` answers.
-- The table with the command answered: in the `history` build its row says so, with the time and the
-- payload of the reply, and otherwise it is gone; the other rows are as they were.
abbrev pub answered : Bool → ℕ → ℤ → Bytes → Table → Table
answered true id now payload t =
    map
      (λ r.
        if r.id == id
        then record r { state = acked; ack_ms = some now; ack_payload = some payload }
        else r)
      t
answered false id now payload t = keep (λ r. not (r.id == id)) t

abbrev pub Acked : Bool → Bytes → ℤ → Bytes → ℤ → ℤ → Table → Table × Option ℕ → Type 0
Acked history sn info_type payload now since t (u, none) =
    (keep (is_ackable sn info_type since) t ≡ []) × (u ≡ t)
Acked history sn info_type payload now since t (u, some id) =
    (b : Row) × (b.id ≡ id)
    × In b t
    × (is_ackable sn info_type since b ≡ true)
    × ((r : Row) → In r t → is_ackable sn info_type since r ≡ true → NotNewer r b)
    × (u ≡ answered history id now payload t)

answers :
    (sn : Bytes) (info_type : ℤ) (payload : Bytes) (now since : ℤ) (t : Table) (history : Bool)
    (best : Option Row)
    → newest (keep (is_ackable sn info_type since) t) ≡ best
    → Acked history sn info_type payload now since t (ack_row history best now payload t)
unfolding ack_row is_ackable
answers sn info_type payload now since t history none n = (newest-none _ n, refl)
answers sn info_type payload now since t history (some b) n =
    let (m, q) = In-keep (is_ackable sn info_type since) b t (newest-In _ b n) in
    (
      b,
      refl,
      m,
      q,
      λ r k e. newest-max _ sent_rows b n r (keep-In (is_ackable sn info_type since) r t k e),
      written history,
    )
  where
    sent_rows : (r : Row) → In r (keep (is_ackable sn info_type since) t) → IsSent r
    sent_rows r k =
        sent_ackable (text_eq r.sn sn) (r.info_type =ℤ info_type) (is_state r.state sent) since
          r.sent_ms (In-keep (is_ackable sn info_type since) r t k).1

    written : (h : Bool) → (ack_row h (some b) now payload t).0 ≡ answered h b.id now payload t
    written true = refl
    written false = refl

-- A reply acknowledges the newest of the commands that it can answer, by the time they were sent and
-- then by id: of the device's own sent rows of that type inside the window. In the `history` build
-- that command's row is then acknowledged, with the time and the payload of the reply, and in the
-- other build it is gone; no other row changes. When there is none to answer, the table stays as it
-- is.
pub ack_command-Acked :
    (sn : Bytes) (info_type : ℤ) (payload : Bytes) (now since : ℤ) (t : Table) (history : Bool)
    → Acked history sn info_type payload now since t
        (ack_command history sn info_type payload now since t)
unfolding ack_command
ack_command-Acked sn info_type payload now since t history =
    answers sn info_type payload now since t history _ refl
