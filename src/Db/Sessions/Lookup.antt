-- ===== src/Db/Sessions/Lookup.antt =====
-- What a later look at the `sessions` table of src/db/queries.rs finds after an earlier statement on it.
use native.Mathlib.Omega.{arith}
use noobscenic.Prelude.{
  In, In-keep, ℕ, suc, ◌<◌, ℤ, ◌≤ℤ◌, Bytes, Bool, true, false, [], ◌∷◌, ◌++◌, Option, none, some,
  ◌==◌, ◌=ℤ◌, ltb_ℤ, ltb, ◌&&◌, ◌||◌, not, keep, text_eq, text_refl, if◌then◌else◌, Bool-cases,
  find_first, any, is_some, ◌≡◌, refl, ap, ap₂, sym, ◌∙◌, inl, inr,
}
use noobscenic.Db.Rows.{max_id}
use noobscenic.Db.Rows.Laws.{keep-append, keep-one, newest_by-last, In-max_id}
use noobscenic.Db.Sessions.{
  Session, Sessions, keep_only, insert_session, is_live, owner, find_session, touch_session,
  revoke_session, is_newer, newest_session, latest_session_key, key_of,
}

-- A row that none before it is as to a test is the one that is found.
find_first-last :
    (p q : Session → Bool) (t : Sessions) (r : Session)
    → any q t ≡ false
    → ((s : Session) → q s ≡ false → p s ≡ false)
    → p r ≡ true
    → find_first p (t ++ r ∷ []) ≡ some r
unfolding find_first any
find_first-last p q [] r h only e = rw (e, if◌then◌else◌) refl
find_first-last p q (s ∷ t) r h only e =
    let rest = find_first-last p q t r (ground arith) only e in
    let miss = only s (ground arith) in rw (miss, if◌then◌else◌) rest

any-keep : (p q : Session → Bool) (t : Sessions) → any q t ≡ false → any q (keep p t) ≡ false
unfolding any keep
any-keep p q [] h = refl
any-keep p q (s ∷ t) h =
    let rest = any-keep p q t (ground arith) in
    elim (Bool-cases (p s)) [
      | inl e ↦ rw (e, if◌then◌else◌) (ground arith)
      | inr e ↦ rw (e, if◌then◌else◌) rest
    ]

own_row : (a : Bool) (n : ℕ) → not (a && not (n == n)) ≡ true
own_row a n = ground arith

-- The rows that `insert_session` leaves before the new one.
left : Bool → Bytes → ℕ → Sessions → Sessions
left history sn id t = if history then t else keep_only sn id t

new_row : Bytes → Bytes → Bytes → Option Bytes → ℤ → Sessions → Session
new_row sn session_key cookie sig_raw now t = record {
  id = suc (max_id (λ s. s.id) t);
  sn = sn;
  session_key = session_key;
  cookie = cookie;
  sig_raw = sig_raw;
  created_ms = now;
  last_used_ms = none;
  revoked_ms = none;
}

insert_row :
    (history : Bool) (sn key cookie : Bytes) (sig : Option Bytes) (now : ℤ) (t : Sessions)
    → any (λ s. text_eq s.cookie cookie) t ≡ false
    → insert_session history sn key cookie sig now t ≡ (
      left history sn (suc (max_id (λ s. s.id) t)) t ++ new_row sn key cookie sig now t ∷ [],
      true,
    )
unfolding insert_session left new_row keep_only
insert_row true sn key cookie sig now t h = rw (h, if◌then◌else◌) refl
insert_row false sn key cookie sig now t h =
    rw (h, if◌then◌else◌)
      (ap (λ l. (l, true))
        (keep-append _ t _
          ∙ ap (λ l. keep_only sn (suc (max_id (λ s. s.id) t)) t ++ l)
              (keep-one _ (new_row sn key cookie sig now t)
                (own_row (text_eq sn sn) (suc (max_id (λ s. s.id) t))))))

left-any :
    (history : Bool) (sn : Bytes) (id : ℕ) (q : Session → Bool) (t : Sessions)
    → any q t ≡ false
    → any q (left history sn id t) ≡ false
unfolding left keep_only
left-any true sn id q t h = h
left-any false sn id q t h = any-keep _ q t h

refused :
    (history : Bool) (sn key cookie : Bytes) (sig : Option Bytes) (now : ℤ) (t : Sessions)
    → any (λ s. text_eq s.cookie cookie) t ≡ true
    → insert_session history sn key cookie sig now t ≡ (t, false)
unfolding insert_session
refused history sn key cookie sig now t e = rw (e, if◌then◌else◌) refl

found :
    (history : Bool) (sn key cookie : Bytes) (sig : Option Bytes) (now : ℤ) (t : Sessions)
    → any (λ s. text_eq s.cookie cookie) t ≡ false
    → find_session cookie
        (left history sn (suc (max_id (λ s. s.id) t)) t ++ new_row sn key cookie sig now t ∷ [])
      ≡ some (sn, now)
unfolding find_session is_live new_row
found history sn key cookie sig now t e = ap owner (
    find_first-last (is_live cookie) (λ s. text_eq s.cookie cookie)
      (left history sn (suc (max_id (λ s. s.id) t)) t) (new_row sn key cookie sig now t)
      (left-any history sn _ _ t e) (λ s h. ground arith) (rw (text_refl cookie) refl))

-- A session that was inserted is found by its cookie, with its serial and its creation time, whichever build it is.
-- The insertion is refused exactly when the cookie is there already, and then nothing changes.
pub find-insert_session :
    (history : Bool) (sn key cookie : Bytes) (sig : Option Bytes) (now : ℤ) (t : Sessions)
    → ((insert_session history sn key cookie sig now t).1
        ≡ not (any (λ s. text_eq s.cookie cookie) t))
      × ((insert_session history sn key cookie sig now t).1 ≡ true
          → find_session cookie (insert_session history sn key cookie sig now t).0 ≡ some (sn, now))
      × ((insert_session history sn key cookie sig now t).1 ≡ false
          → (insert_session history sn key cookie sig now t).0 ≡ t)
find-insert_session history sn key cookie sig now t =
    elim (Bool-cases (any (λ s. text_eq s.cookie cookie) t)) [
      | inl e ↦
          rw (refused history sn key cookie sig now t e, e) (refl, λ q. ground arith, λ q. refl)
      | inr e ↦
          rw (insert_row history sn key cookie sig now t e, e)
            (refl, λ q. found history sn key cookie sig now t e, λ q. ground arith)
    ]

and_false : (a : Bool) → (a && false) ≡ false
and_false a = ground arith

no_live :
    (cookie : Bytes) (now : ℤ) (t : Sessions)
    → find_first (is_live cookie) (revoke_session cookie now t) ≡ none
unfolding revoke_session find_first is_live
no_live cookie now [] = refl
no_live cookie now (s ∷ t) =
    let rest = no_live cookie now t in
    elim (Bool-cases (is_live cookie s)) [
      | inl e ↦ rw (e, if◌then◌else◌, and_false (text_eq s.cookie cookie), if◌then◌else◌) rest
      | inr e ↦ rw (e, if◌then◌else◌, e, if◌then◌else◌) rest
    ]

same_owner :
    (t u : Sessions) (k : Bytes) (s r : Session)
    → r.sn ≡ s.sn
    → r.cookie ≡ s.cookie
    → r.created_ms ≡ s.created_ms
    → r.revoked_ms ≡ s.revoked_ms
    → find_session k u ≡ find_session k t
    → find_session k (r ∷ u) ≡ find_session k (s ∷ t)
unfolding find_session find_first is_live
same_owner t u k s r a b c d h =
    rw (b, d)
      (elim (Bool-cases (text_eq s.cookie k && not (is_some s.revoked_ms))) [
        | inl e ↦ rw (e, if◌then◌else◌) (ap₂ (λ x y. some (x, y)) a c)
        | inr e ↦ rw (e, if◌then◌else◌) h
      ])

-- A revoked cookie is no session any more.
pub find-revoke_session :
    (cookie : Bytes) (now : ℤ) (t : Sessions)
    → find_session cookie (revoke_session cookie now t) ≡ none
unfolding find_session
find-revoke_session cookie now t = ap owner (no_live cookie now t)

-- A use of a session changes no lookup.
pub find-touch_session :
    (cookie k : Bytes) (now : ℤ) (t : Sessions)
    → find_session k (touch_session cookie now t) ≡ find_session k t
unfolding find_session touch_session find_first is_live
find-touch_session cookie k now [] = refl
find-touch_session cookie k now (s ∷ t) =
    let rest = find-touch_session cookie k now t in
    elim (Bool-cases (text_eq s.cookie cookie)) [
      | inl e ↦
          rw (e, if◌then◌else◌)
            (same_owner t _ k s (record s { last_used_ms = some now }) refl refl refl refl rest)
      | inr e ↦ rw (e, if◌then◌else◌) (same_owner t _ k s s refl refl refl refl rest)
    ]

In-left :
    (history : Bool) (sn : Bytes) (id : ℕ) (s : Session) (t : Sessions)
    → In s (left history sn id t)
    → In s t
unfolding left keep_only
In-left true sn id s t m = m
In-left false sn id s t m = (In-keep _ s t m).0

newer_row : (a b : ℤ) (i j : ℕ) → a ≤ℤ b → i < j → (ltb_ℤ a b || a =ℤ b && ltb i j) ≡ true
newer_row a b i j h k = ground arith

latest :
    (history : Bool) (sn key cookie : Bytes) (sig : Option Bytes) (now : ℤ) (t : Sessions)
    → ((s : Session) → In s t → s.created_ms ≤ℤ now)
    → latest_session_key sn
        (left history sn (suc (max_id (λ s. s.id) t)) t ++ new_row sn key cookie sig now t ∷ [])
      ≡ some key
unfolding latest_session_key new_row is_newer
latest history sn key cookie sig now t clock = ap key_of (
    ap newest_session
      (keep-append p u r ∙ ap (λ l. keep p u ++ l) (keep-one p _ (rw (text_refl sn) refl)))
    ∙ newest_by-last is_newer (keep p u) _ older)
  where
    p : Session → Bool
    p s = text_eq s.sn sn && not (is_some s.revoked_ms)

    u : Sessions
    u = left history sn (suc (max_id (λ s. s.id) t)) t

    r : Sessions
    r = new_row sn key cookie sig now t ∷ []

    older : (s : Session) → In s (keep p u) → is_newer s (new_row sn key cookie sig now t) ≡ true
    older s m =
        let k = In-left history sn _ s t (In-keep p s u m).0 in
        let q = In-max_id (λ s. s.id) s t k in
        newer_row s.created_ms now s.id (suc (max_id (λ s. s.id) t)) (clock s k) (omega arith)

-- When a session is inserted for a device and no session that is there is newer than the
-- clock, the key that commands to the device are encrypted with is that of the new session,
-- whichever build it is.
pub latest_session_key-insert_session :
    (history : Bool) (sn key cookie : Bytes) (sig : Option Bytes) (now : ℤ) (t : Sessions)
    → ((s : Session) → In s t → s.created_ms ≤ℤ now)
    → (insert_session history sn key cookie sig now t).1 ≡ true
    → latest_session_key sn (insert_session history sn key cookie sig now t).0 ≡ some key
unfolding latest_session_key
latest_session_key-insert_session history sn key cookie sig now t clock done =
    elim (Bool-cases (any (λ s. text_eq s.cookie cookie) t)) [
      | inl e ↦ absurd (clash e)
      | inr e ↦
          rw (insert_row history sn key cookie sig now t e)
            (latest history sn key cookie sig now t clock)
    ]
  where
    clash : any (λ s. text_eq s.cookie cookie) t ≡ true → ⊥
    clash e =
        let q = sym (ap (λ p. p.1) (refused history sn key cookie sig now t e)) ∙ done in
        ground arith
