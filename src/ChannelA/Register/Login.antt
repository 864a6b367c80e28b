-- ===== src/ChannelA/Register/Login.antt =====
-- A device registers and uses its cookie: register.rs and session.rs together.
use noobscenic.Prelude.{All, unwrap_or, subst, -ℤ_parts}
use native.Mathlib.Omega.{arith}
use noobscenic.Prelude.{
  ℕ, ◌/◌, ◌%◌, ℤ, Bytes, Bool, true, false, List, [], ◌∷◌, ◌++◌, Option, none, some, ◌==◌, ◌&&◌,
  not, if◌then◌else◌, Bool-cases, length, ◌≡◌, refl, ap, ◌∙◌, inl, inr, starts_with-append, sym,
  every,
}
use noobscenic.Db.Sessions.{Sessions, insert_session, find_session, touch_session}
use noobscenic.Db.Devices.{Devices, device_exists}
use noobscenic.Db.Sessions.Lookup.{find-insert_session, find-revoke_session, find-touch_session}
use noobscenic.ChannelA.Cookie.{
  value, is_space, trim_start, trim_end, trim, split_parts, cookies_prefix, first_cookie,
  cookie_value,
}
use noobscenic.ChannelA.Credentials.{valid, stale, is_over, check_found, check_value, check}
use noobscenic.ChannelA.Register.{Minted, digit, hex_of, Response, minted, attempts, register}

-- Neither a space nor a separator.
is_plain : ℕ → Bool
is_plain c = not (is_space c) && not (c == b';')

trim_end-plain : (s : Bytes) → every is_plain s ≡ true → trim_end s ≡ s
unfolding trim_end every is_plain
trim_end-plain [] h = refl
trim_end-plain (c ∷ s) h =
    let rest = trim_end-plain s (ground arith) in rw (rest) (go s (ground arith))
  where
    go :
        (s : Bytes)
        → is_space c ≡ false
        → elim s [ [] ↦ if is_space c then [] else c ∷ [] | (d ∷ t) ↦ c ∷ d ∷ t ] ≡ c ∷ s
    go [] h = rw (h, if◌then◌else◌) refl
    go (d ∷ t) h = refl

trim-plain : (s : Bytes) → every is_plain s ≡ true → trim s ≡ s
unfolding trim trim_start every is_plain
trim-plain [] h = ap trim_start (trim_end-plain [] h)
trim-plain (c ∷ s) h = ap trim_start (trim_end-plain (c ∷ s) h) ∙ first (ground arith)
  where
    first : is_space c ≡ false → (if is_space c then trim_start s else c ∷ s) ≡ c ∷ s
    first e = rw (e, if◌then◌else◌) refl

split_parts-plain : (s : Bytes) → every is_plain s ≡ true → split_parts s ≡ (s, [])
unfolding split_parts every is_plain
split_parts-plain [] h = refl
split_parts-plain (c ∷ s) h =
    let rest = split_parts-plain s (ground arith) in
    rw (apart (ground arith), rest, if◌then◌else◌) refl
  where
    apart : (c == b';') ≡ false → (c == b';') ≡ false
    apart e = e

every-append :
    (s t : Bytes)
    → every is_plain s ≡ true
    → every is_plain t ≡ true
    → every is_plain (s ++ t) ≡ true
unfolding every
every-append [] t h k = k
every-append (c ∷ s) t h k = ground (arith, every-append s t)

plain_prefix : every is_plain cookies_prefix ≡ true
unfolding every is_plain is_space
plain_prefix = refl

-- The cookie of a header that holds nothing else.
cookie_value-plain :
    (to_str : Bytes → Option Bytes) (raw : Bytes) (c : ℕ) (cookie : Bytes)
    → to_str raw ≡ some (cookies_prefix ++ c ∷ cookie)
    → every is_plain (c ∷ cookie) ≡ true
    → cookie_value to_str (some raw) ≡ value (c ∷ cookie)
unfolding cookie_value first_cookie
cookie_value-plain to_str raw c cookie h k =
    let all = every-append cookies_prefix (c ∷ cookie) plain_prefix k in
    rw
      (
        h,
        cookie_value,
        trim-plain (cookies_prefix ++ c ∷ cookie) all,
        split_parts-plain (cookies_prefix ++ c ∷ cookie) all,
        trim-plain (cookies_prefix ++ c ∷ cookie) all,
        starts_with-append cookies_prefix (c ∷ cookie),
        if◌then◌else◌,
      )
      refl

digit-plain : (n : ℕ) → is_plain (digit n) ≡ true
unfolding is_plain is_space
digit-plain n = ground arith

hex_of-plain : (s : Bytes) → every is_plain (hex_of s) ≡ true
unfolding every hex_of
hex_of-plain [] = refl
hex_of-plain (b ∷ s) = rw (digit-plain (b / 16), digit-plain (b % 16)) (hex_of-plain s)

-- A reply with a session.
abbrev pub granted : Response → Option Minted
granted (minted m) = some m
granted _ = none

-- The session of a reply is live in the table, and its cookie is the hex of sixteen random bytes.
abbrev pub Live : Bytes → ℤ → Sessions → Minted → Type 0
Live sn now t m =
    (find_session m.cookie t ≡ some (sn, now))
    × ((bytes : Bytes) × (m.cookie ≡ hex_of bytes) × (length bytes ≡ 16))

attempts-Live :
    (history : Bool) (sn : Bytes) (sig : Option Bytes) (now : ℤ) (random : List (Bytes × Bytes))
    (t : Sessions) (m : Minted)
    → All (λ r. length r.1 ≡ 16) random
    → (attempts history sn sig now random t).1 ≡ minted m
    → Live sn now (attempts history sn sig now random t).0 m
unfolding attempts
attempts-Live history sn sig now [] t m l h = absurd (no_grant (ap granted h))
  where
    no_grant : none ≡ some m → ⊥
    no_grant q = ground arith
attempts-Live history sn sig now ((key, sid) ∷ more) t m l h =
    let go = attempts-Live history sn sig now more in
    elim (Bool-cases (insert_session history sn (hex_of key) (hex_of sid) sig now t).1) [
      | inl e ↦
          let q = ap (λ r. unwrap_or m (granted r)) (rw (e, if◌then◌else◌) at h) in
          rw (e, if◌then◌else◌)
            (subst (Live sn now (insert_session history sn (hex_of key) (hex_of sid) sig now t).0) q
              (
                (find-insert_session history sn (hex_of key) (hex_of sid) sig now t).1 e,
                (sid, refl, l.0),
              ))
      | inr e ↦ rw (e, if◌then◌else◌) (go _ m l.1 (rw (e, if◌then◌else◌) at h))
    ]

-- The check of the cookie of a live session, in a header that holds nothing else.
pub check-Live :
    (to_str : Bytes → Option Bytes) (ttl : Option ℕ) (raw sn : Bytes) (created now : ℤ)
    (t : Sessions) (m : Minted)
    → Live sn created t m
    → to_str raw ≡ some (cookies_prefix ++ m.cookie)
    → is_over ttl created now ≡ false
    → check to_str (some raw) ttl now t ≡ (touch_session m.cookie now t, valid sn)
unfolding check check_value check_found hex_of
check-Live to_str ttl raw sn created now t m live s fresh = rw (shape live.1, live.0, fresh) refl
  where
    shape :
        ((bytes : Bytes) × (m.cookie ≡ hex_of bytes) × (length bytes ≡ 16))
        → cookie_value to_str (some raw) ≡ value m.cookie
    shape ([], e, n) = absurd (omega (arith, n))
    shape (b ∷ bytes, e, n) =
        cookie_value-plain to_str raw _ _ (s ∙ ap (λ c. some (cookies_prefix ++ c)) e)
          (hex_of-plain (b ∷ bytes))
        ∙ ap value (sym e)

-- When the attempts of a registration, on sixteen random bytes for each cookie, answer with a
-- session, and the `Cookie:` header is read as `cookies=` and its cookie, then the check at
-- the same moment is valid for the serial of the device, whatever was in the table and
-- whatever the time to live, and leaves every lookup of a session as it was.
pub check-attempts :
    (to_str : Bytes → Option Bytes) (ttl : Option ℕ) (raw : Bytes) (history : Bool) (sn : Bytes)
    (sig : Option Bytes) (now : ℤ) (random : List (Bytes × Bytes)) (t : Sessions) (m : Minted)
    → All (λ r. length r.1 ≡ 16) random
    → (attempts history sn sig now random t).1 ≡ minted m
    → to_str raw ≡ some (cookies_prefix ++ m.cookie)
    → ((check to_str (some raw) ttl now (attempts history sn sig now random t).0).1 ≡ valid sn)
      × ((k : Bytes)
          → find_session k
              (check to_str (some raw) ttl now (attempts history sn sig now random t).0).0
            ≡ find_session k (attempts history sn sig now random t).0)
unfolding is_over
check-attempts to_str ttl raw history sn sig now random t m l h s =
    let live = attempts-Live history sn sig now random t m l h in
    rw (check-Live to_str ttl raw sn now now _ m live s (fresh ttl))
      (refl, λ k. find-touch_session m.cookie k now _)
  where
    fresh : (ttl : Option ℕ) → is_over ttl now now ≡ false
    fresh none = refl
    fresh (some n) = ground (arith, -ℤ_parts now now)

-- What a registration that answers with a session leaves.
pub register-Live :
    (history accept_all : Bool) (sn : Bytes) (ld_sn sig : Option Bytes) (now : ℤ)
    (random : List (Bytes × Bytes)) (s : Devices × Sessions) (m : Minted)
    → All (λ r. length r.1 ≡ 16) random
    → (register history accept_all sn ld_sn sig now random s).1 ≡ minted m
    → Live sn now (register history accept_all sn ld_sn sig now random s).0.1 m
unfolding register
register-Live history accept_all sn ld_sn sig now random (d, t) m l h =
    elim (Bool-cases (length sn == 0)) [
      | inl e ↦ absurd (ground arith)
      | inr e ↦ elim (Bool-cases (not accept_all && not (device_exists sn d))) [
        | inl u ↦ absurd (ground arith)
        | inr u ↦
            rw (e, u, if◌then◌else◌)
              (attempts-Live history sn sig now random t m l (rw (e, u, if◌then◌else◌) at h))
      ]
    ]

-- A session that is found by its cookie and is past its time is refused as stale, and then its
-- cookie is refused at any later check, whatever the time to live is by then. One within its
-- time is valid for its serial, and is found as before after the check.
pub check_value-again :
    (cookie sn : Bytes) (created now later : ℤ) (ttl ttl' : Option ℕ) (t : Sessions)
    → find_session cookie t ≡ some (sn, created)
    → (is_over ttl created now ≡ true
        → ((check_value (value cookie) ttl now t).1 ≡ stale)
          × ((check_value (value cookie) ttl' later (check_value (value cookie) ttl now t).0).1
              ≡ stale))
      × (is_over ttl created now ≡ false
          → ((check_value (value cookie) ttl now t).1 ≡ valid sn)
            × (find_session cookie (check_value (value cookie) ttl now t).0 ≡ some (sn, created)))
unfolding check_value check_found
check_value-again cookie sn created now later ttl ttl' t h = (
  λ e. rw (h, e, if◌then◌else◌, find-revoke_session cookie now t) (refl, refl),
  λ e. rw (h, e, if◌then◌else◌, find-touch_session cookie cookie now t) (refl, h),
)
