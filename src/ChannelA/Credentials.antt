-- ===== src/ChannelA/Credentials.antt =====
-- `check` of src/session.rs: what the credentials of a request turn out to be.
use noobscenic.Prelude.{
  ℕ, ℤ, pos, ◌-ℤ◌, ◌*◌, ltb_ℤ, Bytes, Bool, false, Option, none, some, if◌then◌else◌,
}
use noobscenic.Db.Sessions.{Sessions, find_session, touch_session, revoke_session}
use noobscenic.ChannelA.Cookie.{CookieLookup, missing, empty, value, cookie_value}

pub data Credential : Type 0 where
  valid : Bytes → Credential
  absent stale : Credential

-- `now_ms() - created_ms > ttl * 1000`
unfoldable pub is_over : Option ℕ → ℤ → ℤ → Bool
is_over none created_ms now = false
is_over (some ttl_secs) created_ms now = ltb_ℤ (pos (ttl_secs * 1000)) (now -ℤ created_ms)

unfoldable pub check_found :
    Bytes → Option ℕ → ℤ → Sessions → Option (Bytes × ℤ) → Sessions × Credential
check_found cookie session_ttl_secs now t none = (t, stale)
check_found cookie session_ttl_secs now t (some (sn, created_ms)) =
    if is_over session_ttl_secs created_ms now
    then (revoke_session cookie now t, stale)
    else (touch_session cookie now t, valid sn)

unfoldable pub check_value : CookieLookup → Option ℕ → ℤ → Sessions → Sessions × Credential
check_value missing session_ttl_secs now t = (t, absent)
check_value empty session_ttl_secs now t = (t, stale)
check_value (value cookie) session_ttl_secs now t =
    check_found cookie session_ttl_secs now t (find_session cookie t)

unfoldable pub check :
    (Bytes → Option Bytes) → Option Bytes → Option ℕ → ℤ → Sessions → Sessions × Credential
check to_str header session_ttl_secs now t =
    check_value (cookie_value to_str header) session_ttl_secs now t
