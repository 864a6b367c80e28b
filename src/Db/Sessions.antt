-- ===== src/Db/Sessions.antt =====
-- The `sessions` table: src/db/queries.rs. `cookie` is UNIQUE.
-- `history` says whether the Cargo feature of that name is on.
pub mod Lookup
use noobscenic.Prelude.{
  ℕ, suc, max, ℤ, Bytes, Bool, true, false, List, [], ◌∷◌, ◌++◌, Option, none, some, ◌==◌, ◌=ℤ◌,
  ltb_ℤ, ltb, ◌&&◌, ◌||◌, not, keep, map, text_eq, if◌then◌else◌, find_first, any, is_some,
}
use noobscenic.Db.Rows.{newest_by, max_id}

pub record Session : Type 0 where
  pub id : ℕ
  pub sn : Bytes
  pub session_key : Bytes
  pub cookie : Bytes
  pub sig_raw : Option Bytes
  pub created_ms : ℤ
  pub last_used_ms : Option ℤ
  pub revoked_ms : Option ℤ

abbrev pub Sessions : Type 0
Sessions = List Session

-- `DELETE FROM sessions WHERE sn = ? AND id <> ?`
unfoldable pub keep_only : Bytes → ℕ → Sessions → Sessions
keep_only sn id = keep (λ s. not (text_eq s.sn sn && not (s.id == id)))

-- One transaction: nothing is inserted on a cookie that is there already, live or not.
unfoldable pub insert_session :
    Bool → Bytes → Bytes → Bytes → Option Bytes → ℤ → Sessions → Sessions × Bool
insert_session history sn session_key cookie sig_raw now t =
    if any (λ s. text_eq s.cookie cookie) t
    then (t, false)
    else let id = suc (max_id (λ s. s.id) t) in
      let row : Session = record {
        id = id;
        sn = sn;
        session_key = session_key;
        cookie = cookie;
        sig_raw = sig_raw;
        created_ms = now;
        last_used_ms = none;
        revoked_ms = none;
      } in
      (if history then t ++ row ∷ [] else keep_only sn id (t ++ row ∷ []), true)

unfoldable pub is_live : Bytes → Session → Bool
is_live cookie s = text_eq s.cookie cookie && not (is_some s.revoked_ms)

abbrev pub owner : Option Session → Option (Bytes × ℤ)
owner none = none
owner (some s) = some (s.sn, s.created_ms)

-- The serial and the creation time of the live session with a cookie.
unfoldable pub find_session : Bytes → Sessions → Option (Bytes × ℤ)
find_session cookie t = owner (find_first (is_live cookie) t)

unfoldable pub touch_session : Bytes → ℤ → Sessions → Sessions
touch_session cookie now =
    map (λ s. if text_eq s.cookie cookie then record s { last_used_ms = some now } else s)

unfoldable pub revoke_session : Bytes → ℤ → Sessions → Sessions
revoke_session cookie now =
    map (λ s. if is_live cookie s then record s { revoked_ms = some now } else s)

-- `(created_ms, id)` of the second is above that of the first.
unfoldable pub is_newer : Session → Session → Bool
is_newer s other =
    ltb_ℤ s.created_ms other.created_ms || s.created_ms =ℤ other.created_ms && ltb s.id other.id

-- `ORDER BY created_ms DESC, id DESC LIMIT 1`
abbrev pub newest_session : Sessions → Option Session
newest_session = newest_by is_newer

abbrev pub key_of : Option Session → Option Bytes
key_of none = none
key_of (some s) = some s.session_key

unfoldable pub latest_session_key : Bytes → Sessions → Option Bytes
latest_session_key sn t =
    key_of (newest_session (keep (λ s. text_eq s.sn sn && not (is_some s.revoked_ms)) t))

-- A row goes when the same device has a newer one.
unfoldable pub prune_sessions_latest_only : Sessions → Sessions
prune_sessions_latest_only t =
    keep (λ s. not (any (λ newer. text_eq newer.sn s.sn && is_newer s newer) t)) t

-- `created_ms`, `last_used_ms`, `revoked_ms` and the length of the key are what the console shows.
unfoldable pub latest_session_summary : Bytes → Sessions → Option Session
latest_session_summary sn t = newest_session (keep (λ s. text_eq s.sn sn) t)
