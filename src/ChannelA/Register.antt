-- ===== src/ChannelA/Register.antt =====
-- `POST /cleanPack/register`: src/channel_a/handlers/register.rs and `mint` of src/session.rs.
pub mod Login
use noobscenic.Prelude.{
  ℕ, zero, suc, ◌/◌, ◌%◌, ◌+◌, ltb, ℤ, Bytes, Bool, true, false, List, [], ◌∷◌, ◌++◌, Option, none,
  some, ◌==◌, ◌&&◌, not, if◌then◌else◌, length, ◌≡◌, refl,
}
use noobscenic.Db.Sessions.{Sessions, insert_session}
use noobscenic.Db.Devices.{Devices, device_exists, upsert_device_seen}

pub record Minted : Type 0 where
  pub session_key : Bytes
  pub cookie : Bytes

-- `{byte:02x}`
abbrev pub digit : ℕ → ℕ
digit n = if ltb n 10 then 48 + n else 87 + n

unfoldable pub hex_of : Bytes → Bytes
hex_of [] = []
hex_of (byte ∷ bytes) = digit (byte / 16) ∷ digit (byte % 16) ∷ hex_of bytes

-- `random_hex(16)` twice, on what `rand::fill` wrote.
abbrev pub mint : Bytes × Bytes → Minted
mint (key, sid) = record { session_key = hex_of key; cookie = hex_of sid }

pub data Response : Type 0 where
  -- `code:0` without a session
  plain : Response
  -- `code:212`
  auth_failed : Response
  -- `code:0` with the session and the cookie
  minted : Minted → Response

-- The loop over the attempts, on what `rand::fill` writes at each of them.
unfoldable pub attempts :
    Bool → Bytes → Option Bytes → ℤ → List (Bytes × Bytes) → Sessions → Sessions × Response
attempts history sn sig now [] t = (t, plain)
attempts history sn sig now (random ∷ more) t =
    let m = mint random in
    let inserted = insert_session history sn m.session_key m.cookie sig now t in
    if inserted.1 then (inserted.0, minted m) else attempts history sn sig now more inserted.0

-- The fields of the form: `sn` (empty where there is none), `ld_sn` and `sig`. `random` is what
-- `rand::fill` writes at each of the five attempts.
unfoldable pub register :
    Bool
    → Bool
    → Bytes
    → Option Bytes
    → Option Bytes
    → ℤ
    → List (Bytes × Bytes)
    → Devices × Sessions
    → (Devices × Sessions) × Response
register history accept_all sn ld_sn sig now random (d, t) =
    if length sn == 0
    then ((d, t), plain)
    else if not accept_all && not (device_exists sn d)
    then ((d, t), auth_failed)
    else let done = attempts history sn sig now random t in
      ((upsert_device_seen sn ld_sn now d, done.0), done.1)
