-- ===== src/Web/Recovery/Recovered.antt =====
-- What the recovery of the accounts leaves, of src/web.rs.
use noobscenic.Prelude.{
  ℤ, Bytes, Bool, true, false, Option, none, some, ◌≡◌, [], find_first, find_first,
}
use noobscenic.Json.{Value}
use noobscenic.Db.Devices.{Devices}
use noobscenic.Db.Events.{Events, bind_events}
use noobscenic.Web.Recovery.{latest_binds, recover_bind_ids}
use noobscenic.Web.Recovery.Newest.{last_bind}
use noobscenic.Web.Recovery.Rows.{accounts, recover_all, unbound-recovered, recover-none}

-- What a bind or an unbind says of the account: a bind with an account gives it, with its time.
abbrev pub granted : Bool → Option Bytes → ℤ → Option (Bytes × ℤ)
granted true (some user) received_ms = some (user, received_ms)
granted true none received_ms = none
granted false user received_ms = none

module _ (from_str : Bytes → Option Value) (lossy : Bytes → Bytes) where
  -- The account that the stored events give a device: that of its newest bind or unbind, if that
  -- is a bind with an account.
  abbrev pub known_account : Events → Bytes → Option (Bytes × ℤ)
  known_account events sn = elim (last_bind from_str lossy sn (bind_events events)) [
    | none ↦ none
    | some b ↦ granted b.is_bound b.user b.received_ms
  ]

  -- A second recovery from the same events finds nothing to do: no device is recovered and none
  -- changes.
  pub recover_bind_ids_idem :
      (events : Events) (d : Devices)
      → let once = (recover_bind_ids from_str lossy events d).0 in
        recover_bind_ids from_str lossy events once ≡ (once, 0)
  unfolding recover_bind_ids
  recover_bind_ids_idem events d =
      let l = latest_binds from_str lossy (bind_events events) [] in
      let all = unbound-recovered (accounts l) d in recover-none _ l _ (rw (recover_all l d) all)
