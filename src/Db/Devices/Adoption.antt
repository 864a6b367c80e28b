-- ===== src/Db/Devices/Adoption.antt =====
-- What the statements on the `devices` table of src/db/queries.rs do to each row.
use native.Mathlib.Omega.{arith}
use noobscenic.Prelude.{
  ℤ, Bytes, Bool, true, false, Option, none, some, or_else, text_eq, text_iff, text_refl,
  if◌then◌else◌, ◌≡◌, refl, ap, ◌∙◌, ◌≢◌,
}
use noobscenic.Db.Rows.{update_where}
use noobscenic.Db.Rows.Laws.{
  upserted, updated, find-upsert, find-upsert_other, find-update, find-update_other,
}
use noobscenic.Db.Devices.{
  BindState, bound, unbound, Device, Devices, is_device, adopted, upsert_device_seen, state_of,
  find_device, bind_state_of, record_bind, transition,
}

differs : (a b c : Bytes) → text_eq a b ≡ true → b ≢ c → text_eq a c ≡ false
differs a b c h n = ground (arith, text_iff a b, text_iff a c)

-- The row of a serial after it was seen, from the row before.
unfoldable pub seen : Bytes → Option Bytes → ℤ → Option Device → Device
seen sn ld_sn now none = record (adopted sn now) { ld_sn = ld_sn }
seen sn ld_sn now (some d) = record d { ld_sn = or_else ld_sn d.ld_sn; last_seen_ms = now }

-- Adopting a device never clobbers what is known. An unknown serial gets an unbound row labelled with the
-- serial; a known one keeps its row but for the time it was last seen and for an `ld_sn` that is given;
-- no other device's row changes.
pub upsert_device_seen_lem :
    (sn : Bytes) (ld_sn : Option Bytes) (now : ℤ) (t : Devices)
    → (find_device sn (upsert_device_seen sn ld_sn now t)
        ≡ some (seen sn ld_sn now (find_device sn t)))
      × ((k : Bytes) → sn ≢ k → find_device k (upsert_device_seen sn ld_sn now t) ≡ find_device k t)
unfolding upsert_device_seen upserted seen
upsert_device_seen_lem sn ld_sn now t = (
  find-upsert (is_device sn) _ _ (λ d. refl) (text_refl sn) t
      ∙ ap some (same_row (find_device sn t)),
  λ k h.
      find-upsert_other (is_device sn) _ (is_device k) (λ d e. differs d.sn sn k e h)
        (λ d e. differs d.sn sn k e h) _ (differs sn sn k (text_refl sn) h) t,
)
  where
    same_row :
        (o : Option Device)
        → upserted
            (λ d. record d { ld_sn = or_else ld_sn d.ld_sn; last_seen_ms = now })
            (record (adopted sn now) { ld_sn = ld_sn })
            o
          ≡ seen sn ld_sn now o
    same_row none = refl
    same_row (some d) = refl

bound_by :
    (b : BindState) (sn : Bytes) (f : Device → Device) (now : ℤ) (t : Devices)
    → ((d : Device) → (f d).sn ≡ d.sn)
    → ((d : Device) → (f d).bind_state ≡ b)
    → bind_state_of sn (update_where (is_device sn) f (upsert_device_seen sn none now t)) ≡ some b
unfolding bind_state_of updated
bound_by b sn f now t same sets =
    ap state_of (
      find-update (is_device sn) f (λ d. ap (λ x. text_eq x sn) (same d))
        (upsert_device_seen sn none now t)
      ∙ ap (updated f) (upsert_device_seen_lem sn none now t).0)
    ∙ ap some (sets _)

-- A bind or an unbind ends in its state from whatever state the device was in, known before or
-- not, and no row of another device changes.
pub bind_state-transition :
    (sn : Bytes) (bind : Bool) (user_id : Option Bytes) (now : ℤ) (t : Devices)
    → (bind_state_of sn (transition sn bind user_id now t) ≡ some (if bind then bound else unbound))
      × ((k : Bytes) → sn ≢ k → find_device k (transition sn bind user_id now t) ≡ find_device k t)
unfolding transition bind_state_of record_bind
bind_state-transition sn true user_id now t = (
  bound_by bound sn _ now t (λ d. refl) (λ d. refl),
  λ k h.
      find-update_other (is_device sn) _ (is_device k) (λ d e. differs d.sn sn k e h)
        (λ d e. differs d.sn sn k e h) _
      ∙ (upsert_device_seen_lem sn none now t).1 k h,
)
bind_state-transition sn false user_id now t = (
  bound_by unbound sn _ now t (λ d. refl) (λ d. refl),
  λ k h.
      find-update_other (is_device sn) _ (is_device k) (λ d e. differs d.sn sn k e h)
        (λ d e. differs d.sn sn k e h) _
      ∙ (upsert_device_seen_lem sn none now t).1 k h,
)
