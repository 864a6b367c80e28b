-- ===== src/Db/Commands/Claims.antt =====
-- Handing out the pending commands of a device, once: src/db/queries.rs.
use native.Mathlib.Omega.{arith}
use noobscenic.Prelude.{
  inl, inr, ℤ, Bytes, Bool, true, false, [], ◌∷◌, some, keep, map, not, ◌≡◌, refl, ap,
  if◌then◌else◌, Bool-cases, text_eq,
}
use noobscenic.Db.Commands.{
  sent, Row, Table, is_state, update, is_claimable, claim_commands, queued,
}

keep-update :
    (p q : Row → Bool) (f : Row → Row)
    → ((r : Row) → p r ≡ true → q (f r) ≡ false)
    → ((r : Row) → p r ≡ false → q r ≡ false)
    → (t : Table) → keep q (update p f t) ≡ []
unfolding keep
keep-update p q f hit miss [] = refl
keep-update p q f hit miss (r ∷ t) =
    let rest = keep-update p q f hit miss t in
    elim (Bool-cases (p r)) [
      | inl e ↦ rw (e, if◌then◌else◌, hit r e) rest
      | inr e ↦ rw (e, if◌then◌else◌, miss r e) rest
    ]

-- What is claimed once is not claimed again: a second claim for the same device, at any time, on the table that the first one left, hands out nothing.
pub claim-claim :
    (sn : Bytes) (now later : ℤ) (t : Table)
    → (claim_commands sn later (claim_commands sn now t).0).1 ≡ []
unfolding claim_commands is_claimable is_state
claim-claim sn now later t = ap (map queued) (
    keep-update (is_claimable sn) (is_claimable sn)
      (λ r. record r { state = sent; sent_ms = some now }) (λ r e. ground arith) (λ r e. e) t)

untouched :
    (p q : Row → Bool) (f : Row → Row)
    → ((r : Row) → p r ≡ true → q (f r) ≡ false)
    → ((r : Row) → p r ≡ true → q r ≡ false)
    → (t : Table) → keep q (update p f t) ≡ keep q t
unfolding keep
untouched p q f hit here [] = refl
untouched p q f hit here (r ∷ t) =
    let rest = untouched p q f hit here t in
    elim (Bool-cases (p r)) [
      | inl e ↦ rw (e, if◌then◌else◌, hit r e, here r e) rest
      | inr e ↦ rw (e, if◌then◌else◌, rest) refl
    ]

-- A claim for one device leaves the rows of every other device as they are, in their order.
pub claim_keeps_others :
    (sn : Bytes) (now : ℤ) (t : Table)
    → keep (λ r. not (text_eq r.sn sn)) (claim_commands sn now t).0
      ≡ keep (λ r. not (text_eq r.sn sn)) t
unfolding claim_commands is_claimable is_state
claim_keeps_others sn now t =
    untouched (is_claimable sn) _ _ (λ r e. ground arith) (λ r e. ground arith) t
