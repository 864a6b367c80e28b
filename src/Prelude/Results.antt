-- ===== src/Prelude/Results.antt =====
-- Rust's `Result`, with `?` as the bind and the error behind the value.
use mathlib.Core.Path.{◌≡◌, refl}
use mathlib.Core.Option.{Option, none, some}
use mathlib.Core.Logic.{◌⊎◌, inl, inr}

pub data Result {ℓ κ} (A : Type ℓ) (E : Type κ) : Type (ℓ ⊔ κ) where
  ok : A → Result A E
  err : E → Result A E

-- `?`
abbrev pub and_then {ℓ κ μ} :
    {A : Type ℓ} {E : Type κ} {B : Type μ} → Result A E → (A → Result B E) → Result B E
and_then (Result.ok a) f = f a
and_then (Result.err e) f = Result.err e

-- `ok_or_else`
abbrev pub ok_or {ℓ κ} : {A : Type ℓ} {E : Type κ} → E → Option A → Result A E
ok_or e none = Result.err e
ok_or e (some a) = Result.ok a

-- A chain of `?` that returns a value.
pub and_then-ok {ℓ κ μ} :
    {A : Type ℓ} {E : Type κ} {B : Type μ} (r : Result A E) (f : A → Result B E) (b : B)
    → and_then r f ≡ Result.ok b
    → (a : A) × (r ≡ Result.ok a) × (f a ≡ Result.ok b)
and_then-ok (Result.ok a) f b h = (a, refl, h)
and_then-ok (Result.err e) f b h = absurd (cc)

pub ok_or-ok {ℓ κ} :
    {A : Type ℓ} {E : Type κ} (e : E) (o : Option A) (a : A) → ok_or e o ≡ Result.ok a → o ≡ some a
ok_or-ok e none a h = absurd (cc)
ok_or-ok e (some b) a h = cc

-- To split on a computed result and keep the equation.
pub Result-cases {ℓ κ} :
    {A : Type ℓ} {E : Type κ} (r : Result A E)
    → ((a : A) × (r ≡ Result.ok a)) ⊎ ((e : E) × (r ≡ Result.err e))
Result-cases (Result.ok a) = inl (a, refl)
Result-cases (Result.err e) = inr (e, refl)
