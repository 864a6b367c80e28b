-- ===== src/Backup/LittleEndian.antt =====
-- `u32::to_le_bytes` and `u32::from_le_bytes`.
use noobscenic.Prelude.{
  ℕ, ◌+◌, ◌*◌, ◌/◌, ◌%◌, ◌^◌, ◌<◌, ◌≡◌, zero, suc, Bytes, [], ◌∷◌, arith, refl, take, drop, All,
  length,
}

unfoldable pub to_le_bytes : ℕ → Bytes
to_le_bytes n = n % 256 ∷ n / 2 ^ 8 % 256 ∷ n / 2 ^ 16 % 256 ∷ n / 2 ^ 24 % 256 ∷ []

-- On four bytes; the callers pass no other slice.
unfoldable pub from_le_bytes : Bytes → ℕ
from_le_bytes [] = 0
from_le_bytes (b ∷ bs) = b + 256 * from_le_bytes bs

pub from-to_le_bytes : (n : ℕ) → n < 2 ^ 32 → from_le_bytes (to_le_bytes n) ≡ n
unfolding to_le_bytes from_le_bytes
from-to_le_bytes n h = omega arith

abbrev pub IsByte : ℕ → Type 0
IsByte b = b < 256

pub to-from_le_bytes : (b : Bytes) → length b ≡ 4 → All IsByte b → to_le_bytes (from_le_bytes b) ≡ b
unfolding to_le_bytes from_le_bytes
to-from_le_bytes (a ∷ b ∷ c ∷ d ∷ []) l h = ground arith
to-from_le_bytes _ l h = absurd (omega arith)

pub length-to_le_bytes : (n : ℕ) → length (to_le_bytes n) ≡ 4
unfolding to_le_bytes
length-to_le_bytes n = refl

pub All-take : (n : ℕ) (b : Bytes) → All IsByte b → All IsByte (take n b)
All-take zero b h = tt
All-take (suc n) [] h = tt
All-take (suc n) (x ∷ b) h = (h.0, All-take n b h.1)

pub All-drop : (n : ℕ) (b : Bytes) → All IsByte b → All IsByte (drop n b)
All-drop zero b h = h
All-drop (suc n) [] h = tt
All-drop (suc n) (x ∷ b) h = All-drop n b h.1

pub from_le_bytes-lt : (b : Bytes) → length b ≡ 4 → All IsByte b → from_le_bytes b < 2 ^ 32
unfolding from_le_bytes
from_le_bytes-lt (a ∷ b ∷ c ∷ d ∷ []) l h = omega arith
from_le_bytes-lt _ l h = absurd (omega arith)
