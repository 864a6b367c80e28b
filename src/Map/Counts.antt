-- ===== src/Map/Counts.antt =====
-- The counts of a decoded grid, `histogram` and `summary` of src/map.rs.
use noobscenic.Prelude.{
  ℕ, zero, suc, ◌+◌, ◌%◌, ◌^◌, ◌<◌, Bytes, List, [], ◌∷◌, ◌==◌, length, set, get_or, replicate,
  if◌then◌else◌, not, ◌&&◌, ◌≡◌, refl, ap, ◌∙◌, arith, Bool-cases, inl, inr, length-set, ==_iff,
}
use noobscenic.Map.{DecodedMap, histogram, summary}

-- How many cells hold a value.
unfoldable pub count : ℕ → Bytes → ℕ
count c [] = 0
count c (x ∷ xs) = (if x == c then 1 else 0) + count c xs

-- How many hold a room label, none of the three documented values.
unfoldable pub count_labels : Bytes → ℕ
count_labels [] = 0
count_labels (x ∷ xs) =
    (if not (x == 0x00) && (not (x == 0x7f) && not (x == 0xff)) then 1 else 0) + count_labels xs

get_or-set :
    (h : List ℕ) (i c v : ℕ)
    → c < length h
    → get_or (set h i v) c 0 ≡ (if i == c then v else get_or h c 0)
get_or-set [] i c v l = absurd (omega arith)
get_or-set (x ∷ h) zero zero v l = refl
get_or-set (x ∷ h) zero (suc c) v l = ground arith
get_or-set (x ∷ h) (suc i) zero v l = ground arith
get_or-set (x ∷ h) (suc i) (suc c) v l = ground (arith, get_or-set h i c v)

pub get_or-histogram :
    (cells : Bytes) (h : List ℕ) (c : ℕ)
    → c < length h
    → get_or h c 0 + length cells < 2 ^ 32
    → get_or (histogram cells h) c 0 ≡ get_or h c 0 + count c cells
unfolding histogram count
get_or-histogram [] h c l b = omega arith
get_or-histogram (x ∷ xs) h c l b =
    let v = (get_or h x 0 + 1) % 2 ^ 32 in
    let here = get_or-set h x c v l in
    let rest = get_or-histogram xs (set h x v) c (omega (arith, length-set h x v)) in
    elim (Bool-cases (x == c)) [
      | inl e ↦
          let q = ap (λ n. get_or h n 0) ((==_iff x c).0 e) in
          let now : get_or (set h x v) c 0 ≡ get_or h c 0 + 1 =
            rw (e, if◌then◌else◌) at here ∙ omega arith in
          rw (e, if◌then◌else◌) (omega (arith, now, rest))
      | inr e ↦
          let now : get_or (set h x v) c 0 ≡ get_or h c 0 = rw (e, if◌then◌else◌) at here in
          rw (e, if◌then◌else◌) (omega (arith, now, rest))
    ]

every_cell :
    (cells : Bytes)
    → count 0x00 cells + count 0x7f cells + count 0xff cells + count_labels cells ≡ length cells
unfolding count count_labels
every_cell [] = refl
every_cell (x ∷ xs) = ground (arith, every_cell xs)

counted :
    (m : DecodedMap) (c : ℕ)
    → length m.cells < 2 ^ 32
    → m.histogram ≡ histogram m.cells (replicate 256 0)
    → c < 256
    → get_or {A = ℕ} (replicate 256 0) c 0 ≡ 0
    → get_or m.histogram c 0 ≡ count c m.cells
counted m c b e l z =
    let h = get_or-histogram m.cells (replicate 256 0) c l (omega arith) in
    let all = ap (λ t. get_or t c 0) e in omega arith

-- The numbers of a summary add up: of a grid below 2^32 cells that was decoded with its counts, each
-- of the three documented values is counted, and the labels are the cells that hold none of them.
pub summary_lem :
    (m : DecodedMap)
    → length m.cells < 2 ^ 32
    → m.histogram ≡ histogram m.cells (replicate 256 0)
    → let s = summary m in
      (s.wall ≡ count 0x00 m.cells)
      × (s.unknown ≡ count 0x7f m.cells)
      × (s.free ≡ count 0xff m.cells)
      × (s.labels ≡ count_labels m.cells)
      × (s.wall + s.unknown + s.free + s.labels ≡ s.cells)
unfolding summary
summary_lem m b e =
    let wall = counted m 0x00 b e (omega arith) refl in
    let unknown = counted m 0x7f b e (omega arith) refl in
    let free = counted m 0xff b e (omega arith) refl in
    let total = every_cell m.cells in (wall, unknown, free, omega arith, omega arith)
