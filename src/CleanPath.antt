-- ===== src/CleanPath.antt =====
-- Clean-path assembly, src/path.rs: the robot's path arrives in chunks, in any order.
pub mod Merge
pub mod Reassembly
pub mod Progress
pub mod Storage
use mathlib.Core.Option
use noobscenic.Prelude.{
  ℕ, zero, suc, ◌+◌, ◌-◌, ◌≤◌, max, ℤ, pos, negsuc, Bytes, Bool, true, false, List, [], ◌∷◌, ◌++◌,
  Option, none, some, codes, ltb, leb, length, get_elem?, set, replicate, unwrap_or, ◌>>=◌,
  if◌then◌else◌, is_some, ◌&&◌, not,
}
use noobscenic.Json
use noobscenic.Json.{Value}

-- One 21011 reply, over the type `P` of points.
pub record Chunk (P : Type 0) : Type 0 where
  pub path_id : ℤ
  pub start_pos : ℕ
  pub total_points : ℕ
  pub user_id : Option Bytes
  pub points : List P

-- `.max(0) as usize`
abbrev pub clamp : ℤ → ℕ
clamp (pos n) = n
clamp (negsuc n) = 0

-- `as_f64` is serde_json's, over its type of floating-point numbers.
module _ {F : Type 0} (as_f64 : Value → Option F) where
  -- The first two elements, where both are numbers.
  coordinates : List Value → Option (F × F)
  coordinates (x ∷ y ∷ _) = as_f64 x >>= λ a. as_f64 y >>= λ b. some (a, b)
  coordinates _ = none

  -- The entries of `posArray`; one that is no pair of numbers is skipped.
  parse_points : List Value → List (F × F)
  parse_points [] = []
  parse_points (pair ∷ pairs) =
      let rest = parse_points pairs in
      elim (Json.as_array pair >>= coordinates) [ none ↦ rest | some p ↦ p ∷ rest ]

  -- Every field has a default, so that no reply is refused.
  unfoldable pub parse : Value → Chunk (F × F)
  unfolding coordinates parse_points
  parse json = record {
    path_id = unwrap_or (pos 0) (Json.get (codes "pathID") json >>= Json.as_i64);
    start_pos = clamp (unwrap_or (pos 0) (Json.get (codes "startPos") json >>= Json.as_i64));
    total_points = clamp (unwrap_or (pos 0) (Json.get (codes "totalPoints") json >>= Json.as_i64));
    user_id = Json.get (codes "userId") json >>= Json.as_str;
    points = parse_points (unwrap_or [] (Json.get (codes "posArray") json >>= Json.as_array));
  }

-- `points[i]` is filled once a chunk that covers point `i` has arrived.
abbrev pub Assembly : Type 0 → Type 0
Assembly P = List (Option P)

module _ {P : Type 0} where
  -- `Vec::resize` to a longer length.
  unfoldable pub grow : Assembly P → ℕ → Assembly P
  grow a needed = if ltb (length a) needed then a ++ replicate (needed - length a) none else a

  -- The loop of `merge`, from the slot of the first point: the slots, and how many were empty.
  unfoldable pub fill : ℕ → List P → Assembly P → ℕ → Assembly P × ℕ
  fill slot [] a filled = (a, filled)
  fill slot (p ∷ ps) a filled = fill (suc slot) ps (set a slot (some p)) (elim (get_elem? a slot) [
    | none ↦ filled
    | some entry ↦ if is_some entry then filled else filled + 1
  ])

  abbrev pub needed : Chunk P → ℕ
  needed c = max (c.start_pos + length c.points) c.total_points

  unfoldable pub merge : Assembly P → Chunk P → Assembly P × ℕ
  unfolding grow fill
  merge a c = fill c.start_pos c.points (grow a (needed c)) 0

  -- How many slots hold a point.
  unfoldable pub count_filled : Assembly P → ℕ
  count_filled [] = 0
  count_filled (entry ∷ a) = (if is_some entry then 1 else 0) + count_filled a

  -- The first empty slot, or the end.
  unfoldable pub next_index : Assembly P → ℕ
  next_index [] = 0
  next_index (none ∷ a) = 0
  next_index (some p ∷ a) = suc (next_index a)

  all_some : Assembly P → Bool
  all_some [] = true
  all_some (entry ∷ a) = is_some entry && all_some a

  is_empty : Assembly P → Bool
  is_empty [] = true
  is_empty (entry ∷ a) = false

  unfoldable pub is_complete : Assembly P → Bool
  unfolding all_some is_empty
  is_complete a = not (is_empty a) && all_some a

  -- The point in slot `i`, where there is one.
  unfoldable pub point_at : Assembly P → ℕ → Option P
  point_at a i = get_elem? a i >>= λ entry. entry

  -- The point that a chunk brings for slot `i`.
  unfoldable pub chunk_at : Chunk P → ℕ → Option P
  chunk_at c i = if leb c.start_pos i then get_elem? c.points (i - c.start_pos) else none
