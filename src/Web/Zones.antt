-- ===== src/Web/Zones.antt =====
-- The check of an edited zone list before it reaches the robot: `validate_zones` of src/web.rs.
pub mod Safe
use noobscenic.Prelude.{
  ℕ, zero, suc, ◌+◌, ◌-◌, ◌%◌, ◌^◌, ℤ, pos, negsuc, ◌+ℤ◌, ◌-ℤ◌, ◌*ℤ◌, ◌=ℤ◌, ltb_ℤ, Bytes, Bool,
  true, false, List, [], ◌∷◌, Option, none, some, codes, ltb, ◌==◌, ◌&&◌, ◌||◌, length, map,
  if◌then◌else◌, Result, and_then, ok_or, ◌>>=◌,
}
use noobscenic.Json
use noobscenic.Json.{Value, Items, Fields, nil, cons, find}
use noobscenic.Web.Text.{cap_bytes}
use noobscenic.Web.Fields.{insert}

-- A vertex, in millimetres.
abbrev pub Point : Type 0
Point = ℤ × ℤ

-- The refusals, with the index of the region.
pub data ZoneError : Type 0 where
  not_array : ZoneError
  not_object missing_vertexs not_pair not_integers few_vertices collapsed : ℕ → ZoneError
  thin : ℕ → ℤ → ℤ → ZoneError

-- `as i64` of a difference: the release build wraps around.
unfoldable pub wrap_i64 : ℤ → ℤ
wrap_i64 (pos n) = let m = n % 2 ^ 64 in if ltb m (2 ^ 63) then pos m else negsuc (2 ^ 64 - m - 1)
wrap_i64 (negsuc n) =
    let m = n % 2 ^ 64 in if ltb m (2 ^ 63) then negsuc m else pos (2 ^ 64 - m - 1)

-- The sum that an `i128` holds modulo 2^128 is zero.
unfoldable pub is_zero_i128 : ℤ → Bool
is_zero_i128 (pos n) = n % 2 ^ 128 == 0
is_zero_i128 (negsuc n) = suc n % 2 ^ 128 == 0

abbrev pub cross : Point → Point → ℤ
cross p q = p.0 *ℤ q.1 -ℤ q.0 *ℤ p.1

-- The sum over the edges, from a point to the next and from the last to `first`.
unfoldable pub edges : Point → List Point → ℤ
edges first [] = pos 0
edges first (p ∷ []) = cross p first
edges first (p ∷ q ∷ rest) = cross p q +ℤ edges first (q ∷ rest)

unfoldable pub polygon_area : List Point → ℤ
polygon_area [] = pos 0
polygon_area (p ∷ ps) = edges p (p ∷ ps)

-- One of the three string members, cut to the robot's buffer.
unfoldable pub cap_field : Bytes → ℕ → Fields → Fields → Fields
cap_field key limit object normalized = elim (find key object >>= Json.as_str) [
  | none ↦ normalized
  | some text ↦
      if length (cap_bytes text limit) == length text
      then normalized
      else insert key (Value.str (cap_bytes text limit)) normalized
]

-- The loop over the three.
unfoldable pub cap_fields : Fields → Fields
cap_fields object =
    cap_field (codes "mode") 30 object
      (cap_field (codes "tag") 31 object (cap_field (codes "name") 31 object object))

-- `[x, y]` with both integers.
unfoldable pub vertex_of : ℕ → Value → Result Point ZoneError
vertex_of index v = elim (Json.as_array v) [
  | some (x ∷ y ∷ []) ↦
      ok_or (ZoneError.not_integers index)
        (Json.as_i64 x >>= λ a. Json.as_i64 y >>= λ b. some (a, b))
  | _ ↦ Result.err (ZoneError.not_pair index)
]

abbrev pub same_point : Option Point → Point → Bool
same_point none p = false
same_point (some q) p = q.0 =ℤ p.0 && q.1 =ℤ p.1

-- The vertices, but for those that repeat the one in front, which is `last`.
unfoldable pub vertices : ℕ → Option Point → List Value → Result (List Point) ZoneError
vertices index last [] = Result.ok []
vertices index last (v ∷ vs) = and_then (vertex_of index v) λ p.
    and_then (vertices index (some p) vs)
      λ rest. Result.ok (if same_point last p then rest else p ∷ rest)

-- `iter().max()` and `iter().min()` of a list that is not empty.
unfoldable pub max_of : ℤ → List ℤ → ℤ
max_of m [] = m
max_of m (x ∷ xs) = max_of (if ltb_ℤ m x then x else m) xs

unfoldable pub min_of : ℤ → List ℤ → ℤ
min_of m [] = m
min_of m (x ∷ xs) = min_of (if ltb_ℤ x m then x else m) xs

unfoldable pub span : List ℤ → ℤ
span [] = pos 0
span (x ∷ xs) = wrap_i64 (max_of x xs -ℤ min_of x xs)

-- `json!([x, y])` for each vertex.
abbrev pub to_items : List Point → Items
to_items [] = nil
to_items (p ∷ ps) = cons (Value.arr (cons (Value.int p.0) (cons (Value.int p.1) nil))) (to_items ps)

-- The tests on the vertices of a region.
unfoldable pub check_polygon : ℕ → List Point → Result (List Point) ZoneError
check_polygon index points =
    if ltb (length points) 3
    then Result.err (ZoneError.few_vertices index)
    else if is_zero_i128 (polygon_area points)
    then Result.err (ZoneError.collapsed index)
    else let span_x = span (map (λ p. p.0) points) in
      let span_y = span (map (λ p. p.1) points) in
      if ltb_ℤ span_x (pos 100) || ltb_ℤ span_y (pos 100)
      then Result.err (ZoneError.thin index span_x span_y)
      else Result.ok points

-- One turn of the loop.
unfoldable pub validate_region : ℕ → Value → Result Value ZoneError
unfolding check_polygon vertices cap_fields
validate_region index region =
    and_then (ok_or (ZoneError.not_object index) (Json.as_object region)) λ object.
      and_then
        (ok_or (ZoneError.missing_vertexs index) (find (codes "vertexs") object >>= Json.as_array))
        λ vs. and_then (vertices index none vs) λ points.
          and_then (check_polygon index points) λ checked. Result.ok (
            Value.obj (insert (codes "vertexs") (Value.arr (to_items checked)) (cap_fields object)))

unfoldable pub validate_from : ℕ → List Value → Result (List Value) ZoneError
unfolding validate_region
validate_from index [] = Result.ok []
validate_from index (region ∷ regions) =
    and_then (validate_region index region)
      λ v. and_then (validate_from (suc index) regions) λ rest. Result.ok (v ∷ rest)

unfoldable pub validate_zones : Value → Result (List Value) ZoneError
unfolding validate_from
validate_zones value =
    and_then (ok_or ZoneError.not_array (Json.as_array value)) λ regions. validate_from 0 regions
