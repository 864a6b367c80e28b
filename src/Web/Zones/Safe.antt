-- ===== src/Web/Zones/Safe.antt =====
-- What a zone list that `validate_zones` of src/web.rs accepts is like.
use noobscenic.Prelude.{
  ℕ, suc, ◌≤◌, pos, ◌≤ℤ◌, Bytes, false, List, [], ◌∷◌, Option, none, some, codes, ◌==◌, length, map,
  if◌then◌else◌, Result, ok_or, and_then-ok, ok_or-ok, Bool-cases, Option-cases, inl, inr, ◌>>=◌,
  ◌≡◌, ◌≢◌, refl, ap, ◌∙◌, arith, All, ==_iff, unwrap_or, text_eq, text_iff, subst,
}
use noobscenic.Json
use noobscenic.Json.{Value, Fields, find}
use noobscenic.Web.Text.{cap_bytes, cap_bytes-IsCap}
use noobscenic.Web.Fields.{insert, find-insert_self, find-insert_other}
use noobscenic.Web.Zones.{
  ZoneError, Point, polygon_area, is_zero_i128, span, to_items, cap_field, cap_fields, vertices,
  check_polygon, validate_region, validate_from, validate_zones,
}

-- A string member fits in the robot's buffer.
unfoldable pub Fits : Bytes → ℕ → Fields → Type 0
Fits key limit fs = (text : Bytes) → (find key fs >>= Json.as_str) ≡ some text → length text ≤ limit

-- A polygon that does not collapse: three vertices, an area, and 100 mm in each direction.
pub record IsPolygon (ps : List Point) : Type 0 where
  pub corners : 3 ≤ length ps
  pub area : is_zero_i128 (polygon_area ps) ≡ false
  pub wide : pos 100 ≤ℤ span (map (λ p. p.0) ps)
  pub high : pos 100 ≤ℤ span (map (λ p. p.1) ps)

pub record IsSafe (v : Value) : Type 0 where
  pub fields : Fields
  pub object : v ≡ Value.obj fields
  pub name : Fits (codes "name") 31 fields
  pub tag : Fits (codes "tag") 31 fields
  pub mode : Fits (codes "mode") 30 fields
  pub corners : List Point
  pub outline : find (codes "vertexs") fields ≡ some (Value.arr (to_items corners))
  pub polygon : IsPolygon corners

check_polygon-ok :
    (index : ℕ) (ps qs : List Point)
    → check_polygon index ps ≡ Result.ok qs
    → (ps ≡ qs) × IsPolygon ps
unfolding check_polygon
check_polygon-ok index ps qs q = (
  ground arith,
  record { corners = ground arith; area = ground arith; wide = ground arith; high = ground arith },
)

clash : {text : Bytes} → ◌≡◌ {A = Option Bytes} none (some text) → ⊥
clash e = cc

cap_field-Fits :
    (key : Bytes) (limit : ℕ) (object fs : Fields)
    → find key fs ≡ find key object
    → Fits key limit (cap_field key limit object fs)
unfolding cap_field Fits Json.as_str
cap_field-Fits key limit object fs same text e =
    elim (Option-cases (find key object >>= Json.as_str)) [
      | inl gone ↦ absurd (clash (rw (cap_field, gone, same, gone) at e))
      | inr (old, o) ↦ elim (Bool-cases (length (cap_bytes old limit) == length old)) [
        | inl k ↦
            let there : some old ≡ some text = rw (cap_field, o, k, if◌then◌else◌, same, o) at e in
            let cap = (cap_bytes-IsCap old limit).within in
            let len = (==_iff (length (cap_bytes old limit)) (length old)).0 k in
            let same_length = ap (λ (t : Option Bytes). length (unwrap_or [] t)) there in
            omega arith
        | inr k ↦
            let there : some (cap_bytes old limit) ≡ some text =
              rw
                (
                  cap_field,
                  o,
                  k,
                  if◌then◌else◌,
                  find-insert_self key (Value.str (cap_bytes old limit)) fs,
                )
                at e in
            let cap = (cap_bytes-IsCap old limit).within in
            let same_length = ap (λ (t : Option Bytes). length (unwrap_or [] t)) there in
            omega arith
      ]
    ]

same-Fits :
    (key : Bytes) (limit : ℕ) (fs gs : Fields)
    → find key fs ≡ find key gs
    → Fits key limit gs
    → Fits key limit fs
unfolding Fits
same-Fits key limit fs gs same h text e = h text (rw same at e)

apart : (a b : Bytes) → text_eq a b ≡ false → a ≢ b
apart a b n e = absurd (ground (arith, text_iff a b))

cap_field_other :
    (key other : Bytes) (limit : ℕ) (object fs : Fields)
    → key ≢ other
    → find other (cap_field key limit object fs) ≡ find other fs
unfolding cap_field
cap_field_other key other limit object fs n =
    elim (Option-cases (find key object >>= Json.as_str)) [
      | inl gone ↦ rw (cap_field, gone) refl
      | inr (old, o) ↦
          rw (cap_field, o)
            (elim (Bool-cases (length (cap_bytes old limit) == length old)) [
              | inl e ↦ rw (e, if◌then◌else◌) refl
              | inr e ↦ rw (e, if◌then◌else◌) (find-insert_other key other _ fs n)
            ])
    ]

cap_fields-Fits :
    (object : Fields)
    → Fits (codes "name") 31 (cap_fields object)
      × Fits (codes "tag") 31 (cap_fields object)
      × Fits (codes "mode") 30 (cap_fields object)
unfolding cap_fields text_eq
cap_fields-Fits object =
    let named = cap_field (codes "name") 31 object object in
    let tagged = cap_field (codes "tag") 31 object named in
    let not_mode = λ (key : Bytes) (n : codes "mode" ≢ key).
      cap_field_other (codes "mode") key 30 object tagged n in
    (
      same-Fits (codes "name") 31 _ named
          (not_mode (codes "name") (apart _ _ refl)
            ∙ cap_field_other (codes "tag") (codes "name") 31 object named (apart _ _ refl))
          (cap_field-Fits (codes "name") 31 object object refl),
      same-Fits (codes "tag") 31 _ tagged (not_mode (codes "tag") (apart _ _ refl)) (
          cap_field-Fits (codes "tag") 31 object named
            (cap_field_other (codes "name") (codes "tag") 31 object object (apart _ _ refl))),
      cap_field-Fits (codes "mode") 30 object tagged (
          cap_field_other (codes "tag") (codes "mode") 31 object named (apart _ _ refl)
          ∙ cap_field_other (codes "name") (codes "mode") 31 object object (apart _ _ refl)),
    )

region-IsSafe :
    (index : ℕ) (region v : Value) → validate_region index region ≡ Result.ok v → IsSafe v
unfolding validate_region
region-IsSafe index region v q =
    let (object, a, q1) =
      and_then-ok (ok_or (ZoneError.not_object index) (Json.as_object region)) _ v q in
    let (vs, b, q2) =
      and_then-ok
        (ok_or (ZoneError.missing_vertexs index) (find (codes "vertexs") object >>= Json.as_array))
        _ v q1 in
    let (points, c, q3) = and_then-ok (vertices index none vs) _ v q2 in
    let (checked, d, q4) = and_then-ok (check_polygon index points) _ v q3 in
    let kept = cap_fields-Fits object in
    let outer = λ (key : Bytes) (n : codes "vertexs" ≢ key).
      find-insert_other (codes "vertexs") key (Value.arr (to_items checked)) (cap_fields object)
        n in
    let poly = check_polygon-ok index points checked d in
    record {
      fields = insert (codes "vertexs") (Value.arr (to_items checked)) (cap_fields object);
      object = ok_value q4;
      name =
          same-Fits (codes "name") 31 _ _
            (outer (codes "name") (apart _ _ (unfold text_eq in refl))) kept.0;
      tag =
          same-Fits (codes "tag") 31 _ _ (outer (codes "tag") (apart _ _ (unfold text_eq in refl)))
            kept.1;
      mode =
          same-Fits (codes "mode") 30 _ _
            (outer (codes "mode") (apart _ _ (unfold text_eq in refl))) kept.2;
      corners = checked;
      outline =
          find-insert_self (codes "vertexs") (Value.arr (to_items checked)) (cap_fields object);
      polygon = subst IsPolygon poly.0 poly.1;
    }
  where
    ok_value : {x y : Value} → ◌≡◌ {A = Result Value ZoneError} (Result.ok x) (Result.ok y) → y ≡ x
    ok_value e = cc

-- Every region of a zone list that is accepted for the robot is safe for it: its name and tag fit in
-- 31 bytes and its mode in 30, and its outline is a polygon with three vertices, with an area and
-- with 100 mm of extent in both directions. There is one for each region of the edited list.
pub validate_zones-AllSafe :
    (value : Value) (zones : List Value)
    → validate_zones value ≡ Result.ok zones
    → All IsSafe zones × (length zones ≡ length (unwrap_or [] (Json.as_array value)))
unfolding validate_zones validate_from
validate_zones-AllSafe value zones q =
    let (regions, a, q1) =
      and_then-ok (ok_or ZoneError.not_array (Json.as_array value)) _ zones q in
    let array = ok_or-ok ZoneError.not_array (Json.as_array value) regions a in
    rw array (all 0 regions zones q1)
  where
    value_of :
        {x y : List Value}
        → ◌≡◌ {A = Result (List Value) ZoneError} (Result.ok x) (Result.ok y)
        → x ≡ y
    value_of e = cc

    all :
        (index : ℕ) (regions zones : List Value)
        → validate_from index regions ≡ Result.ok zones
        → All IsSafe zones × (length zones ≡ length regions)
    all index [] zones q = subst (λ z. All IsSafe z × (length z ≡ 0)) (value_of q) (tt, refl)
    all index (region ∷ regions) zones q =
        let (v, b, q1) = and_then-ok (validate_region index region) _ zones q in
        let (rest, c, q2) = and_then-ok (validate_from (suc index) regions) _ zones q1 in
        let go = all (suc index) regions rest c in
        subst (λ z. All IsSafe z × (length z ≡ suc (length regions))) (value_of q2)
          ((region-IsSafe index region v b, go.0), ap suc go.1)
