-- ===== src/Web/Fields.antt =====
-- `serde_json::Map::insert`, over members in key order.
use noobscenic.Prelude.{
  Bytes, false, some, text_eq, text_refl, text_iff, if◌then◌else◌, ◌≡◌, ◌≢◌, refl, sym, ◌∙◌, arith,
  Bool-cases, inl, inr,
}
use noobscenic.Json.{Value, Fields, end, field, find}
use noobscenic.Db.Commands.{text_lt}

unfoldable pub insert : Bytes → Value → Fields → Fields
insert key v end = field key v end
insert key v (field k w fs) =
    let rest = insert key v fs in
    if text_eq k key
    then field key v fs
    else if text_lt key k
    then field key v (field k w fs)
    else field k w rest

pub find-insert_self : (key : Bytes) (v : Value) (fs : Fields) → find key (insert key v fs) ≡ some v
unfolding insert find
find-insert_self key v end = rw (text_refl key, if◌then◌else◌) refl
find-insert_self key v (field k w fs) =
    let rest = find-insert_self key v fs in
    elim (Bool-cases (text_eq k key)) [
      | inl e ↦ rw (e, if◌then◌else◌, text_refl key, if◌then◌else◌) refl
      | inr e ↦ elim (Bool-cases (text_lt key k)) [
        | inl f ↦ rw (e, f, if◌then◌else◌, text_refl key, if◌then◌else◌) refl
        | inr f ↦ rw (e, f, if◌then◌else◌, e, if◌then◌else◌) rest
      ]
    ]

differ : (a b : Bytes) → a ≢ b → text_eq a b ≡ false
differ a b n = ground (arith, text_iff a b)

pub find-insert_other :
    (key other : Bytes) (v : Value) (fs : Fields)
    → key ≢ other
    → find other (insert key v fs) ≡ find other fs
unfolding insert find
find-insert_other key other v end n = rw (differ key other n, if◌then◌else◌) refl
find-insert_other key other v (field k w fs) n =
    let rest = find-insert_other key other v fs n in
    let no = differ key other n in
    elim (Bool-cases (text_eq k key)) [
      | inl e ↦
          rw
            (
              e,
              if◌then◌else◌,
              no,
              differ k other (λ q. n (sym ((text_iff k key).0 e) ∙ q)),
              if◌then◌else◌,
            )
            refl
      | inr e ↦ elim (Bool-cases (text_lt key k)) [
        | inl f ↦ rw (e, f, if◌then◌else◌, no, if◌then◌else◌) refl
        | inr f ↦ rw (e, f, if◌then◌else◌, rest) refl
      ]
    ]
