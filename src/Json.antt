-- ===== src/Json.antt =====
-- `serde_json::Value`, the JSON values that the payloads are made of, and the accessors that the
-- program calls on them. Objects are `serde_json::Map`s: each key stands once, in key order.
use noobscenic.Prelude.{
  ℕ, ◌^◌, ℤ, pos, negsuc, Bytes, Bool, List, [], ◌∷◌, Option, none, some, text_eq, ltb,
  if◌then◌else◌,
}

-- `real` holds the bits of an `f64`.
mutual
  pub data Value : Type 0 where
    null : Value
    bool : Bool → Value
    int : ℤ → Value
    real : ℕ → Value
    str : Bytes → Value
    arr : Items → Value
    obj : Fields → Value

  pub data Items : Type 0 where
    nil : Items
    cons : Value → Items → Items

  pub data Fields : Type 0 where
    end : Fields
    field : Bytes → Value → Fields → Fields

abbrev pub to_list : Items → List Value
to_list nil = []
to_list (cons v vs) = v ∷ to_list vs

-- `Map::get`.
unfoldable pub find : Bytes → Fields → Option Value
find key end = none
find key (field k v fs) = if text_eq k key then some v else find key fs

-- `Value::get` with a string index.
unfoldable pub get : Bytes → Value → Option Value
unfolding find
get key (obj fs) = find key fs
get key _ = none

-- An integer literal beyond `i64` is read as a `u64` or an `f64`, and is no `i64`.
unfoldable pub as_i64 : Value → Option ℤ
as_i64 (int (pos n)) = if ltb n (2 ^ 63) then some (pos n) else none
as_i64 (int (negsuc n)) = if ltb n (2 ^ 63) then some (negsuc n) else none
as_i64 _ = none

unfoldable pub as_str : Value → Option Bytes
as_str (str s) = some s
as_str _ = none

unfoldable pub as_bool : Value → Option Bool
as_bool (bool b) = some b
as_bool _ = none

unfoldable pub as_array : Value → Option (List Value)
as_array (arr vs) = some (to_list vs)
as_array _ = none

unfoldable pub as_object : Value → Option Fields
as_object (obj fs) = some fs
as_object _ = none
