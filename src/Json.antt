-- ===== src/Json.antt =====
-- `serde_json::Value`, and the accessors that the program calls.
use kick_channel_role.Prelude.{
  ℕ, ◌^◌, ltb, Bool, List, [], ◌∷◌, Option, none, some, ◌≡◌, refl, ap, if◌then◌else◌,
}
use kick_channel_role.Prelude.Int.{ℤ, pos, in_i64}
use kick_channel_role.Prelude.Text.{Text, text_eq}

-- A JSON number: an integer that serde_json keeps as one, or a float, by the text that it prints as.
pub data Number : Type 0 where
  integer : ℤ → Number
  float : Text → Number

mutual
  pub data Value : Type 0 where
    null : Value
    boolean : Bool → Value
    number : Number → Value
    string : Text → Value
    array : Items → Value
    object : Fields → Value

  pub data Items : Type 0 where
    nil : Items
    cons : Value → Items → Items

  pub data Fields : Type 0 where
    end : Fields
    field : Text → Value → Fields → Fields

abbrev pub to_list : Items → List Value
to_list nil = []
to_list (cons v xs) = v ∷ to_list xs

abbrev pub from_list : List Value → Items
from_list [] = nil
from_list (v ∷ xs) = cons v (from_list xs)

pub to_list-from_list : (xs : List Value) → to_list (from_list xs) ≡ xs
to_list-from_list [] = refl
to_list-from_list (v ∷ xs) = ap (λ l. v ∷ l) (to_list-from_list xs)

unfoldable pub as_bool : Value → Option Bool
as_bool (boolean b) = some b
as_bool _ = none

-- `Number::as_i64`: none for a float, and for an integer beyond the range of an `i64`.
unfoldable pub number_as_i64 : Number → Option ℤ
number_as_i64 (integer n) = if in_i64 n then some n else none
number_as_i64 (float t) = none

unfoldable pub as_i64 : Value → Option ℤ
unfolding number_as_i64
as_i64 (number n) = number_as_i64 n
as_i64 _ = none

-- `as_u64`: none for a float, and for an integer below 0 or beyond the range of a `u64`.
unfoldable pub as_u64 : Value → Option ℕ
as_u64 (number (integer (pos n))) = if ltb n (2 ^ 64) then some n else none
as_u64 _ = none

unfoldable pub as_str : Value → Option Text
as_str (string s) = some s
as_str _ = none

unfoldable pub as_array : Value → Option (List Value)
as_array (array xs) = some (to_list xs)
as_array _ = none

abbrev pub find_field : Text → Fields → Option Value
find_field key end = none
find_field key (field name v rest) = if text_eq name key then some v else find_field key rest

-- `Value::get` with a string.
abbrev pub get : Text → Value → Option Value
get key (object fields) = find_field key fields
get key _ = none
