-- ===== src/Json.antt =====
-- daemon/src/interfaces/core.ts: JSON values and the checks of their shape.
-- A value is what `JSON.parse` gives, or undefined; a number is a fraction. An array is an object whose
-- keys are its indices. No check of the source reads a member of `Object.prototype`.
pub mod Laws
pub mod Types
pub mod FileKeys
pub mod Chunks
pub mod Requests
pub mod RequestData
pub mod Messages
pub mod Dispatch
pub mod Addresses
pub mod Unchecked
use kachery_p2p.Base.{
  ℕ, zero, suc, ◌+◌, ◌*◌, ◌/◌, ◌%◌, ◌≡◌, Bool, true, false, not, ◌&&◌, ◌||◌, List, [], ◌∷◌, Option,
  none, some, String, ltb, if◌then◌else◌, ◌==◌, nat_eq, string_eq,
}
use Prim.Native.String.{slice, ◌++◌ as ◌+text◌}

pub record Number : Type 0 where
  pub negative : Bool
  pub numerator : ℕ
  pub denominator_pred : ℕ

mutual
  pub data Value : Type 0 where
    undefined null : Value
    boolean : Bool → Value
    number : Number → Value
    string : String → Value
    array : Items → Value
    object : Fields → Value

  pub data Items : Type 0 where
    no_item : Items
    item : Value → Items → Items

  pub data Fields : Type 0 where
    no_field : Fields
    field : String → Value → Fields → Fields

abbrev pub integer : ℕ → Value
integer n = number (record { negative = false; numerator = n; denominator_pred = 0 })

-- `x < 0`, `x >= n`, and `Number.isInteger`.
abbrev pub below_zero : Number → Bool
below_zero x = x.negative && ltb 0 x.numerator

abbrev pub below : Number → ℕ → Bool
below x n = x.negative || ltb x.numerator (n * suc x.denominator_pred)

abbrev pub is_integer : Number → Bool
is_integer x = x.numerator % suc x.denominator_pred == 0

-- `isObject`, `isString`, `isNumber`, `isNull` and `isBoolean`.
unfoldable pub is_object : Value → Bool
is_object (array xs) = true
is_object (object fs) = true
is_object _ = false

unfoldable pub is_string : Value → Bool
is_string (string s) = true
is_string _ = false

unfoldable pub is_number : Value → Bool
is_number (number n) = true
is_number _ = false

unfoldable pub is_null : Value → Bool
is_null null = true
is_null _ = false

unfoldable pub is_boolean : Value → Bool
is_boolean (boolean b) = true
is_boolean _ = false

-- Whether a value is truthy.
unfoldable pub truthy : Value → Bool
truthy undefined = false
truthy null = false
truthy (boolean b) = b
truthy (number n) = ltb 0 n.numerator
truthy (string s) = not (s == "")
truthy (array xs) = true
truthy (object fs) = true

unfoldable mutual
  -- `isJSONSerializable`
  pub is_json_serializable : Value → Bool
  is_json_serializable undefined = false
  is_json_serializable null = false
  is_json_serializable (boolean b) = false
  is_json_serializable (number n) = true
  is_json_serializable (string s) = true
  is_json_serializable (array xs) = are_items_serializable xs
  is_json_serializable (object fs) = are_fields_serializable fs

  -- The body of its loop: only objects are looked into.
  pub is_property_serializable : Value → Bool
  is_property_serializable undefined = true
  is_property_serializable null = true
  is_property_serializable (boolean b) = true
  is_property_serializable (number n) = true
  is_property_serializable (string s) = true
  is_property_serializable (array xs) = are_items_serializable xs
  is_property_serializable (object fs) = are_fields_serializable fs

  pub are_items_serializable : Items → Bool
  are_items_serializable no_item = true
  are_items_serializable (item x xs) = is_property_serializable x && are_items_serializable xs

  pub are_fields_serializable : Fields → Bool
  are_fields_serializable no_field = true
  are_fields_serializable (field k x fs) = is_property_serializable x && are_fields_serializable fs

-- `isJSONValue` and `isJSONObject`
unfoldable pub is_json_value : Value → Bool
is_json_value x = is_json_serializable x

unfoldable pub is_json_object : Value → Bool
is_json_object x = is_object x && is_json_serializable x

-- The decimal numeral of an index.
decimal_within : ℕ → ℕ → String
decimal_within zero n = ""
decimal_within (suc fuel) n =
    let more = decimal_within fuel (n / 10) in
    let digit = slice "0123456789" (n % 10) (n % 10 + 1) in
    if ltb n 10 then digit else more +text digit

unfoldable pub decimal : ℕ → String
unfolding decimal_within
decimal n = decimal_within (suc n) n

-- The own properties of an object, in their order.
unfoldable pub items_from : ℕ → Items → List (String × Value)
items_from i no_item = []
items_from i (item x xs) = (decimal i, x) ∷ items_from (suc i) xs

unfoldable pub entries_of : Fields → List (String × Value)
entries_of no_field = []
entries_of (field k x fs) = (k, x) ∷ entries_of fs

unfoldable pub properties : Value → List (String × Value)
properties (array xs) = items_from 0 xs
properties (object fs) = entries_of fs
properties _ = []

-- A property by its name, `x[k]`.
unfoldable pub find_property : String → List (String × Value) → Value
find_property k [] = undefined
find_property k ((j, v) ∷ ps) = if j == k then v else find_property k ps

unfoldable pub get : Value → String → Value
get x k = find_property k (properties x)

unfoldable pub has_name : String → List (String × Value) → Bool
has_name k [] = false
has_name k ((j, v) ∷ ps) = (j == k) || has_name k ps

-- The members of `Object.prototype`, which the operator `in` finds on every object.
unfoldable pub on_prototype : String → Bool
on_prototype k =
    k == "constructor"
    || k == "toString"
    || k == "valueOf"
    || k == "toLocaleString"
    || k == "hasOwnProperty"
    || k == "isPrototypeOf"
    || k == "propertyIsEnumerable"
    || k == "__proto__"
    || k == "__defineGetter__"
    || k == "__defineSetter__"
    || k == "__lookupGetter__"
    || k == "__lookupSetter__"

unfoldable pub has_property : Value → String → Bool
has_property x k = has_name k (properties x) || (is_object x && on_prototype k)

-- `isOneOf`, `optional`, `isEqualTo` a text, `isArrayOf` and `isObjectOf`.
unfoldable pub is_one_of : List (Value → Bool) → Value → Bool
is_one_of [] x = false
is_one_of (test ∷ tests) x = test x || is_one_of tests x

unfoldable pub optional : (Value → Bool) → Value → Bool
optional test undefined = true
optional test x = test x

unfoldable pub is_equal_to : String → Value → Bool
is_equal_to s (string t) = t == s
is_equal_to s _ = false

unfoldable pub are_items_of : (Value → Bool) → Items → Bool
are_items_of test no_item = true
are_items_of test (item x xs) = test x && are_items_of test xs

unfoldable pub is_array_of : (Value → Bool) → Value → Bool
is_array_of test (array xs) = are_items_of test xs
is_array_of test _ = false

unfoldable pub are_properties_of :
    (key_test value_test : Value → Bool) → List (String × Value) → Bool
are_properties_of key_test value_test [] = true
are_properties_of key_test value_test ((k, v) ∷ ps) =
    key_test (string k) && value_test v && are_properties_of key_test value_test ps

unfoldable pub is_object_of : (key_test value_test : Value → Bool) → Value → Bool
is_object_of key_test value_test x =
    is_object x && are_properties_of key_test value_test (properties x)

-- `ValidateObjectSpec`: a test, or the fields of an object, for each name.
pub data Spec : Type 0 where
  done : Spec
  test : String → (Value → Bool) → Spec → Spec
  nested : String → Spec → Spec → Spec

unfoldable pub names : Spec → String → Bool
names done k = false
names (test j t spec) k = (j == k) || names spec k
names (nested j inner spec) k = (j == k) || names spec k

-- The first loop of `_validateObject`: `k in spec` for each key.
unfoldable pub knows_all : Spec → List (String × Value) → Bool
knows_all spec [] = true
knows_all spec ((k, v) ∷ ps) = (names spec k || on_prototype k) && knows_all spec ps

-- The second loop of `_validateObject`, with the call of itself for the fields of a field.
unfoldable pub validate_fields : Spec → Value → Bool
validate_fields done x = true
validate_fields (test k t rest) x = t (get x k) && validate_fields rest x
validate_fields (nested k inner rest) x =
    let y = get x k in
    has_property x k
    && (is_object y && knows_all inner (properties y) && validate_fields inner y)
    && validate_fields rest x

-- `_validateObject`, without a callback and additional fields.
unfoldable pub validate_object : Spec → Value → Bool
validate_object spec x = is_object x && knows_all spec (properties x) && validate_fields spec x
