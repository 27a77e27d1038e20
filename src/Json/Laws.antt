-- ===== src/Json/Laws.antt =====
-- What `_validateObject` and the checks of JSON values accept.
use kachery_p2p.Base.{
  ◌≡◌, refl, ◌⊎◌, inl, inr, ◌↔◌, Bool, true, false, ◌&&◌, List, [], ◌∷◌, String, arith, ◌==◌,
  string_eq,
}
use text.Mathlib.TextEquality.{eq_iff}
use kachery_p2p.Json.{
  Value, undefined, null, boolean, object, Fields, field, is_object, properties, entries_of,
  find_property, get, has_name, on_prototype, has_property, Spec, done, test, nested, names,
  knows_all, validate_fields, validate_object, is_json_value, is_json_serializable,
  are_items_serializable, are_fields_serializable, is_property_serializable, Items, no_item, item,
  no_field, is_null, is_boolean,
}

-- Each name of the specification passes its test, or has a value that conforms in its turn.
abbrev pub FieldsConform : Spec → Value → Type 0
FieldsConform done x = Unit {0}
FieldsConform (test k t rest) x = (t (get x k) ≡ true) × FieldsConform rest x
FieldsConform (nested k inner rest) x =
    (has_property x k ≡ true)
    × ((is_object (get x k) ≡ true)
        × ((j : String)
            → has_name j (properties (get x k)) ≡ true
            → (names inner j ≡ true) ⊎ (on_prototype j ≡ true))
        × FieldsConform inner (get x k))
    × FieldsConform rest x

-- The keys of the object are names of the specification or members of `Object.prototype`.
abbrev pub KeysKnown : Spec → Value → Type 0
KeysKnown spec x =
    (j : String)
    → has_name j (properties x) ≡ true
    → (names spec j ≡ true) ⊎ (on_prototype j ≡ true)

and-true : (a b : Bool) → (a && b) ≡ true → (a ≡ true) × (b ≡ true)
and-true a b h = ground arith

knows_all_sound :
    (spec : Spec) (ps : List (String × Value)) (j : String)
    → knows_all spec ps ≡ true
    → has_name j ps ≡ true
    → (names spec j ≡ true) ⊎ (on_prototype j ≡ true)
unfolding knows_all has_name
knows_all_sound spec [] j h m = cc
knows_all_sound spec ((k, v) ∷ ps) j h m = ground (arith, eq_iff k j, knows_all_sound spec ps j)

knows_all_complete :
    (spec : Spec) (ps : List (String × Value))
    → ((j : String) → has_name j ps ≡ true → (names spec j ≡ true) ⊎ (on_prototype j ≡ true))
    → knows_all spec ps ≡ true
unfolding knows_all has_name
knows_all_complete spec [] h = refl
knows_all_complete spec ((k, v) ∷ ps) h =
    let rest = knows_all_complete spec ps (λ j m. h j (ground arith)) in
    ground (arith, h k, eq_iff k k, rest)

validate_fields_sound :
    (spec : Spec) (x : Value) → validate_fields spec x ≡ true → FieldsConform spec x
unfolding validate_fields
validate_fields_sound done x h = tt
validate_fields_sound (test k t rest) x h =
    let (passed, more) = and-true (t (get x k)) (validate_fields rest x) h in
    (passed, validate_fields_sound rest x more)
validate_fields_sound (nested k inner rest) x h =
    let y = get x k in
    let (there, tail) =
      and-true (has_property x k)
        ((is_object y && knows_all inner (properties y) && validate_fields inner y)
          && validate_fields rest x)
        (ground arith) in
    let (conforms, more) =
      and-true (is_object y && knows_all inner (properties y) && validate_fields inner y)
        (validate_fields rest x) tail in
    let (obj, known, fields) : (is_object y ≡ true)
        × (knows_all inner (properties y) ≡ true)
        × (validate_fields inner y ≡ true) =
      ground arith in
    (
      there,
      (
        obj,
        λ j m. knows_all_sound inner (properties y) j known m,
        validate_fields_sound inner y fields,
      ),
      validate_fields_sound rest x more,
    )

validate_fields_complete :
    (spec : Spec) (x : Value) → FieldsConform spec x → validate_fields spec x ≡ true
unfolding validate_fields
validate_fields_complete done x h = refl
validate_fields_complete (test k t rest) x h = ground (arith, validate_fields_complete rest x h.1)
validate_fields_complete (nested k inner rest) x (there, (obj, known, fields), more) = ground (
  arith,
  knows_all_complete inner (properties (get x k)) known,
  validate_fields_complete inner (get x k) fields,
  validate_fields_complete rest x more,
)

-- The check of an object passes exactly when the value is an object, each of its keys is a name of the
-- specification or a member of `Object.prototype`, and each name of the specification passes its test
-- or, where it has a specification of its own, is there with a value for which all this holds in turn.
pub validate_object_iff :
    (spec : Spec) (x : Value)
    → (validate_object spec x ≡ true)
      ↔ ((is_object x ≡ true) × KeysKnown spec x × FieldsConform spec x)
unfolding validate_object
validate_object_iff spec x = (
  λ h.
      let (obj, known, fields) : (is_object x ≡ true)
          × (knows_all spec (properties x) ≡ true)
          × (validate_fields spec x ≡ true) =
        ground arith in
      (
        obj,
        λ j m. knows_all_sound spec (properties x) j known m,
        validate_fields_sound spec x fields,
      ),
  λ h.
      ground
        (arith, knows_all_complete spec (properties x) h.1, validate_fields_complete spec x h.2),
)

has_property-skip :
    (k j : String) (v : Value) (fs : Fields)
    → (k == j) ≡ false
    → (get (object (field k v fs)) j ≡ get (object fs) j)
      × (has_property (object (field k v fs)) j ≡ has_property (object fs) j)
unfolding get has_property properties entries_of find_property has_name is_object
has_property-skip k j v fs h = (ground arith, ground arith)

validate_fields-skip :
    (spec : Spec) (k : String) (v : Value) (fs : Fields)
    → names spec k ≡ false
    → validate_fields spec (object (field k v fs)) ≡ validate_fields spec (object fs)
unfolding validate_fields names
validate_fields-skip done k v fs h = refl
validate_fields-skip (test j t rest) k v fs h =
    let (value, there) = has_property-skip k j v fs (ground (arith, eq_iff j k, eq_iff k j)) in
    ground (arith, value, validate_fields-skip rest k v fs)
validate_fields-skip (nested j inner rest) k v fs h =
    let (value, there) = has_property-skip k j v fs (ground (arith, eq_iff j k, eq_iff k j)) in
    ground (arith, value, there, validate_fields-skip rest k v fs)

-- An object that passes still does when it gets a further field, with any value, whose name is not in the
-- specification but is a member of `Object.prototype`, such as `constructor`.
pub prototype_names_pass :
    (spec : Spec) (k : String) (v : Value) (fs : Fields)
    → on_prototype k ≡ true
    → names spec k ≡ false
    → validate_object spec (object fs) ≡ true
    → validate_object spec (object (field k v fs)) ≡ true
unfolding validate_object properties entries_of is_object knows_all
prototype_names_pass spec k v fs member unnamed h =
    ground (arith, validate_fields-skip spec k v fs unnamed)

mutual
  unfolding is_json_serializable

  items_serializable : (xs : Items) → are_items_serializable xs ≡ true
  items_serializable no_item = refl
  items_serializable (item x xs) = ground (arith, property_serializable x, items_serializable xs)

  fields_serializable : (fs : Fields) → are_fields_serializable fs ≡ true
  fields_serializable no_field = refl
  fields_serializable (field k x fs) =
      ground (arith, property_serializable x, fields_serializable fs)

  property_serializable : (x : Value) → is_property_serializable x ≡ true
  property_serializable undefined = refl
  property_serializable null = refl
  property_serializable (boolean b) = refl
  property_serializable (Value.number n) = refl
  property_serializable (Value.string s) = refl
  property_serializable (Value.array xs) = items_serializable xs
  property_serializable (object fs) = fields_serializable fs

-- `isJSONValue` refuses null, true and false, and what is undefined, and accepts every other value.
pub is_json_value_lem :
    (x : Value)
    → (is_json_value x ≡ false) ↔ ((x ≡ undefined) ⊎ (is_null x ≡ true) ⊎ (is_boolean x ≡ true))
unfolding is_json_value is_json_serializable is_null is_boolean
is_json_value_lem undefined = (λ h. inl refl, λ h. refl)
is_json_value_lem null = (λ h. inr (inl refl), λ h. refl)
is_json_value_lem (boolean b) = (λ h. inr (inr refl), λ h. refl)
is_json_value_lem (Value.number n) = ground arith
is_json_value_lem (Value.string s) = ground arith
is_json_value_lem (Value.array xs) = ground (arith, items_serializable xs)
is_json_value_lem (object fs) = ground (arith, fields_serializable fs)
