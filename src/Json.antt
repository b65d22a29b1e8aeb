-- ===== src/Json.antt =====
-- `serde_json::Value`, over an abstract type of numbers. Arrays and objects have list types of their
-- own, with functions to `List` and to `BTreeMap`.
use dirbase.Prelude.{String, ◌≡◌, refl, ap, Bool, true, false, Option, none, some, List, [], ◌∷◌}
use dirbase.BTreeMap.{BTreeMap}

mutual
  pub data Json (N : Type 0) : Type 0 where
    null : Json N
    bool : Bool → Json N
    number : N → Json N
    string : String → Json N
    array : Items N → Json N
    object : Fields N → Json N

  pub data Items (N : Type 0) : Type 0 where
    nil : Items N
    cons : Json N → Items N → Items N

  pub data Fields (N : Type 0) : Type 0 where
    end : Fields N
    field : String → Json N → Fields N → Fields N

module _ {N : Type 0} where
  abbrev items : Items N → List (Json N)
  items nil = []
  items (cons v vs) = v ∷ items vs

  abbrev of_items : List (Json N) → Items N
  of_items [] = nil
  of_items (v ∷ vs) = cons v (of_items vs)

  abbrev fields : Fields N → BTreeMap (Json N)
  fields end = []
  fields (field k v fs) = (k, v) ∷ fields fs

  abbrev of_fields : BTreeMap (Json N) → Fields N
  of_fields [] = end
  of_fields ((k, v) ∷ m) = field k v (of_fields m)

  -- `Value::Array(values)` and `Value::Object(map)`.
  unfoldable pub from_array : List (Json N) → Json N
  from_array vs = array (of_items vs)

  unfoldable pub from_object : BTreeMap (Json N) → Json N
  from_object m = object (of_fields m)

  unfoldable pub as_array : Json N → Option (List (Json N))
  as_array (array vs) = some (items vs)
  as_array _ = none

  unfoldable pub as_object : Json N → Option (BTreeMap (Json N))
  as_object (object fs) = some (fields fs)
  as_object _ = none

  abbrev pub as_str : Json N → Option String
  as_str (string s) = some s
  as_str _ = none

  abbrev pub as_bool : Json N → Option Bool
  as_bool (bool b) = some b
  as_bool _ = none

  abbrev pub as_number : Json N → Option N
  as_number (number n) = some n
  as_number _ = none

  abbrev pub is_null : Json N → Bool
  is_null null = true
  is_null _ = false

  abbrev pub is_array : Json N → Bool
  is_array (array vs) = true
  is_array _ = false

  abbrev pub is_object : Json N → Bool
  is_object (object fs) = true
  is_object _ = false

  items-of_items : (vs : List (Json N)) → items (of_items vs) ≡ vs
  items-of_items [] = refl
  items-of_items (v ∷ vs) = ap (λ l. v ∷ l) (items-of_items vs)

  fields-of_fields : (m : BTreeMap (Json N)) → fields (of_fields m) ≡ m
  fields-of_fields [] = refl
  fields-of_fields ((k, v) ∷ m) = ap (λ l. (k, v) ∷ l) (fields-of_fields m)

  pub as_array-from_array : (vs : List (Json N)) → as_array (from_array vs) ≡ some vs
  unfolding as_array from_array
  as_array-from_array vs = ap some (items-of_items vs)

  pub as_object-from_object : (m : BTreeMap (Json N)) → as_object (from_object m) ≡ some m
  unfolding as_object from_object
  as_object-from_object m = ap some (fields-of_fields m)

  pub as_object-from_array : (vs : List (Json N)) → as_object (from_array vs) ≡ none
  unfolding as_object from_array
  as_object-from_array vs = refl
