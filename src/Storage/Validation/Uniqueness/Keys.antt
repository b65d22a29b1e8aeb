-- ===== src/Storage/Validation/Uniqueness/Keys.antt =====
-- The keys of src/storage/validation/uniqueness.rs stand for the values of the row.
use mathlib.Core.Option
use mathlib.Core.Option.{some-injective}
use dirbase.Prelude.{
  suc, String, Option, none, some, List, [], ◌∷◌, ◌≡◌, refl, sym, ap, ◌∙◌, map, and_then, length,
}
use dirbase.BTreeMap
use dirbase.BTreeMap.{BTreeMap}
use dirbase.Json.{Json, as_object}
use dirbase.Runtime.{Runtime, Value}
use dirbase.Storage.Validation.Uniqueness.{
  unique_value_key, key_of, parts_of, constraint_key, primary_key_of, cons_part, joined,
}
use dirbase.Storage.Validation.Uniqueness.Parts.{
  Part, part_of, part_at, parts_at, with_part, row_parts, row_part, encode, joined_key,
}

module _ ⦃rt : Runtime⦄ where
  unique_value_key-encode :
      (value : Option Value) → key_of value ≡ Option.map encode (and_then value part_of)
  unfolding key_of unique_value_key encode part_of
  unique_value_key-encode none = refl
  unique_value_key-encode (some Json.null) = refl
  unique_value_key-encode (some (Json.string s)) = refl
  unique_value_key-encode (some (Json.number n)) = refl
  unique_value_key-encode (some (Json.bool b)) = refl
  unique_value_key-encode (some (Json.array vs)) = refl
  unique_value_key-encode (some (Json.object fs)) = refl

  parts_of-encode :
      (object : BTreeMap Value) (columns : List String)
      → parts_of object columns ≡ Option.map (map encode) (parts_at columns object)
  unfolding parts_of parts_at part_at
  parts_of-encode object [] = refl
  parts_of-encode object (column_name ∷ columns) =
      rw (unique_value_key-encode (BTreeMap.get object column_name), parts_of-encode object columns)
        (both (and_then (BTreeMap.get object column_name) part_of) (parts_at columns object))
    where
      both :
          (here : Option Part) (later : Option (List Part))
          → cons_part (Option.map encode here) (Option.map (map encode) later)
            ≡ Option.map (map encode) (with_part here later)
      both none later = refl
      both (some part) none = refl
      both (some part) (some parts) = refl

  joined-encode :
      (parts : Option (List Part))
      → joined (Option.map (map encode) parts) ≡ Option.map joined_key parts
  unfolding joined_key
  joined-encode none = refl
  joined-encode (some parts) = refl

  -- The code's key of a row stands for its values in the columns.
  pub constraint_key-row_parts :
      (columns : List String) (row : Value)
      → constraint_key columns row ≡ Option.map joined_key (row_parts columns row)
  unfolding constraint_key row_parts
  constraint_key-row_parts columns row = go (as_object row)
    where
      go :
          (object : Option (BTreeMap Value))
          → and_then object (λ o. joined (parts_of o columns))
            ≡ Option.map joined_key (and_then object (parts_at columns))
      go none = refl
      go (some object) =
          ap joined (parts_of-encode object columns) ∙ joined-encode (parts_at columns object)

  pub primary_key_of-row_part :
      (column_name : String) (row : Value)
      → primary_key_of column_name row ≡ Option.map encode (row_part column_name row)
  unfolding primary_key_of row_part part_at
  primary_key_of-row_part column_name row = go (as_object row)
    where
      go :
          (object : Option (BTreeMap Value))
          → key_of (and_then object (λ o. BTreeMap.get o column_name))
            ≡ Option.map encode
                (and_then object (λ o. and_then (BTreeMap.get o column_name) part_of))
      go none = unique_value_key-encode none
      go (some object) = unique_value_key-encode (BTreeMap.get object column_name)

  length-parts_at :
      (columns : List String) (object : BTreeMap Value) (parts : List Part)
      → parts_at columns object ≡ some parts
      → length parts ≡ length columns
  unfolding parts_at
  length-parts_at [] object parts h = ap length (sym (some-injective _ _ h))
  length-parts_at (column_name ∷ columns) object parts h =
      go (part_at object column_name) (parts_at columns object) (length-parts_at columns object) h
    where
      go :
          (here : Option Part) (later : Option (List Part))
          → ((rest : List Part) → later ≡ some rest → length rest ≡ length columns)
          → with_part here later ≡ some parts
          → length parts ≡ suc (length columns)
      go none later f h = cc
      go (some part) none f h = cc
      go (some part) (some rest) f h = ap length (sym (some-injective _ _ h)) ∙ ap suc (f rest refl)

  pub length-row_parts :
      (columns : List String) (row : Value) (parts : List Part)
      → row_parts columns row ≡ some parts
      → length parts ≡ length columns
  unfolding row_parts
  length-row_parts columns row parts h = go (as_object row) h
    where
      go :
          (object : Option (BTreeMap Value))
          → and_then object (parts_at columns) ≡ some parts
          → length parts ≡ length columns
      go none h = cc
      go (some object) h = length-parts_at columns object parts h
