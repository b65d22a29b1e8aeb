-- ===== src/Mutation/Creation.antt =====
-- The item that a create request adds.
use dirbase.Prelude.{
  String, true, false, Option, some, List, [], ◌∷◌, ◌++◌, ◌≡◌, ◌≢◌, sym, ap, ◌∙◌, All, Bool-cases,
  inl, inr, is_some,
}
use dirbase.Prelude.Int.{ℤ}
use dirbase.BTreeMap
use dirbase.BTreeMap.{BTreeMap, get-insert_self, get-insert_ne}
use mathlib.Core.Bool.{true≢false}
use dirbase.Json.{Json, as_array, as_object, as_array-from_array, as_object-from_object}
use dirbase.Error.{ok, >>=-eq-ok, ok_or-eq-ok, ok-injective}
use dirbase.Runtime.{Runtime, Value}
use dirbase.Schema.Types.{TableSchema, primary_key_name}
use dirbase.Storage.Index.{next_numeric_id, is_string_column, key_column}
use dirbase.Storage.Index.Fresh.{numeric_id, BelowMax, next_numeric_id-fresh}
use dirbase.Mutation.{create_item, maybe_fill_missing_id, fresh_id}

module _ ⦃rt : Runtime⦄ (table : Option TableSchema) where
  -- The item that was added last, which has a key and every field of the payload.
  pub record Created (payload value changed created : Value) : Type 0 where
    pub items : List Value
    pub fields : BTreeMap Value
    pub result : BTreeMap Value
    pub value_items : as_array value ≡ some items
    pub changed_items : as_array changed ≡ some (items ++ created ∷ [])
    pub is_fields : as_object payload ≡ some fields
    pub is_result : as_object created ≡ some result
    pub has_key : BTreeMap.contains_key result (primary_key_name table) ≡ true
    pub keeps :
        (j : String) (v : Value) → BTreeMap.get fields j ≡ some v → BTreeMap.get result j ≡ some v

  maybe_fill_missing_id-has_key :
      (item : BTreeMap Value) (array : List Value)
      → BTreeMap.contains_key (maybe_fill_missing_id item array table) (primary_key_name table)
        ≡ true
  unfolding maybe_fill_missing_id
  maybe_fill_missing_id-has_key item array =
      elim (Bool-cases (BTreeMap.contains_key item (primary_key_name table))) [
        | inl has ↦ rw has has
        | inr hasnt ↦ rw hasnt (ap is_some (get-insert_self item (primary_key_name table) _))
      ]

  maybe_fill_missing_id-keeps :
      (item : BTreeMap Value) (array : List Value) (j : String) (v : Value)
      → BTreeMap.get item j ≡ some v
      → BTreeMap.get (maybe_fill_missing_id item array table) j ≡ some v
  unfolding maybe_fill_missing_id
  maybe_fill_missing_id-keeps item array j v h =
      elim (Bool-cases (BTreeMap.contains_key item (primary_key_name table))) [
        | inl has ↦ rw has h
        | inr hasnt ↦ rw hasnt (
            get-insert_ne item (primary_key_name table) j _ (λ e.
              true≢false (sym (ap is_some h) ∙ ap (BTreeMap.contains_key item) (sym e) ∙ hasnt))
            ∙ h)
      ]

  -- A create that succeeds appends exactly one item, which has the key and keeps every field of the
  -- payload.
  pub create_item-Created :
      (payload value changed created : Value)
      → create_item table payload value ≡ ok (changed, created)
      → Created payload value changed created
  unfolding create_item
  create_item-Created payload value changed created h =
      let (array, is_array, h1) = >>=-eq-ok _ _ h in
      let (item, is_item, h2) = >>=-eq-ok _ _ h1 in
      let is_created = ap (λ r. r.1) (ok-injective h2) in
      record {
        items = array;
        fields = item;
        result = maybe_fill_missing_id item array table;
        value_items = ok_or-eq-ok _ _ is_array;
        changed_items =
            ap as_array (sym (ap (λ r. r.0) (ok-injective h2)))
            ∙ as_array-from_array _
            ∙ ap (λ v. some (array ++ v ∷ [])) is_created;
        is_fields = ok_or-eq-ok _ _ is_item;
        is_result = ap as_object (sym is_created) ∙ as_object-from_object _;
        has_key = maybe_fill_missing_id-has_key item array;
        keeps = maybe_fill_missing_id-keeps item array;
      }

  numeric_id_inserted :
      (created : Value) (fields : BTreeMap Value) (key : String) (n : rt.Number)
      → as_object created ≡ some (BTreeMap.insert fields key (Json.number n))
      → numeric_id key created ≡ rt.number_as_i64 n
  numeric_id_inserted created fields key n h = simp (h, get-insert_self)

  -- When the payload lacks the key and its column is not text, the id that is generated is a number
  -- that no item has for its id, as long as no item's id is the largest `i64`.
  pub create_item-fresh :
      ((z : ℤ) → rt.number_as_i64 (rt.number_of_i64 z) ≡ some z)
      → (payload value changed created : Value) (items : List Value) (fields : BTreeMap Value)
      → as_array value ≡ some items
      → as_object payload ≡ some fields
      → BTreeMap.contains_key fields (primary_key_name table) ≡ false
      → is_string_column (key_column table) ≡ false
      → All (λ item. BelowMax (numeric_id (primary_key_name table) item)) items
      → create_item table payload value ≡ ok (changed, created)
      → (id : ℤ) × (numeric_id (primary_key_name table) created ≡ some id)
        × All (λ item. numeric_id (primary_key_name table) item ≢ some id) items
  unfolding create_item maybe_fill_missing_id fresh_id
  create_item-fresh lawful payload value changed created items fields h k missing not_text below e =
      (
        next_numeric_id items (primary_key_name table),
        numeric_id_inserted created fields _ _ (
              ap as_object (sym (ap (λ r. r.1) (ok-injective (rw (h, k, missing, not_text) at e))))
              ∙ as_object-from_object _)
            ∙ lawful (next_numeric_id items (primary_key_name table)),
        next_numeric_id-fresh (primary_key_name table) items below,
      )
