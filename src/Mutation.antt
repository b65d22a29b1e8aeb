-- ===== src/Mutation.antt =====
-- src/mutation_service.rs: the changes that the write requests make to the value of a resource. Each
-- operation is the closure that `update_locked_resource` runs on a copy of the value; its result
-- is the changed value with what the handler answers.
pub mod Service
pub mod Fields
pub mod Outcomes
pub mod Lookup
pub mod Creation
pub mod Objects
use dirbase.Prelude.{
  ℕ, String, Bool, true, false, not, ◌||◌, ◌++◌, Option, none, some, List, [], ◌∷◌, str_eq,
  if◌then◌else◌, is_some, and_then, get_elem?, set, erase_idx,
}
use dirbase.BTreeMap
use dirbase.BTreeMap.{BTreeMap}
use dirbase.Json.{Json, as_array, as_object, from_array, from_object, is_object}
use dirbase.Error.{AppError, app_error, bad_request, not_found, Result, ok, err, ok_or, ◌>>=◌}
use dirbase.Runtime.{Runtime, Value}
use dirbase.Text.Decimal.{show_int}
use dirbase.Schema.Types.{TableSchema, primary_key_name}
use dirbase.Storage.Index.{
  find_item_index_by_key, next_numeric_id, key_column, is_string_column, coerce_id_value,
}

-- The errors.

abbrev pub not_an_array : AppError
not_an_array = app_error bad_request "Resource is not a JSON array"

abbrev pub not_an_object : AppError
not_an_object = app_error bad_request "Resource is not a JSON object"

abbrev pub item_missing : AppError
item_missing = app_error not_found "Item not found"

abbrev pub item_not_object : AppError
item_not_object = app_error bad_request "Array item must be a JSON object"

abbrev pub not_objects : AppError
not_objects = app_error bad_request "Payload and resource must be JSON objects"

abbrev pub payload_not_object : AppError
payload_not_object = app_error bad_request "Payload must be a JSON object"

module _ ⦃rt : Runtime⦄ where
  fresh_id : List Value → String → Bool → Value
  fresh_id array item_key true = Json.string (show_int (next_numeric_id array item_key))
  fresh_id array item_key false = Json.number (rt.number_of_i64 (next_numeric_id array item_key))

  unfoldable pub maybe_fill_missing_id :
      BTreeMap Value → List Value → Option TableSchema → BTreeMap Value
  unfolding fresh_id
  maybe_fill_missing_id item array table =
      if BTreeMap.contains_key item (primary_key_name table)
      then item
      else BTreeMap.insert item (primary_key_name table)
          (fresh_id array (primary_key_name table) (is_string_column (key_column table)))

  unfoldable pub create_item : Option TableSchema → Value → Value → Result (Value × Value) AppError
  unfolding maybe_fill_missing_id
  create_item table payload value = do
    array ← ok_or (as_array value) not_an_array
    item ← ok_or (as_object payload) payload_not_object
    let created = from_object (maybe_fill_missing_id item array table)
    ok (from_array (array ++ created ∷ []), created)

  unfoldable pub replace_item :
      Option TableSchema → String → Value → Value → Result (Value × Value) AppError
  replace_item table id payload value = do
    array ← ok_or (as_array value) not_an_array
    object ← ok_or (as_object payload) payload_not_object
    let replacement =
        from_object (BTreeMap.insert object (primary_key_name table) (coerce_id_value id table))
    position ← ok_or (find_item_index_by_key array (primary_key_name table) id) item_missing
    ok (from_array (set array position replacement), replacement)

  -- The loop over the fields of a patch, which skips the key of the item.
  unfoldable pub patch_fields : String → BTreeMap Value → BTreeMap Value → BTreeMap Value
  patch_fields item_key [] current = current
  patch_fields item_key ((key, value) ∷ patch) current =
      patch_fields item_key patch
        (if str_eq key item_key then current else BTreeMap.insert current key value)

  unfoldable pub patch_item :
      Option TableSchema → String → Value → Value → Result (Value × Value) AppError
  unfolding patch_fields
  patch_item table id payload value = do
    array ← ok_or (as_array value) not_an_array
    patch ← ok_or (as_object payload) payload_not_object
    index ← ok_or (find_item_index_by_key array (primary_key_name table) id) item_missing
    current ← ok_or (and_then (get_elem? array index) as_object) item_not_object
    let patched = from_object (patch_fields (primary_key_name table) patch current)
    ok (from_array (set array index patched), patched)

  unfoldable pub delete_item :
      Option TableSchema → String → Value → Result (Value × Unit {0}) AppError
  delete_item table id value = do
    array ← ok_or (as_array value) not_an_array
    index ← ok_or (find_item_index_by_key array (primary_key_name table) id) item_missing
    ok (from_array (erase_idx array index), tt)

  unfoldable pub replace_resource_object : Value → Value → Result (Value × Value) AppError
  replace_resource_object payload value =
      if not (is_object value) || not (is_object payload)
      then err not_objects
      else ok (payload, payload)

  -- The loop over the fields of a patch of the whole resource.
  unfoldable pub merge_fields : BTreeMap Value → BTreeMap Value → BTreeMap Value
  merge_fields [] current = current
  merge_fields ((key, value) ∷ patch) current =
      merge_fields patch (BTreeMap.insert current key value)

  unfoldable pub patch_resource_object : Value → Value → Result (Value × Value) AppError
  unfolding merge_fields
  patch_resource_object payload value = do
    current ← ok_or (as_object value) not_an_object
    patch ← ok_or (as_object payload) payload_not_object
    let patched = from_object (merge_fields patch current)
    ok (patched, patched)
