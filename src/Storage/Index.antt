-- ===== src/Storage/Index.antt =====
-- src/storage/index.rs
pub mod Lookup
pub mod Fresh
pub mod Found
pub mod Coerced
use dirbase.Prelude.{
  ℕ, zero, suc, ◌+◌, String, Bool, true, false, ◌||◌, Option, none, some, List, [], ◌∷◌, str_eq,
  if◌then◌else◌, is_some_and, unwrap_or, and_then,
}
use dirbase.Prelude.Int.{ℤ, pos, leb_ℤ, wrapping_suc}
use dirbase.BTreeMap
use dirbase.BTreeMap.{BTreeMap}
use dirbase.Json.{Json, as_array, as_object}
use dirbase.Runtime.{Runtime, Value, as_i64}
use dirbase.Text.Decimal.{show_bool, parse_i64}
use dirbase.Schema.Types.{ColumnType, ColumnSchema, TableSchema, primary_key_name, column_type_eq}

-- The parts of the loops that look at no item.
abbrev after_one : Option ℕ → Option ℕ
after_one none = none
after_one (some n) = some (suc n)

then_some : BTreeMap ℕ × Bool → Option (BTreeMap ℕ)
then_some (index, has_any_id) = if has_any_id then some index else none

larger : Option ℤ → Option ℤ → Option ℤ
larger none m = m
larger (some a) none = some a
larger (some a) (some b) = if leb_ℤ a b then some b else some a

after_max : Option ℤ → ℤ
after_max none = pos 1
after_max (some max) = wrapping_suc max

module _ ⦃rt : Runtime⦄ where
  -- The value under a key, of an item that is an object.
  abbrev pub value_at : String → Value → Option Value
  value_at key_name item = and_then (as_object item) (λ object. BTreeMap.get object key_name)

  id_value_matches : String → Value → Bool
  id_value_matches expected (Json.number n) = str_eq (rt.number_text n) expected
  id_value_matches expected (Json.string s) = str_eq s expected
  id_value_matches expected (Json.bool b) = str_eq (show_bool b) expected
  id_value_matches expected _ = false

  unfoldable pub id_matches : Value → String → String → Bool
  unfolding id_value_matches
  id_matches item key_name expected =
      is_some_and (value_at key_name item) (id_value_matches expected)

  unfoldable pub find_item_by_key : List Value → String → String → Option Value
  find_item_by_key [] key_name id = none
  find_item_by_key (item ∷ items) key_name id =
      if id_matches item key_name id then some item else find_item_by_key items key_name id

  unfoldable pub find_item_index_by_key : List Value → String → String → Option ℕ
  find_item_index_by_key [] key_name id = none
  find_item_index_by_key (item ∷ items) key_name id =
      if id_matches item key_name id
      then some 0
      else after_one (find_item_index_by_key items key_name id)

  insert_id : BTreeMap ℕ → ℕ → Option Value → BTreeMap ℕ
  insert_id index position none = index
  insert_id index position (some (Json.number n)) =
      BTreeMap.insert index (rt.number_text n) position
  insert_id index position (some (Json.string text)) = BTreeMap.insert index text position
  insert_id index position (some (Json.bool b)) = BTreeMap.insert index (show_bool b) position
  insert_id index position (some other) = index

  is_supported_id : Option Value → Bool
  is_supported_id (some (Json.number n)) = true
  is_supported_id (some (Json.string text)) = true
  is_supported_id (some (Json.bool b)) = true
  is_supported_id _ = false

  -- The loop over the items, from a position on: the index, and whether any id was seen.
  index_items : List Value → String → ℕ → BTreeMap ℕ → Bool → BTreeMap ℕ × Bool
  index_items [] key_name position index has_any_id = (index, has_any_id)
  index_items (item ∷ items) key_name position index has_any_id =
      index_items items key_name (suc position) (insert_id index position (value_at key_name item))
        (has_any_id || is_supported_id (value_at key_name item))

  unfoldable pub build_id_index : Value → Option TableSchema → Option (BTreeMap ℕ)
  unfolding index_items insert_id is_supported_id then_some
  build_id_index value table =
      and_then (as_array value)
        (λ items. then_some (index_items items (primary_key_name table) 0 [] false))

  -- `Iterator::max` of the ids that are an `i64`.
  max_id : List Value → String → Option ℤ
  unfolding larger
  max_id [] key_name = none
  max_id (item ∷ items) key_name =
      larger (and_then (value_at key_name item) as_i64) (max_id items key_name)

  unfoldable pub next_numeric_id : List Value → String → ℤ
  unfolding max_id after_max
  next_numeric_id items key_name = after_max (max_id items key_name)

  unfoldable pub is_string_column : Option ColumnSchema → Bool
  is_string_column none = false
  is_string_column (some column) = column_type_eq column.column_type ColumnType.string

  number_or_text : String → Option ℤ → Value
  number_or_text id (some z) = Json.number (rt.number_of_i64 z)
  number_or_text id none = Json.string id

  -- The column of the primary key, if the table has metadata for it.
  abbrev pub key_column : Option TableSchema → Option ColumnSchema
  key_column table = and_then table (λ t. BTreeMap.get t.columns (primary_key_name table))

  unfoldable pub coerce_id_value : String → Option TableSchema → Value
  unfolding is_string_column number_or_text
  coerce_id_value id table =
      if is_string_column (key_column table)
      then Json.string id
      else number_or_text id (parse_i64 id)
