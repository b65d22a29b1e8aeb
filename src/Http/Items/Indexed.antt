-- ===== src/Http/Items/Indexed.antt =====
-- A GET through the index against a scan of the rows.
use text.Mathlib.TextPositions.{eq_refl}
use dirbase.Prelude.{
  ℕ, String, Option, none, some, List, ◌≡◌, refl, ap, ◌∙◌, sym, and_then, get_elem?,
}
use dirbase.Json.{as_array}
use dirbase.Error.{Result, ok_or, AppError}
use dirbase.Runtime.{Runtime, Value}
use dirbase.Schema.Types.{TableSchema, primary_key_name}
use dirbase.Storage.Index.{find_item_by_key}
use dirbase.Storage.Index.Lookup.{
  last_item, last_match, last_match-item_zero, find_none_of_last_match, build_id_index-lookup,
  IsUnique, last_item-find,
}
use dirbase.Storage.Cache.{Shared, cached_resource_from_value_at_revision}
use dirbase.Http.Items.{item_not_found, item_at, get_local_item}

module _ ⦃rt : Runtime⦄ where
  item_at-last :
      (array : List Value) (item_key id : String) (position : Option ℕ)
      → position ≡ last_match item_key id array 0 none
      → item_at array item_key id position ≡ ok_or (last_item item_key id array none) item_not_found
  unfolding item_at
  item_at-last array item_key id (some position) h =
      ap (λ o. ok_or o item_not_found)
        (ap (λ o. and_then o (get_elem? array)) h ∙ last_match-item_zero item_key id array)
  item_at-last array item_key id none h =
      ap (λ o. ok_or o item_not_found)
        (find_none_of_last_match item_key id array 0 (sym h)
          ∙ ap (λ o. and_then o (get_elem? array)) h
          ∙ last_match-item_zero item_key id array)

  -- The entry that the cache holds for the rows of a table.
  module _ (value : Shared) (array : List Value) (table : Option TableSchema) (revision : Option ℕ)
      (rows : as_array value.content ≡ some array) (id : String) where
    abbrev answer : Result Value AppError
    answer =
        get_local_item array (some (cached_resource_from_value_at_revision value table revision))
          (primary_key_name table) id

    -- Through the cache entry built from the rows, a GET of an id answers with the last row that has
    -- the id, and with 404 when no row has it.
    pub get_local_item-last :
        answer ≡ ok_or (last_item (primary_key_name table) id array none) item_not_found
    unfolding get_local_item cached_resource_from_value_at_revision
    get_local_item-last = item_at-last array (primary_key_name table) id _ (
        rw (eq_refl (primary_key_name table))
          (build_id_index-lookup (primary_key_name table) id value.content array table rows refl))

    -- Where no two rows share an id, the index changes nothing: the answer is that of the scan which
    -- updates and deletions use, a row or 404.
    pub get_local_item-find :
        IsUnique (primary_key_name table) id array
        → answer ≡ ok_or (find_item_by_key array (primary_key_name table) id) item_not_found
    get_local_item-find u =
        get_local_item-last
        ∙ ap (λ o. ok_or o item_not_found) (last_item-find (primary_key_name table) id array u)
