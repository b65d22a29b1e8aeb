-- ===== src/Http/Items.antt =====
-- src/http/resource_routes.rs: the item that a GET request answers with, once the resource is loaded.
pub mod Indexed
use dirbase.Prelude.{
  ℕ, String, Bool, Option, none, some, List, and_then, str_eq, if◌then◌else◌, get_elem?,
}
use dirbase.BTreeMap
use dirbase.Error.{AppError, app_error, not_found, Result, ok, ok_or}
use dirbase.Runtime.{Runtime, Value}
use dirbase.Storage.Index.{find_item_by_key}
use dirbase.Storage.Cache.{CachedResource}

abbrev pub item_not_found : AppError
item_not_found = app_error not_found "Item not found"

module _ ⦃rt : Runtime⦄ where
  -- The position that the cached index has for the id, if it was built for this key.
  indexed_position : Option CachedResource → String → String → Option ℕ
  indexed_position cached item_key id = and_then cached (λ c.
      if str_eq c.primary_key item_key
      then and_then c.id_index (λ index. BTreeMap.get index id)
      else none)

  item_at : List Value → String → String → Option ℕ → Result Value AppError
  item_at array item_key id (some position) = ok_or (get_elem? array position) item_not_found
  item_at array item_key id none = ok_or (find_item_by_key array item_key id) item_not_found

  -- `get_local_item_value`, from the rows, the cached entry and the key on.
  unfoldable pub get_local_item :
      List Value → Option CachedResource → String → String → Result Value AppError
  unfolding indexed_position item_at
  get_local_item array cached item_key id =
      item_at array item_key id (indexed_position cached item_key id)
