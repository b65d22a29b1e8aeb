-- ===== src/Storage/Cache/Updates.antt =====
-- src/storage/cache.rs on the shared state.
use dirbase.Prelude.{ℕ, String, Bool, not, some, [], ◌==◌, if◌then◌else◌, is_some_and}
use dirbase.BTreeMap
use dirbase.BTreeMap.{BTreeMap}
use dirbase.Runtime.{Runtime}
use dirbase.Storage.Cache.{
  Shared, CachedResource, cached_resource_from_value, cached_resource_from_value_at_revision,
}
use dirbase.App.FileSystem.{FileSystem}
use dirbase.App.State.{AppState, schema_table}

module _ ⦃rt : Runtime⦄ where
  -- `Arc::ptr_eq`
  abbrev pub ptr_eq : Shared → Shared → Bool
  ptr_eq a b = a.address == b.address

  -- Whether the cache holds another snapshot of the resource.
  unfoldable pub replaced_concurrently : BTreeMap CachedResource → String → Shared → Bool
  replaced_concurrently cache resource value =
      is_some_and (BTreeMap.get cache resource) (λ current. not (ptr_eq current.value value))

  module _ ⦃fs : FileSystem⦄ where
    unfoldable pub update_cached_resource : AppState → String → Shared → AppState
    update_cached_resource state resource value = record state {
      resource_cache =
          BTreeMap.insert state.resource_cache resource
            (cached_resource_from_value value (schema_table state resource));
    }

    unfoldable pub insert_cached_resource_if_absent : AppState → String → Shared → AppState
    insert_cached_resource_if_absent state resource value = record state {
      resource_cache =
          BTreeMap.or_insert state.resource_cache resource
            (cached_resource_from_value value (schema_table state resource));
    }

    unfoldable pub mark_cached_resource_validated : AppState → String → Shared → ℕ → AppState
    unfolding replaced_concurrently
    mark_cached_resource_validated state resource value validation_revision =
        if replaced_concurrently state.resource_cache resource value then state else record state {
          resource_cache = BTreeMap.insert state.resource_cache resource (
              cached_resource_from_value_at_revision value (schema_table state resource)
                (some validation_revision));
        }

    unfoldable pub remove_cached_resource : AppState → String → AppState
    remove_cached_resource state resource = record state {
      resource_cache = BTreeMap.remove state.resource_cache resource;
    }

    unfoldable pub clear_resource_cache : AppState → AppState
    clear_resource_cache state = record state { resource_cache = [] }
