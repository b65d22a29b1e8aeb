-- ===== src/Storage/Loading.antt =====
-- src/storage.rs and `validate_resource_snapshot` of src/storage/validation.rs: loads and writes of
-- a resource, each run from its start to its end.
pub mod Source
pub mod Writing
use dirbase.Prelude.{
  ℕ, String, Bool, true, false, Option, none, some, List, [], ◌∷◌, ◌==◌, if◌then◌else◌, is_some_and,
  length,
}
use dirbase.BTreeMap
use dirbase.Json.{as_array}
use dirbase.Error.{AppError, app_error, not_found, Result, ok, err}
use dirbase.Runtime.{Runtime, Value}
use dirbase.Schema.Types.{DeclaredTableSchema}
use dirbase.App.FileSystem.{FileSystem}
use dirbase.App.Action.{Action, return, fail, lift, gets, modify, ◌>>=◌, ◌>>◌, proceed}
use dirbase.App.Metrics.{
  record_resource_validation, record_resource_cache_hit, record_resource_cache_miss,
  record_resource_cache_revalidation,
}
use dirbase.App.State.{AppState, allocate, validation_schema_snapshot}
use dirbase.Storage.Cache.{Shared, CachedResource}
use dirbase.Storage.Cache.Updates.{mark_cached_resource_validated, insert_cached_resource_if_absent}
use dirbase.Storage.Io.{read_resource_value}
use dirbase.Storage.Io.Names.{resource_file_path}
use dirbase.Storage.Io.Files.{resource_not_found}
use dirbase.Storage.Validation.{validate_resource_data_with_table}

module _ ⦃rt : Runtime⦄ ⦃fs : FileSystem⦄ where
  -- An action of the file system, on the shared state.
  unfoldable pub on_disk {ℓ} : {A : Type ℓ} → (AppState → Action fs.Disk A) → Action AppState A
  on_disk action state =
      let done = action state state.disk in (record state { disk = done.0 }, done.1)

  -- `data.as_array().map_or(1, Vec::len)`
  abbrev rows_of : Option (List Value) → ℕ
  rows_of none = 1
  rows_of (some rows) = length rows

  unfoldable pub admit :
      AppState → String → Value → ℕ → Option DeclaredTableSchema → AppState × Result ℕ AppError
  unfolding proceed
  admit state resource value revision none = (state, ok revision)
  admit state resource value revision (some table) =
      proceed (state, validate_resource_data_with_table resource value table)
        λ _ s. (
          record s { metrics = record_resource_validation s.metrics (rows_of (as_array value)) },
          ok revision,
        )

  -- The revision that authorizes the value, read together with the table.
  unfoldable pub validate_resource_snapshot : String → Value → Action AppState ℕ
  unfolding admit
  validate_resource_snapshot resource value state =
      let snapshot = validation_schema_snapshot state resource in
      admit state resource value snapshot.0 snapshot.1

  abbrev pub validate_resource_data : String → Value → Action AppState (Unit {0})
  validate_resource_data resource value = validate_resource_snapshot resource value >> return tt

  abbrev count_hit : Action AppState (Unit {0})
  count_hit = modify λ state. record state { metrics = record_resource_cache_hit state.metrics }

  abbrev count_miss : Action AppState (Unit {0})
  count_miss = modify λ state. record state { metrics = record_resource_cache_miss state.metrics }

  abbrev count_revalidation : Action AppState (Unit {0})
  count_revalidation =
      modify λ state. record state { metrics = record_resource_cache_revalidation state.metrics }

  -- Validates a snapshot and marks it.
  unfoldable pub admit_and_mark : String → Shared → Action AppState Shared
  admit_and_mark resource value = do
    validation_revision ← validate_resource_snapshot resource value.content
    modify λ state. mark_cached_resource_validated state resource value validation_revision
    return value

  abbrev known : String → Bool → Result (Unit {0}) AppError
  known resource contained = if contained then ok tt else err (resource_not_found resource)

  -- `state.resources.read().await.contains(resource)`, and the error if it does not.
  abbrev pub known_resource : String → Action AppState (Unit {0})
  known_resource resource state =
      (state, known resource (BTreeMap.contains_key state.resources resource))

  -- `Arc::new(io::read_resource_value(...)?)`
  unfoldable pub read_shared : String → String → Action AppState Shared
  unfolding on_disk
  read_shared file resource = do
    known_resource resource
    value ← on_disk λ state. read_resource_value state.data_source file resource
    λ state. let made = allocate state value in (made.0, ok made.1)

  unfoldable pub load_from : String → String → ℕ → Option CachedResource → Action AppState Shared
  unfolding admit_and_mark read_shared
  load_from resource file current (some cached) =
      if is_some_and cached.validation_revision (λ revision. revision == current)
      then count_hit >> return cached.value
      else count_revalidation >> admit_and_mark resource cached.value
  load_from resource file current none = do
    count_miss
    value ← read_shared file resource
    admit_and_mark resource value

  unfoldable pub load_resource : String → Action AppState Shared
  unfolding load_from
  load_resource resource state =
      proceed (state, resource_file_path state.data_source resource)
        λ file s.
          load_from resource file (validation_schema_snapshot s resource).0
            (BTreeMap.get s.resource_cache resource) s

  unfoldable pub load_unvalidated : String → String → Option CachedResource → Action AppState Shared
  unfolding read_shared
  load_unvalidated resource file (some cached) = return cached.value
  load_unvalidated resource file none = do
    value ← read_shared file resource
    modify λ state. insert_cached_resource_if_absent state resource value
    return value

  unfoldable pub load_resource_unvalidated : String → Action AppState Shared
  unfolding load_unvalidated
  load_resource_unvalidated resource state =
      proceed (state, resource_file_path state.data_source resource)
        λ file s. load_unvalidated resource file (BTreeMap.get s.resource_cache resource) s
