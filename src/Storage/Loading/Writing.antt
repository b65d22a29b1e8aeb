-- ===== src/Storage/Loading/Writing.antt =====
-- `write_resource_snapshot` of src/storage.rs.
use dirbase.Prelude.{ℕ, String, Bool, true, false, ◌&&◌, Option, none, some, [], ◌∷◌, if◌then◌else◌}
use dirbase.Runtime.{Runtime, Value}
use dirbase.Schema.Infer.{infer_table_from_value, replace_inferred_tables}
use dirbase.App.FileSystem.{FileSystem}
use dirbase.App.Action.{Action, modify, ◌>>◌, proceed}
use dirbase.App.State.{
  DataSource, AppState, allocate, invalidate_graphql_schema, emit_event, update_inferred_schema,
}
use dirbase.Storage.Cache.{Shared}
use dirbase.Storage.Cache.Updates.{mark_cached_resource_validated, update_cached_resource}
use dirbase.Storage.Io.{persist_resource_value}
use dirbase.Storage.Io.Names.{resource_file_path}
use dirbase.Storage.Io.Files.{map_err}
use dirbase.Storage.Loading.{on_disk}
use dirbase.Storage.Loading.Source.{refresh_inferred_schema, internal_text}

module _ ⦃rt : Runtime⦄ ⦃fs : FileSystem⦄ where
  unfoldable pub is_folder : DataSource → Bool
  is_folder (DataSource.folder _) = true
  is_folder (DataSource.file _) = false

  -- The table of the written value replaces the inferred one.
  unfoldable pub refresh_locally : String → Value → Action AppState (Unit {0})
  unfolding map_err
  refresh_locally resource value state =
      let inferred =
        replace_inferred_tables state.schema_store.inferred
          ((resource, infer_table_from_value resource value) ∷ []) in
      let done = update_inferred_schema state inferred in (done.0, map_err done.1 internal_text)

  unfoldable pub mark_if : String → Shared → Option ℕ → AppState → AppState
  mark_if resource value none state = state
  mark_if resource value (some validation_revision) state =
      mark_cached_resource_validated state resource value validation_revision

  unfoldable pub announce : String → AppState → AppState
  announce resource state =
      emit_event
        (emit_event
          (emit_event (invalidate_graphql_schema state) "resource_changed" (some resource))
          "schema_changed" none)
        "overview_changed" none

  -- What follows the allocation of the new snapshot.
  unfoldable pub write_shared :
      String → String → Bool → Option ℕ → Shared → Action AppState (Unit {0})
  unfolding on_disk refresh_locally mark_if announce
  write_shared resource file can_refresh_locally validation_revision value = do
    on_disk λ state. persist_resource_value state.data_source file resource value.content
    modify λ state. update_cached_resource state resource value
    if can_refresh_locally then refresh_locally resource value.content else refresh_inferred_schema
    modify λ state. announce resource (mark_if resource value validation_revision state)

  unfoldable pub write_resource_snapshot : String → Value → Option ℕ → Action AppState (Unit {0})
  unfolding write_shared is_folder
  write_resource_snapshot resource value validation_revision state =
      proceed (state, resource_file_path state.data_source resource)
        λ file s.
          let made = allocate s value in
          write_shared resource file (is_folder s.data_source && s.health.ready) validation_revision
            made.1 made.0

  abbrev pub write_validated_resource : String → Value → ℕ → Action AppState (Unit {0})
  write_validated_resource resource value validation_revision =
      write_resource_snapshot resource value (some validation_revision)
