-- ===== src/Storage/Management.antt =====
-- src/resource_service.rs: creation and deletion of whole resources.
use dirbase.Prelude.{String, Bool, not, none, some, [], ◌∷◌, if◌then◌else◌}
use dirbase.BTreeMap
use dirbase.Error.{AppError, app_error, bad_request, conflict, Result, ok, err}
use dirbase.Runtime.{Runtime, Value}
use dirbase.Text.{format}
use dirbase.App.FileSystem.{FileSystem}
use dirbase.App.Action.{Action, return, lift, modify, ◌>>=◌, ◌>>◌}
use dirbase.App.Metrics.{mark_ready}
use dirbase.App.State.{AppState, allocate, invalidate_graphql_schema, emit_event}
use dirbase.Storage.Cache.Updates.{update_cached_resource, remove_cached_resource}
use dirbase.Storage.Io.{create_resource_value, delete_resource_value}
use dirbase.Storage.Io.Names.{is_valid_resource_name, is_reserved_resource_name, resource_file_path}
use dirbase.Storage.Loading.{validate_resource_data, known_resource, on_disk}
use dirbase.Storage.Loading.Source.{refresh_inferred_schema}

abbrev invalid_name : AppError
invalid_name =
    app_error bad_request "Resource name must only contain letters, numbers, underscore, and dash"

abbrev reserved_name : String → AppError
reserved_name resource =
    app_error bad_request (format ("Resource name '" ∷ resource ∷ "' is reserved for dirbase" ∷ []))

unfoldable pub validate_resource_name_for_management : String → Result (Unit {0}) AppError
validate_resource_name_for_management resource =
    if not (is_valid_resource_name resource)
    then err invalid_name
    else if is_reserved_resource_name resource
    then err (reserved_name resource)
    else ok tt

module _ ⦃rt : Runtime⦄ ⦃fs : FileSystem⦄ where
  abbrev announce_resources : AppState → AppState
  announce_resources state =
      record (emit_event (emit_event (invalidate_graphql_schema state) "schema_changed" none)
        "overview_changed" none) { health = mark_ready }

  refresh_after_resource_set_change : Action AppState (Unit {0})
  refresh_after_resource_set_change = do refresh_inferred_schema; modify announce_resources

  abbrev absent : Bool → Result (Unit {0}) AppError
  absent contained = if contained then err (app_error conflict "Resource already exists") else ok tt

  abbrev absent_resource : String → Action AppState (Unit {0})
  absent_resource resource state = (state, absent (BTreeMap.contains_key state.resources resource))

  -- The resource is known, and cached without a revision.
  add_resource : String → Value → AppState → AppState
  add_resource resource initial state =
      let made =
        allocate (record state { resources = BTreeMap.insert state.resources resource tt })
          initial in
      update_cached_resource made.0 resource made.1

  drop_resource : String → AppState → AppState
  drop_resource resource state =
      remove_cached_resource (record state { resources = BTreeMap.remove state.resources resource })
        resource

  -- The file that a resource of the state stands in.
  file_of : String → Action AppState String
  file_of resource state = (state, resource_file_path state.data_source resource)

  unfoldable pub create_resource : String → Value → Action AppState Value
  unfolding refresh_after_resource_set_change add_resource file_of
  create_resource resource initial = do
    lift (validate_resource_name_for_management resource)
    validate_resource_data resource initial
    absent_resource resource
    file ← file_of resource
    on_disk λ state. create_resource_value state.data_source file resource initial
    modify λ state. add_resource resource initial state
    refresh_after_resource_set_change
    modify λ state. emit_event state "resource_changed" (some resource)
    return initial

  unfoldable pub delete_resource : String → Action AppState (Unit {0})
  unfolding refresh_after_resource_set_change drop_resource file_of
  delete_resource resource = do
    lift (validate_resource_name_for_management resource)
    known_resource resource
    file ← file_of resource
    on_disk λ state. delete_resource_value state.data_source file resource
    modify λ state. drop_resource resource state
    refresh_after_resource_set_change
    modify λ state. emit_event state "resource_changed" (some resource)
