-- ===== src/Storage/Loading/Source.antt =====
-- `infer_schema_from_data_source` of src/schema/infer.rs, and what follows a change of the files.
use dirbase.Prelude.{String, Option, none, some, List, [], ◌∷◌, and_then}
use dirbase.BTreeMap
use dirbase.BTreeMap.{BTreeMap}
use dirbase.Json.{as_object}
use dirbase.Error.{AppError, app_error, internal_server_error, Result, ok, ◌>>=◌}
use dirbase.Runtime.{Runtime, Value}
use dirbase.Text.{format}
use dirbase.Schema.Types.{Schema}
use dirbase.Schema.Infer.{infer_schema_from_values}
use dirbase.App.FileSystem.{FileSystem, io_text}
use dirbase.App.Action.{Action, proceed}
use dirbase.App.Metrics.{mark_ready}
use dirbase.App.State.{DataSource, AppState, update_inferred_schema}
use dirbase.Storage.Io.Files.{map_err}

module _ ⦃rt : Runtime⦄ ⦃fs : FileSystem⦄ where
  -- A file's value, or the text of the error with the path before it.
  read_named : fs.Disk → String → Result Value String
  unfolding map_err
  read_named disk path = do
    raw ← map_err (fs.read_to_string disk path) (λ e. format (path ∷ ": " ∷ io_text e ∷ []))
    map_err (rt.from_str raw) (λ e. format (path ∷ ": invalid json: " ∷ e ∷ []))

  -- The loop over the resources of a folder.
  read_all : fs.Disk → String → List String → BTreeMap Value → Result (BTreeMap Value) String
  unfolding read_named
  read_all disk folder [] values = ok values
  read_all disk folder (resource ∷ resources) values = do
    value ← read_named disk (fs.join_path folder (format (resource ∷ ".json" ∷ [])))
    read_all disk folder resources (BTreeMap.insert values resource value)

  add_member : String → Option Value → BTreeMap Value → BTreeMap Value
  add_member resource none values = values
  add_member resource (some value) values = BTreeMap.insert values resource value

  -- The members of the database file that are resources.
  members : Option (BTreeMap Value) → List String → BTreeMap Value → BTreeMap Value
  unfolding add_member
  members object [] values = values
  members object (resource ∷ resources) values =
      members object resources
        (add_member resource (and_then object (λ o. BTreeMap.get o resource)) values)

  unfoldable pub infer_schema_from_data_source :
      fs.Disk → DataSource → List String → Result Schema String
  unfolding read_all read_named members
  infer_schema_from_data_source disk (DataSource.folder folder) resources = do
    values ← read_all disk folder resources []
    ok (infer_schema_from_values values)
  infer_schema_from_data_source disk (DataSource.file file) resources = do
    root ← read_named disk file
    ok (infer_schema_from_values (members (as_object root) resources []))

  -- `.map_err(AppError::internal)`
  abbrev pub internal_text : String → AppError
  internal_text text = app_error internal_server_error text

  unfoldable pub install_inferred : AppState → Schema → AppState × Result (Unit {0}) AppError
  unfolding map_err
  install_inferred state inferred =
      let done = update_inferred_schema state inferred in (done.0, map_err done.1 internal_text)

  -- src/storage.rs: reads every resource again; the state counts as ready when that succeeds.
  unfoldable pub refresh_inferred_schema : Action AppState (Unit {0})
  unfolding map_err install_inferred
  refresh_inferred_schema state =
      proceed
        (
          state,
          map_err
              (infer_schema_from_data_source state.disk state.data_source
                (BTreeMap.keys state.resources))
              internal_text,
        )
        λ inferred s.
          proceed (install_inferred s inferred) λ _ t. (record t { health = mark_ready }, ok tt)
