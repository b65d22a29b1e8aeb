-- ===== src/Storage/Io/Names.antt =====
-- The names of resources and the files they stand in.
use dirbase.Prelude.{
  String, Bool, not, ◌&&◌, ◌||◌, ◌==◌, false, Option, none, some, List, [], ◌∷◌, if◌then◌else◌,
  str_eq, is_some_and,
}
use dirbase.BTreeMap
use dirbase.Json.{as_object}
use dirbase.Error.{AppError, app_error, bad_request, Result, ok, err}
use dirbase.Text.{format, is_empty, all_chars, is_ascii_alphanumeric}
use dirbase.Runtime.{Runtime, Value}
use dirbase.App.FileSystem.{FileSystem, IoError}
use dirbase.App.SchemaStore.{BTreeSet}
use dirbase.App.State.{DataSource}

unfoldable pub is_valid_resource_name : String → Bool
is_valid_resource_name name =
    not (is_empty name) && all_chars (λ c. is_ascii_alphanumeric c || c == b'_' || c == b'-') name

reserved_names : List String
reserved_names =
    "resources" ∷ "schema" ∷ "graphql" ∷ "sql" ∷ "events" ∷ "healthz" ∷ "readyz" ∷ "metrics"
    ∷ "openapi" ∷ []

is_one_of : List String → String → Bool
is_one_of [] name = false
is_one_of (reserved ∷ rest) name = str_eq name reserved || is_one_of rest name

unfoldable pub is_reserved_resource_name : String → Bool
unfolding is_one_of reserved_names
is_reserved_resource_name name = is_one_of reserved_names name

abbrev add_resource : String → BTreeSet → BTreeSet
add_resource name resources =
    if is_valid_resource_name name && not (is_reserved_resource_name name)
    then BTreeMap.insert resources name tt
    else resources

module _ ⦃fs : FileSystem⦄ where
  unfoldable pub resource_file_path : DataSource → String → Result String AppError
  resource_file_path (DataSource.folder folder) resource =
      if not (is_valid_resource_name resource)
      then err (
          app_error bad_request
            "Resource name must only contain letters, numbers, underscore, and dash")
      else ok (fs.join_path folder (format (resource ∷ ".json" ∷ [])))
  resource_file_path (DataSource.file file) resource =
      if not (is_valid_resource_name resource)
      then err (
          app_error bad_request
            "Resource name must only contain letters, numbers, underscore, and dash")
      else ok file

  -- The resource of a folder's entry, if its file is one.
  entry_added : String → Option String → BTreeSet → BTreeSet
  entry_added path none resources = resources
  entry_added path (some stem) resources =
      if is_some_and (fs.extension path) (λ ext. str_eq ext "json")
      then add_resource stem resources
      else resources

  add_entries : List (Result String IoError) → BTreeSet → Result BTreeSet IoError
  unfolding entry_added
  add_entries [] resources = ok resources
  add_entries (err e ∷ entries) resources = err e
  add_entries (ok path ∷ entries) resources =
      add_entries entries (entry_added path (fs.file_stem path) resources)

  scan_entries : Result (List (Result String IoError)) IoError → Result BTreeSet IoError
  unfolding add_entries
  scan_entries (err e) = err e
  scan_entries (ok entries) = add_entries entries []

  unfoldable pub scan_resources_folder : fs.Disk → String → Result BTreeSet IoError
  unfolding scan_entries
  scan_resources_folder disk folder = scan_entries (fs.read_dir disk folder)

  add_keys : List String → BTreeSet → BTreeSet
  add_keys [] resources = resources
  add_keys (key ∷ keys) resources = add_keys keys (add_resource key resources)

  module _ ⦃rt : Runtime⦄ where
    scan_root : Option (BTreeMap.BTreeMap Value) → BTreeSet
    unfolding add_keys
    scan_root none = []
    scan_root (some root) = add_keys (BTreeMap.keys root) []

    scan_parsed : Result Value String → Result BTreeSet IoError
    unfolding scan_root
    scan_parsed (err e) = err (IoError.other e)
    scan_parsed (ok root) = ok (scan_root (as_object root))

    scan_text : Result String IoError → Result BTreeSet IoError
    unfolding scan_parsed
    scan_text (err e) = err e
    scan_text (ok raw) = scan_parsed (rt.from_str raw)

    unfoldable pub scan_resources_file : fs.Disk → String → Result BTreeSet IoError
    unfolding scan_text
    scan_resources_file disk file =
        if not (fs.exists disk file) then ok [] else scan_text (fs.read_to_string disk file)

    unfoldable pub scan_resources : fs.Disk → DataSource → Result BTreeSet IoError
    unfolding scan_resources_folder scan_resources_file
    scan_resources disk (DataSource.folder folder) = scan_resources_folder disk folder
    scan_resources disk (DataSource.file file) = scan_resources_file disk file
