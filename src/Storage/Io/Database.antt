-- ===== src/Storage/Io/Database.antt =====
-- The database file: one JSON object, with a member for each resource.
use dirbase.Prelude.{String, Bool, Option, none, some, [], if◌then◌else◌, true, false}
use dirbase.BTreeMap
use dirbase.BTreeMap.{BTreeMap}
use dirbase.Json.{as_object, from_object}
use dirbase.Error.{AppError, app_error, bad_request, conflict, Result, ok_or}
use dirbase.Runtime.{Runtime, Value}
use dirbase.Text.{is_empty}
use dirbase.App.FileSystem.{FileSystem}
use dirbase.App.Action.{Action, return, fail, lift, ◌>>=◌, ◌>>◌}
use dirbase.Storage.Io.Files.{
  internal, resource_not_found, missing_or_internal, call, with_exclusive_file_lock,
  write_json_atomically_unlocked, pretty_payload, read_file,
}

module _ ⦃rt : Runtime⦄ ⦃fs : FileSystem⦄ where
  abbrev pub root_object : Value → Result (BTreeMap Value) AppError
  root_object root =
      ok_or (as_object root) (app_error bad_request "Database file must contain a JSON object")

  unfoldable pub write_root : String → BTreeMap Value → Action fs.Disk (Unit {0})
  write_root file root = do
    payload ← lift (pretty_payload (from_object root))
    write_json_atomically_unlocked file payload

  unfoldable pub write_resource_in_db_file : String → String → Value → Action fs.Disk (Unit {0})
  unfolding write_root
  write_resource_in_db_file file resource value = with_exclusive_file_lock file (do
    root ← read_file internal file
    root_obj ← lift (root_object root)
    write_root file (BTreeMap.insert root_obj resource value))

  create_parent : Option String → Action fs.Disk (Unit {0})
  create_parent none = return tt
  create_parent (some parent) =
      if is_empty parent then return tt else call (λ disk. fs.create_dir_all disk parent) internal

  -- The object that stands in the file, or a new one.
  root_or_new : String → Bool → Action fs.Disk Value
  root_or_new file true = read_file internal file
  root_or_new file false = return (from_object [])

  unfoldable pub create_resource_in_db_file : String → String → Value → Action fs.Disk (Unit {0})
  unfolding write_root create_parent root_or_new
  create_resource_in_db_file file resource value = with_exclusive_file_lock file (do
    create_parent (fs.parent file)
    root ← λ disk. root_or_new file (fs.exists disk file) disk
    root_obj ← lift (root_object root)
    if BTreeMap.contains_key root_obj resource
        then fail (app_error conflict "Resource already exists")
        else write_root file (BTreeMap.insert root_obj resource value))

  unfoldable pub delete_resource_in_db_file : String → String → Action fs.Disk (Unit {0})
  unfolding write_root
  delete_resource_in_db_file file resource = with_exclusive_file_lock file (do
    root ← read_file (missing_or_internal resource) file
    root_obj ← lift (root_object root)
    if BTreeMap.contains_key root_obj resource
        then write_root file (BTreeMap.remove root_obj resource)
        else fail (resource_not_found resource))
