-- ===== src/Storage/Io.antt =====
-- src/storage/io.rs: resources on disk, a file each in a folder or the members of one database file.
pub mod Names
pub mod Files
pub mod Database
pub mod Faithful
pub mod RoundTrip
use dirbase.Prelude.{String, Option, none, some, List, [], ◌∷◌, and_then}
use dirbase.BTreeMap
use dirbase.Json.{as_object}
use dirbase.Error.{AppError, app_error, internal_server_error, not_found, Result, ok, err, ok_or}
use dirbase.Runtime.{Runtime, Value}
use dirbase.App.FileSystem
use dirbase.App.FileSystem.{FileSystem, IoError, io_text}
use dirbase.App.State.{DataSource}
use dirbase.App.Action.{Action, lift, ◌>>=◌}
use dirbase.Storage.Io.Files.{
  internal, parse_json, resource_not_found, missing_or_internal, write_json_atomically,
  create_json_resource_file, delete_json_resource_file, pretty_payload, read_file,
}
use dirbase.Storage.Io.Database.{
  write_resource_in_db_file, create_resource_in_db_file, delete_resource_in_db_file,
}

module _ ⦃rt : Runtime⦄ ⦃fs : FileSystem⦄ where
  unfoldable pub member : String → Value → Result Value AppError
  member resource root =
      ok_or (and_then (as_object root) (λ obj. BTreeMap.get obj resource))
        (resource_not_found resource)

  unfoldable pub read_resource_value : DataSource → String → String → Action fs.Disk Value
  unfolding member
  read_resource_value (DataSource.folder _) file resource =
      read_file (missing_or_internal resource) file
  read_resource_value (DataSource.file _) file resource = do
    root ← read_file (missing_or_internal resource) file
    lift (member resource root)

  unfoldable pub persist_resource_value :
      DataSource → String → String → Value → Action fs.Disk (Unit {0})
  persist_resource_value (DataSource.folder _) file resource value = do
    payload ← lift (pretty_payload value)
    write_json_atomically file payload
  persist_resource_value (DataSource.file _) file resource value =
      write_resource_in_db_file file resource value

  unfoldable pub create_resource_value :
      DataSource → String → String → Value → Action fs.Disk (Unit {0})
  create_resource_value (DataSource.folder _) file resource value = do
    payload ← lift (pretty_payload value)
    create_json_resource_file file payload
  create_resource_value (DataSource.file _) file resource value =
      create_resource_in_db_file file resource value

  unfoldable pub delete_resource_value : DataSource → String → String → Action fs.Disk (Unit {0})
  delete_resource_value (DataSource.folder _) file resource =
      delete_json_resource_file file resource
  delete_resource_value (DataSource.file _) file resource = delete_resource_in_db_file file resource
