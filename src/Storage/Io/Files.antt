-- ===== src/Storage/Io/Files.antt =====
-- The files: locked, and written through a temporary file.
use dirbase.Prelude.{String, Option, none, some, [], ◌∷◌, unwrap_or}
use dirbase.Error.{AppError, app_error, internal_server_error, not_found, conflict, Result, ok, err}
use dirbase.Runtime.{Runtime, Value}
use dirbase.Text.{format}
use dirbase.App.FileSystem.{FileSystem, IoError, io_text}
use dirbase.App.Action.{Action, return, lift, ◌>>=◌, ◌>>◌}

-- `map_err(|e| AppError::new(INTERNAL_SERVER_ERROR, e.to_string()))`
abbrev pub internal : IoError → AppError
internal e = app_error internal_server_error (io_text e)

abbrev pub resource_not_found : String → AppError
resource_not_found resource =
    app_error not_found (format ("Resource '" ∷ resource ∷ "' not found" ∷ []))

abbrev pub missing_or_internal : String → IoError → AppError
missing_or_internal resource (IoError.not_found text) = resource_not_found resource
missing_or_internal resource (IoError.already_exists text) = app_error internal_server_error text
missing_or_internal resource (IoError.other text) = app_error internal_server_error text

abbrev exists_or_internal : IoError → AppError
exists_or_internal (IoError.already_exists text) = app_error conflict "Resource already exists"
exists_or_internal (IoError.not_found text) = app_error internal_server_error text
exists_or_internal (IoError.other text) = app_error internal_server_error text

-- `result.map_err(f)`
unfoldable pub map_err {ℓ κ ν} :
    {A : Type ℓ} {E : Type κ} {F : Type ν} → Result A E → (E → F) → Result A F
map_err (ok a) f = ok a
map_err (err e) f = err (f e)

module _ ⦃fs : FileSystem⦄ where
  -- A call of the file system, its error turned into the handler's.
  unfoldable pub call :
      (fs.Disk → fs.Disk × Result (Unit {0}) IoError)
      → (IoError → AppError)
      → Action fs.Disk (Unit {0})
  unfolding map_err
  call operation error disk = let answer = operation disk in (answer.0, map_err answer.1 error)

  unfoldable pub sync_parent : Option String → Action fs.Disk (Unit {0})
  unfolding call
  sync_parent none = return tt
  sync_parent (some parent) = call (λ disk. fs.sync_all disk parent) internal

  abbrev pub lock_file_path : String → String
  lock_file_path file =
      fs.with_file_name file (format (unwrap_or (fs.file_name file) "resource" ∷ ".lock" ∷ []))

  -- The time in nanoseconds and the counter are the id.
  abbrev pub temp_name : String → String → String
  temp_name file id =
      fs.with_file_name file
        (format (unwrap_or (fs.file_name file) "resource.json" ∷ ".tmp." ∷ id ∷ []))

  abbrev pub temp_file_path : String → Action fs.Disk String
  temp_file_path file disk = let id = fs.temp_id disk in (id.0, ok (temp_name file id.1))

  unfoldable pub unlocked {ℓ} :
      {A : Type ℓ} → String → fs.Disk × Result A AppError → fs.Disk × Result A AppError
  unlocked lock answer = (fs.unlock answer.0 lock, answer.1)

  unfoldable pub with_exclusive_file_lock {ℓ} :
      {A : Type ℓ} → String → Action fs.Disk A → Action fs.Disk A
  unfolding unlocked
  with_exclusive_file_lock file f = do
    call (λ disk. fs.open_lock disk (lock_file_path file)) internal
    call (λ disk. fs.lock_exclusive disk (lock_file_path file)) internal
    λ disk. unlocked (lock_file_path file) (f disk)

  -- `write_all`, `flush` and `sync_all` of an open file.
  unfoldable pub write_through : String → String → Action fs.Disk (Unit {0})
  write_through file payload = do
    call (λ disk. fs.write_all disk file payload) internal
    call (λ disk. fs.flush disk file) internal
    call (λ disk. fs.sync_all disk file) internal

  unfoldable pub write_json_atomically_unlocked : String → String → Action fs.Disk (Unit {0})
  unfolding sync_parent write_through
  write_json_atomically_unlocked file payload = do
    temp_file ← temp_file_path file
    call (λ disk. fs.create_new disk temp_file) internal
    write_through temp_file payload
    call (λ disk. fs.rename disk temp_file file) internal
    sync_parent (fs.parent file)

  unfoldable pub write_json_atomically : String → String → Action fs.Disk (Unit {0})
  write_json_atomically file payload =
      with_exclusive_file_lock file (write_json_atomically_unlocked file payload)

  unfoldable pub create_json_resource_file : String → String → Action fs.Disk (Unit {0})
  unfolding sync_parent write_through
  create_json_resource_file file payload = with_exclusive_file_lock file (do
    call (λ disk. fs.create_new disk file) exists_or_internal
    write_through file payload
    sync_parent (fs.parent file))

  unfoldable pub delete_json_resource_file : String → String → Action fs.Disk (Unit {0})
  unfolding sync_parent
  delete_json_resource_file file resource = with_exclusive_file_lock file (do
    call (λ disk. fs.remove_file disk file) (missing_or_internal resource)
    sync_parent (fs.parent file))

  module _ ⦃rt : Runtime⦄ where
    -- `serde_json::from_str`, and the text that is written of a value.
    unfoldable pub parse_json : String → Result Value AppError
    unfolding map_err
    parse_json raw =
        map_err (rt.from_str raw)
          (λ e. app_error internal_server_error (format ("Invalid JSON: " ∷ e ∷ [])))

    unfoldable pub payload_of : Result String String → Result String AppError
    payload_of (ok content) = ok (format (content ∷ "\n" ∷ []))
    payload_of (err e) = err (app_error internal_server_error e)

    unfoldable pub pretty_payload : Value → Result String AppError
    unfolding payload_of
    pretty_payload value = payload_of (rt.to_string_pretty value)

    -- `read_to_string` and `from_str`
    unfoldable pub read_file : (IoError → AppError) → String → Action fs.Disk Value
    unfolding map_err parse_json
    read_file error file = do
      raw ← λ disk. (disk, map_err (fs.read_to_string disk file) error)
      lift (parse_json raw)
