-- ===== src/Storage/Io/RoundTrip.antt =====
-- Writing a resource (src/storage/io.rs) and reading it.
use dirbase.Prelude.{String, some, [], ◌∷◌, ◌≡◌, refl, ◌∙◌, ap, subst}
use dirbase.Error.{AppError, Result, ok, err, ok-injective}
use dirbase.Runtime.{Runtime, Value}
use dirbase.Text.{format}
use dirbase.App.FileSystem.{FileSystem, IoError}
use dirbase.App.Action.{proceed, proceed-Ensures, Succeeds}
use dirbase.BTreeMap
use dirbase.BTreeMap.{BTreeMap, get-insert_self}
use dirbase.Json.{from_object, as_object-from_object}
use dirbase.App.State.{DataSource}
use dirbase.Storage.Io.{read_resource_value, persist_resource_value, member}
use dirbase.Storage.Io.Database.{write_resource_in_db_file, write_root, root_object}
use dirbase.Storage.Io.Files.{
  missing_or_internal, internal, map_err, write_json_atomically_unlocked, write_json_atomically,
  pretty_payload, payload_of, read_file, parse_json,
}
use dirbase.Storage.Io.Faithful.{
  IsFaithful, Holds, locked, with_exclusive_file_lock-Ensures, write_json_atomically_unlocked-Holds,
}

module _ ⦃fs : FileSystem⦄ where
  module _ ⦃rt : Runtime⦄ where
    -- The JSON text of the value, with the newline that the program adds, is parsed as the value.
    abbrev pub ReadsBack : Value → Type 0
    ReadsBack value =
        (text : String)
        → rt.to_string_pretty value ≡ ok text
        → rt.from_str (format (text ∷ "\n" ∷ [])) ≡ ok value

    -- The root object that the database file has under the lock, with the resource in it.
    unfoldable pub IsRoot : String → String → Value → fs.Disk → Value → Type 0
    IsRoot file resource value disk printed =
        (root : Value) × (members : BTreeMap Value) × ((read_file internal file
            (locked disk file)).1
          ≡ ok root)
        × (root_object root ≡ ok members)
        × (printed ≡ from_object (BTreeMap.insert members resource value))

    -- The value that a write prints: the resource's own, or the root object of the database file with
    -- the resource in it.
    unfoldable pub IsPrinted : DataSource → String → String → Value → fs.Disk → Value → Type 0
    IsPrinted (DataSource.folder path) file resource value disk printed = printed ≡ value
    IsPrinted (DataSource.file path) file resource value disk printed =
        IsRoot file resource value disk printed

  module _ (faithful : IsFaithful) where
    module _ ⦃rt : Runtime⦄ where
      -- The file's text is the value.
      abbrev HoldsJson : String → Value → fs.Disk → Type 0
      HoldsJson file value disk =
          (payload : String) × (Holds file payload disk) × (parse_json payload ≡ ok value)

      unlock-HoldsJson :
          (file : String) (value : Value) (disk : fs.Disk) (lock : String)
          → HoldsJson file value disk
          → HoldsJson file value (fs.unlock disk lock)
      unlock-HoldsJson file value disk lock (payload, held, parsed) =
          (payload, faithful.read-unlock disk lock file ∙ held, parsed)

      payload_of-parse_json :
          (value : Value) (text : Result String String) (payload : String)
          → ReadsBack value
          → rt.to_string_pretty value ≡ text
          → payload_of text ≡ ok payload
          → parse_json payload ≡ ok value
      unfolding payload_of parse_json map_err
      payload_of-parse_json value (err e) payload reads_back h k = cc
      payload_of-parse_json value (ok text) payload reads_back h k =
          subst (λ t. parse_json t ≡ ok value) (ok-injective k) (rw (reads_back text h) refl)

      pretty_payload-parse_json :
          (value : Value) (payload : String)
          → ReadsBack value
          → pretty_payload value ≡ ok payload
          → parse_json payload ≡ ok value
      unfolding pretty_payload
      pretty_payload-parse_json value payload reads_back =
          payload_of-parse_json value (rt.to_string_pretty value) payload reads_back refl

      read_file-HoldsJson :
          (error : IoError → AppError) (file : String) (value : Value) (disk : fs.Disk)
          → HoldsJson file value disk
          → read_file error file disk ≡ (disk, ok value)
      unfolding read_file proceed map_err
      read_file-HoldsJson error file value disk (payload, held, parsed) = rw (held, parsed) refl

      write_root-HoldsJson :
          (file : String) (root : BTreeMap Value) (disk : fs.Disk)
          → ReadsBack (from_object root)
          → Succeeds (write_root file root disk).1
          → HoldsJson file (from_object root) (write_root file root disk).0
      unfolding write_root
      write_root-HoldsJson file root disk reads_back h =
          proceed-Ensures (HoldsJson file (from_object root))
            (disk, pretty_payload (from_object root)) _
            (λ payload shown done. (
              payload,
              write_json_atomically_unlocked-Holds faithful disk file payload done,
              pretty_payload-parse_json (from_object root) payload reads_back shown,
            ))
            h

      -- What is read of a resource in the database file is its member of the root object.
      abbrev HoldsMember : String → String → Value → fs.Disk → Type 0
      HoldsMember file resource value disk =
          (root : BTreeMap Value) × (HoldsJson file (from_object root) disk)
          × (BTreeMap.get root resource ≡ some value)

      write_resource_in_db_file-HoldsMember :
          (file resource : String) (value : Value) (disk : fs.Disk)
          → ((printed : Value) → IsRoot file resource value disk printed → ReadsBack printed)
          → Succeeds (write_resource_in_db_file file resource value disk).1
          → HoldsMember file resource value (write_resource_in_db_file file resource value disk).0
      unfolding write_resource_in_db_file IsRoot
      write_resource_in_db_file-HoldsMember file resource value disk reads_back =
          with_exclusive_file_lock-Ensures (HoldsMember file resource value)
            (λ d lock held.
              (held.0, unlock-HoldsJson file (from_object held.0) d lock held.1, held.2))
            disk file _
            λ h.
              let d = locked disk file in
              proceed-Ensures (HoldsMember file resource value) (read_file internal file d) _
                (λ root read one.
                  proceed-Ensures (HoldsMember file resource value)
                    ((read_file internal file d).0, root_object root) _
                    (λ members found two. (
                      BTreeMap.insert members resource value,
                      write_root-HoldsJson file (BTreeMap.insert members resource value)
                          (read_file internal file d).0
                          (reads_back (from_object (BTreeMap.insert members resource value))
                            (root, members, read, found, refl))
                          two,
                      get-insert_self members resource value,
                    ))
                    one)
                h

      read_resource_value-HoldsMember :
          (path file resource : String) (value : Value) (disk : fs.Disk)
          → HoldsMember file resource value disk
          → (read_resource_value (DataSource.file path) file resource disk).1 ≡ ok value
      unfolding read_resource_value proceed member
      read_resource_value-HoldsMember path file resource value disk (root, held, found) =
          rw
            (
              read_file-HoldsJson (missing_or_internal resource) file (from_object root) disk held,
              as_object-from_object root,
              found,
            )
            refl

      -- On a file system that keeps what is written to it, a resource whose write succeeds is read back
      -- as the value that was written, from a file of its own or from the database file, if the one
      -- value that the write prints, the resource or the root object with the resource in it, is
      -- parsed again as that value.
      pub read_resource_value-persist :
          (source : DataSource) (file resource : String) (value : Value) (disk : fs.Disk)
          → ((printed : Value)
              → IsPrinted source file resource value disk printed
              → ReadsBack printed)
          → (persist_resource_value source file resource value disk).1 ≡ ok tt
          → (read_resource_value source file resource
              (persist_resource_value source file resource value disk).0).1
            ≡ ok value
      unfolding persist_resource_value read_resource_value write_json_atomically IsPrinted
      read_resource_value-persist (DataSource.folder path) file resource value disk reads_back h =
          let held =
            proceed-Ensures (HoldsJson file value) (disk, pretty_payload value) _
              (λ payload shown done.
                with_exclusive_file_lock-Ensures (HoldsJson file value)
                  (unlock-HoldsJson file value) disk file
                  (write_json_atomically_unlocked file payload)
                  (λ wrote. (
                    payload,
                    write_json_atomically_unlocked-Holds faithful (locked disk file) file payload
                        wrote,
                    pretty_payload-parse_json value payload (reads_back value refl) shown,
                  ))
                  done)
              (tt, h) in
          ap (λ answer. answer.1)
            (read_file-HoldsJson (missing_or_internal resource) file value _ held)
      read_resource_value-persist (DataSource.file path) file resource value disk reads_back h =
          read_resource_value-HoldsMember path file resource value _
            (write_resource_in_db_file-HoldsMember file resource value disk reads_back (tt, h))
