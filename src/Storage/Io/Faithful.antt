-- ===== src/Storage/Io/Faithful.antt =====
-- What the program relies on in a file system, and the atomic write of src/storage/io.rs on it.
use dirbase.Prelude.{String, Option, none, some, ◌≡◌, ◌∙◌, ap}
use dirbase.Error.{AppError, Result, ok, err, err-ne-ok, ok-injective}
use dirbase.App.FileSystem.{FileSystem, IoError}
use dirbase.App.Action.{Action, proceed, proceed-Ensures, Succeeds}
use dirbase.Storage.Io.Files.{
  internal, call, map_err, with_exclusive_file_lock, write_through, write_json_atomically_unlocked,
  sync_parent, unlocked, temp_name, lock_file_path,
}

module _ ⦃fs : FileSystem⦄ where
  -- What the program relies on: a new file holds what is written to it, a rename brings the content
  -- along, and neither a flush nor a lock changes what a file holds.
  pub record IsFaithful : Type 0 where
    pub read-write_all :
        (disk : fs.Disk) (file payload : String)
        → (fs.create_new disk file).1 ≡ ok tt
        → (fs.write_all (fs.create_new disk file).0 file payload).1 ≡ ok tt
        → fs.read_to_string (fs.write_all (fs.create_new disk file).0 file payload).0 file
          ≡ ok payload
    pub read-flush :
        (disk : fs.Disk) (file other : String)
        → fs.read_to_string (fs.flush disk file).0 other ≡ fs.read_to_string disk other
    pub read-sync_all :
        (disk : fs.Disk) (file other : String)
        → fs.read_to_string (fs.sync_all disk file).0 other ≡ fs.read_to_string disk other
    pub read-rename :
        (disk : fs.Disk) (from file : String)
        → (fs.rename disk from file).1 ≡ ok tt
        → fs.read_to_string (fs.rename disk from file).0 file ≡ fs.read_to_string disk from
    pub read-unlock :
        (disk : fs.Disk) (lock other : String)
        → fs.read_to_string (fs.unlock disk lock) other ≡ fs.read_to_string disk other

  -- The disk when the lock of the file is taken.
  unfoldable pub locked : fs.Disk → String → fs.Disk
  locked disk file =
      (fs.lock_exclusive (fs.open_lock disk (lock_file_path file)).0 (lock_file_path file)).0

  abbrev pub Holds : String → String → fs.Disk → Type 0
  Holds file payload disk = fs.read_to_string disk file ≡ ok payload

  map_err-eq-ok {ℓ κ ν} :
      {A : Type ℓ} {E : Type κ} {F : Type ν} (r : Result A E) (f : E → F) {a : A}
      → map_err r f ≡ ok a
      → r ≡ ok a
  unfolding map_err
  map_err-eq-ok (ok b) f h = ap ok (ok-injective h)
  map_err-eq-ok (err e) f h = absurd (err-ne-ok h)

  call-eq-ok :
      (operation : fs.Disk → fs.Disk × Result (Unit {0}) IoError) (error : IoError → AppError)
      (disk : fs.Disk) (u : Unit {0})
      → (call operation error disk).1 ≡ ok u
      → (operation disk).1 ≡ ok tt
  unfolding call
  call-eq-ok operation error disk u h = map_err-eq-ok (operation disk).1 error h

  module _ (faithful : IsFaithful) where
    sync_parent-Holds :
        (parent : Option String) (file payload : String) (disk : fs.Disk)
        → Holds file payload disk
        → Holds file payload (sync_parent parent disk).0
    unfolding sync_parent call
    sync_parent-Holds none file payload disk h = h
    sync_parent-Holds (some parent) file payload disk h =
        faithful.read-sync_all disk parent file ∙ h

    write_through-Holds :
        (disk : fs.Disk) (file payload : String)
        → (fs.create_new disk file).1 ≡ ok tt
        → Succeeds (write_through file payload (fs.create_new disk file).0).1
        → Holds file payload (write_through file payload (fs.create_new disk file).0).0
    unfolding write_through call
    write_through-Holds disk file payload made h =
        let opened = (fs.create_new disk file).0 in
        let written = (fs.write_all opened file payload).0 in
        proceed-Ensures (Holds file payload)
          (call (λ d. fs.write_all d file payload) internal opened) _
          (λ u wrote done.
            proceed-Ensures (Holds file payload) (call (λ d. fs.flush d file) internal written) _
              (λ v flushed end.
                faithful.read-sync_all (fs.flush written file).0 file file
                ∙ faithful.read-flush written file file
                ∙ faithful.read-write_all disk file payload made
                    (call-eq-ok (λ d. fs.write_all d file payload) internal opened u wrote))
              done)
          h

    pub write_json_atomically_unlocked-Holds :
        (disk : fs.Disk) (file payload : String)
        → Succeeds (write_json_atomically_unlocked file payload disk).1
        → Holds file payload (write_json_atomically_unlocked file payload disk).0
    unfolding write_json_atomically_unlocked call proceed
    write_json_atomically_unlocked-Holds disk file payload h =
        let start = (fs.temp_id disk).0 in
        let temp = temp_name file (fs.temp_id disk).1 in
        let opened = (fs.create_new start temp).0 in
        let written = (write_through temp payload opened).0 in
        proceed-Ensures (Holds file payload) (call (λ d. fs.create_new d temp) internal start) _
          (λ u made one.
            proceed-Ensures (Holds file payload) (write_through temp payload opened) _
              (λ v wrote two.
                proceed-Ensures (Holds file payload)
                  (call (λ d. fs.rename d temp file) internal written) _
                  (λ w moved end.
                    sync_parent-Holds (fs.parent file) file payload (fs.rename written temp file).0
                      (faithful.read-rename written temp file
                          (call-eq-ok (λ d. fs.rename d temp file) internal written w moved)
                        ∙ write_through-Holds start temp payload
                            (call-eq-ok (λ d. fs.create_new d temp) internal start u made)
                            (v, wrote)))
                  two)
              one)
          h

  pub with_exclusive_file_lock-Ensures {ℓ} :
      {A : Type ℓ} (P : fs.Disk → Type 0)
      → ((d : fs.Disk) (lock : String) → P d → P (fs.unlock d lock))
      → (disk : fs.Disk) (file : String) (f : Action fs.Disk A)
      → (Succeeds (f (locked disk file)).1 → P (f (locked disk file)).0)
      → Succeeds (with_exclusive_file_lock file f disk).1
      → P (with_exclusive_file_lock file f disk).0
  unfolding with_exclusive_file_lock unlocked call locked
  with_exclusive_file_lock-Ensures P kept disk file f ensures h =
      let lock = lock_file_path file in
      let opened = (fs.open_lock disk lock).0 in
      let taken = (fs.lock_exclusive opened lock).0 in
      proceed-Ensures P (call (λ d. fs.open_lock d lock) internal disk) _
        (λ u free one.
          proceed-Ensures P (call (λ d. fs.lock_exclusive d lock) internal opened) _
            (λ v mine two. kept (f taken).0 lock (ensures two)) one)
        h
