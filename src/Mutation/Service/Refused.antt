-- ===== src/Mutation/Service/Refused.antt =====
-- update_locked_resource of src/mutation_service.rs where the update is refused.
use dirbase.Prelude.{
  String, Option, none, some, ◌≡◌, refl, ◌∙◌, ap, Bool-cases, inl, inr, ◌⊎◌, ℕ, is_some_and, ◌==◌,
}
use dirbase.BTreeMap
use dirbase.Error.{AppError, Result, ok, err}
use dirbase.Runtime.{Runtime, Value}
use dirbase.App.FileSystem.{FileSystem, IoError}
use dirbase.App.Action.{proceed, proceed-All, proceed-eq-err, proceed-eq-next}
use dirbase.App.Metrics.{record_resource_cache_revalidation, record_resource_cache_miss}
use dirbase.App.SchemaStore.{validation_snapshot}
use dirbase.App.State.{DataSource, AppState}
use dirbase.Schema.Types.{DeclaredTableSchema}
use dirbase.Storage.Cache.{Shared, CachedResource}
use dirbase.Storage.Cache.Updates.{
  mark_cached_resource_validated, insert_cached_resource_if_absent, replaced_concurrently,
}
use dirbase.Storage.Io.{read_resource_value}
use dirbase.Storage.Io.Files.{read_file, missing_or_internal}
use dirbase.Storage.Io.Names.{resource_file_path}
use dirbase.Storage.Validation.{validate_resource_data_with_table}
use dirbase.Storage.Loading.{
  on_disk, known_resource, admit, validate_resource_snapshot, admit_and_mark, read_shared,
  load_from, load_resource, load_unvalidated, load_resource_unvalidated,
}
use dirbase.Mutation.Service.{
  ResourceValidation, load_for, validate_and_write, update_locked_resource,
}

module _ ⦃rt : Runtime⦄ ⦃fs : FileSystem⦄ where
  read_file-disk :
      (error : IoError → AppError) (file : String) (disk : fs.Disk)
      → (read_file error file disk).0 ≡ disk
  unfolding read_file
  read_file-disk error file disk = proceed-All (λ d. d ≡ disk) (disk, _) _ refl λ raw read. refl

  read_resource_value-disk :
      (source : DataSource) (file resource : String) (disk : fs.Disk)
      → (read_resource_value source file resource disk).0 ≡ disk
  unfolding read_resource_value
  read_resource_value-disk (DataSource.folder path) file resource disk =
      read_file-disk (missing_or_internal resource) file disk
  read_resource_value-disk (DataSource.file path) file resource disk =
      let same = read_file-disk (missing_or_internal resource) file disk in
      proceed-All (λ d. d ≡ disk) (read_file (missing_or_internal resource) file disk) _ same
        λ root read. same

  module _ (start : AppState) where
    abbrev SameDisk : AppState → Type 0
    SameDisk state = state.disk ≡ start.disk

    mark-SameDisk :
        (state : AppState) (resource : String) (value : Shared) (revision : ℕ)
        → SameDisk state
        → SameDisk (mark_cached_resource_validated state resource value revision)
    unfolding mark_cached_resource_validated
    mark-SameDisk state resource value revision same =
        elim (Bool-cases (replaced_concurrently state.resource_cache resource value)) [
          | inl replaced ↦ rw replaced same
          | inr free ↦ rw free same
        ]

    admit-SameDisk :
        (state : AppState) (resource : String) (value : Value) (revision : ℕ)
        (table : Option DeclaredTableSchema)
        → SameDisk state
        → SameDisk (admit state resource value revision table).0
    unfolding admit
    admit-SameDisk state resource value revision none same = same
    admit-SameDisk state resource value revision (some table) same =
        proceed-All SameDisk (state, validate_resource_data_with_table resource value table) _ same
          λ done valid. same

    validate_resource_snapshot-SameDisk :
        (state : AppState) (resource : String) (value : Value)
        → SameDisk state
        → SameDisk (validate_resource_snapshot resource value state).0
    unfolding validate_resource_snapshot
    validate_resource_snapshot-SameDisk state resource value =
        admit-SameDisk state resource value (validation_snapshot state.schema_store resource).0
          (validation_snapshot state.schema_store resource).1

    admit_and_mark-SameDisk :
        (state : AppState) (resource : String) (shared : Shared)
        → SameDisk state
        → SameDisk (admit_and_mark resource shared state).0
    unfolding admit_and_mark proceed
    admit_and_mark-SameDisk state resource shared same =
        let checked = validate_resource_snapshot resource shared.content state in
        let still = validate_resource_snapshot-SameDisk state resource shared.content same in
        proceed-All SameDisk checked _ still
          λ revision valid. mark-SameDisk checked.0 resource shared revision still

    read_shared-SameDisk :
        (state : AppState) (file resource : String)
        → SameDisk state
        → SameDisk (read_shared file resource state).0
    unfolding read_shared on_disk
    read_shared-SameDisk state file resource same =
        let still = read_resource_value-disk state.data_source file resource state.disk ∙ same in
        proceed-All SameDisk (known_resource resource state) _ same λ done known.
          proceed-All SameDisk
            (on_disk (λ s. read_resource_value s.data_source file resource) state) _ still
            λ value read. still

    load_from-SameDisk :
        (state : AppState) (resource file : String) (current : ℕ) (cached : Option CachedResource)
        → SameDisk state
        → SameDisk (load_from resource file current cached state).0
    unfolding load_from proceed
    load_from-SameDisk state resource file current (some cached) same =
        elim (Bool-cases
          (is_some_and cached.validation_revision (λ revision. revision == current))) [
            | inl hit ↦ rw hit same
            | inr stale ↦ rw stale (
                admit_and_mark-SameDisk
                  (record state { metrics = record_resource_cache_revalidation state.metrics })
                  resource cached.value same)
          ]
    load_from-SameDisk state resource file current none same =
        let missed = record state { metrics = record_resource_cache_miss state.metrics } in
        let still = read_shared-SameDisk missed file resource same in
        proceed-All SameDisk (read_shared file resource missed) _ still λ shared read.
          admit_and_mark-SameDisk (read_shared file resource missed).0 resource shared still

    load_unvalidated-SameDisk :
        (state : AppState) (resource file : String) (cached : Option CachedResource)
        → SameDisk state
        → SameDisk (load_unvalidated resource file cached state).0
    unfolding load_unvalidated insert_cached_resource_if_absent proceed
    load_unvalidated-SameDisk state resource file (some cached) same = same
    load_unvalidated-SameDisk state resource file none same =
        let still = read_shared-SameDisk state file resource same in
        proceed-All SameDisk (read_shared file resource state) _ still λ shared read. still

    load_for-SameDisk :
        (validation : ResourceValidation) (resource : String)
        → SameDisk (load_for validation resource start).0
    unfolding load_for load_resource load_resource_unvalidated
    load_for-SameDisk ResourceValidation.before_and_after resource =
        proceed-All SameDisk (start, resource_file_path start.data_source resource) _ refl
          λ file path.
            load_from-SameDisk start resource file
              (validation_snapshot start.schema_store resource).0
              (BTreeMap.get start.resource_cache resource) refl
    load_for-SameDisk ResourceValidation.after_only resource =
        proceed-All SameDisk (start, resource_file_path start.data_source resource) _ refl
          λ file path.
            load_unvalidated-SameDisk start resource file
              (BTreeMap.get start.resource_cache resource) refl

  -- Why an update is refused: its own error, or a result that does not satisfy the declared table.
  unfoldable pub Refuses {ℓ} :
      {T : Type ℓ} → AppState → String → Result (Value × T) AppError → AppError → Type ℓ
  Refuses {T} loaded resource changed failure =
      (changed ≡ err failure)
      ⊎ ((next : Value × T) × (changed ≡ ok next)
          × ((validate_resource_snapshot resource next.0 loaded).1 ≡ err failure))

  -- A mutation whose update fails, or whose result does not satisfy the declared table, answers with
  -- that error and leaves the disk as it was.
  pub update_locked_resource-refused {ℓ} :
      {T : Type ℓ} (state : AppState) (resource : String) (validation : ResourceValidation)
      (update : Value → Result (Value × T) AppError) (current : Shared) (failure : AppError)
      → (load_for validation resource state).1 ≡ ok current
      → Refuses (load_for validation resource state).0 resource (update current.content) failure
      → ((update_locked_resource resource validation update state).1 ≡ err failure)
        × ((update_locked_resource resource validation update state).0.disk ≡ state.disk)
  unfolding update_locked_resource validate_and_write Refuses
  update_locked_resource-refused state resource validation update current failure loaded
        (inl fails) =
      let start = load_for validation resource state in
      let answer =
        proceed-eq-next start _ current loaded
        ∙ proceed-eq-err (start.0, update current.content) _ failure fails in
      (
        ap (λ r. r.1) answer,
        ap (λ r. r.0.disk) answer ∙ load_for-SameDisk state validation resource,
      )
  update_locked_resource-refused state resource validation update current failure loaded
        (inr (next, changed, invalid)) =
      let start = load_for validation resource state in
      let answer =
        proceed-eq-next start _ current loaded
        ∙ (proceed-eq-next (start.0, update current.content) _ next changed
            ∙ proceed-eq-err (validate_resource_snapshot resource next.0 start.0) _ failure
                invalid) in
      (
        ap (λ r. r.1) answer,
        ap (λ r. r.0.disk) answer
            ∙ validate_resource_snapshot-SameDisk state start.0 resource next.0
                (load_for-SameDisk state validation resource),
      )
