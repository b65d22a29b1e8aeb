-- ===== src/Mutation/Service/Admitted.antt =====
-- update_locked_resource of src/mutation_service.rs and the invariant of the cache.
use dirbase.Prelude.{
  ℕ, String, Bool, true, false, Option, none, some, List, ◌≡◌, refl, sym, if◌then◌else◌,
}
use dirbase.BTreeMap
use dirbase.Error.{AppError, Result}
use dirbase.Runtime.{Runtime, Value}
use dirbase.Schema.Types.{Schema}
use dirbase.App.FileSystem.{FileSystem}
use dirbase.App.Action.{proceed, proceed-All}
use dirbase.App.SchemaStore.{replace_inferred}
use dirbase.App.SchemaStore.Trust.{
  Authorizes, replace_inferred-IsBoundedStore, replace_inferred-Authorizes,
}
use dirbase.App.State.{AppState, schema_table, allocate}
use dirbase.Storage.Cache.{Shared, CachedResource}
use dirbase.Storage.Cache.Updates.{update_cached_resource, insert_cached_resource_if_absent}
use dirbase.Storage.Io.{persist_resource_value}
use dirbase.Storage.Io.Names.{resource_file_path}
use dirbase.Storage.Loading.{
  on_disk, validate_resource_snapshot, load_resource_unvalidated, load_unvalidated, read_shared,
}
use dirbase.Storage.Loading.Source.{refresh_inferred_schema, install_inferred}
use dirbase.Storage.Loading.Writing.{
  write_shared, write_resource_snapshot, refresh_locally, mark_if, announce,
}
use dirbase.Storage.Admission.{Pending}
use dirbase.Storage.Admission.Entries.{insert-AllTrue, or_insert-AllTrue, unvalidated-IsTrue}
use dirbase.Storage.Admission.Invariant.{
  IsAdmitted, All-map, mark_cached_resource_validated-IsAdmitted,
  validate_resource_snapshot-IsAdmitted, validate_resource_snapshot-Authorizes,
}
use dirbase.Storage.Admission.Loads.{load_resource-IsAdmitted, read_shared-IsAdmitted}
use dirbase.Mutation.Service.{
  ResourceValidation, load_for, validate_and_write, update_locked_resource,
}

module _ ⦃rt : Runtime⦄ ⦃fs : FileSystem⦄ (pending : List Pending) where
  -- A state whose cache is true, where the revision still authorizes the value.
  abbrev Grants : String → Value → ℕ → AppState → Type 0
  Grants resource value revision state =
      IsAdmitted (state, pending) × Authorizes state.schema_store resource value revision

  replace_inferred-Grants :
      (state : AppState) (inferred : Schema) (resource : String) (value : Value) (revision : ℕ)
      → Grants resource value revision state
      → Grants resource value revision
          (record state { schema_store = (replace_inferred state.schema_store inferred).0 })
  replace_inferred-Grants state inferred resource value revision (all, h) = (
    record {
      bounded = replace_inferred-IsBoundedStore state.schema_store inferred all.bounded;
      entries = λ name cached found n e.
          replace_inferred-Authorizes state.schema_store inferred name cached.value.content n
            (all.entries name cached found n e);
      underway =
          All-map
            (λ p.
              replace_inferred-Authorizes state.schema_store inferred p.resource p.value.content
                p.validation_revision)
            pending all.underway;
    },
    replace_inferred-Authorizes state.schema_store inferred resource value revision h,
  )

  refresh_locally-Grants :
      (state : AppState) (written : String) (content : Value) (resource : String) (value : Value)
      (revision : ℕ)
      → Grants resource value revision state
      → Grants resource value revision (refresh_locally written content state).0
  unfolding refresh_locally
  refresh_locally-Grants state written content = replace_inferred-Grants state _

  -- Only the schemas and the cache count.
  same-IsAdmitted :
      (before after : AppState)
      → before.schema_store ≡ after.schema_store
      → before.resource_cache ≡ after.resource_cache
      → IsAdmitted (before, pending)
      → IsAdmitted (after, pending)
  same-IsAdmitted before after store cache all = record {
    bounded = rw (sym store) all.bounded;
    entries = rw (sym store, sym cache) all.entries;
    underway = rw (sym store) all.underway;
  }

  install_inferred-Grants :
      (state : AppState) (inferred : Schema) (resource : String) (value : Value) (revision : ℕ)
      → Grants resource value revision state
      → Grants resource value revision (install_inferred state inferred).0
  unfolding install_inferred
  install_inferred-Grants = replace_inferred-Grants

  refresh_inferred_schema-Grants :
      (state : AppState) (resource : String) (value : Value) (revision : ℕ)
      → Grants resource value revision state
      → Grants resource value revision (refresh_inferred_schema state).0
  unfolding refresh_inferred_schema
  refresh_inferred_schema-Grants state resource value revision h =
      proceed-All (Grants resource value revision) (state, _) _ h
        λ inferred read.
          let installed = install_inferred-Grants state inferred resource value revision h in
          proceed-All (Grants resource value revision) (install_inferred state inferred) _ installed
            λ done stored. (
              same-IsAdmitted (install_inferred state inferred).0 _ refl refl installed.0,
              installed.1,
            )

  refresh-Grants :
      (local : Bool) (state : AppState) (written : String) (content : Value) (resource : String)
      (value : Value) (revision : ℕ)
      → Grants resource value revision state
      → Grants resource value revision
          ((if local then refresh_locally written content else refresh_inferred_schema) state).0
  refresh-Grants true state written content = refresh_locally-Grants state written content
  refresh-Grants false state written content = refresh_inferred_schema-Grants state

  update_cached_resource-IsAdmitted :
      (state : AppState) (resource : String) (shared : Shared)
      → IsAdmitted (state, pending)
      → IsAdmitted (update_cached_resource state resource shared, pending)
  unfolding update_cached_resource
  update_cached_resource-IsAdmitted state resource shared all = record {
    bounded = all.bounded;
    entries =
        insert-AllTrue state.schema_store state.resource_cache resource _
          (unvalidated-IsTrue state.schema_store resource shared (schema_table state resource))
          all.entries;
    underway = all.underway;
  }

  write_shared-IsAdmitted :
      (state : AppState) (resource file : String) (local : Bool) (revision : ℕ) (shared : Shared)
      → IsAdmitted (state, pending)
      → Authorizes state.schema_store resource shared.content revision
      → IsAdmitted ((write_shared resource file local (some revision) shared state).0, pending)
  unfolding write_shared mark_if announce proceed update_cached_resource
  write_shared-IsAdmitted state resource file local revision shared all h =
      let here = λ (s : AppState). IsAdmitted (s, pending) in
      let written =
        on_disk (λ s. persist_resource_value s.data_source file resource shared.content) state in
      let kept : IsAdmitted (written.0, pending) = same-IsAdmitted state written.0 refl refl all in
      proceed-All here written _ kept λ done persisted.
        let cached = update_cached_resource written.0 resource shared in
        let fresh = update_cached_resource-IsAdmitted written.0 resource shared kept in
        let granted =
          refresh-Grants local cached resource shared.content resource shared.content revision
            (fresh, h) in
        let refreshed =
          (if local then refresh_locally resource shared.content else refresh_inferred_schema)
            cached in
        proceed-All here refreshed _ granted.0 λ _ installed.
          same-IsAdmitted (mark_if resource shared (some revision) refreshed.0) _ refl refl (
            mark_cached_resource_validated-IsAdmitted refreshed.0 pending resource shared revision
              granted.1 granted.0)

  write_resource_snapshot-IsAdmitted :
      (state : AppState) (resource : String) (value : Value) (revision : ℕ)
      → IsAdmitted (state, pending)
      → Authorizes state.schema_store resource value revision
      → IsAdmitted ((write_resource_snapshot resource value (some revision) state).0, pending)
  unfolding write_resource_snapshot
  write_resource_snapshot-IsAdmitted state resource value revision all h =
      let made = allocate state value in
      proceed-All (λ s. IsAdmitted (s, pending))
        (state, resource_file_path state.data_source resource) _ all
        λ file path.
          write_shared-IsAdmitted made.0 resource file _ revision made.1
            (same-IsAdmitted state made.0 refl refl all) h

  load_unvalidated-IsAdmitted :
      (state : AppState) (resource file : String) (cached : Option CachedResource)
      → IsAdmitted (state, pending)
      → IsAdmitted ((load_unvalidated resource file cached state).0, pending)
  unfolding load_unvalidated insert_cached_resource_if_absent proceed
  load_unvalidated-IsAdmitted state resource file (some cached) all = all
  load_unvalidated-IsAdmitted state resource file none all =
      let read = read_shared-IsAdmitted state pending file resource all in
      let after = (read_shared file resource state).0 in
      proceed-All (λ s. IsAdmitted (s, pending)) (read_shared file resource state) _ read
        λ shared done. record {
          bounded = read.bounded;
          entries =
              or_insert-AllTrue after.schema_store after.resource_cache resource _
                (unvalidated-IsTrue after.schema_store resource shared
                  (schema_table after resource))
                read.entries;
          underway = read.underway;
        }

  load_for-IsAdmitted :
      (validation : ResourceValidation) (state : AppState) (resource : String)
      → IsAdmitted (state, pending)
      → IsAdmitted ((load_for validation resource state).0, pending)
  unfolding load_for load_resource_unvalidated
  load_for-IsAdmitted ResourceValidation.before_and_after state resource all =
      load_resource-IsAdmitted state pending resource all
  load_for-IsAdmitted ResourceValidation.after_only state resource all =
      proceed-All (λ s. IsAdmitted (s, pending))
        (state, resource_file_path state.data_source resource) _ all
        λ file path.
          load_unvalidated-IsAdmitted state resource file
            (BTreeMap.get state.resource_cache resource) all

  validate_and_write-IsAdmitted {ℓ} :
      {T : Type ℓ} (state : AppState) (resource : String) (changed : Value × T)
      → IsAdmitted (state, pending)
      → IsAdmitted ((validate_and_write resource changed state).0, pending)
  unfolding validate_and_write
  validate_and_write-IsAdmitted state resource changed all =
      let checked = validate_resource_snapshot resource changed.0 state in
      let valid = validate_resource_snapshot-IsAdmitted state pending resource changed.0 all in
      proceed-All (λ s. IsAdmitted (s, pending)) checked _ valid
        λ revision e.
          let written =
            write_resource_snapshot-IsAdmitted checked.0 resource changed.0 revision valid
              (validate_resource_snapshot-Authorizes state resource changed.0 revision all.bounded
                e).2 in
          proceed-All (λ s. IsAdmitted (s, pending))
            (write_resource_snapshot resource changed.0 (some revision) checked.0) _ written
            λ done stored. written

  -- A mutation leaves the cache true, whatever its update does and wherever it fails.
  pub update_locked_resource-IsAdmitted {ℓ} :
      {T : Type ℓ} (state : AppState) (resource : String) (validation : ResourceValidation)
      (update : Value → Result (Value × T) AppError)
      → IsAdmitted (state, pending)
      → IsAdmitted ((update_locked_resource resource validation update state).0, pending)
  unfolding update_locked_resource
  update_locked_resource-IsAdmitted state resource validation update all =
      let loaded = load_for-IsAdmitted validation state resource all in
      let after = (load_for validation resource state).0 in
      proceed-All (λ s. IsAdmitted (s, pending)) (load_for validation resource state) _ loaded
        λ current found.
          proceed-All (λ s. IsAdmitted (s, pending)) (after, update current.content) _ loaded
            λ changed done. validate_and_write-IsAdmitted after resource changed loaded
