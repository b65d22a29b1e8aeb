-- ===== src/Storage/Admission/Loads.antt =====
-- load_resource of src/storage.rs from its start to its end, and the invariant of the cache.
use dirbase.Prelude.{
  ℕ, String, Option, none, some, List, ◌≡◌, refl, sym, ◌∙◌, ap, subst, ◌==◌, Bool-cases, inl, inr,
  is_some_and, is_some_and-some,
}
use dirbase.BTreeMap
use dirbase.Error.{ok, ok-injective}
use dirbase.Runtime.{Runtime, Value}
use dirbase.Schema.Types.Equal.Sound.{==-IsSound}
use dirbase.App.FileSystem.{FileSystem}
use dirbase.App.Action.{proceed, proceed-eq-ok, proceed-All}
use dirbase.App.SchemaStore.{SchemaStore, validation_snapshot}
use dirbase.App.SchemaStore.Trust.{Conforms}
use dirbase.App.Metrics.{record_resource_cache_revalidation, record_resource_cache_miss}
use dirbase.App.State.{AppState}
use dirbase.Storage.Cache.{Shared, CachedResource}
use dirbase.Storage.Io.{read_resource_value}
use dirbase.Storage.Io.Names.{resource_file_path}
use dirbase.Storage.Loading.{
  validate_resource_snapshot, admit_and_mark, read_shared, load_from, load_resource, on_disk,
  known_resource,
}
use dirbase.Storage.Admission.{Pending}
use dirbase.Storage.Admission.Invariant.{
  IsAdmitted, admit-ok, validate_resource_snapshot-IsAdmitted,
  validate_resource_snapshot-Authorizes, mark_cached_resource_validated-IsAdmitted,
}

module _ ⦃rt : Runtime⦄ ⦃fs : FileSystem⦄ where
  abbrev IsDeclared : SchemaStore → String → Value → Type 0
  IsDeclared store resource value = Conforms resource (validation_snapshot store resource).1 value

  admit_and_mark-Conforms :
      (state : AppState) (resource : String) (shared value : Shared)
      → (admit_and_mark resource shared state).1 ≡ ok value
      → IsDeclared state.schema_store resource value.content
  unfolding admit_and_mark validate_resource_snapshot proceed
  admit_and_mark-Conforms state resource shared value h =
      let snapshot = validation_snapshot state.schema_store resource in
      let (revision, (valid, rest)) =
        proceed-eq-ok (validate_resource_snapshot resource shared.content state) _ h in
      subst (λ v. IsDeclared state.schema_store resource v.content)
        (ok-injective (sym (ap (λ r. r.1) rest) ∙ h))
        (admit-ok state resource shared.content snapshot.0 snapshot.1 valid).1

  read_shared-schema_store :
      (state : AppState) (file resource : String)
      → (read_shared file resource state).0.schema_store ≡ state.schema_store
  unfolding read_shared on_disk
  read_shared-schema_store state file resource =
      let kept = λ (s : AppState). s.schema_store ≡ state.schema_store in
      proceed-All kept (known_resource resource state) _ refl λ done known.
        proceed-All kept (on_disk (λ s. read_resource_value s.data_source file resource) state) _
          refl λ value read. refl

  load_from-Conforms :
      (state : AppState) (pending : List Pending) (resource file : String)
      (cached : Option CachedResource) (value : Shared)
      → IsAdmitted (state, pending)
      → BTreeMap.get state.resource_cache resource ≡ cached
      → (load_from resource file (validation_snapshot state.schema_store resource).0 cached state).1
        ≡ ok value
      → IsDeclared state.schema_store resource value.content
  unfolding load_from proceed
  load_from-Conforms state pending resource file (some cached) value all found h =
      elim (Bool-cases (
        is_some_and cached.validation_revision
          (λ revision. revision == (validation_snapshot state.schema_store resource).0))) [
            | inl current ↦
                let (revision, marked, same) =
                  is_some_and-some cached.validation_revision _ current in
                subst (λ v. IsDeclared state.schema_store resource v.content)
                  (ok-injective (rw current at h))
                  ((all.entries resource cached found revision marked).1
                    (==-IsSound revision _ same))
            | inr stale ↦
                admit_and_mark-Conforms
                  (record state { metrics = record_resource_cache_revalidation state.metrics })
                  resource cached.value value (rw stale at h)
          ]
  load_from-Conforms state pending resource file none value all found h =
      let missed = record state { metrics = record_resource_cache_miss state.metrics } in
      let (shared, (read, rest)) = proceed-eq-ok (read_shared file resource missed) _ h in
      subst (λ store. IsDeclared store resource value.content)
        (read_shared-schema_store missed file resource)
        (admit_and_mark-Conforms (read_shared file resource missed).0 resource shared value
          (sym (ap (λ r. r.1) rest) ∙ h))

  -- Whatever `load_resource` returns, from the cache as it stands, from the cache after validation or
  -- from the file, satisfies the declared table of the resource.
  pub load_resource-Conforms :
      (state : AppState) (pending : List Pending) (resource : String) (value : Shared)
      → IsAdmitted (state, pending)
      → (load_resource resource state).1 ≡ ok value
      → Conforms resource (validation_snapshot state.schema_store resource).1 value.content
  unfolding load_resource
  load_resource-Conforms state pending resource value all h =
      let (file, (path, rest)) =
        proceed-eq-ok (state, resource_file_path state.data_source resource) _ h in
      load_from-Conforms state pending resource file (BTreeMap.get state.resource_cache resource)
        value all refl (sym (ap (λ r. r.1) rest) ∙ h)

  admit_and_mark-IsAdmitted :
      (state : AppState) (pending : List Pending) (resource : String) (shared : Shared)
      → IsAdmitted (state, pending)
      → IsAdmitted ((admit_and_mark resource shared state).0, pending)
  unfolding admit_and_mark proceed
  admit_and_mark-IsAdmitted state pending resource shared all =
      let after = validate_resource_snapshot resource shared.content state in
      proceed-All (λ s. IsAdmitted (s, pending)) after _
        (validate_resource_snapshot-IsAdmitted state pending resource shared.content all)
        λ revision valid.
          mark_cached_resource_validated-IsAdmitted after.0 pending resource shared revision
            (validate_resource_snapshot-Authorizes state resource shared.content revision
              all.bounded valid).2
            (validate_resource_snapshot-IsAdmitted state pending resource shared.content all)

  pub read_shared-IsAdmitted :
      (state : AppState) (pending : List Pending) (file resource : String)
      → IsAdmitted (state, pending)
      → IsAdmitted ((read_shared file resource state).0, pending)
  unfolding read_shared on_disk
  read_shared-IsAdmitted state pending file resource all =
      proceed-All (λ s. IsAdmitted (s, pending)) (known_resource resource state) _ all
        λ done known.
          proceed-All (λ s. IsAdmitted (s, pending))
            (on_disk (λ s. read_resource_value s.data_source file resource) state) _
            (record { bounded = all.bounded; entries = all.entries; underway = all.underway })
            λ value read. record {
              bounded = all.bounded;
              entries = all.entries;
              underway = all.underway;
            }

  load_from-IsAdmitted :
      (state : AppState) (pending : List Pending) (resource file : String) (current : ℕ)
      (cached : Option CachedResource)
      → IsAdmitted (state, pending)
      → IsAdmitted ((load_from resource file current cached state).0, pending)
  unfolding load_from proceed
  load_from-IsAdmitted state pending resource file current (some cached) all =
      elim (Bool-cases (is_some_and cached.validation_revision (λ revision. revision == current))) [
        | inl hit ↦
            rw hit
              (record { bounded = all.bounded; entries = all.entries; underway = all.underway })
        | inr stale ↦ rw stale (
            admit_and_mark-IsAdmitted
              (record state { metrics = record_resource_cache_revalidation state.metrics }) pending
              resource cached.value
              (record { bounded = all.bounded; entries = all.entries; underway = all.underway }))
      ]
  load_from-IsAdmitted state pending resource file current none all =
      let missed = record state { metrics = record_resource_cache_miss state.metrics } in
      let read =
        read_shared-IsAdmitted missed pending file resource
          (record { bounded = all.bounded; entries = all.entries; underway = all.underway }) in
      proceed-All (λ s. IsAdmitted (s, pending)) (read_shared file resource missed) _ read
        λ shared done.
          admit_and_mark-IsAdmitted (read_shared file resource missed).0 pending resource shared
            read

  -- A load leaves the cache true, whether it succeeds or fails.
  pub load_resource-IsAdmitted :
      (state : AppState) (pending : List Pending) (resource : String)
      → IsAdmitted (state, pending)
      → IsAdmitted ((load_resource resource state).0, pending)
  unfolding load_resource
  load_resource-IsAdmitted state pending resource all =
      proceed-All (λ s. IsAdmitted (s, pending))
        (state, resource_file_path state.data_source resource) _ all
        λ file path.
          load_from-IsAdmitted state pending resource file
            (validation_snapshot state.schema_store resource).0
            (BTreeMap.get state.resource_cache resource) all
