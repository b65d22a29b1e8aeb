-- ===== src/Storage/Admission/Repeated.antt =====
-- load_resource of src/storage.rs, twice in a row.
use dirbase.Prelude.{
  ℕ, String, true, false, Option, none, some, ◌≡◌, refl, sym, ◌∙◌, ap, subst, arith, ◌==◌,
  Bool-cases, inl, inr, is_some_and, is_some_and-some,
}
use dirbase.BTreeMap
use dirbase.BTreeMap.{get-insert_self}
use dirbase.Error.{ok, ok-injective}
use dirbase.Runtime.{Runtime, Value}
use dirbase.Schema.Types.Equal.Sound.{==-IsSound}
use dirbase.App.FileSystem.{FileSystem}
use dirbase.App.Action.{proceed, proceed-eq-ok, proceed-All}
use dirbase.App.Metrics.{
  record_resource_cache_hit, record_resource_cache_revalidation, record_resource_cache_miss,
}
use dirbase.App.SchemaStore.{validation_snapshot}
use dirbase.App.State.{AppState, schema_table}
use dirbase.Storage.Cache.{Shared, CachedResource, cached_resource_from_value_at_revision}
use dirbase.Storage.Cache.Updates.{mark_cached_resource_validated, replaced_concurrently}
use dirbase.Storage.Io.{read_resource_value}
use dirbase.Storage.Io.Names.{resource_file_path}
use dirbase.Storage.Loading.{
  validate_resource_snapshot, admit, admit_and_mark, read_shared, load_from, load_resource, on_disk,
  known_resource,
}
use dirbase.Storage.Admission.Invariant.{admit-ok, admit-schema_store}
use dirbase.Storage.Validation.{validate_resource_data_with_table}
use dirbase.Schema.Types.{DeclaredTableSchema}

==-self : (n : ℕ) → (n == n) ≡ true
==-self n = ground arith

module _ ⦃rt : Runtime⦄ ⦃fs : FileSystem⦄ where
  -- The cache holds the value at the current revision of the resource.
  pub record IsCurrent (source : AppState) (resource : String) (value : Shared) (state : AppState)
      : Type 0 where
    pub entry : CachedResource
    pub found : BTreeMap.get state.resource_cache resource ≡ some entry
    pub same_value : entry.value ≡ value
    pub revision :
        entry.validation_revision ≡ some (validation_snapshot state.schema_store resource).0
    pub same_source : state.data_source ≡ source.data_source

  admit-kept :
      (state : AppState) (resource : String) (value : Value) (revision : ℕ)
      (table : Option DeclaredTableSchema)
      → ((admit state resource value revision table).0.resource_cache ≡ state.resource_cache)
        × ((admit state resource value revision table).0.data_source ≡ state.data_source)
  unfolding admit
  admit-kept state resource value revision none = (refl, refl)
  admit-kept state resource value revision (some table) =
      proceed-All
        (λ s. (s.resource_cache ≡ state.resource_cache) × (s.data_source ≡ state.data_source))
        (state, validate_resource_data_with_table resource value table) _ (refl, refl)
        λ done valid. (refl, refl)

  mark-IsCurrent :
      (source state : AppState) (resource : String) (value : Shared) (revision : ℕ)
      → replaced_concurrently state.resource_cache resource value ≡ false
      → revision ≡ (validation_snapshot state.schema_store resource).0
      → state.data_source ≡ source.data_source
      → IsCurrent source resource value
          (mark_cached_resource_validated state resource value revision)
  unfolding mark_cached_resource_validated cached_resource_from_value_at_revision
  mark-IsCurrent source state resource value revision free current kept = rw free (record {
    entry =
        cached_resource_from_value_at_revision value (schema_table state resource) (some revision);
    found = get-insert_self state.resource_cache resource _;
    same_value = refl;
    revision = ap some current;
    same_source = kept;
  })

  admit_and_mark-IsCurrent :
      (source state : AppState) (resource : String) (shared value : Shared)
      → replaced_concurrently state.resource_cache resource shared ≡ false
      → state.data_source ≡ source.data_source
      → (admit_and_mark resource shared state).1 ≡ ok value
      → IsCurrent source resource value (admit_and_mark resource shared state).0
  unfolding admit_and_mark validate_resource_snapshot proceed
  admit_and_mark-IsCurrent source state resource shared value free kept h =
      let snapshot = validation_snapshot state.schema_store resource in
      let checked = validate_resource_snapshot resource shared.content state in
      let (revision, (valid, rest)) = proceed-eq-ok checked _ h in
      let stays = admit-kept state resource shared.content snapshot.0 snapshot.1 in
      let store = admit-schema_store state resource shared.content snapshot.0 snapshot.1 in
      let current =
        (admit-ok state resource shared.content snapshot.0 snapshot.1 valid).0
        ∙ ap (λ st. (validation_snapshot st resource).0) (sym store) in
      subst (λ done. IsCurrent source resource value done.0) (sym rest)
        (subst
          (λ v.
            IsCurrent source resource v
              (mark_cached_resource_validated checked.0 resource shared revision))
          (ok-injective (sym (ap (λ r. r.1) rest) ∙ h))
          (mark-IsCurrent source checked.0 resource shared revision
            (ap (λ c. replaced_concurrently c resource shared) stays.0 ∙ free) current
            (stays.1 ∙ kept)))

  not_replaced_self :
      (state : AppState) (resource : String) (cached : CachedResource)
      → BTreeMap.get state.resource_cache resource ≡ some cached
      → replaced_concurrently state.resource_cache resource cached.value ≡ false
  unfolding replaced_concurrently
  not_replaced_self state resource cached found = rw found (ground arith)

  not_replaced_absent :
      (state : AppState) (resource : String) (value : Shared)
      → BTreeMap.get state.resource_cache resource ≡ none
      → replaced_concurrently state.resource_cache resource value ≡ false
  unfolding replaced_concurrently
  not_replaced_absent state resource value absent = rw absent refl

  read_shared-kept :
      (state : AppState) (file resource : String)
      → ((read_shared file resource state).0.resource_cache ≡ state.resource_cache)
        × ((read_shared file resource state).0.data_source ≡ state.data_source)
  unfolding read_shared on_disk
  read_shared-kept state file resource =
      proceed-All
        (λ s. (s.resource_cache ≡ state.resource_cache) × (s.data_source ≡ state.data_source))
        (known_resource resource state) _ (refl, refl)
        λ done known.
          proceed-All
            (λ s. (s.resource_cache ≡ state.resource_cache) × (s.data_source ≡ state.data_source))
            (on_disk (λ s. read_resource_value s.data_source file resource) state) _ (refl, refl)
            λ value read. (refl, refl)

  load_from-IsCurrent :
      (state : AppState) (resource file : String) (cached : Option CachedResource) (value : Shared)
      → BTreeMap.get state.resource_cache resource ≡ cached
      → (load_from resource file (validation_snapshot state.schema_store resource).0 cached state).1
        ≡ ok value
      → IsCurrent state resource value
          (load_from resource file
            (validation_snapshot state.schema_store resource).0
            cached
            state).0
  unfolding load_from proceed
  load_from-IsCurrent state resource file (some cached) value found h =
      let current = (validation_snapshot state.schema_store resource).0 in
      elim (Bool-cases (is_some_and cached.validation_revision (λ revision. revision == current))) [
        | inl hit ↦
            let (revision, marked, same) = is_some_and-some cached.validation_revision _ hit in
            rw hit (record {
              entry = cached;
              found = found;
              same_value = ok-injective (rw hit at h);
              revision = marked ∙ ap some (==-IsSound revision current same);
              same_source = refl;
            })
        | inr stale ↦
            let counted = record state {
              metrics = record_resource_cache_revalidation state.metrics;
            } in
            rw stale (
              admit_and_mark-IsCurrent state counted resource cached.value value
                (not_replaced_self counted resource cached found) refl (rw stale at h))
      ]
  load_from-IsCurrent state resource file none value found h =
      let missed = record state { metrics = record_resource_cache_miss state.metrics } in
      let (shared, (read, rest)) = proceed-eq-ok (read_shared file resource missed) _ h in
      let kept = read_shared-kept missed file resource in
      subst (λ done. IsCurrent state resource value done.0) (sym rest)
        (admit_and_mark-IsCurrent state (read_shared file resource missed).0 resource shared value
          (not_replaced_absent (read_shared file resource missed).0 resource shared
            (ap (λ c. BTreeMap.get c resource) kept.0 ∙ found))
          kept.1 (sym (ap (λ r. r.1) rest) ∙ h))

  load_resource-IsCurrent :
      (state : AppState) (resource : String) (value : Shared)
      → (load_resource resource state).1 ≡ ok value
      → (file : String) × (resource_file_path state.data_source resource ≡ ok file)
        × IsCurrent state resource value (load_resource resource state).0
  unfolding load_resource
  load_resource-IsCurrent state resource value h =
      let (file, (path, rest)) =
        proceed-eq-ok (state, resource_file_path state.data_source resource) _ h in
      (
        file,
        path,
        subst (λ done. IsCurrent state resource value done.0) (sym rest)
            (load_from-IsCurrent state resource file (BTreeMap.get state.resource_cache resource)
              value refl (sym (ap (λ r. r.1) rest) ∙ h)),
      )

  load_current :
      (source state : AppState) (resource file : String) (value : Shared)
      → resource_file_path source.data_source resource ≡ ok file
      → IsCurrent source resource value state
      → load_resource resource state
        ≡ (record state { metrics = record_resource_cache_hit state.metrics }, ok value)
  unfolding load_resource load_from proceed
  load_current source state resource file value path current =
      rw
        (
          ap (λ d. resource_file_path d resource) current.same_source,
          path,
          current.found,
          current.revision,
          ==-self (validation_snapshot state.schema_store resource).0,
          current.same_value,
        )
        refl

  -- After a load that succeeds, the next load of the resource answers with the same allocation and
  -- changes nothing but the counter of cache hits: the file is not read and nothing is validated again.
  pub load_resource-again :
      (state : AppState) (resource : String) (value : Shared)
      → (load_resource resource state).1 ≡ ok value
      → load_resource resource (load_resource resource state).0 ≡ (
        record (load_resource resource state).0 {
          metrics = record_resource_cache_hit (load_resource resource state).0.metrics;
        },
        ok value,
      )
  load_resource-again state resource value h =
      let (file, path, current) = load_resource-IsCurrent state resource value h in
      load_current state (load_resource resource state).0 resource file value path current
