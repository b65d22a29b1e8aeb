-- ===== src/Storage/Admission/Invariant.antt =====
-- The invariant of the cache of src/storage/cache.rs and the declared schema of src/app.rs.
use dirbase.Prelude.{
  ℕ, String, true, false, Option, none, some, List, [], ◌∷◌, ◌≡◌, refl, sym, ◌∙◌, ap, subst,
  Bool-cases, inl, inr, All, ◌≤◌,
}
use dirbase.BTreeMap
use dirbase.BTreeMap.{BTreeMap}
use dirbase.Error.{ok, ok-injective}
use dirbase.Runtime.{Runtime, Value}
use dirbase.Schema.Types.{DeclaredTableSchema}
use dirbase.App.FileSystem.{FileSystem}
use dirbase.App.Action.{proceed-eq-ok, proceed-All}
use dirbase.App.SchemaStore.{SchemaStore, validation_snapshot}
use dirbase.App.SchemaStore.Trust.{Authorizes, Conforms, IsBoundedStore}
use dirbase.App.State.{AppState, schema_table}
use dirbase.Storage.Cache.{Shared, cached_resource_from_value_at_revision}
use dirbase.Storage.Cache.Updates.{mark_cached_resource_validated, replaced_concurrently}
use dirbase.Storage.Validation.{validate_resource_data_with_table}
use dirbase.Storage.Loading.{validate_resource_snapshot, admit}
use dirbase.Storage.Admission.{Pending, World}
use dirbase.Storage.Admission.Entries.{AllTrue, insert-AllTrue, validated-IsTrue}

module _ ⦃rt : Runtime⦄ where
  abbrev pub PendingTrue : SchemaStore → Pending → Type 0
  PendingTrue store p = Authorizes store p.resource p.value.content p.validation_revision

  pub All-map :
      {P Q : Pending → Type 0}
      → ((p : Pending) → P p → Q p)
      → (pending : List Pending) → All P pending
      → All Q pending
  All-map f [] h = tt
  All-map f (p ∷ pending) h = (f p h.0, All-map f pending h.1)

  module _ ⦃fs : FileSystem⦄ where
    -- The revisions of the store, of the cache's entries and of the validations under way are true.
    pub record IsAdmitted (world : World) : Type 0 where
      pub bounded : IsBoundedStore world.0.schema_store
      pub entries : AllTrue world.0.schema_store world.0.resource_cache
      pub underway : All (PendingTrue world.0.schema_store) world.1

    -- Marking changes the cache only, and only to a true entry.
    mark_cached_resource_validated-replaced :
        (state : AppState) (resource : String) (value : Shared) (revision : ℕ)
        → replaced_concurrently state.resource_cache resource value ≡ true
        → mark_cached_resource_validated state resource value revision ≡ state
    unfolding mark_cached_resource_validated
    mark_cached_resource_validated-replaced state resource value revision h = rw h refl

    mark_cached_resource_validated-free :
        (state : AppState) (resource : String) (value : Shared) (revision : ℕ)
        → replaced_concurrently state.resource_cache resource value ≡ false
        → mark_cached_resource_validated state resource value revision ≡ record state {
          resource_cache = BTreeMap.insert state.resource_cache resource (
              cached_resource_from_value_at_revision value
                (schema_table state resource)
                (some revision));
        }
    unfolding mark_cached_resource_validated
    mark_cached_resource_validated-free state resource value revision h = rw h refl

    pub mark_cached_resource_validated-IsAdmitted :
        (state : AppState) (pending : List Pending) (resource : String) (value : Shared)
        (revision : ℕ)
        → Authorizes state.schema_store resource value.content revision
        → IsAdmitted (state, pending)
        → IsAdmitted (mark_cached_resource_validated state resource value revision, pending)
    mark_cached_resource_validated-IsAdmitted state pending resource value revision h all =
        elim (Bool-cases (replaced_concurrently state.resource_cache resource value)) [
          | inl replaced ↦
              subst (λ s. IsAdmitted (s, pending))
                (sym
                  (mark_cached_resource_validated-replaced state resource value revision replaced))
                all
          | inr free ↦
              subst (λ s. IsAdmitted (s, pending))
                (sym (mark_cached_resource_validated-free state resource value revision free))
                (record {
                  bounded = all.bounded;
                  entries =
                      insert-AllTrue state.schema_store state.resource_cache resource _
                        (validated-IsTrue state.schema_store resource value
                          (schema_table state resource) revision h)
                        all.entries;
                  underway = all.underway;
                })
        ]

    pub admit-ok :
        (state : AppState) (resource : String) (value : Value) (revision : ℕ)
        (table : Option DeclaredTableSchema)
        → {answer : ℕ} → (admit state resource value revision table).1 ≡ ok answer
        → (answer ≡ revision) × Conforms resource table value
    unfolding admit Conforms
    admit-ok state resource value revision none h = (sym (ok-injective h), tt)
    admit-ok state resource value revision (some table) h =
        let (done, (valid, rest)) =
          proceed-eq-ok (state, validate_resource_data_with_table resource value table) _ h in
        (sym (ok-injective (sym (ap (λ r. r.1) rest) ∙ h)), valid)

    -- Validation changes the counters only.
    admit-IsAdmitted :
        (state : AppState) (pending : List Pending) (resource : String) (value : Value)
        (revision : ℕ) (table : Option DeclaredTableSchema)
        → IsAdmitted (state, pending)
        → IsAdmitted ((admit state resource value revision table).0, pending)
    unfolding admit
    admit-IsAdmitted state pending resource value revision none h = h
    admit-IsAdmitted state pending resource value revision (some table) h =
        proceed-All (λ s. IsAdmitted (s, pending))
          (state, validate_resource_data_with_table resource value table) _ h
          λ done valid. record { bounded = h.bounded; entries = h.entries; underway = h.underway }

    pub validate_resource_snapshot-IsAdmitted :
        (state : AppState) (pending : List Pending) (resource : String) (value : Value)
        → IsAdmitted (state, pending)
        → IsAdmitted ((validate_resource_snapshot resource value state).0, pending)
    unfolding validate_resource_snapshot
    validate_resource_snapshot-IsAdmitted state pending resource value =
        admit-IsAdmitted state pending resource value
          (validation_snapshot state.schema_store resource).0
          (validation_snapshot state.schema_store resource).1

    pub admit-schema_store :
        (state : AppState) (resource : String) (value : Value) (revision : ℕ)
        (table : Option DeclaredTableSchema)
        → (admit state resource value revision table).0.schema_store ≡ state.schema_store
    unfolding admit
    admit-schema_store state resource value revision none = refl
    admit-schema_store state resource value revision (some table) =
        proceed-All (λ s. s.schema_store ≡ state.schema_store)
          (state, validate_resource_data_with_table resource value table) _ refl λ done valid. refl

    -- The revision that a validation returns is true.
    pub validate_resource_snapshot-Authorizes :
        (state : AppState) (resource : String) (value : Value) (revision : ℕ)
        → IsBoundedStore state.schema_store
        → (validate_resource_snapshot resource value state).1 ≡ ok revision
        → (revision ≡ (validation_snapshot state.schema_store resource).0)
          × Conforms resource (validation_snapshot state.schema_store resource).1 value
          × Authorizes
              (validate_resource_snapshot resource value state).0.schema_store
              resource
              value
              revision
    unfolding validate_resource_snapshot validation_snapshot
    validate_resource_snapshot-Authorizes state resource value revision bounded h =
        let snapshot = validation_snapshot state.schema_store resource in
        let (same, conforms) = admit-ok state resource value snapshot.0 snapshot.1 h in
        (
          same,
          conforms,
          subst (λ store. Authorizes store resource value revision)
              (sym (admit-schema_store state resource value snapshot.0 snapshot.1))
              (
                subst (λ n. n ≤ state.schema_store.next_declared_revision) (sym same)
                    (bounded resource),
                λ current. conforms,
              ),
        )
