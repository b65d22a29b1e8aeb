-- ===== src/App/SchemaStore/Trust.antt =====
-- Revisions of the schema store (src/app.rs) as grounds for a value to satisfy its declared table.
use dirbase.Prelude.{
  ℕ, String, Bool, true, false, ◌+◌, ◌≤◌, ◌<◌, Option, none, some, ◌≡◌, refl, ◌∙◌, subst, arith,
  Bool-cases, inl, inr, length,
}
use dirbase.Error.{Result, ok, err}
use dirbase.Runtime.{Runtime, Value}
use dirbase.Schema.Types.{DeclaredTableSchema, DeclaredSchema, Schema}
use dirbase.Schema.Types.Equal.{same_table}
use dirbase.Schema.Types.Equal.Sound.{IsSound, same_table-IsSound}
use dirbase.Schema.Merge.{merge_schemas}
use dirbase.Storage.Validation.{validate_resource_data_with_table}
use dirbase.App.SchemaStore.{
  u64_size, declared_table, changed_resources, SchemaStore, replace_declared, replace_inferred,
  install_declared, merged_into, validation_snapshot,
}
use dirbase.App.SchemaStore.Revisions.{
  IsBounded, revise_all-IsBounded, revise_all-grows, revise_all-kept, revise_all-fresh,
  changed_resources-found,
}

module _ ⦃rt : Runtime⦄ where
  -- The value satisfies the table, if one is declared.
  unfoldable pub Conforms : String → Option DeclaredTableSchema → Value → Type 0
  Conforms resource none value = Unit
  Conforms resource (some table) value =
      validate_resource_data_with_table resource value table ≡ ok tt

  -- No revision of the store is above the last one given out.
  abbrev pub IsBoundedStore : SchemaStore → Type 0
  IsBoundedStore store = IsBounded (store.declared_revisions, store.next_declared_revision)

  -- The store has revisions left for every table that this replacement may change.
  abbrev pub HasRoom : SchemaStore → Option DeclaredSchema → Type 0
  HasRoom store declared =
      length (changed_resources store.declared declared) + store.next_declared_revision < u64_size

  -- A revision that a validation of the value may carry: none that the store has yet to give out, and
  -- if it is the current one of the resource, the value satisfies the current table.
  abbrev pub Authorizes : SchemaStore → String → Value → ℕ → Type 0
  Authorizes store resource value revision =
      (revision ≤ store.next_declared_revision)
      × (revision ≡ (validation_snapshot store resource).0
          → Conforms resource (validation_snapshot store resource).1 value)

  install_declared-IsBoundedStore :
      (store : SchemaStore) (declared : Option DeclaredSchema) (merged : Result Schema String)
      → HasRoom store declared
      → IsBoundedStore store
      → IsBoundedStore (install_declared store declared merged).0
  unfolding install_declared
  install_declared-IsBoundedStore store declared (err e) room bounded = bounded
  install_declared-IsBoundedStore store declared (ok merged) room bounded =
      revise_all-IsBounded store.declared declared (changed_resources store.declared declared)
        (store.declared_revisions, store.next_declared_revision) room bounded

  pub replace_declared-IsBoundedStore :
      (store : SchemaStore) (declared : Option DeclaredSchema)
      → HasRoom store declared
      → IsBoundedStore store
      → IsBoundedStore (replace_declared store declared).0
  unfolding replace_declared
  replace_declared-IsBoundedStore store declared =
      install_declared-IsBoundedStore store declared (merge_schemas declared store.inferred)

  -- The table of a resource before and after, by whether they are the same.
  install_declared-kept :
      (store : SchemaStore) (declared : Option DeclaredSchema) (merged : Schema) (resource : String)
      → HasRoom store declared
      → same_table (declared_table store.declared resource) (declared_table declared resource)
        ≡ true
      → (validation_snapshot (install_declared store declared (ok merged)).0 resource).0
        ≡ (validation_snapshot store resource).0
  unfolding install_declared validation_snapshot
  install_declared-kept store declared merged resource room same =
      revise_all-kept store.declared declared (changed_resources store.declared declared) resource
        (store.declared_revisions, store.next_declared_revision) room same

  install_declared-fresh :
      (store : SchemaStore) (declared : Option DeclaredSchema) (merged : Schema) (resource : String)
      → HasRoom store declared
      → same_table (declared_table store.declared resource) (declared_table declared resource)
        ≡ false
      → store.next_declared_revision
        < (validation_snapshot (install_declared store declared (ok merged)).0 resource).0
  unfolding install_declared validation_snapshot
  install_declared-fresh store declared merged resource room other =
      revise_all-fresh store.declared declared (changed_resources store.declared declared) resource
        store.next_declared_revision (store.declared_revisions, store.next_declared_revision) room
        other
        (changed_resources-found store.declared declared resource
          (declared_table store.declared resource) (declared_table declared resource) refl refl
          other)
        (omega arith)

  install_declared-grows :
      (store : SchemaStore) (declared : Option DeclaredSchema) (merged : Schema)
      → HasRoom store declared
      → store.next_declared_revision
        ≤ (install_declared store declared (ok merged)).0.next_declared_revision
  unfolding install_declared
  install_declared-grows store declared merged room =
      revise_all-grows store.declared declared (changed_resources store.declared declared)
        (store.declared_revisions, store.next_declared_revision) room

  abbrev before_and_after : SchemaStore → Option DeclaredSchema → String → Bool
  before_and_after store declared resource =
      same_table (declared_table store.declared resource) (declared_table declared resource)

  install_declared-validation_snapshot :
      (store : SchemaStore) (declared : Option DeclaredSchema) (merged : Result Schema String)
      (resource : String)
      → HasRoom store declared
      → (install_declared store declared merged).1 ≡ ok tt
      → (before_and_after store declared resource ≡ true
          → (validation_snapshot (install_declared store declared merged).0 resource).0
            ≡ (validation_snapshot store resource).0)
        × (before_and_after store declared resource ≡ false
            → store.next_declared_revision
              < (validation_snapshot (install_declared store declared merged).0 resource).0)
  unfolding install_declared
  install_declared-validation_snapshot store declared (err e) resource room done = cc
  install_declared-validation_snapshot store declared (ok merged) resource room done = (
    install_declared-kept store declared merged resource room,
    install_declared-fresh store declared merged resource room,
  )

  -- A successful replacement of the declared schema keeps the revision of a resource whose table
  -- stays the same, and gives a resource whose table changes a revision above every earlier one, as
  -- long as the 64-bit counter does not wrap around.
  pub replace_declared-validation_snapshot :
      (store : SchemaStore) (declared : Option DeclaredSchema) (resource : String)
      → HasRoom store declared
      → (replace_declared store declared).1 ≡ ok tt
      → (same_table (declared_table store.declared resource) (declared_table declared resource)
            ≡ true
          → (validation_snapshot (replace_declared store declared).0 resource).0
            ≡ (validation_snapshot store resource).0)
        × (same_table (declared_table store.declared resource) (declared_table declared resource)
              ≡ false
            → store.next_declared_revision
              < (validation_snapshot (replace_declared store declared).0 resource).0)
  unfolding replace_declared
  replace_declared-validation_snapshot store declared =
      install_declared-validation_snapshot store declared (merge_schemas declared store.inferred)

  install_declared-Authorizes :
      IsSound rt.number_eq
      → (store : SchemaStore) (declared : Option DeclaredSchema) (merged : Result Schema String)
      → HasRoom store declared
      → (resource : String) (value : Value) (revision : ℕ)
      → Authorizes store resource value revision
      → Authorizes (install_declared store declared merged).0 resource value revision
  unfolding install_declared validation_snapshot
  install_declared-Authorizes sound store declared (err e) room resource value revision h = h
  install_declared-Authorizes sound store declared (ok merged) room resource value revision h =
      let grown = install_declared-grows store declared merged room in
      elim (Bool-cases (before_and_after store declared resource)) [
        | inl same ↦ (
          omega arith,
          λ current.
              subst (λ table. Conforms resource table value)
                (same_table-IsSound sound (declared_table store.declared resource)
                  (declared_table declared resource) same)
                (h.1 (current ∙ install_declared-kept store declared merged resource room same)),
        )
        | inr other ↦
            let fresh = install_declared-fresh store declared merged resource room other in
            (omega arith, λ current. absurd (grind arith))
      ]

  pub replace_declared-Authorizes :
      IsSound rt.number_eq
      → (store : SchemaStore) (declared : Option DeclaredSchema) → HasRoom store declared
      → (resource : String) (value : Value) (revision : ℕ)
      → Authorizes store resource value revision
      → Authorizes (replace_declared store declared).0 resource value revision
  unfolding replace_declared
  replace_declared-Authorizes sound store declared =
      install_declared-Authorizes sound store declared (merge_schemas declared store.inferred)

  merged_into-kept :
      (store : SchemaStore) (merged : Result Schema String)
      → ((merged_into store merged).0.declared ≡ store.declared)
        × (((merged_into store merged).0.declared_revisions ≡ store.declared_revisions)
            × ((merged_into store merged).0.next_declared_revision ≡ store.next_declared_revision))
  unfolding merged_into
  merged_into-kept store (err e) = (refl, (refl, refl))
  merged_into-kept store (ok merged) = (refl, (refl, refl))

  -- The inferred schema does not count for validation.
  pub replace_inferred-kept :
      (store : SchemaStore) (inferred : Schema)
      → ((replace_inferred store inferred).0.declared ≡ store.declared)
        × (((replace_inferred store inferred).0.declared_revisions ≡ store.declared_revisions)
            × ((replace_inferred store inferred).0.next_declared_revision
                ≡ store.next_declared_revision))
  unfolding replace_inferred
  replace_inferred-kept store inferred =
      merged_into-kept (record store { inferred = inferred })
        (merge_schemas store.declared inferred)

  pub replace_inferred-Authorizes :
      (store : SchemaStore) (inferred : Schema) (resource : String) (value : Value) (revision : ℕ)
      → Authorizes store resource value revision
      → Authorizes (replace_inferred store inferred).0 resource value revision
  unfolding validation_snapshot
  replace_inferred-Authorizes store inferred resource value revision h =
      let (declared, (revisions, last)) = replace_inferred-kept store inferred in
      rw (declared, revisions, last) h

  pub replace_inferred-IsBoundedStore :
      (store : SchemaStore) (inferred : Schema)
      → IsBoundedStore store
      → IsBoundedStore (replace_inferred store inferred).0
  replace_inferred-IsBoundedStore store inferred h =
      let (declared, (revisions, last)) = replace_inferred-kept store inferred in
      λ resource. rw (revisions, last) (h resource)
