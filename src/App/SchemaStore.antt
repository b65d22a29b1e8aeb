-- ===== src/App/SchemaStore.antt =====
-- `SchemaStore` of src/app.rs: the declared, the inferred and the merged schema, and for each
-- resource the revision of its declared table.
pub mod Revisions
pub mod Trust
use dirbase.Prelude.{
  ℕ, String, ◌+◌, ◌%◌, ◌^◌, Option, none, some, List, [], ◌∷◌, ◌++◌, if◌then◌else◌, unwrap_or,
  and_then,
}
use dirbase.BTreeMap
use dirbase.BTreeMap.{BTreeMap}
use dirbase.Error.{Result, ok, err, ◌>>=◌}
use dirbase.Runtime.{Runtime}
use dirbase.Schema.Types.{DeclaredTableSchema, DeclaredSchema, Schema}
use dirbase.Schema.Types.Equal.{same_table}
use dirbase.Schema.Merge.{merge_schemas}

abbrev pub u64_size : ℕ
u64_size = 2 ^ 64

-- `n.wrapping_add(k)` and `fetch_add` of 64-bit counters.
abbrev pub wrapping_add : ℕ → ℕ → ℕ
wrapping_add n k = (n + k) % u64_size

-- `BTreeSet<String>`, and its `collect`.
abbrev pub BTreeSet : Type 0
BTreeSet = BTreeMap (Unit {0})

unfoldable pub collect : List String → BTreeSet
collect [] = []
collect (name ∷ names) = BTreeMap.insert (collect names) name tt

-- The revisions, and the last one given out.
abbrev pub Revisions : Type 0
Revisions = BTreeMap ℕ × ℕ

-- The revision of a resource, 0 while its table has never changed.
unfoldable pub revision_of : BTreeMap ℕ → String → ℕ
revision_of revisions resource = unwrap_or (BTreeMap.get revisions resource) 0

module _ ⦃rt : Runtime⦄ where
  pub record SchemaStore : Type 0 where
    pub declared : Option DeclaredSchema
    pub inferred : Schema
    pub merged : Schema
    pub declared_revisions : BTreeMap ℕ
    pub next_declared_revision : ℕ

  unfoldable pub new : Option DeclaredSchema → Schema → Result SchemaStore String
  new declared inferred = do
    merged ← merge_schemas declared inferred
    ok (record {
      declared = declared;
      inferred = inferred;
      merged = merged;
      declared_revisions = [];
      next_declared_revision = 0;
    })

  unfoldable pub merged_into :
      SchemaStore → Result Schema String → SchemaStore × Result (Unit {0}) String
  merged_into store (err failure) = (store, err failure)
  merged_into store (ok merged) = (record store { merged = merged }, ok tt)

  -- The inferred schema is stored before the merge, which may fail.
  unfoldable pub replace_inferred : SchemaStore → Schema → SchemaStore × Result (Unit {0}) String
  unfolding merged_into
  replace_inferred store inferred =
      merged_into (record store { inferred = inferred }) (merge_schemas store.declared inferred)

  -- `declared.as_ref().map(|schema| &schema.tables)`
  unfoldable pub tables_of : Option DeclaredSchema → BTreeMap DeclaredTableSchema
  tables_of none = []
  tables_of (some declared) = declared.tables

  -- `declared.as_ref().and_then(|schema| schema.tables.get(resource))`
  unfoldable pub declared_table : Option DeclaredSchema → String → Option DeclaredTableSchema
  declared_table declared resource = and_then declared (λ d. BTreeMap.get d.tables resource)

  unfoldable pub changed_resources : Option DeclaredSchema → Option DeclaredSchema → BTreeSet
  unfolding tables_of collect
  changed_resources previous next =
      collect (BTreeMap.keys (tables_of previous) ++ BTreeMap.keys (tables_of next))

  -- A table that is not the same gets a new revision.
  unfoldable pub revise :
      Option DeclaredTableSchema → Option DeclaredTableSchema → String → Revisions → Revisions
  revise previous next resource revisions = if same_table previous next then revisions else (
    BTreeMap.insert revisions.0 resource (wrapping_add revisions.1 1),
    wrapping_add revisions.1 1,
  )

  unfoldable pub revise_all :
      Option DeclaredSchema → Option DeclaredSchema → BTreeSet → Revisions → Revisions
  unfolding revise declared_table
  revise_all previous next [] revisions = revisions
  revise_all previous next ((resource, _) ∷ names) revisions =
      revise_all previous next names (
        revise (declared_table previous resource) (declared_table next resource) resource revisions)

  unfoldable pub install_declared :
      SchemaStore
      → Option DeclaredSchema
      → Result Schema String
      → SchemaStore × Result (Unit {0}) String
  unfolding revise_all changed_resources
  install_declared store declared (err failure) = (store, err failure)
  install_declared store declared (ok merged) =
      let revisions =
        revise_all store.declared declared (changed_resources store.declared declared)
          (store.declared_revisions, store.next_declared_revision) in
      (
        record store {
          declared = declared;
          merged = merged;
          declared_revisions = revisions.0;
          next_declared_revision = revisions.1;
        },
        ok tt,
      )

  unfoldable pub replace_declared :
      SchemaStore → Option DeclaredSchema → SchemaStore × Result (Unit {0}) String
  unfolding install_declared
  replace_declared store declared =
      install_declared store declared (merge_schemas declared store.inferred)

  unfoldable pub validation_snapshot : SchemaStore → String → ℕ × Option DeclaredTableSchema
  unfolding revision_of declared_table
  validation_snapshot store resource =
      (revision_of store.declared_revisions resource, declared_table store.declared resource)
