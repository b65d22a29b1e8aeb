-- ===== src/Schema/Merge.antt =====
-- src/schema/merge.rs: the declared schema over the inferred one.
pub mod Tables
pub mod Keys
pub mod Sound
use dirbase.Prelude.{
  String, Bool, Option, none, some, List, [], ◌∷◌, ◌++◌, unwrap_or, or_else, and_then,
  if◌then◌else◌,
}
use dirbase.BTreeMap
use dirbase.BTreeMap.{BTreeMap}
use dirbase.Error.{Result, ok, ◌>>◌}
use dirbase.Runtime.{Runtime}
use dirbase.Schema.Types.{
  TableKind, ForeignKey, ColumnSchema, TableSchema, Schema, DeclaredTableSchema, DeclaredSchema,
}
use dirbase.Schema.Relations.{build_table_aliases, detect_foreign_keys, infer_table_kind}
use dirbase.Schema.Relations.ManyToMany.{derive_many_to_many_schema}
use dirbase.Schema.Validation.{validate_effective_schema, validate_declared_schema}

-- The loop that inserts every entry of a map into another.
unfoldable pub insert_all {ℓ} : {V : Type ℓ} → BTreeMap V → BTreeMap V → BTreeMap V
insert_all [] old = old
insert_all ((key, value) ∷ new) old = insert_all new (BTreeMap.insert old key value)

module _ ⦃rt : Runtime⦄ where
  abbrev pub default_table : TableSchema
  default_table = record {
    kind = TableKind.unknown;
    primary_key = none;
    columns = [];
    foreign_keys = [];
    many_to_many = [];
  }

  -- One round of the first loop: the declared columns, key and kind over the inferred ones.
  unfoldable pub overlay_table : DeclaredTableSchema → TableSchema → TableSchema
  overlay_table declared_table entry = record entry {
    columns = insert_all declared_table.columns entry.columns;
    primary_key = or_else declared_table.primary_key entry.primary_key;
    kind = unwrap_or declared_table.kind entry.kind;
  }

  pub overlay_tables : BTreeMap DeclaredTableSchema → BTreeMap TableSchema → BTreeMap TableSchema
  overlay_tables [] tables = tables
  overlay_tables ((table_name, declared_table) ∷ declared) tables = overlay_tables declared (
      BTreeMap.insert tables table_name
        (overlay_table declared_table (unwrap_or (BTreeMap.get tables table_name) default_table)))

  -- The tables of the declared schema, if there is one.
  abbrev pub declared_tables : Option DeclaredSchema → BTreeMap DeclaredTableSchema
  declared_tables none = []
  declared_tables (some declared) = declared.tables

  -- The columns that detection leaves alone: declared foreign keys, and suppressed ones.
  manual_columns : Option DeclaredTableSchema → List String
  manual_columns none = []
  manual_columns (some table) = BTreeMap.keys table.foreign_keys ++ table.suppressed_foreign_keys

  pub declared_keys : Option DeclaredTableSchema → BTreeMap ForeignKey
  declared_keys none = []
  declared_keys (some table) = table.foreign_keys

  found_kind :
      String
      → BTreeMap TableSchema
      → BTreeMap ForeignKey
      → Option TableKind
      → Option TableSchema
      → TableKind
  found_kind table_name tables foreign_keys (some kind) table = kind
  found_kind table_name tables foreign_keys none none = TableKind.unknown
  found_kind table_name tables foreign_keys none (some table) =
      infer_table_kind table_name (record table { foreign_keys = foreign_keys }) tables

  set_relations :
      String
      → BTreeMap TableSchema
      → BTreeMap ForeignKey
      → TableKind
      → Option TableSchema
      → BTreeMap TableSchema
  set_relations table_name tables foreign_keys kind none = tables
  set_relations table_name tables foreign_keys kind (some table) =
      BTreeMap.insert tables table_name
        (record table { foreign_keys = foreign_keys; many_to_many = []; kind = kind })

  -- The foreign keys of a table: the detected ones, and the declared ones over them.
  foreign_keys_of :
      String
      → BTreeMap TableSchema
      → BTreeMap String
      → Option DeclaredTableSchema
      → BTreeMap ForeignKey
  unfolding manual_columns declared_keys
  foreign_keys_of table_name tables aliases declared_table =
      insert_all (declared_keys declared_table)
        (detect_foreign_keys table_name tables aliases (manual_columns declared_table))

  -- One round of the second loop.
  pub relate_table :
      String
      → BTreeMap TableSchema
      → BTreeMap String
      → Option DeclaredTableSchema
      → BTreeMap TableSchema
  unfolding found_kind set_relations foreign_keys_of
  relate_table table_name tables aliases declared_table =
      let foreign_keys = foreign_keys_of table_name tables aliases declared_table in
      set_relations table_name tables foreign_keys
        (found_kind table_name tables foreign_keys (and_then declared_table (λ t. t.kind))
          (BTreeMap.get tables table_name))
        (BTreeMap.get tables table_name)

  pub relate_tables :
      List String
      → BTreeMap TableSchema
      → BTreeMap String
      → BTreeMap DeclaredTableSchema
      → BTreeMap TableSchema
  unfolding relate_table
  relate_tables [] tables aliases declared = tables
  relate_tables (table_name ∷ names) tables aliases declared =
      relate_tables names
        (relate_table table_name tables aliases (BTreeMap.get declared table_name)) aliases declared

  -- The tables before the relations through junction tables are added.
  unfoldable pub merged_tables : Option DeclaredSchema → Schema → BTreeMap TableSchema
  unfolding overlay_tables relate_tables
  merged_tables declared inferred =
      let tables = overlay_tables (declared_tables declared) inferred.tables in
      relate_tables (BTreeMap.keys tables) tables (build_table_aliases tables)
        (declared_tables declared)

  unfoldable pub merge_schemas : Option DeclaredSchema → Schema → Result Schema String
  unfolding merged_tables
  merge_schemas declared inferred = do
    validate_effective_schema (record { tables = merged_tables declared inferred })
    validate_declared_schema declared (record { tables = merged_tables declared inferred })
    ok (derive_many_to_many_schema (record { tables = merged_tables declared inferred }))
