-- ===== src/Schema/Relations.antt =====
-- src/schema/relations.rs: the foreign keys and the kinds of tables that the program finds itself.
pub mod Detected
pub mod ManyToMany
use dirbase.Prelude.{
  ℕ, String, Bool, true, false, not, ◌&&◌, ◌||◌, ◌==◌, Option, none, some, List, [], ◌∷◌, str_eq,
  if◌then◌else◌, is_some, is_some_and, and_then, any, all, length,
}
use dirbase.BTreeMap
use dirbase.BTreeMap.{BTreeMap}
use dirbase.Runtime.{Runtime}
use dirbase.Text.{format, strip_suffix, is_empty}
use dirbase.Schema.Types.{
  TableKind, ForeignKey, ColumnSchema, TableSchema, DeclaredTableSchema, is_compatible_with,
}

-- `set.contains(name)`
abbrev pub contains_name : List String → String → Bool
contains_name names name = any (λ n. str_eq n name) names

singular_s : String → Option String → String
singular_s table_name none = table_name
singular_s table_name (some stem) = if is_empty stem then table_name else stem

singular_ies : String → Option String → String
unfolding singular_s
singular_ies table_name (some stem) = format (stem ∷ "y" ∷ [])
singular_ies table_name none = singular_s table_name (strip_suffix "s" table_name)

unfoldable pub singularize_table_name : String → String
unfolding singular_ies
singularize_table_name table_name = singular_ies table_name (strip_suffix "ies" table_name)

module _ ⦃rt : Runtime⦄ where
  add_aliases : BTreeMap TableSchema → BTreeMap String → BTreeMap String
  add_aliases [] aliases = aliases
  add_aliases ((table_name, table) ∷ tables) aliases = add_aliases tables (
      if is_some table.primary_key
      then BTreeMap.or_insert (BTreeMap.or_insert aliases table_name table_name)
          (singularize_table_name table_name) table_name
      else aliases)

  unfoldable pub build_table_aliases : BTreeMap TableSchema → BTreeMap String
  unfolding add_aliases
  build_table_aliases tables = add_aliases tables []

  -- One round of the loop over the columns: the key that a column is, if it is one.
  detect_foreign_key :
      String
      → BTreeMap TableSchema
      → BTreeMap String
      → List String
      → String
      → ColumnSchema
      → Option ForeignKey
  detect_foreign_key source tables aliases skip_columns column_name column =
      if contains_name skip_columns column_name
      then none
      else and_then (strip_suffix "_id" column_name) λ prefix.
        and_then (BTreeMap.get aliases prefix) λ target_table_name.
          if str_eq target_table_name source
          then none
          else and_then (BTreeMap.get tables target_table_name) λ target_table.
            and_then target_table.primary_key λ target_column_name.
              and_then (BTreeMap.get target_table.columns target_column_name) λ target_column.
                if is_compatible_with column.column_type target_column.column_type
                then some (record {
                  target_table = target_table_name;
                  target_column = target_column_name;
                })
                else none

  insert_some : BTreeMap ForeignKey → String → Option ForeignKey → BTreeMap ForeignKey
  insert_some foreign_keys column_name none = foreign_keys
  insert_some foreign_keys column_name (some foreign_key) =
      BTreeMap.insert foreign_keys column_name foreign_key

  detect_columns :
      String
      → BTreeMap TableSchema
      → BTreeMap String
      → List String
      → BTreeMap ColumnSchema
      → BTreeMap ForeignKey
      → BTreeMap ForeignKey
  unfolding detect_foreign_key insert_some
  detect_columns source tables aliases skip_columns [] foreign_keys = foreign_keys
  detect_columns source tables aliases skip_columns ((column_name, column) ∷ columns) foreign_keys =
      detect_columns source tables aliases skip_columns columns (
        insert_some foreign_keys column_name
          (detect_foreign_key source tables aliases skip_columns column_name column))

  detect_of_table :
      String
      → BTreeMap TableSchema
      → BTreeMap String
      → List String
      → Option TableSchema
      → BTreeMap ForeignKey
  detect_of_table source tables aliases skip_columns none = []
  detect_of_table source tables aliases skip_columns (some table) =
      detect_columns source tables aliases skip_columns table.columns []

  unfoldable pub detect_foreign_keys :
      String → BTreeMap TableSchema → BTreeMap String → List String → BTreeMap ForeignKey
  unfolding detect_columns detect_of_table
  detect_foreign_keys source tables aliases skip_columns =
      detect_of_table source tables aliases skip_columns (BTreeMap.get tables source)

  -- `foreign_keys[0].target_table == foreign_keys[1].target_table`
  same_target : List ForeignKey → Bool
  same_target (first ∷ second ∷ rest) = str_eq first.target_table second.target_table
  same_target _ = false

  targets_key : String → BTreeMap TableSchema → ForeignKey → Bool
  targets_key source tables fk =
      not (str_eq fk.target_table source)
      && is_some_and (and_then (BTreeMap.get tables fk.target_table) (λ target. target.primary_key))
          (λ primary_key. str_eq fk.target_column primary_key)

  unfoldable pub is_strict_junction_table : String → TableSchema → BTreeMap TableSchema → Bool
  unfolding same_target targets_key
  is_strict_junction_table source table tables =
      if is_some table.primary_key
        || not (length table.columns == 2)
        || not (length table.foreign_keys == 2)
      then false
      else if not (all (BTreeMap.contains_key table.foreign_keys) (BTreeMap.keys table.columns))
      then false
      else if same_target (BTreeMap.values table.foreign_keys)
      then false
      else all (targets_key source tables) (BTreeMap.values table.foreign_keys)

  unfoldable pub infer_table_kind : String → TableSchema → BTreeMap TableSchema → TableKind
  infer_table_kind table_name table tables =
      if is_some table.primary_key
      then TableKind.object_table
      else if is_strict_junction_table table_name table tables
      then TableKind.relation
      else TableKind.unknown

  targets_declared_key : String → BTreeMap DeclaredTableSchema → ForeignKey → Bool
  targets_declared_key source tables fk =
      not (str_eq fk.target_table source)
      && is_some_and (and_then (BTreeMap.get tables fk.target_table) (λ target. target.primary_key))
          (λ primary_key. str_eq fk.target_column primary_key)

  unfoldable pub is_strict_declared_junction_table :
      String → DeclaredTableSchema → BTreeMap DeclaredTableSchema → Bool
  unfolding same_target targets_declared_key
  is_strict_declared_junction_table source table tables =
      if is_some table.primary_key
        || not (length table.columns == 2)
        || not (length table.foreign_keys == 2)
      then false
      else if not (all (BTreeMap.contains_key table.foreign_keys) (BTreeMap.keys table.columns))
      then false
      else if same_target (BTreeMap.values table.foreign_keys)
      then false
      else all (targets_declared_key source tables) (BTreeMap.values table.foreign_keys)

  unfoldable pub infer_declared_table_kind :
      String → DeclaredTableSchema → BTreeMap DeclaredTableSchema → Option TableKind
  infer_declared_table_kind table_name table tables =
      if is_some table.primary_key
      then some TableKind.object_table
      else if is_strict_declared_junction_table table_name table tables
      then some TableKind.relation
      else none
