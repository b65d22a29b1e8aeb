-- ===== src/Schema/Validation.antt =====
-- src/schema/validation.rs
pub mod Constraints
pub mod Effective
use dirbase.Prelude.{List, String, Option, none, some, [], ◌∷◌, if◌then◌else◌}
use dirbase.BTreeMap
use dirbase.BTreeMap.{BTreeMap}
use dirbase.Error.{Result, ok, err, ◌>>◌, ◌>>=◌, ok_or}
use dirbase.Runtime.{Runtime}
use dirbase.Text.{format, join}
use Prim.Native.String.{compare as compare_text}
use dirbase.Schema.Types.{
  ForeignKey, ColumnSchema, TableSchema, Schema, DeclaredTableSchema, DeclaredSchema,
  is_compatible_with,
}
use dirbase.Schema.Relations.{contains_name}
use dirbase.Schema.Validation.Constraints.{validate_column_constraints}
use dirbase.Query.Sort.{insertion_sort}

-- The errors.
abbrev missing_key : String → String → String
missing_key table_name primary_key = format (
    "table '" ∷ table_name ∷ "' declares primary key '" ∷ primary_key
    ∷ "' but no such column exists" ∷ [])

abbrev missing_source : String → String → String
missing_source table_name source_column = format (
    "table '" ∷ table_name ∷ "' declares foreign key '" ∷ source_column
    ∷ "' but no such column exists" ∷ [])

abbrev unknown_table : String → String → ForeignKey → String
unknown_table table_name source_column foreign_key = format (
    "table '" ∷ table_name ∷ "' foreign key '" ∷ source_column ∷ "' targets unknown table '"
    ∷ foreign_key.target_table ∷ "'" ∷ [])

abbrev about_target : String → String → String → ForeignKey → String
about_target problem table_name source_column foreign_key = format (
    "table '" ∷ table_name ∷ "' foreign key '" ∷ source_column ∷ problem ∷ foreign_key.target_table
    ∷ "." ∷ foreign_key.target_column ∷ "'" ∷ [])

module _ ⦃rt : Runtime⦄ where
  unfoldable pub validate_primary_key :
      String → TableSchema → Option String → Result (Unit {0}) String
  validate_primary_key table_name table none = ok tt
  validate_primary_key table_name table (some primary_key) =
      if BTreeMap.contains_key table.columns primary_key
      then ok tt
      else err (missing_key table_name primary_key)

  unfoldable pub validate_foreign_key :
      BTreeMap TableSchema → String → TableSchema → String → ForeignKey → Result (Unit {0}) String
  validate_foreign_key tables table_name table source_column foreign_key = do
    source_column_schema ←
        ok_or (BTreeMap.get table.columns source_column) (missing_source table_name source_column)
    target_table ←
        ok_or (BTreeMap.get tables foreign_key.target_table)
          (unknown_table table_name source_column foreign_key)
    target_column_schema ←
        ok_or (BTreeMap.get target_table.columns foreign_key.target_column)
          (about_target "' targets unknown column '" table_name source_column foreign_key)
    (if is_compatible_with source_column_schema.column_type target_column_schema.column_type
        then ok tt
        else err (about_target "' is incompatible with '" table_name source_column foreign_key))

  -- The loop over the foreign keys of a table.
  unfoldable pub validate_foreign_keys :
      BTreeMap TableSchema → String → TableSchema → BTreeMap ForeignKey → Result (Unit {0}) String
  validate_foreign_keys tables table_name table [] = ok tt
  validate_foreign_keys tables table_name table ((source_column, foreign_key) ∷ foreign_keys) = do
    validate_foreign_key tables table_name table source_column foreign_key
    validate_foreign_keys tables table_name table foreign_keys

  validate_columns : String → BTreeMap ColumnSchema → Result (Unit {0}) String
  validate_columns table_name [] = ok tt
  validate_columns table_name ((column_name, column) ∷ columns) = do
    validate_column_constraints table_name column_name column
    validate_columns table_name columns

  -- One round of the loop over the tables.
  validate_table : BTreeMap TableSchema → String → TableSchema → Result (Unit {0}) String
  unfolding validate_columns
  validate_table tables table_name table = do
    validate_primary_key table_name table table.primary_key
    validate_foreign_keys tables table_name table table.foreign_keys
    validate_columns table_name table.columns

  validate_tables : BTreeMap TableSchema → BTreeMap TableSchema → Result (Unit {0}) String
  unfolding validate_table
  validate_tables tables [] = ok tt
  validate_tables tables ((table_name, table) ∷ rest) = do
    validate_table tables table_name table
    validate_tables tables rest

  unfoldable pub validate_effective_schema : Schema → Result (Unit {0}) String
  unfolding validate_tables
  validate_effective_schema schema = validate_tables schema.tables schema.tables

  -- The loop over the columns of a unique constraint.
  unique_columns : String → TableSchema → List String → List String → Result (Unit {0}) String
  unique_columns table_name effective_table seen [] = ok tt
  unique_columns table_name effective_table seen (column_name ∷ columns) =
      let later = unique_columns table_name effective_table (column_name ∷ seen) columns in
      if contains_name seen column_name
      then err (
          format (
            "table '" ∷ table_name ∷ "' unique constraint contains duplicate column '" ∷ column_name
            ∷ "'" ∷ []))
      else if BTreeMap.contains_key effective_table.columns column_name
      then later
      else err (
          format (
            "table '" ∷ table_name ∷ "' unique constraint references unknown column '" ∷ column_name
            ∷ "'" ∷ []))

  abbrev normalized : List String → String
  normalized unique = join "\u{1f}" (insertion_sort compare_text unique)

  refuse_empty : String → List String → Result (Unit {0}) String
  refuse_empty table_name [] =
      err (format ("table '" ∷ table_name ∷ "' declares an empty unique constraint" ∷ []))
  refuse_empty table_name (column_name ∷ columns) = ok tt

  refuse_seen : String → List String → String → Result (Unit {0}) String
  refuse_seen table_name seen key =
      if contains_name seen key
      then err (format ("table '" ∷ table_name ∷ "' declares duplicate unique constraints" ∷ []))
      else ok tt

  -- The loop over the unique constraints of a table.
  unique_constraints :
      String → TableSchema → List String → List (List String) → Result (Unit {0}) String
  unfolding unique_columns refuse_empty refuse_seen
  unique_constraints table_name effective_table seen [] = ok tt
  unique_constraints table_name effective_table seen (unique ∷ constraints) = do
    refuse_empty table_name unique
    unique_columns table_name effective_table [] unique
    refuse_seen table_name seen (normalized unique)
    unique_constraints table_name effective_table (normalized unique ∷ seen) constraints

  declared_table : String → DeclaredTableSchema → Option TableSchema → Result (Unit {0}) String
  unfolding unique_constraints
  declared_table table_name table none = ok tt
  declared_table table_name table (some effective_table) =
      unique_constraints table_name effective_table [] table.unique

  declared_tables : Schema → BTreeMap DeclaredTableSchema → Result (Unit {0}) String
  unfolding declared_table
  declared_tables effective [] = ok tt
  declared_tables effective ((table_name, table) ∷ tables) = do
    declared_table table_name table (BTreeMap.get effective.tables table_name)
    declared_tables effective tables

  unfoldable pub validate_declared_schema :
      Option DeclaredSchema → Schema → Result (Unit {0}) String
  unfolding declared_tables
  validate_declared_schema none effective = ok tt
  validate_declared_schema (some declared) effective = declared_tables effective declared.tables
