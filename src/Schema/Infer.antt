-- ===== src/Schema/Infer.antt =====
-- src/schema/infer.rs: the tables that the program reads off the data.
pub mod Columns
pub mod Keys
use dirbase.Prelude.{
  String, Bool, true, false, not, ◌||◌, Option, none, some, List, [], ◌∷◌, ◌++◌, map, all, and_then,
  unwrap_or, is_some, if◌then◌else◌,
}
use dirbase.BTreeMap
use dirbase.BTreeMap.{BTreeMap}
use dirbase.Json.{Json, as_array, as_object, is_object, is_null}
use dirbase.Runtime.{Runtime, Value}
use dirbase.Text.{format}
use dirbase.Text.Decimal.{show_bool}
use dirbase.Schema.Types.{
  TableKind, ColumnType, ForeignKey, ColumnSchema, TableSchema, Schema, column_schema,
  column_type_eq, infer_json,
}
use dirbase.Schema.Relations.{
  build_table_aliases, contains_name, detect_foreign_keys, infer_table_kind, singularize_table_name,
}
use dirbase.Schema.Relations.ManyToMany.{derive_many_to_many_schema}

-- A second type that a column is seen with.
unfoldable pub merge_type : ColumnType → Option ColumnType → ColumnType
merge_type old none = old
merge_type old (some new) =
    if column_type_eq old new
    then old
    else if column_type_eq old ColumnType.json || column_type_eq new ColumnType.json
    then ColumnType.json
    else ColumnType.string

module _ ⦃rt : Runtime⦄ where
  -- The entry of a column, if it has one, after one more value.
  unfoldable pub see_value : Option ColumnSchema → Value → ColumnSchema
  unfolding merge_type
  see_value old value =
      let entry =
        unwrap_or old (column_schema (unwrap_or (infer_json value) ColumnType.string) false) in
      record entry {
        column_type = merge_type entry.column_type (infer_json value);
        nullable = if is_null value then true else entry.nullable;
      }

  -- The loop over the fields of a row.
  unfoldable pub see_object : BTreeMap Value → BTreeMap ColumnSchema → BTreeMap ColumnSchema
  unfolding see_value
  see_object [] columns = columns
  see_object ((column_name, value) ∷ object) columns =
      see_object object
        (BTreeMap.insert columns column_name (see_value (BTreeMap.get columns column_name) value))

  -- The loops over the rows pass a row by that is no object.
  unfoldable pub see_rows : List Value → BTreeMap ColumnSchema → BTreeMap ColumnSchema
  unfolding see_object
  see_rows [] columns = columns
  see_rows (row ∷ rows) columns = see_rows rows (see_object (unwrap_or (as_object row) []) columns)

  unfoldable pub mark_missing : BTreeMap Value → BTreeMap ColumnSchema → BTreeMap ColumnSchema
  mark_missing object [] = []
  mark_missing object ((column_name, column) ∷ columns) =
      (
        column_name,
        if BTreeMap.contains_key object column_name
            then column
            else record column { nullable = true },
      )
      ∷ mark_missing object columns

  unfoldable pub mark_row : Option (BTreeMap Value) → BTreeMap ColumnSchema → BTreeMap ColumnSchema
  mark_row none columns = columns
  mark_row (some object) columns = mark_missing object columns

  unfoldable pub mark_rows : List Value → BTreeMap ColumnSchema → BTreeMap ColumnSchema
  unfolding mark_row mark_missing
  mark_rows [] columns = columns
  mark_rows (row ∷ rows) columns = mark_rows rows (mark_row (as_object row) columns)

  unfoldable pub infer_table_schema : List Value → TableSchema
  unfolding see_rows mark_rows
  infer_table_schema rows = record {
    kind = TableKind.unknown;
    primary_key = none;
    columns = mark_rows rows (see_rows rows []);
    foreign_keys = [];
    many_to_many = [];
  }

  unfoldable pub scalar_key : Value → Option String
  scalar_key (Json.string value) = some (format ("s:" ∷ value ∷ []))
  scalar_key (Json.number value) = some (format ("n:" ∷ rt.number_text value ∷ []))
  scalar_key (Json.bool value) = some (format ("b:" ∷ show_bool value ∷ []))
  scalar_key _ = none

  -- The key of a row under a column, if the row is an object with a scalar there.
  unfoldable pub key_in : String → Value → Option String
  unfolding scalar_key
  key_in column_name row =
      and_then (as_object row) λ object. and_then (BTreeMap.get object column_name) scalar_key

  -- The loop over the rows, with the keys seen so far and whether there was a row.
  unfoldable pub unique_keys : List (Option String) → List String → Bool → Bool
  unique_keys [] values has_rows = has_rows
  unique_keys (none ∷ keys) values has_rows = false
  unique_keys (some key ∷ keys) values has_rows =
      if contains_name values key then false else unique_keys keys (key ∷ values) true

  unfoldable pub is_unique_scalar_column : List Value → String → Bool
  unfolding unique_keys
  is_unique_scalar_column rows column_name = unique_keys (map (key_in column_name) rows) [] false

  -- `candidates.into_iter().find(...)`
  unfoldable pub find_key : List Value → List String → Option String
  find_key rows [] = none
  find_key rows (candidate ∷ candidates) =
      if is_unique_scalar_column rows candidate then some candidate else find_key rows candidates

  unfoldable pub infer_primary_key : String → List Value → Option String
  unfolding find_key
  infer_primary_key table_name rows = find_key rows (
      "id"
      ∷ format (singularize_table_name table_name ∷ "_id" ∷ [])
      ∷ format (table_name ∷ "_id" ∷ [])
      ∷ [])

  kind_of_key : Option String → TableKind
  kind_of_key key = if is_some key then TableKind.object_table else TableKind.unknown

  table_of_rows : String → List Value → TableSchema
  unfolding kind_of_key
  table_of_rows table_name rows =
      let key = infer_primary_key table_name rows in
      record (infer_table_schema rows) { primary_key = key; kind = kind_of_key key }

  unfoldable pub infer_table_from_value : String → Value → Option TableSchema
  unfolding table_of_rows
  infer_table_from_value table_name value =
      and_then (as_array value)
        (λ rows. if all is_object rows then some (table_of_rows table_name rows) else none)

  -- The relations of all tables, found again from their columns and keys.
  clear_relations : BTreeMap TableSchema → BTreeMap TableSchema
  unfolding kind_of_key
  clear_relations [] = []
  clear_relations ((table_name, table) ∷ tables) =
      (
        table_name,
        record table { foreign_keys = []; many_to_many = []; kind = kind_of_key table.primary_key },
      )
      ∷ clear_relations tables

  relate :
      String
      → BTreeMap ForeignKey
      → BTreeMap TableSchema
      → Option TableSchema
      → BTreeMap TableSchema
  relate table_name foreign_keys tables none = tables
  relate table_name foreign_keys tables (some table) =
      BTreeMap.insert tables table_name (record table {
        foreign_keys = foreign_keys;
        kind = infer_table_kind table_name (record table { foreign_keys = foreign_keys }) tables;
      })

  relate_all : List String → BTreeMap TableSchema → BTreeMap String → BTreeMap TableSchema
  unfolding relate
  relate_all [] tables aliases = tables
  relate_all (table_name ∷ names) tables aliases =
      relate_all names
        (relate table_name (detect_foreign_keys table_name tables aliases []) tables
          (BTreeMap.get tables table_name))
        aliases

  unfoldable pub rebuild_inferred_relations : Schema → Schema
  unfolding clear_relations relate_all
  rebuild_inferred_relations schema =
      let tables = clear_relations schema.tables in
      derive_many_to_many_schema
        (record { tables = relate_all (BTreeMap.keys tables) tables (build_table_aliases tables) })

  replace_table : BTreeMap TableSchema → String → Option TableSchema → BTreeMap TableSchema
  replace_table tables table_name (some table) = BTreeMap.insert tables table_name table
  replace_table tables table_name none = BTreeMap.remove tables table_name

  replace_tables : BTreeMap (Option TableSchema) → BTreeMap TableSchema → BTreeMap TableSchema
  unfolding replace_table
  replace_tables [] tables = tables
  replace_tables ((table_name, table) ∷ replacements) tables =
      replace_tables replacements (replace_table tables table_name table)

  unfoldable pub replace_inferred_tables : Schema → BTreeMap (Option TableSchema) → Schema
  unfolding replace_tables
  replace_inferred_tables schema replacements =
      rebuild_inferred_relations (record { tables = replace_tables replacements schema.tables })

  add_some : String → Option TableSchema → BTreeMap TableSchema → BTreeMap TableSchema
  add_some table_name none tables = tables
  add_some table_name (some table) tables = BTreeMap.insert tables table_name table

  -- The tables of the values that have one, collected.
  tables_of : BTreeMap Value → BTreeMap TableSchema → BTreeMap TableSchema
  unfolding add_some
  tables_of [] tables = tables
  tables_of ((table_name, value) ∷ values) tables =
      tables_of values (add_some table_name (infer_table_from_value table_name value) tables)

  unfoldable pub infer_schema_from_values : BTreeMap Value → Schema
  unfolding tables_of
  infer_schema_from_values values =
      rebuild_inferred_relations (record { tables = tables_of values [] })
