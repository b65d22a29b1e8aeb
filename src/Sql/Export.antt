-- ===== src/Sql/Export.antt =====
-- src/sql/export.rs, the resources as SQL statements.
pub mod Quotes
use Prim.Native.Char.{code}
use Prim.Native.String
use dirbase.Prelude.{ℕ, String, Option, none, some, List, [], ◌∷◌, ◌++◌, ◌==◌, map, if◌then◌else◌}
use dirbase.Prelude.Int.{pos}
use dirbase.BTreeMap
use dirbase.BTreeMap.{BTreeMap}
use dirbase.Json.{Json, as_array, as_object}
use dirbase.Error.{AppError, app_error, bad_request, Result, ok, err}
use dirbase.Runtime.{Runtime, Value}
use dirbase.Text.{format, join}
use dirbase.Schema.Types.{ColumnType, ColumnSchema, TableSchema}
use dirbase.Schema.Infer.{see_object, mark_missing}
use dirbase.App.FileSystem.{FileSystem}
use dirbase.App.Action.{Action, return, lift, gets, ◌>>=◌}
use dirbase.App.State.{AppState, schema_table, resource_names_sorted}
use dirbase.Storage.Loading.{load_resource_unvalidated}
use dirbase.Sql.Types.{SqlExportDialect, type_name}

-- `input.replace('\'', "''")`
unfoldable pub double_quotes : String → String
double_quotes String.[] = ""
double_quotes (String.◌∷◌ c s) =
    let rest = double_quotes s in
    if code c == b'\'' then String.◌∷◌ c (String.◌∷◌ c rest) else String.◌∷◌ c rest

unfoldable pub quote_sql_string : String → String
unfolding double_quotes
quote_sql_string input = format ("'" ∷ double_quotes input ∷ "'" ∷ [])

row_not_an_object : AppError
row_not_an_object = app_error bad_request "Array resource row is not an object"

not_exportable : AppError
not_exportable = app_error bad_request "Resource must be a JSON array or object for SQL export"

dialect_name : SqlExportDialect → String
dialect_name SqlExportDialect.postgres = "postgres"
dialect_name SqlExportDialect.sqlite = "sqlite"

json_literal : ColumnType → SqlExportDialect → String → String
json_literal ColumnType.json SqlExportDialect.postgres quoted = format (quoted ∷ "::jsonb" ∷ [])
json_literal column_type dialect quoted = quoted

export_heading : SqlExportDialect → String
unfolding dialect_name
export_heading dialect = format (
    "-- SQL export generated by dirbase\n-- dialect: "
    ∷ dialect_name dialect
    ∷ "\n-- object resources exported as single-row tables with synthetic id=1\n\n"
    ∷ [])

module _ ⦃rt : Runtime⦄ where
  unfoldable pub serialize_sql_value : Option Value → ColumnType → SqlExportDialect → String
  unfolding json_literal quote_sql_string
  serialize_sql_value none column_type dialect = "NULL"
  serialize_sql_value (some Json.null) column_type dialect = "NULL"
  serialize_sql_value (some (Json.bool b)) column_type dialect = if b then "TRUE" else "FALSE"
  serialize_sql_value (some (Json.number n)) column_type dialect = rt.number_text n
  serialize_sql_value (some (Json.string s)) column_type dialect = quote_sql_string s
  serialize_sql_value (some (Json.array vs)) column_type dialect =
      json_literal column_type dialect (quote_sql_string (rt.json_text (Json.array vs)))
  serialize_sql_value (some (Json.object fs)) column_type dialect =
      json_literal column_type dialect (quote_sql_string (rt.json_text (Json.object fs)))

  column_definition : SqlExportDialect → String × ColumnSchema → String
  column_definition dialect (name, schema) = format (
      "  \""
      ∷ name
      ∷ "\" "
      ∷ type_name dialect schema.column_type
      ∷ (if schema.nullable then "" else " NOT NULL")
      ∷ [])

  unfoldable pub build_create_table_statement :
      String → List (String × ColumnSchema) → SqlExportDialect → String
  unfolding column_definition
  build_create_table_statement resource columns dialect =
      let definitions = join ",\n" (map (column_definition dialect) columns) in
      format ("CREATE TABLE \"" ∷ resource ∷ "\" (\n" ∷ definitions ∷ "\n);\n" ∷ [])

  quoted_name : String × ColumnSchema → String
  quoted_name (name, schema) = format ("\"" ∷ name ∷ "\"" ∷ [])

  unfoldable pub build_insert_statement :
      String → List (String × ColumnSchema) → BTreeMap Value → SqlExportDialect → String
  unfolding quoted_name
  build_insert_statement resource columns row dialect =
      let names = join ", " (map quoted_name columns) in
      let values =
        join ", "
          (map (λ c. serialize_sql_value (BTreeMap.get row c.0) c.1.column_type dialect) columns) in
      format ("INSERT INTO \"" ∷ resource ∷ "\" (" ∷ names ∷ ") VALUES (" ∷ values ∷ ");\n" ∷ [])

  -- `collect::<Result<Vec<_>, _>>()` of the rows as maps.
  rows_of : List Value → Result (List (BTreeMap Value)) AppError
  unfolding row_not_an_object
  rows_of [] = ok []
  rows_of (row ∷ rows) = gathered (as_object row) (rows_of rows)
    where
      gathered :
          Option (BTreeMap Value)
          → Result (List (BTreeMap Value)) AppError
          → Result (List (BTreeMap Value)) AppError
      gathered none rest = err row_not_an_object
      gathered (some object) (err e) = err e
      gathered (some object) (ok rest) = ok (object ∷ rest)

  insert_fields : BTreeMap Value → BTreeMap Value → BTreeMap Value
  insert_fields [] row = row
  insert_fields ((key, value) ∷ object) row = insert_fields object (BTreeMap.insert row key value)

  -- The rows of an array, or one row with the synthetic id below the fields of an object.
  rows_by_shape :
      Option (List Value) → Option (BTreeMap Value) → Result (List (BTreeMap Value)) AppError
  unfolding rows_of insert_fields not_exportable
  rows_by_shape (some values) object = rows_of values
  rows_by_shape none (some object) =
      ok (insert_fields object (("id", Json.number (rt.number_of_i64 (pos 1))) ∷ []) ∷ [])
  rows_by_shape none none = err not_exportable

  unfoldable pub normalize_resource_rows : Value → Result (List (BTreeMap Value)) AppError
  unfolding rows_by_shape
  normalize_resource_rows value = rows_by_shape (as_array value) (as_object value)

  see_objects : List (BTreeMap Value) → BTreeMap ColumnSchema → BTreeMap ColumnSchema
  see_objects [] inferred = inferred
  see_objects (row ∷ rows) inferred = see_objects rows (see_object row inferred)

  mark_objects : List (BTreeMap Value) → BTreeMap ColumnSchema → BTreeMap ColumnSchema
  mark_objects [] inferred = inferred
  mark_objects (row ∷ rows) inferred = mark_objects rows (mark_missing row inferred)

  columns_of : Option TableSchema → List (BTreeMap Value) → List (String × ColumnSchema)
  unfolding see_objects mark_objects
  columns_of (some table) rows = table.columns
  columns_of none rows = mark_objects rows (see_objects rows [])

  module _ ⦃fs : FileSystem⦄ where
    unfoldable pub resolve_export_columns :
        AppState → String → List (BTreeMap Value) → List (String × ColumnSchema)
    unfolding columns_of
    resolve_export_columns state resource rows = columns_of (schema_table state resource) rows

    table_chunks :
        AppState
        → String
        → SqlExportDialect
        → Result (List (BTreeMap Value)) AppError
        → Result (List String) AppError
    table_chunks state resource dialect (err e) = err e
    table_chunks state resource dialect (ok rows) =
        let columns = resolve_export_columns state resource rows in
        ok (
          format ("-- Resource: " ∷ resource ∷ "\n" ∷ [])
            ∷ build_create_table_statement resource columns dialect
            ∷ map (λ row. build_insert_statement resource columns row dialect) rows
          ++ "\n" ∷ [])

    -- The chunks of one table, to come after those before it.
    unfoldable pub append_table_export :
        AppState → String → Value → SqlExportDialect → Result (List String) AppError
    unfolding table_chunks
    append_table_export state resource value dialect =
        table_chunks state resource dialect (normalize_resource_rows value)

    append_tables : SqlExportDialect → List String → Action AppState (List String)
    append_tables dialect [] = return []
    append_tables dialect (resource ∷ resources) = do
      data_of ← load_resource_unvalidated resource
      state ← gets (λ s. s)
      chunks ← lift (append_table_export state resource data_of.content dialect)
      rest ← append_tables dialect resources
      return (chunks ++ rest)

    unfoldable pub build_sql_export : SqlExportDialect → Action AppState String
    unfolding export_heading append_tables
    build_sql_export dialect = do
      resources ← gets resource_names_sorted
      chunks ← append_tables dialect resources
      return (format (export_heading dialect ∷ chunks))
