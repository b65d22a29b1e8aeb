-- ===== src/Sql/Executor/Fields.antt =====
-- The columns that a query names (src/sql/executor.rs).
use dirbase.Prelude.{String, Bool, not, ◌&&◌, Option, none, some, List, [], ◌∷◌, if◌then◌else◌}
use dirbase.BTreeMap
use dirbase.BTreeMap.{BTreeMap}
use dirbase.Error.{AppError, app_error, bad_request, Result, ok, err, ok_or, ◌>>=◌, ◌>>◌}
use dirbase.Runtime.{Runtime}
use dirbase.Text.{format, split_once}
use dirbase.Schema.Types.{TableSchema, ColumnSchema}
use dirbase.Query.Types.{FilterCondition, SortColumn}
use dirbase.App.FileSystem.{FileSystem}
use dirbase.App.State.{AppState, schema_table}
use dirbase.Sql.Types.{ParsedSqlJoin, ParsedSqlProjection}

unknown_alias : String → String → AppError
unknown_alias prefix field =
    app_error bad_request
      (format ("Unknown table alias '" ∷ prefix ∷ "' in column reference '" ∷ field ∷ "'" ∷ []))

unknown_column : String → String → AppError
unknown_column field context =
    app_error bad_request (format ("Unknown column '" ∷ field ∷ "' in " ∷ context ∷ []))

add_aliases : List ParsedSqlJoin → BTreeMap String → BTreeMap String
add_aliases [] aliases = aliases
add_aliases (join ∷ joins) aliases =
    add_aliases joins (
      BTreeMap.insert (BTreeMap.insert aliases join.alias join.resource) join.resource
        join.resource)

-- The table and the column of a field, `alias.column` or a column of the first table.
field_target :
    String
    → String
    → List ParsedSqlJoin
    → String
    → Option (String × String)
    → Result (String × String) AppError
unfolding add_aliases unknown_alias
field_target resource resource_alias joins field none = ok (resource, field)
field_target resource resource_alias joins field (some (prefix, column)) = do
  target_resource ←
      ok_or
        (BTreeMap.get
          (add_aliases joins
            (BTreeMap.insert (BTreeMap.insert [] resource_alias resource) resource resource))
          prefix)
        (unknown_alias prefix field)
  ok (target_resource, column)

unfoldable pub resolve_sql_field_target :
    String → String → List ParsedSqlJoin → String → Result (String × String) AppError
unfolding field_target
resolve_sql_field_target resource resource_alias joins field =
    field_target resource resource_alias joins field (split_once b'.' field)

module _ ⦃rt : Runtime⦄ where
  abbrev is_empty_map : BTreeMap ColumnSchema → Bool
  is_empty_map [] = Bool.true
  is_empty_map (entry ∷ columns) = Bool.false

  check_column : Option TableSchema → String → String → String → Result (Unit {0}) AppError
  unfolding unknown_column
  check_column none column_name field context = ok tt
  check_column (some table) column_name field context =
      if not (is_empty_map table.columns) && not (BTreeMap.contains_key table.columns column_name)
      then err (unknown_column field context)
      else ok tt

  module _ ⦃fs : FileSystem⦄ (state : AppState) (resource resource_alias : String)
      (joins : List ParsedSqlJoin) where
    unfoldable pub validate_sql_field : String → String → Result (Unit {0}) AppError
    unfolding check_column
    validate_sql_field field context = do
      target ← resolve_sql_field_target resource resource_alias joins field
      check_column (schema_table state target.0) target.1 field context

    check_fields {ℓ} : {A : Type ℓ} → (A → String) → String → List A → Result (Unit {0}) AppError
    check_fields field_of context [] = ok tt
    check_fields field_of context (item ∷ items) = do
      validate_sql_field (field_of item) context
      check_fields field_of context items

    check_projections : Option (List ParsedSqlProjection) → Result (Unit {0}) AppError
    unfolding check_fields
    check_projections none = ok tt
    check_projections (some columns) = check_fields (λ c. c.source) "SELECT projection" columns

    unfoldable pub validate_sql_query_fields :
        Option (List ParsedSqlProjection)
        → List FilterCondition
        → List SortColumn
        → Result (Unit {0}) AppError
    unfolding check_projections check_fields
    validate_sql_query_fields selected_columns filters sort_columns = do
      check_projections selected_columns
      check_fields (λ f. f.field_path) "WHERE clause" filters
      check_fields (λ s. s.field_path) "ORDER BY clause" sort_columns
