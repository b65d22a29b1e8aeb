-- ===== src/Sql/Executor.antt =====
-- src/sql/executor.rs on a parsed query. A row is an object with its columns and, under the name and
-- the alias of each table, the row of that table.
pub mod Fields
pub mod Joins
pub mod Run
use dirbase.Prelude.{
  ℕ, String, Bool, true, false, not, ◌||◌, ◌++◌, Option, none, some, List, [], ◌∷◌, if◌then◌else◌,
  unwrap_or, and_then, str_eq, length, take, drop, ltb,
}
use dirbase.BTreeMap
use dirbase.BTreeMap.{BTreeMap}
use dirbase.Json.{Json, as_array, as_object, from_array, from_object}
use dirbase.Error.{
  AppError, app_error, bad_request, payload_too_large, with_code, Result, ok, err, ok_or,
}
use dirbase.Runtime.{Runtime, Value}
use dirbase.Text.{format}
use dirbase.Text.Decimal.{show_nat}
use dirbase.Query.Types.{FilterCondition, SortColumn, Pagination}
use dirbase.Query.Evaluator.{get_value_at_path, filter_collection_data}
use dirbase.Query.Sort.{sort_collection_data}
use dirbase.App.FileSystem.{FileSystem}
use dirbase.App.Action.{Action, return, lift, ◌>>=◌, ◌>>◌}
use dirbase.App.State.{AppState}
use dirbase.Storage.Cache.{Shared}
use dirbase.Storage.Loading.{load_resource}
use dirbase.Sql.Types.{ParsedSqlQuery, ParsedSqlJoin, ParsedSqlProjection}

abbrev not_an_array : AppError
not_an_array = app_error bad_request "Resource is not a JSON array"

abbrev pub not_an_object : AppError
not_an_object = app_error bad_request "Resource row is not a JSON object"

is_known : List String → String → Bool
is_known [] resource = false
is_known (known ∷ rest) resource = str_eq known resource || is_known rest resource

add_joined : List ParsedSqlJoin → List String → List String
unfolding is_known
add_joined [] resources = resources
add_joined (join ∷ joins) resources =
    add_joined joins (
      if not (is_known resources join.resource) then resources ++ join.resource ∷ [] else resources)

module _ ⦃rt : Runtime⦄ where
  unfoldable pub sql_lock_resources : ParsedSqlQuery → List String
  unfolding add_joined
  sql_lock_resources parsed = add_joined parsed.joins (parsed.resource ∷ [])

  unfoldable pub build_base_sql_row : String → String → BTreeMap Value → Value
  build_base_sql_row resource alias object =
      let root = BTreeMap.insert object resource (from_object object) in
      if not (str_eq alias resource)
      then from_object (BTreeMap.insert root alias (from_object object))
      else from_object root

  unfoldable pub extend_joined_row : Value → String → BTreeMap Value → Value
  extend_joined_row row alias object =
      from_object (BTreeMap.insert (unwrap_or (as_object row) []) alias (from_object object))

  unfoldable pub value_to_lookup_key : Value → String
  value_to_lookup_key Json.null = "null"
  value_to_lookup_key (Json.bool true) = "true"
  value_to_lookup_key (Json.bool false) = "false"
  value_to_lookup_key (Json.number number) = rt.number_text number
  value_to_lookup_key (Json.string text) = text
  value_to_lookup_key (Json.array values) = rt.json_text (Json.array values)
  value_to_lookup_key (Json.object fields) = rt.json_text (Json.object fields)

  -- `acc.entry(key).or_default().push(row)`
  unfoldable pub push_row :
      BTreeMap (List (BTreeMap Value)) → String → BTreeMap Value → BTreeMap (List (BTreeMap Value))
  push_row acc key row = BTreeMap.insert acc key (unwrap_or (BTreeMap.get acc key) [] ++ row ∷ [])

  unfoldable pub add_target :
      Option Value
      → BTreeMap Value
      → BTreeMap (List (BTreeMap Value))
      → BTreeMap (List (BTreeMap Value))
  unfolding push_row
  add_target none row acc = acc
  add_target (some value) row acc = push_row acc (value_to_lookup_key value) row

  -- The fold that gathers the target rows by the text of their join column.
  unfoldable pub build_lookup :
      String
      → List (BTreeMap Value)
      → BTreeMap (List (BTreeMap Value))
      → BTreeMap (List (BTreeMap Value))
  unfolding add_target
  build_lookup right_column [] acc = acc
  build_lookup right_column (row ∷ rows) acc =
      build_lookup right_column rows (add_target (BTreeMap.get row right_column) row acc)

  unfoldable pub extend_all : Value → String → List (BTreeMap Value) → List Value
  extend_all row alias [] = []
  extend_all row alias (matched ∷ matches) =
      extend_joined_row row alias matched ∷ extend_all row alias matches

  -- What becomes of one row: a row without the column, or without a partner, is dropped.
  unfoldable pub matches_of :
      BTreeMap (List (BTreeMap Value)) → Option Value → List (BTreeMap Value)
  matches_of lookup none = []
  matches_of lookup (some actual) = unwrap_or (BTreeMap.get lookup (value_to_lookup_key actual)) []

  unfoldable pub left_value : ParsedSqlJoin → Value → Option Value
  left_value join row =
      get_value_at_path row (format (join.left_alias ∷ "." ∷ join.left_column ∷ []))

  unfoldable pub join_each :
      ParsedSqlJoin → BTreeMap (List (BTreeMap Value)) → List Value → List Value
  unfolding extend_all matches_of left_value
  join_each join lookup [] = []
  join_each join lookup (row ∷ rows) =
      extend_all row join.alias (matches_of lookup (left_value join row))
      ++ join_each join lookup rows

  -- One round of the loop over the joins.
  unfoldable pub join_rows : ParsedSqlJoin → List (BTreeMap Value) → List Value → List Value
  unfolding build_lookup join_each
  join_rows join target_rows rows =
      join_each join (build_lookup join.right_column target_rows []) rows

  join_found : ParsedSqlJoin → Option (List (BTreeMap Value)) → List Value → List Value
  join_found join none rows = rows
  join_found join (some target_rows) rows = join_rows join target_rows rows

  unfoldable pub join_all :
      List ParsedSqlJoin → BTreeMap (List (BTreeMap Value)) → List Value → List Value
  unfolding join_found
  join_all [] join_data rows = rows
  join_all (join ∷ joins) join_data rows =
      join_all joins join_data (join_found join (BTreeMap.get join_data join.alias) rows)

  project : List ParsedSqlProjection → BTreeMap Value → BTreeMap Value → BTreeMap Value
  project [] object projected = projected
  project (column ∷ columns) object projected = project columns object (
      BTreeMap.insert projected column.output
        (unwrap_or (get_value_at_path (from_object object) column.source) Json.null))

  select_rows : List ParsedSqlProjection → List Value → Result (List Value) AppError
  unfolding project
  select_rows columns [] = ok []
  select_rows columns (row ∷ rows) = selected (as_object row) (select_rows columns rows)
    where
      selected :
          Option (BTreeMap Value) → Result (List Value) AppError → Result (List Value) AppError
      selected none rest = err not_an_object
      selected (some object) (err e) = err e
      selected (some object) (ok rest) = ok (from_object (project columns object []) ∷ rest)

  unfoldable pub apply_column_selection :
      List Value → Option (List ParsedSqlProjection) → Result (List Value) AppError
  unfolding select_rows
  apply_column_selection rows none = ok rows
  apply_column_selection rows (some selected_columns) = select_rows selected_columns rows
