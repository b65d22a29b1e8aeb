-- ===== src/Sql/Executor/Run.antt =====
-- run_sql_query of src/sql/executor.rs, on a parsed query and its row offset.
use dirbase.Prelude.{
  ℕ, String, Option, none, some, List, [], ◌∷◌, if◌then◌else◌, length, take, drop, ltb, map,
}
use dirbase.BTreeMap
use dirbase.BTreeMap.{BTreeMap}
use dirbase.Json.{as_array, as_object, from_array}
use dirbase.Error.{
  AppError, app_error, bad_request, payload_too_large, with_code, Result, ok, err, ok_or,
}
use dirbase.Runtime.{Runtime, Value}
use dirbase.Text.{format}
use dirbase.Text.Decimal.{show_nat}
use dirbase.Query.Types.{FilterCondition, SortColumn, Pagination}
use dirbase.Query.Evaluator.{filter_collection_data}
use dirbase.Query.Sort.{sort_collection_data}
use dirbase.App.FileSystem.{FileSystem}
use dirbase.App.Action.{Action, return, lift, ◌>>=◌, ◌>>◌, proceed}
use dirbase.App.State.{AppState}
use dirbase.Storage.Loading.{load_resource}
use dirbase.Sql.Types.{ParsedSqlQuery, ParsedSqlJoin}
use dirbase.Sql.Executor.{
  not_an_array, not_an_object, build_base_sql_row, join_all, apply_column_selection,
}

-- The limits of the configuration.
pub record SqlLimits : Type 0 where
  pub max_sql_scan_rows : ℕ
  pub max_sql_selected_rows : ℕ

abbrev unsupported : AppError → AppError
unsupported e = with_code e "unsupported_feature"

abbrev too_many_scanned : ℕ → ℕ → AppError
too_many_scanned scanned_rows limit = unsupported (
    app_error payload_too_large (
      format (
        "Query exceeds scan guard: "
        ∷ show_nat scanned_rows
        ∷ " rows scanned (max "
        ∷ show_nat limit
        ∷ ")"
        ∷ [])))

abbrev too_many_selected : ℕ → ℕ → AppError
too_many_selected row_count limit = unsupported (
    app_error bad_request (
      format (
        "Query returned "
        ∷ show_nat row_count
        ∷ " rows; maximum allowed is "
        ∷ show_nat limit
        ∷ ". Use LIMIT to reduce the result set"
        ∷ [])))

abbrev at_most : ℕ → ℕ → AppError → Result (Unit {0}) AppError
at_most count limit failure = if ltb limit count then err failure else ok tt

module _ ⦃rt : Runtime⦄ where
  -- `collect::<Result<Vec<_>, _>>()` of the rows as objects.
  objects_of : List Value → Result (List (BTreeMap Value)) AppError
  objects_of [] = ok []
  objects_of (row ∷ rows) = gathered (as_object row) (objects_of rows)
    where
      gathered :
          Option (BTreeMap Value)
          → Result (List (BTreeMap Value)) AppError
          → Result (List (BTreeMap Value)) AppError
      gathered none rest = err not_an_object
      gathered (some object) (err e) = err e
      gathered (some object) (ok rest) = ok (object ∷ rest)

  filtered : List FilterCondition → List Value → Result Value AppError
  filtered [] rows = ok (from_array rows)
  filtered (filter ∷ filters) rows =
      filter_collection_data (from_array rows) (filter ∷ filters) none

  sorted : List SortColumn → Value → Option (Result Value AppError)
  sorted [] value = some (ok value)
  sorted (column ∷ columns) value = sort_collection_data value (column ∷ columns)

  paginated : Option Pagination → ℕ → List Value → List Value
  paginated none offset rows = rows
  paginated (some pagination) offset rows = take pagination.per_page (drop offset rows)

  module _ ⦃fs : FileSystem⦄ where
    load_objects : String → Action AppState (List (BTreeMap Value))
    unfolding objects_of
    load_objects resource = do
      shared ← load_resource resource
      rows ← lift (ok_or (as_array shared.content) not_an_array)
      lift (objects_of rows)

    -- The rows of each alias, loaded once.
    load_join :
        ParsedSqlJoin
        → BTreeMap (List (BTreeMap Value))
        → Option (List (BTreeMap Value))
        → Action AppState (BTreeMap (List (BTreeMap Value)))
    unfolding load_objects
    load_join join join_data (some rows) = return join_data
    load_join join join_data none = do
      rows ← load_objects join.resource
      return (BTreeMap.insert join_data join.alias rows)

    load_joins :
        List ParsedSqlJoin
        → BTreeMap (List (BTreeMap Value))
        → Action AppState (BTreeMap (List (BTreeMap Value)))
    unfolding load_join
    load_joins [] join_data = return join_data
    load_joins (join ∷ joins) join_data = do
      loaded ← load_join join join_data (BTreeMap.get join_data join.alias)
      load_joins joins loaded

    unfoldable pub materialize_sql_rows : ParsedSqlQuery → Action AppState (List Value)
    unfolding load_objects load_joins
    materialize_sql_rows parsed = do
      base ← load_objects parsed.resource
      join_data ← load_joins parsed.joins []
      return (
          join_all parsed.joins join_data
            (map (λ object. build_base_sql_row parsed.resource parsed.resource_alias object) base))

    -- Up to the sort.
    filtered_rows : SqlLimits → ParsedSqlQuery → Action AppState Value
    unfolding filtered
    filtered_rows limits parsed = do
      rows ← materialize_sql_rows parsed
      lift (
          at_most (length rows) limits.max_sql_scan_rows
            (too_many_scanned (length rows) limits.max_sql_scan_rows))
      lift (filtered parsed.filters rows)

    -- From the sort on.
    answer_rows : SqlLimits → ParsedSqlQuery → ℕ → Value → Action AppState (List Value)
    unfolding paginated
    answer_rows limits parsed offset ordered = do
      all ← lift (ok_or (as_array ordered) not_an_array)
      selected ←
          lift (
            apply_column_selection (paginated parsed.pagination offset all) parsed.selected_columns)
      lift (
          at_most (length selected) limits.max_sql_selected_rows
            (too_many_selected (length selected) limits.max_sql_selected_rows))
      return selected

    after_sort :
        SqlLimits
        → ParsedSqlQuery
        → ℕ
        → AppState
        → Option (Result Value AppError)
        → Option (AppState × Result (List Value) AppError)
    after_sort limits parsed offset state none = none
    after_sort limits parsed offset state (some ordered) =
        some (proceed (state, ordered) (answer_rows limits parsed offset))

    after_filter :
        SqlLimits
        → ParsedSqlQuery
        → ℕ
        → AppState × Result Value AppError
        → Option (AppState × Result (List Value) AppError)
    unfolding sorted after_sort
    after_filter limits parsed offset (state, err e) = some (state, err e)
    after_filter limits parsed offset (state, ok kept) =
        after_sort limits parsed offset state (sorted parsed.sort_columns kept)

    -- The rows of the answer; their number is the `row_count` beside them. None is what the sort gives
    -- for rows that the columns do not put in an order.
    unfoldable run_sql_query :
        SqlLimits → ParsedSqlQuery → ℕ → AppState → Option (AppState × Result (List Value) AppError)
    unfolding filtered_rows after_filter
    run_sql_query limits parsed offset state =
        after_filter limits parsed offset (filtered_rows limits parsed state)
