-- ===== src/Query/Parser.antt =====
-- src/query/parser.rs
pub mod Ranges
use dirbase.Prelude.{
  ℕ, String, Bool, true, false, ◌&&◌, ◌||◌, not, Option, none, some, List, [], ◌∷◌, ◌++◌, map,
  filter, ◌==◌, str_eq, if◌then◌else◌,
}
use dirbase.Error.{AppError, app_error, bad_request, Result, ok, err, ◌>>=◌, ok_or}
use dirbase.Runtime.{Runtime}
use dirbase.Text.{format, split, split_once, rsplit_once, strip_prefix, trim, is_empty}
use dirbase.Text.Decimal.{parse_usize}
use dirbase.Query.Types.{
  FilterOperator, SortColumn, Pagination, filter_condition, FilterCondition, ParsedCollectionQuery,
}

-- The operator that a text names.
unfoldable pub parse_operator : String → Option FilterOperator
parse_operator s =
    if str_eq s "eq"
    then some FilterOperator.eq
    else if str_eq s "ne"
    then some FilterOperator.ne
    else if str_eq s "lt"
    then some FilterOperator.lt
    else if str_eq s "lte"
    then some FilterOperator.lte
    else if str_eq s "gt"
    then some FilterOperator.gt
    else if str_eq s "gte"
    then some FilterOperator.gte
    else if str_eq s "in"
    then some FilterOperator.in_list
    else if str_eq s "contains"
    then some FilterOperator.contains
    else if str_eq s "startsWith"
    then some FilterOperator.starts_with
    else if str_eq s "endsWith"
    then some FilterOperator.ends_with
    else if str_eq s "isNull" || str_eq s "is_null"
    then some FilterOperator.is_null
    else if str_eq s "isNotNull" || str_eq s "is_not_null"
    then some FilterOperator.is_not_null
    else none

unsupported : String → String → AppError
unsupported operator key =
    app_error bad_request
      (format ("Unsupported filter operator '" ∷ operator ∷ "' in '" ∷ key ∷ "'" ∷ []))

invalid_key : String → AppError
invalid_key key = app_error bad_request (format ("Invalid filter key '" ∷ key ∷ "'" ∷ []))

-- `field:operator`.
with_colon : String → String × String → Result (String × FilterOperator) AppError
with_colon key (field_path, operator) = do
  op ← ok_or (parse_operator operator) (unsupported operator key)
  if is_empty field_path then err (invalid_key key) else ok (field_path, op)

plain_key : String → Result (String × FilterOperator) AppError
plain_key key = if is_empty key then err (invalid_key key) else ok (key, FilterOperator.eq)

operator_or_plain :
    String → String → Option FilterOperator → Result (String × FilterOperator) AppError
operator_or_plain key field_path none = plain_key key
operator_or_plain key field_path (some op) = ok (field_path, op)

-- `field_operator`, where the part behind the last underscore names an operator.
with_underscore : String → Option (String × String) → Result (String × FilterOperator) AppError
with_underscore key none = plain_key key
with_underscore key (some (field_path, operator)) =
    if is_empty field_path
    then plain_key key
    else operator_or_plain key field_path (parse_operator operator)

by_separator : String → Option (String × String) → Result (String × FilterOperator) AppError
by_separator key none = with_underscore key (rsplit_once b'_' key)
by_separator key (some parts) = with_colon key parts

unfoldable pub parse_filter_key : String → Result (String × FilterOperator) AppError
unfolding unsupported invalid_key with_colon plain_key operator_or_plain with_underscore
    by_separator
parse_filter_key key = by_separator key (split_once b':' key)

positive : String → ℕ → Result ℕ AppError
positive key parsed =
    if parsed == 0
    then err (app_error bad_request (format ("'" ∷ key ∷ "' must be greater than 0" ∷ [])))
    else ok parsed

unfoldable pub parse_positive_usize : String → String → Result ℕ AppError
unfolding positive
parse_positive_usize key value = do
  parsed ←
      ok_or (parse_usize value)
        (app_error bad_request (format ("Invalid value for '" ∷ key ∷ "': '" ∷ value ∷ "'" ∷ [])))
  positive key parsed

signed_column : String → Option String → SortColumn
signed_column column none = record { field_path = column; descending = false }
signed_column column (some stripped) = record { field_path = stripped; descending = true }

-- The columns of one `sort` parameter: the empty ones are skipped, also behind a minus sign.
unfoldable pub sort_columns_of : String → List SortColumn
unfolding signed_column
sort_columns_of value =
    filter (λ (c : SortColumn). not (is_empty c.field_path))
      (map (λ column. signed_column column (strip_prefix b'-' column))
        (filter (λ s. not (is_empty s)) (map trim (split b',' value))))

-- The fields of one `embed` parameter.
unfoldable pub embeds_of : String → List String
embeds_of value = filter (λ s. not (is_empty s)) (map trim (split b',' value))

unfoldable pub pagination_of : Option ℕ → Option ℕ → Option Pagination
pagination_of none none = none
pagination_of (some page) (some per_page) = some (record { page = page; per_page = per_page })
pagination_of (some page) none = some (record { page = page; per_page = 10 })
pagination_of none (some per_page) = some (record { page = 1; per_page = per_page })

module _ ⦃rt : Runtime⦄ where
  -- The variables of the loop over the parameters.
  pub record Parsing : Type 0 where
    pub filters : List FilterCondition
    pub sort_columns : List SortColumn
    pub page : Option ℕ
    pub per_page : Option ℕ
    pub embeds : List String

  abbrev pub no_params : Parsing
  no_params = record { filters = []; sort_columns = []; page = none; per_page = none; embeds = [] }

  add_filter : Parsing → String → String × FilterOperator → Parsing
  add_filter p value (field_path, operator) = record p {
    filters = p.filters ++ filter_condition field_path operator value ∷ [];
  }

  -- One round of the loop.
  unfoldable pub parse_param : Parsing → String → String → Result Parsing AppError
  unfolding add_filter
  parse_param p key value =
      if str_eq key "sort" || str_eq key "_sort"
      then ok (record p { sort_columns = p.sort_columns ++ sort_columns_of value })
      else if str_eq key "page" || str_eq key "_page"
      then (do n ← parse_positive_usize key value; ok (record p { page = some n }))
      else if str_eq key "per_page" || str_eq key "_per_page"
      then (do n ← parse_positive_usize key value; ok (record p { per_page = some n }))
      else if str_eq key "embed" || str_eq key "_embed"
      then ok (record p { embeds = p.embeds ++ embeds_of value })
      else (do parts ← parse_filter_key key; ok (add_filter p value parts))

  unfoldable pub parse_params : Parsing → List (String × String) → Result Parsing AppError
  parse_params p [] = ok p
  parse_params p ((key, value) ∷ params) = do p' ← parse_param p key value; parse_params p' params

  unfoldable pub parse_collection_query_params :
      List (String × String) → Result ParsedCollectionQuery AppError
  unfolding parse_params
  parse_collection_query_params params = do
    p ← parse_params no_params params
    ok (record {
      filters = p.filters;
      sort_columns = p.sort_columns;
      pagination = pagination_of p.page p.per_page;
      embeds = p.embeds;
    })
