-- ===== src/Tests/Queries.antt =====
-- Collection queries: parameters, filters, sorting and pages.
use dirbase.Prelude.{
  ℕ, String, Bool, true, false, not, ◌&&◌, ◌||◌, none, some, List, [], ◌∷◌, ◌≡◌, refl, arith,
  and_then, filter, Ordering,
}
use dirbase.Prelude.Int.{ℤ, pos}
use mathlib.Core.List.{Perm}
use dirbase.BTreeMap
use dirbase.Json.{Json, as_array, as_object, from_array, from_object}
use dirbase.Error.{ok}
use dirbase.Text.Decimal.{parse_usize, show_int}
use dirbase.Schema.Types.{ColumnType, ColumnSchema, column_schema}
use dirbase.Query.Types.{
  Pagination, PaginationWindow, FilterOperator, FilterCondition, ParsedCollectionQuery, SortColumn,
  filter_condition,
}
use dirbase.Query.Parser.{
  parse_collection_query_params, parse_param, parse_positive_usize, pagination_of,
}
use dirbase.Text.{eq_ignore_ascii_case, split}
use dirbase.Query.Parser.Ranges.{parsed-IsWindow}
use dirbase.Query.Pagination.{PageData, pagination_window, paginate_collection_refs}
use dirbase.Query.Pagination.Window.{IsWindow, pagination_window-IsWindow}
use dirbase.Query.Pagination.Tiling.{first_pages, first_pages-eq-items}
use dirbase.Query.Evaluator.{
  matches_filter, compare_with_prepared, coerce_actual_value, coerce_expected_value,
  compare_comparable_values, get_value_at_path, value_to_filter_string,
}
use dirbase.Query.Evaluator.Operators.{
  passes, is_nil, operators_agree, prepared-eq-coerced, in_list-column,
}
use dirbase.Query.Sort.{
  compare_items_by_columns, compare_optional_values, compare_json_values, sort_collection_data,
  sort_by, insertion_sort, orders, same_ordering, insert_sorted, compare_column,
}
use dirbase.Query.Sort.Insertion.{IsSorted}
use dirbase.Query.Sort.Sorted.{Before, Tied, sort_collection_data-IsSorted}
use dirbase.Tests.{toy, compare_ℤ, json_text}

abbrev second : Pagination
second = record { page = 2; per_page = 2 }

abbrev asked_second : ParsedCollectionQuery
asked_second = record { filters = []; sort_columns = []; pagination = some second; embeds = [] }

evaluate : Unit {0}
unfolding parse_collection_query_params parse_usize pagination_window paginate_collection_refs
    matches_filter sort_collection_data sort_by orders same_ordering insertion_sort insert_sorted
    compare_column compare_items_by_columns get_value_at_path compare_json_values
    compare_optional_values from_object from_array as_object as_array compare_ℤ BTreeMap.get
    parse_param parse_positive_usize pagination_of eq_ignore_ascii_case split value_to_filter_string
    json_text show_int
evaluate = tt

parsed-IsWindow_example :
    (w : PaginationWindow) × (pagination_window 5 second ≡ some w) × IsWindow 5 second w
unfolding evaluate
parsed-IsWindow_example =
    parsed-IsWindow (("page", "2") ∷ ("per_page", "2") ∷ []) asked_second second 5 refl refl
      (omega arith)

pagination_window-IsWindow_example :
    (w : PaginationWindow) × (pagination_window 5 second ≡ some w) × IsWindow 5 second w
pagination_window-IsWindow_example =
    pagination_window-IsWindow 5 second (omega arith) (omega arith) (omega arith)

abbrev five : List ℕ
five = 10 ∷ 20 ∷ 30 ∷ 40 ∷ 50 ∷ []

first_pages-eq-items_example :
    (page : PageData ℕ) × (paginate_collection_refs five (record { page = 1; per_page = 2 })
      ≡ some page)
    × (first_pages five 2 page.window.pages ≡ five)
first_pages-eq-items_example = first_pages-eq-items five 2 (omega arith) (omega arith) (omega arith)

abbrev three : Json ℤ
three = Json.number (pos 3)

abbrev below_five : FilterCondition
below_five = filter_condition "age" FilterOperator.lt "5"

abbrev age_column : ColumnSchema
age_column = column_schema ColumnType.integer false

operators_agree_example :
    (passes three below_five (some age_column) FilterOperator.lte ≡ (
      passes three below_five (some age_column) FilterOperator.lt
      || passes three below_five (some age_column) FilterOperator.eq))
    × (passes three below_five (some age_column) FilterOperator.gte ≡ (
        passes three below_five (some age_column) FilterOperator.gt
        || passes three below_five (some age_column) FilterOperator.eq))
    × (passes three below_five (some age_column) FilterOperator.ne ≡ (
        passes three below_five (some age_column) FilterOperator.lt
        || passes three below_five (some age_column) FilterOperator.gt))
    × ((passes three below_five (some age_column) FilterOperator.lt
          && passes three below_five (some age_column) FilterOperator.eq)
        ≡ false)
    × ((passes three below_five (some age_column) FilterOperator.gt
          && passes three below_five (some age_column) FilterOperator.eq)
        ≡ false)
    × ((passes three below_five (some age_column) FilterOperator.lt
          && passes three below_five (some age_column) FilterOperator.gt)
        ≡ false)
    × (passes three below_five (some age_column) FilterOperator.is_not_null
        ≡ not (passes three below_five (some age_column) FilterOperator.is_null))
operators_agree_example = operators_agree three below_five (some age_column)

prepared-eq-coerced_example :
    compare_with_prepared three (filter_condition "age" FilterOperator.lt "5") none
    ≡ and_then (coerce_actual_value three none) (λ left.
      and_then (coerce_expected_value "5" none) (λ right. compare_comparable_values left right))
prepared-eq-coerced_example = prepared-eq-coerced three "age" FilterOperator.lt "5"

abbrev in_three_five : FilterCondition
in_three_five = filter_condition "age" FilterOperator.in_list "3,5"

in_list-column_example : passes three in_three_five (some age_column) FilterOperator.in_list ≡ (
    not (is_nil in_three_five.prepared_in_values)
    && passes three in_three_five (some age_column) FilterOperator.eq)
in_list-column_example = in_list-column three in_three_five age_column

abbrev named : String → ℕ → Json ℤ
named name id = from_object (("id", Json.number (pos id)) ∷ ("name", Json.string name) ∷ [])

abbrev by_name : List SortColumn
by_name = record { field_path = "name"; descending = true } ∷ []

abbrev unsorted : List (Json ℤ)
unsorted = named "bob" 1 ∷ named "ann" 2 ∷ named "ann" 3 ∷ []

sort_collection_data-IsSorted_example :
    (result : List (Json ℤ)) × (sort_collection_data (from_array unsorted) by_name
      ≡ some (ok (from_array result)))
    × Perm result unsorted
    × IsSorted (Before by_name) result
    × ((p : Json ℤ → Bool) → Tied by_name p → filter p result ≡ filter p unsorted)
unfolding evaluate
sort_collection_data-IsSorted_example =
    sort_collection_data-IsSorted by_name (from_array unsorted) unsorted refl refl

-- Numbers are ordered as numbers, and against text as text: 10 is below "1z", that is below 2, and 2
-- is below 10.
mixed_order_tests :
    (compare_json_values (Json.number (pos 10)) (Json.string "1z") ≡ Ordering.lt)
    × (compare_json_values (Json.string "1z") (Json.number (pos 2)) ≡ Ordering.lt)
    × (compare_json_values (Json.number (pos 2)) (Json.number (pos 10)) ≡ Ordering.lt)
unfolding evaluate
mixed_order_tests = (refl, refl, refl)
