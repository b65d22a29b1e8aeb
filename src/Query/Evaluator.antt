-- ===== src/Query/Evaluator.antt =====
-- src/query/evaluator.rs
pub mod Operators
use Prim.Native.String.{compare as compare_text}
use dirbase.Prelude.{
  ℕ, String, Bool, true, false, not, ◌||◌, Option, none, some, List, [], ◌∷◌, Ordering, all, any,
  filter, is_some_and, unwrap_or, and_then, if◌then◌else◌,
}
use dirbase.BTreeMap
use dirbase.Json.{Json, as_array, as_object, from_array, as_str, as_bool, is_null}
use dirbase.Error.{AppError, app_error, bad_request, Result, ok, err, ok_or, ◌>>=◌}
use dirbase.Runtime.{Runtime, Value, as_f64}
use dirbase.Text
use dirbase.Text.Decimal.{parse_bool}
use dirbase.Schema.Types.{ColumnType, ColumnSchema, TableSchema}
use dirbase.Query.Types.{FilterOperator, FilterCondition, ComparableValue}

-- `left.cmp(right)` on `bool`.
abbrev pub compare_bool : Bool → Bool → Ordering
compare_bool false true = Ordering.lt
compare_bool true false = Ordering.gt
compare_bool _ _ = Ordering.eq

abbrev pub is_less : Ordering → Bool
is_less Ordering.lt = true
is_less _ = false

abbrev pub is_equal : Ordering → Bool
is_equal Ordering.eq = true
is_equal _ = false

abbrev pub is_greater : Ordering → Bool
is_greater Ordering.gt = true
is_greater _ = false

module _ ⦃rt : Runtime⦄ where
  -- `get_value_at_segments`, the loop of `get_value_at_path` too
  unfoldable pub get_value_at_segments : Value → List String → Option Value
  get_value_at_segments value [] = some value
  get_value_at_segments value (segment ∷ segments) =
      and_then (and_then (as_object value) (λ object. BTreeMap.get object segment))
        (λ v. get_value_at_segments v segments)

  unfoldable pub get_value_at_path : Value → String → Option Value
  unfolding get_value_at_segments
  get_value_at_path value path = get_value_at_segments value (Text.split b'.' path)

  unfoldable pub value_to_filter_string : Value → String
  value_to_filter_string (Json.string text) = text
  value_to_filter_string Json.null = "null"
  value_to_filter_string (Json.bool b) = rt.json_text (Json.bool b)
  value_to_filter_string (Json.number n) = rt.json_text (Json.number n)
  value_to_filter_string (Json.array vs) = rt.json_text (Json.array vs)
  value_to_filter_string (Json.object fs) = rt.json_text (Json.object fs)

  unfoldable pub compare_comparable_values : ComparableValue → ComparableValue → Option Ordering
  compare_comparable_values ComparableValue.null ComparableValue.null = some Ordering.eq
  compare_comparable_values (ComparableValue.number l) (ComparableValue.number r) = rt.float_cmp l r
  compare_comparable_values (ComparableValue.bool l) (ComparableValue.bool r) =
      some (compare_bool l r)
  compare_comparable_values (ComparableValue.string l) (ComparableValue.string r) =
      some (compare_text l r)
  compare_comparable_values _ _ = none

  abbrev of_number : Option rt.Float → Option ComparableValue
  of_number none = none
  of_number (some x) = some (ComparableValue.number x)

  abbrev of_bool : Option Bool → Option ComparableValue
  of_bool none = none
  of_bool (some b) = some (ComparableValue.bool b)

  -- A text as a number, or as a Boolean, or as itself.
  bool_or_string : String → Option Bool → ComparableValue
  bool_or_string text (some b) = ComparableValue.bool b
  bool_or_string text none = ComparableValue.string text

  text_value : String → Option rt.Float → ComparableValue
  unfolding bool_or_string
  text_value text (some x) = ComparableValue.number x
  text_value text none = bool_or_string text (parse_bool text)

  numeric_actual : Value → Option rt.Float → Option ComparableValue
  numeric_actual actual (some x) = some (ComparableValue.number x)
  numeric_actual actual none = of_number (and_then (as_str actual) rt.parse_f64)

  boolean_actual : Value → Option Bool → Option ComparableValue
  boolean_actual actual (some b) = some (ComparableValue.bool b)
  boolean_actual actual none = of_bool (and_then (as_str actual) parse_bool)

  coerce_actual_for_type : Value → ColumnType → Option ComparableValue
  unfolding numeric_actual boolean_actual
  coerce_actual_for_type actual ColumnType.integer = numeric_actual actual (as_f64 actual)
  coerce_actual_for_type actual ColumnType.float = numeric_actual actual (as_f64 actual)
  coerce_actual_for_type actual ColumnType.big_integer = numeric_actual actual (as_f64 actual)
  coerce_actual_for_type actual ColumnType.decimal = numeric_actual actual (as_f64 actual)
  coerce_actual_for_type actual ColumnType.boolean = boolean_actual actual (as_bool actual)
  coerce_actual_for_type actual _ = some (ComparableValue.string (value_to_filter_string actual))

  unfoldable pub coerce_actual_for_column : Value → ColumnSchema → Option ComparableValue
  unfolding coerce_actual_for_type
  coerce_actual_for_column actual column = coerce_actual_for_type actual column.column_type

  -- Without a column: `as_f64`, then `as_bool`, then `as_str`, then the filter string.
  coerce_untyped : Value → Option rt.Float → ComparableValue
  unfolding text_value
  coerce_untyped actual (some x) = ComparableValue.number x
  coerce_untyped (Json.bool b) none = ComparableValue.bool b
  coerce_untyped (Json.string text) none = text_value text (rt.parse_f64 text)
  coerce_untyped actual none = ComparableValue.string (value_to_filter_string actual)

  coerce_non_null : Value → Option ColumnSchema → Option ComparableValue
  coerce_non_null actual (some column) = coerce_actual_for_column actual column
  coerce_non_null actual none = some (coerce_untyped actual (as_f64 actual))

  unfoldable pub coerce_actual_value : Value → Option ColumnSchema → Option ComparableValue
  unfolding coerce_untyped coerce_non_null coerce_actual_for_column
  coerce_actual_value actual column =
      if is_null actual then some ComparableValue.null else coerce_non_null actual column

  coerce_expected_for_type : String → ColumnType → Option ComparableValue
  coerce_expected_for_type expected ColumnType.integer = of_number (rt.parse_f64 expected)
  coerce_expected_for_type expected ColumnType.float = of_number (rt.parse_f64 expected)
  coerce_expected_for_type expected ColumnType.big_integer = of_number (rt.parse_f64 expected)
  coerce_expected_for_type expected ColumnType.decimal = of_number (rt.parse_f64 expected)
  coerce_expected_for_type expected ColumnType.boolean = of_bool (parse_bool expected)
  coerce_expected_for_type expected _ = some (ComparableValue.string expected)

  coerce_expected_non_null : String → Option ColumnSchema → Option ComparableValue
  unfolding coerce_expected_for_type text_value
  coerce_expected_non_null expected (some column) =
      coerce_expected_for_type expected column.column_type
  coerce_expected_non_null expected none = some (text_value expected (rt.parse_f64 expected))

  unfoldable pub coerce_expected_value : String → Option ColumnSchema → Option ComparableValue
  unfolding coerce_expected_non_null
  coerce_expected_value expected column =
      if Text.eq_ignore_ascii_case expected "null"
      then some ComparableValue.null
      else coerce_expected_non_null expected column

  compare_right : ComparableValue → String → ComparableValue → Option ColumnSchema → Option Ordering
  compare_right left raw_expected prepared (some column) =
      and_then (coerce_expected_value raw_expected (some column)) (compare_comparable_values left)
  compare_right left raw_expected prepared none = compare_comparable_values left prepared

  unfoldable pub compare_with_prepared_value :
      Value → ComparableValue → String → Option ColumnSchema → Option Ordering
  unfolding compare_right
  compare_with_prepared_value actual prepared raw_expected column =
      and_then (coerce_actual_value actual column)
        (λ left. compare_right left raw_expected prepared column)

  unfoldable pub compare_with_prepared :
      Value → FilterCondition → Option ColumnSchema → Option Ordering
  compare_with_prepared actual condition column =
      compare_with_prepared_value actual condition.prepared_value condition.value column

  lower_text_is : (String → String → Bool) → Value → FilterCondition → Bool
  lower_text_is test actual condition =
      is_some_and (as_str actual) (λ text. test (rt.to_lowercase text) condition.value_lower)

  matches_operator : FilterOperator → Value → FilterCondition → Option ColumnSchema → Bool
  unfolding lower_text_is
  matches_operator FilterOperator.is_null actual condition column = is_null actual
  matches_operator FilterOperator.is_not_null actual condition column = not (is_null actual)
  matches_operator FilterOperator.eq actual condition column =
      is_some_and (compare_with_prepared actual condition column) is_equal
  matches_operator FilterOperator.ne actual condition column =
      is_some_and (compare_with_prepared actual condition column) (λ c. not (is_equal c))
  matches_operator FilterOperator.lt actual condition column =
      is_some_and (compare_with_prepared actual condition column) is_less
  matches_operator FilterOperator.lte actual condition column =
      is_some_and (compare_with_prepared actual condition column) (λ c. is_less c || is_equal c)
  matches_operator FilterOperator.gt actual condition column =
      is_some_and (compare_with_prepared actual condition column) is_greater
  matches_operator FilterOperator.gte actual condition column =
      is_some_and (compare_with_prepared actual condition column) (λ c. is_greater c || is_equal c)
  matches_operator FilterOperator.in_list actual condition column =
      any
        (λ prepared.
          is_some_and (compare_with_prepared_value actual prepared condition.value column) is_equal)
        condition.prepared_in_values
  matches_operator FilterOperator.contains actual condition column =
      lower_text_is Text.contains actual condition
  matches_operator FilterOperator.starts_with actual condition column =
      lower_text_is Text.starts_with actual condition
  matches_operator FilterOperator.ends_with actual condition column =
      lower_text_is Text.ends_with actual condition

  unfoldable pub matches_filter : Value → FilterCondition → Option ColumnSchema → Bool
  unfolding matches_operator
  matches_filter actual condition column =
      matches_operator condition.operator actual condition column

  unfoldable pub item_matches_filters : Value → List FilterCondition → Option TableSchema → Bool
  item_matches_filters item filters table =
      all
        (λ (condition : FilterCondition).
          matches_filter (unwrap_or (get_value_at_segments item condition.field_segments) Json.null)
            condition (and_then table (λ t. BTreeMap.get t.columns condition.field_path)))
        filters

  unfoldable pub filter_collection_refs :
      List Value → List FilterCondition → Option TableSchema → List Value
  filter_collection_refs items filters table =
      filter (λ item. item_matches_filters item filters table) items

  unfoldable pub filter_collection_data :
      Value → List FilterCondition → Option TableSchema → Result Value AppError
  unfolding filter_collection_refs
  filter_collection_data value filters table = do
    items ← ok_or (as_array value) (app_error bad_request "Resource is not a JSON array")
    ok (from_array (filter_collection_refs items filters table))
