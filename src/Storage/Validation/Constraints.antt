-- ===== src/Storage/Validation/Constraints.antt =====
-- src/storage/validation/constraints.rs
use Prim.Native.String.{count}
use dirbase.Prelude.{
  String, Bool, true, false, not, Option, none, some, List, Ordering, any, ltb, str_eq,
  if◌then◌else◌, is_some_and, unwrap_or, or_else, and_then,
}
use dirbase.Error.{Result, ok, err, ◌>>◌}
use dirbase.Json.{as_str}
use dirbase.Runtime.{Runtime, Value, as_f64}
use dirbase.Schema.Types.{ColumnType, ColumnSchema, is_string_backed, is_numeric_like}

-- `if failed { return Err(name) }`
abbrev reject_if : Bool → String → Result (Unit {0}) String
reject_if true name = err name
reject_if false name = ok tt

abbrev is_lt : Option Ordering → Bool
is_lt (some Ordering.lt) = true
is_lt _ = false

abbrev is_gt : Option Ordering → Bool
is_gt (some Ordering.gt) = true
is_gt _ = false

module _ ⦃rt : Runtime⦄ where
  unfoldable pub value_as_constraint_string : Value → ColumnType → Option String
  value_as_constraint_string value t = if is_string_backed t then as_str value else none

  unfoldable pub numeric_value : Value → ColumnType → Option rt.Float
  numeric_value value t =
      if is_numeric_like t
      then or_else (as_f64 value) (and_then (as_str value) rt.parse_f64)
      else none

  unfoldable pub date_value : Value → ColumnType → Option rt.Date
  date_value value ColumnType.date = and_then (as_str value) rt.parse_date
  date_value value _ = none

  unfoldable pub datetime_value : Value → ColumnType → Option rt.Instant
  datetime_value value ColumnType.datetime = and_then (as_str value) rt.parse_rfc3339
  datetime_value value _ = none

  enum_constraint : Value → Option (List String) → Result (Unit {0}) String
  enum_constraint value none = ok tt
  enum_constraint value (some enum_values) =
      reject_if
        (not
          (is_some_and (as_str value) (λ text. any (λ allowed. str_eq allowed text) enum_values)))
        "enum"

  text_constraints : ColumnSchema → Option String → Result (Unit {0}) String
  text_constraints column none = ok tt
  text_constraints column (some text) = do
    reject_if (is_some_and column.min_length (λ min. ltb (count text) min)) "min_length"
    reject_if (is_some_and column.max_length (λ max. ltb max (count text))) "max_length"
    reject_if
        (is_some_and column.pattern
          (λ pattern. not (unwrap_or (rt.regex_is_match pattern text) false)))
        "pattern"

  number_constraints : ColumnSchema → Option rt.Float → Result (Unit {0}) String
  number_constraints column none = ok tt
  number_constraints column (some actual) = do
    reject_if
        (is_some_and column.min
          (λ min. is_lt (rt.float_cmp actual (unwrap_or (as_f64 min) rt.neg_infinity))))
        "min"
    reject_if
        (is_some_and column.max
          (λ max. is_gt (rt.float_cmp actual (unwrap_or (as_f64 max) rt.infinity))))
        "max"

  date_constraints : ColumnSchema → Option rt.Date → Result (Unit {0}) String
  date_constraints column none = ok tt
  date_constraints column (some actual) = do
    reject_if
        (is_some_and (and_then (and_then column.min as_str) rt.parse_date)
          (λ min. is_lt (some (rt.date_cmp actual min))))
        "min"
    reject_if
        (is_some_and (and_then (and_then column.max as_str) rt.parse_date)
          (λ max. is_gt (some (rt.date_cmp actual max))))
        "max"

  datetime_constraints : ColumnSchema → Option rt.Instant → Result (Unit {0}) String
  datetime_constraints column none = ok tt
  datetime_constraints column (some actual) = do
    reject_if
        (is_some_and (and_then (and_then column.min as_str) rt.parse_rfc3339)
          (λ min. is_lt (some (rt.instant_cmp actual min))))
        "min"
    reject_if
        (is_some_and (and_then (and_then column.max as_str) rt.parse_rfc3339)
          (λ max. is_gt (some (rt.instant_cmp actual max))))
        "max"

  -- The name of the first constraint that the value violates.
  unfoldable pub validate_column_constraints : Value → ColumnSchema → Result (Unit {0}) String
  unfolding enum_constraint text_constraints number_constraints date_constraints
      datetime_constraints value_as_constraint_string numeric_value date_value datetime_value
  validate_column_constraints value column = do
    enum_constraint value column.enum_values
    text_constraints column (value_as_constraint_string value column.column_type)
    number_constraints column (numeric_value value column.column_type)
    date_constraints column (date_value value column.column_type)
    datetime_constraints column (datetime_value value column.column_type)
