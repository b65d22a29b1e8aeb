-- ===== src/Schema/Validation/Constraints.antt =====
-- src/schema/validation.rs: the checks of a column's constraints.
use Prim.Native.String.{String}
use dirbase.Prelude.{
  Bool, true, false, not, ◌&&◌, ◌||◌, Option, none, some, List, [], ◌∷◌, Ordering, ltb,
  if◌then◌else◌, is_some, is_some_and, and_then,
}
use dirbase.Error.{Result, ok, err, ◌>>◌}
use dirbase.Json.{as_str}
use dirbase.Runtime.{Runtime, Value, as_f64}
use dirbase.Text.{format}
use dirbase.Schema.Types.{
  ColumnType, ColumnSchema, label, column_type_eq, is_string_backed, is_numeric_like,
  is_orderable_with_bounds,
}
use dirbase.Schema.Relations.{contains_name}

-- The start of every message, and the early return with one.
abbrev about : String → String → List String → String
about table_name column_name rest =
    format ("table '" ∷ table_name ∷ "' column '" ∷ column_name ∷ "' declares " ∷ rest)

abbrev refuse_if : Bool → String → Result (Unit {0}) String
refuse_if true message = err message
refuse_if false message = ok tt

abbrev is_some_gt : Option Ordering → Bool
is_some_gt (some Ordering.gt) = true
is_some_gt _ = false

-- The loop over the values of an enumeration.
no_duplicate_value : String → String → List String → List String → Result (Unit {0}) String
no_duplicate_value table_name column_name seen [] = ok tt
no_duplicate_value table_name column_name seen (value ∷ values) =
    if contains_name seen value
    then err (about table_name column_name ("duplicate enum value '" ∷ value ∷ "'" ∷ []))
    else no_duplicate_value table_name column_name (value ∷ seen) values

abbrev is_nil : List String → Bool
is_nil [] = true
is_nil (value ∷ values) = false

module _ ⦃rt : Runtime⦄ where
  validate_enum : String → String → ColumnSchema → Option (List String) → Result (Unit {0}) String
  unfolding no_duplicate_value
  validate_enum table_name column_name column none = ok tt
  validate_enum table_name column_name column (some values) = do
    refuse_if (not (column_type_eq column.column_type ColumnType.string))
        (about table_name column_name ("enum_values on non-string type" ∷ []))
    refuse_if (is_nil values) (about table_name column_name ("empty enum_values" ∷ []))
    no_duplicate_value table_name column_name [] values

  -- The text of a date or an instant, and what its parser says.
  bound_text :
      String
      → String
      → String
      → Option String
      → (String → Bool)
      → (String → String)
      → Result (Unit {0}) String
  bound_text table_name column_name bound_name none parses message =
      err (about table_name column_name ("non-string " ∷ bound_name ∷ []))
  bound_text table_name column_name bound_name (some text) parses message =
      refuse_if (not (parses text))
        (about table_name column_name ("invalid " ∷ bound_name ∷ ": " ∷ message text ∷ []))

  bound_of_type : String → String → String → Value → ColumnType → Result (Unit {0}) String
  unfolding bound_text
  bound_of_type table_name column_name bound_name value ColumnType.date =
      bound_text table_name column_name bound_name (as_str value)
        (λ text. is_some (rt.parse_date text)) rt.date_error
  bound_of_type table_name column_name bound_name value ColumnType.datetime =
      bound_text table_name column_name bound_name (as_str value)
        (λ text. is_some (rt.parse_rfc3339 text)) rt.rfc3339_error
  bound_of_type table_name column_name bound_name value t =
      if is_numeric_like t
      then refuse_if (not (is_some (as_f64 value)))
          (about table_name column_name ("non-numeric " ∷ bound_name ∷ []))
      else ok tt

  unfoldable pub validate_bound_value :
      String → String → ColumnType → String → Option Value → Result (Unit {0}) String
  unfolding bound_of_type
  validate_bound_value table_name column_name column_type bound_name none = ok tt
  validate_bound_value table_name column_name column_type bound_name (some value) =
      bound_of_type table_name column_name bound_name value column_type

  compare_dates : Option rt.Date → Option rt.Date → Option Ordering
  compare_dates left right = and_then left (λ l. and_then right (λ r. some (rt.date_cmp l r)))

  compare_instants : Option rt.Instant → Option rt.Instant → Option Ordering
  compare_instants left right = and_then left (λ l. and_then right (λ r. some (rt.instant_cmp l r)))

  unfoldable pub compare_bound_values : ColumnType → Value → Value → Option Ordering
  unfolding compare_dates compare_instants
  compare_bound_values ColumnType.date left right =
      compare_dates (and_then (as_str left) rt.parse_date) (and_then (as_str right) rt.parse_date)
  compare_bound_values ColumnType.datetime left right =
      compare_instants (and_then (as_str left) rt.parse_rfc3339)
        (and_then (as_str right) rt.parse_rfc3339)
  compare_bound_values t left right =
      if is_numeric_like t
      then and_then (as_f64 left) (λ l. and_then (as_f64 right) (λ r. rt.float_cmp l r))
      else none

  both : {A : Type 0} → Option A → Option A → (A → A → Bool) → Bool
  both left right test = is_some_and left (λ l. is_some_and right (λ r. test l r))

  abbrev pattern_result : String → String → Option String → Result (Unit {0}) String
  pattern_result table_name column_name none = ok tt
  pattern_result table_name column_name (some message) =
      err (about table_name column_name ("invalid pattern: " ∷ message ∷ []))

  validate_pattern : String → String → ColumnSchema → Option String → Result (Unit {0}) String
  validate_pattern table_name column_name column none = ok tt
  validate_pattern table_name column_name column (some pattern) = do
    refuse_if (not (is_string_backed column.column_type)) (
        about table_name column_name
          ("pattern on unsupported type '" ∷ label column.column_type ∷ "'" ∷ []))
    pattern_result table_name column_name (rt.regex_error pattern)

  unfoldable pub validate_column_constraints :
      String → String → ColumnSchema → Result (Unit {0}) String
  unfolding validate_enum validate_bound_value compare_bound_values both validate_pattern
  validate_column_constraints table_name column_name column = do
    validate_enum table_name column_name column column.enum_values
    refuse_if
        ((is_some column.min || is_some column.max)
          && not (is_orderable_with_bounds column.column_type))
        (about table_name column_name
          ("min/max on unsupported type '" ∷ label column.column_type ∷ "'" ∷ []))
    validate_bound_value table_name column_name column.column_type "min" column.min
    validate_bound_value table_name column_name column.column_type "max" column.max
    refuse_if
        (both column.min column.max
          (λ min max. is_some_gt (compare_bound_values column.column_type min max)))
        (about table_name column_name ("min greater than max" ∷ []))
    refuse_if
        ((is_some column.min_length || is_some column.max_length)
          && not (is_string_backed column.column_type))
        (about table_name column_name
          ("length constraints on unsupported type '" ∷ label column.column_type ∷ "'" ∷ []))
    refuse_if (both column.min_length column.max_length (λ min max. ltb max min))
        (about table_name column_name ("min_length greater than max_length" ∷ []))
    validate_pattern table_name column_name column column.pattern
