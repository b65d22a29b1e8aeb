-- ===== src/Query/Evaluator/Operators.antt =====
-- How the filter operators relate to one another.
use dirbase.Prelude.{
  String, Bool, true, false, not, ◌&&◌, ◌||◌, Option, none, some, List, [], ◌∷◌, arith, ◌≡◌, ◌≢◌,
  refl, ap, any, is_some_and, and_then, Bool-cases, inl, inr,
}
use dirbase.Json.{Json, is_null}
use dirbase.Runtime.{Runtime, Value, as_f64}
use dirbase.Text.{eq_ignore_ascii_case}
use dirbase.Text.Decimal.{parse_bool}
use dirbase.Schema.Types.{ColumnSchema, ColumnType}
use dirbase.Query.Types.{
  FilterOperator, FilterCondition, ComparableValue, filter_condition, prepare_expected_value,
  prepare_bool, prepare_number,
}
use dirbase.Query.Evaluator.{
  is_equal, matches_filter, compare_with_prepared, compare_with_prepared_value, coerce_actual_value,
  coerce_expected_value, compare_comparable_values, bool_or_string, text_value,
  coerce_actual_for_type, coerce_actual_for_column, coerce_untyped, coerce_non_null,
}
use mathlib.Core.Option.{some-injective}

abbrev pub is_nil {ℓ} : {A : Type ℓ} → List A → Bool
is_nil [] = true
is_nil (x ∷ xs) = false

-- A test that ignores the item passes for some item when there is one.
any-constant {ℓ} : {A : Type ℓ} (b : Bool) (xs : List A) → any (λ _. b) xs ≡ (not (is_nil xs) && b)
any-constant b [] = refl
any-constant true (x ∷ xs) = refl
any-constant false (x ∷ []) = refl
any-constant false (x ∷ y ∷ xs) = any-constant false (y ∷ xs)

module _ ⦃rt : Runtime⦄ where
  bool_or_string-eq :
      (text : String) (b : Option Bool) → bool_or_string text b ≡ prepare_bool text b
  unfolding bool_or_string prepare_bool
  bool_or_string-eq text none = refl
  bool_or_string-eq text (some b) = refl

  text_value-eq : (text : String) (x : Option rt.Float) → text_value text x ≡ prepare_number text x
  unfolding text_value prepare_number
  text_value-eq text none = bool_or_string-eq text (parse_bool text)
  text_value-eq text (some x) = refl

  -- The condition with another operator.
  abbrev pub with_operator : FilterOperator → FilterCondition → FilterCondition
  with_operator operator condition = record condition { operator = operator }

  module _ (actual : Value) (condition : FilterCondition) (column : Option ColumnSchema) where
    abbrev pub passes : FilterOperator → Bool
    passes operator = matches_filter actual (with_operator operator condition) column

    -- Whatever the value, the condition and the column: `lte`, `gte` and `ne` are the disjunctions of
    -- the strict comparisons that their names say, no two of `lt`, `eq` and `gt` pass together, and
    -- `isNotNull` passes exactly when `isNull` does not.
    pub operators_agree :
        (passes FilterOperator.lte ≡ (passes FilterOperator.lt || passes FilterOperator.eq))
        × (passes FilterOperator.gte ≡ (passes FilterOperator.gt || passes FilterOperator.eq))
        × (passes FilterOperator.ne ≡ (passes FilterOperator.lt || passes FilterOperator.gt))
        × ((passes FilterOperator.lt && passes FilterOperator.eq) ≡ false)
        × ((passes FilterOperator.gt && passes FilterOperator.eq) ≡ false)
        × ((passes FilterOperator.lt && passes FilterOperator.gt) ≡ false)
        × (passes FilterOperator.is_not_null ≡ not (passes FilterOperator.is_null))
    unfolding matches_filter compare_with_prepared
    operators_agree = ground arith

  coerce_expected_value-none :
      (text : String) → coerce_expected_value text none ≡ some (prepare_expected_value text)
  unfolding coerce_expected_value prepare_expected_value
  coerce_expected_value-none text = elim (Bool-cases (eq_ignore_ascii_case text "null")) [
    | inl null ↦ rw null
    | inr other ↦ rw other (ap some (text_value-eq text (rt.parse_f64 text)))
  ]

  -- What was prepared when the condition was built is what coercing the raw text would give: on
  -- resources without column metadata the stored value decides as the text itself does.
  pub prepared-eq-coerced :
      (actual : Value) (path : String) (operator : FilterOperator) (text : String)
      → compare_with_prepared actual (filter_condition path operator text) none
        ≡ and_then (coerce_actual_value actual none) (λ left.
          and_then
            (coerce_expected_value text none)
            (λ right. compare_comparable_values left right))
  unfolding compare_with_prepared compare_with_prepared_value filter_condition
  prepared-eq-coerced actual path operator text = rw (coerce_expected_value-none text)

  -- With column metadata the list operator `in` compares with the whole raw text, commas included: it
  -- passes exactly when `eq` does, provided that the list has an item at all.
  pub in_list-column :
      (actual : Value) (condition : FilterCondition) (column : ColumnSchema)
      → passes actual condition (some column) FilterOperator.in_list ≡ (
          not (is_nil condition.prepared_in_values)
          && passes actual condition (some column) FilterOperator.eq)
  unfolding matches_filter compare_with_prepared compare_with_prepared_value
  in_list-column actual condition column =
      any-constant
        (is_some_and
          (and_then (coerce_actual_value actual (some column)) (λ left.
            and_then (coerce_expected_value condition.value (some column))
              (compare_comparable_values left)))
          is_equal)
        condition.prepared_in_values

  -- A stored value that is not null is never read as null.
  abbrev IsNonNull : Option ComparableValue → Type 0
  IsNonNull o = o ≢ some ComparableValue.null

  coerce_for_type-IsNonNull :
      (actual : Value) (t : ColumnType) → IsNonNull (coerce_actual_for_type actual t)
  unfolding coerce_actual_for_type
  coerce_for_type-IsNonNull actual ColumnType.integer h = ground arith
  coerce_for_type-IsNonNull actual ColumnType.float h = ground arith
  coerce_for_type-IsNonNull actual ColumnType.big_integer h = ground arith
  coerce_for_type-IsNonNull actual ColumnType.decimal h = ground arith
  coerce_for_type-IsNonNull actual ColumnType.boolean h = ground arith
  coerce_for_type-IsNonNull actual _ h = cc

  text_value-ne-null :
      (text : String) (x : Option rt.Float) → text_value text x ≢ ComparableValue.null
  unfolding text_value bool_or_string
  text_value-ne-null text (some x) h = cc
  text_value-ne-null text none h = ground arith

  coerce_untyped-ne-null :
      (actual : Value) (x : Option rt.Float) → coerce_untyped actual x ≢ ComparableValue.null
  unfolding coerce_untyped
  coerce_untyped-ne-null actual (some x) h = cc
  coerce_untyped-ne-null (Json.string text) none h = text_value-ne-null text (rt.parse_f64 text) h
  coerce_untyped-ne-null _ none h = cc

  coerce_actual_value-IsNonNull :
      (actual : Value) (column : Option ColumnSchema)
      → is_null actual ≡ false
      → IsNonNull (coerce_actual_value actual column)
  unfolding coerce_actual_value coerce_non_null coerce_actual_for_column
  coerce_actual_value-IsNonNull actual none n h =
      coerce_untyped-ne-null actual (as_f64 actual) (some-injective _ _ (rw n at h))
  coerce_actual_value-IsNonNull actual (some column) n h =
      coerce_for_type-IsNonNull actual column.column_type (rw n at h)

  coerce_actual_value-null :
      (actual : Value) (column : Option ColumnSchema)
      → is_null actual ≡ true
      → coerce_actual_value actual column ≡ some ComparableValue.null
  unfolding coerce_actual_value
  coerce_actual_value-null actual column n = rw n

  compare_null :
      (left : Option ComparableValue)
      → IsNonNull left
      → is_some_and (and_then left (λ l. compare_comparable_values l ComparableValue.null)) is_equal
        ≡ false
  unfolding compare_comparable_values
  compare_null none h = refl
  compare_null (some ComparableValue.null) h = absurd (h refl)
  compare_null (some (ComparableValue.number x)) h = refl
  compare_null (some (ComparableValue.bool b)) h = refl
  compare_null (some (ComparableValue.string text)) h = refl

  compare_with_null_text :
      (actual : Value) (path text : String) (operator : FilterOperator)
      (column : Option ColumnSchema)
      → eq_ignore_ascii_case text "null" ≡ true
      → compare_with_prepared actual (filter_condition path operator text) column
        ≡ and_then
            (coerce_actual_value actual column)
            (λ l. compare_comparable_values l ComparableValue.null)
  unfolding compare_with_prepared compare_with_prepared_value filter_condition
      prepare_expected_value coerce_expected_value
  compare_with_null_text actual path text operator none h = rw h
  compare_with_null_text actual path text operator (some column) h = rw h

  -- A filter `field:eq=null` passes exactly for the values that `field:isNull` passes for, with column
  -- metadata and without.
  eq_null-is_null :
      (actual : Value) (path text : String) (column : Option ColumnSchema)
      → eq_ignore_ascii_case text "null" ≡ true
      → matches_filter actual (filter_condition path FilterOperator.eq text) column
        ≡ matches_filter actual (filter_condition path FilterOperator.is_null text) column
  unfolding matches_filter filter_condition compare_comparable_values
  eq_null-is_null actual path text column h =
      rw (compare_with_null_text actual path text FilterOperator.eq column h)
        (elim (Bool-cases (is_null actual)) [
          | inl null ↦ rw (coerce_actual_value-null actual column null) (rw null)
          | inr other ↦ rw other (
              compare_null (coerce_actual_value actual column)
                (coerce_actual_value-IsNonNull actual column other))
        ])
