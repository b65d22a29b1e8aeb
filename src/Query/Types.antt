-- ===== src/Query/Types.antt =====
-- src/query/types.rs
use dirbase.Prelude.{ℕ, String, Bool, not, Option, none, some, List, map, filter, if◌then◌else◌}
use dirbase.Runtime.{Runtime}
use dirbase.Text.{split, trim, is_empty, eq_ignore_ascii_case}
use dirbase.Text.Decimal.{parse_bool}

pub data FilterOperator : Type 0 where
  eq ne lt lte gt gte in_list contains starts_with ends_with is_null is_not_null : FilterOperator

pub record SortColumn : Type 0 where
  pub field_path : String
  pub descending : Bool

pub record Pagination : Type 0 where
  pub page : ℕ
  pub per_page : ℕ

pub record PaginationWindow : Type 0 where
  pub first : ℕ
  pub prev : Option ℕ
  pub next : Option ℕ
  pub last : ℕ
  pub page : ℕ
  pub pages : ℕ
  pub items : ℕ
  pub start : ℕ
  pub end : ℕ

module _ ⦃rt : Runtime⦄ where
  pub data ComparableValue : Type 0 where
    null : ComparableValue
    number : rt.Float → ComparableValue
    bool : Bool → ComparableValue
    string : String → ComparableValue

  unfoldable pub prepare_bool : String → Option Bool → ComparableValue
  prepare_bool expected (some b) = bool b
  prepare_bool expected none = string expected

  unfoldable pub prepare_number : String → Option rt.Float → ComparableValue
  unfolding prepare_bool
  prepare_number expected (some x) = number x
  prepare_number expected none = prepare_bool expected (parse_bool expected)

  unfoldable pub prepare_expected_value : String → ComparableValue
  unfolding prepare_number
  prepare_expected_value expected =
      if eq_ignore_ascii_case expected "null"
      then null
      else prepare_number expected (rt.parse_f64 expected)

  unfoldable pub prepare_in_values : String → List ComparableValue
  prepare_in_values value =
      map prepare_expected_value (filter (λ v. not (is_empty v)) (map trim (split b',' value)))

  pub record FilterCondition : Type 0 where
    pub field_path : String
    pub field_segments : List String
    pub operator : FilterOperator
    pub value : String
    pub value_lower : String
    pub prepared_value : ComparableValue
    pub prepared_in_values : List ComparableValue

  -- `FilterCondition::new`
  unfoldable pub filter_condition : String → FilterOperator → String → FilterCondition
  filter_condition field_path operator value = record {
    field_path = field_path;
    field_segments = split b'.' field_path;
    operator = operator;
    value = value;
    value_lower = rt.to_lowercase value;
    prepared_value = prepare_expected_value value;
    prepared_in_values = prepare_in_values value;
  }

  pub record ParsedCollectionQuery : Type 0 where
    pub filters : List FilterCondition
    pub sort_columns : List SortColumn
    pub pagination : Option Pagination
    pub embeds : List String
