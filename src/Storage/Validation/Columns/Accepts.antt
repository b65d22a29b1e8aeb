-- ===== src/Storage/Validation/Columns/Accepts.antt =====
-- Which columns of a row pass.
use dirbase.Prelude.{
  String, true, false, Option, none, some, [], ◌∷◌, ◌≡◌, ◌⊎◌, ◌↔◌, refl, All, arith,
}
use dirbase.BTreeMap.{BTreeMap}
use dirbase.Error.{ok, both_ok}
use dirbase.Json.{is_null}
use dirbase.Runtime.{Runtime, Value}
use dirbase.Schema.Types.{ColumnSchema}
use dirbase.Storage.Validation.Scalars.{value_matches_type}
use dirbase.Storage.Validation.Constraints.{validate_column_constraints}
use dirbase.Storage.Validation.Columns.{
  Messages, validate_column, validate_columns, present_column, constraint_result,
}

module _ ⦃rt : Runtime⦄ where
  -- A column accepts a missing value or null if it is nullable, and any other value that has its type
  -- and meets its constraints.
  pub Accepts : ColumnSchema → Option Value → Type 0
  Accepts column none = column.nullable ≡ true
  Accepts column (some value) =
      ((is_null value ≡ true) × (column.nullable ≡ true))
      ⊎ ((is_null value ≡ false)
          × (value_matches_type value column.column_type ≡ true)
          × (validate_column_constraints value column ≡ ok tt))

  validate_column_iff :
      (messages : Messages) (name : String) (column : ColumnSchema) (value : Option Value)
      → validate_column messages name column value ≡ ok tt ↔ Accepts column value
  unfolding validate_column Accepts present_column constraint_result
  validate_column_iff messages name column none = ground arith
  validate_column_iff messages name column (some value) = ground arith

  pub validate_columns_iff :
      (messages : Messages) (lookup : String → Option Value) (columns : BTreeMap ColumnSchema)
      → validate_columns messages lookup columns ≡ ok tt
        ↔ All (λ entry. Accepts entry.1 (lookup entry.0)) columns
  unfolding validate_columns
  validate_columns_iff messages lookup [] = (λ h. tt, λ h. refl)
  validate_columns_iff messages lookup ((name, column) ∷ columns) =
      let here = validate_column_iff messages name column (lookup name) in
      let later = validate_columns_iff messages lookup columns in
      let both =
        both_ok (validate_column messages name column (lookup name))
          (validate_columns messages lookup columns) in
      (λ h. (here.0 (both.0 h).0, later.0 (both.0 h).1), λ h. both.1 (here.1 h.0, later.1 h.1))
