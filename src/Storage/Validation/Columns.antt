-- ===== src/Storage/Validation/Columns.antt =====
-- src/storage/validation/columns.rs
pub mod Accepts
use dirbase.Prelude.{
  String, Bool, true, false, Option, none, some, List, [], ◌∷◌, str_eq, if◌then◌else◌,
}
use dirbase.BTreeMap.{BTreeMap}
use dirbase.Error.{AppError, app_error, bad_request, Result, ok, err, ◌>>◌}
use dirbase.Json.{is_null}
use dirbase.Runtime.{Runtime, Value}
use dirbase.Schema.Types.{ColumnSchema, DeclaredTableSchema}
use dirbase.Storage.Validation.Scalars.{value_matches_type}
use dirbase.Storage.Validation.Constraints.{validate_column_constraints}

-- The texts of the errors, for a column and for a column and a constraint.
pub record Messages : Type 0 where
  pub missing_message : String → String
  pub null_message : String → String
  pub type_message : String → String
  pub enum_message : String → String
  pub constraint_message : String → String → String

constraint_result : Messages → String → Result (Unit {0}) String → Result (Unit {0}) AppError
constraint_result messages name (ok u) = ok tt
constraint_result messages name (err constraint) = err (
    app_error bad_request (
      if str_eq constraint "enum"
      then messages.enum_message name
      else messages.constraint_message name constraint))

module _ ⦃rt : Runtime⦄ where
  present_column : Messages → String → ColumnSchema → Value → Result (Unit {0}) AppError
  present_column messages name column value =
      if is_null value
      then (if column.nullable
          then ok tt
          else err (app_error bad_request (messages.null_message name)))
      else if value_matches_type value column.column_type
      then constraint_result messages name (validate_column_constraints value column)
      else err (app_error bad_request (messages.type_message name))

  -- One round of the loop over the columns.
  unfoldable pub validate_column :
      Messages → String → ColumnSchema → Option Value → Result (Unit {0}) AppError
  unfolding constraint_result present_column
  validate_column messages name column none =
      if column.nullable then ok tt else err (app_error bad_request (messages.missing_message name))
  validate_column messages name column (some value) = present_column messages name column value

  unfoldable pub validate_columns :
      Messages → (String → Option Value) → BTreeMap ColumnSchema → Result (Unit {0}) AppError
  validate_columns messages lookup [] = ok tt
  validate_columns messages lookup ((name, column) ∷ columns) = do
    validate_column messages name column (lookup name)
    validate_columns messages lookup columns

  abbrev pub validate_declared_columns :
      Messages → (String → Option Value) → DeclaredTableSchema → Result (Unit {0}) AppError
  validate_declared_columns messages lookup table = validate_columns messages lookup table.columns
