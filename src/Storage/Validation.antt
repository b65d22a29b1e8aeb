-- ===== src/Storage/Validation.antt =====
-- src/storage/validation.rs: whether a resource satisfies its declared schema.
pub mod Scalars
pub mod Constraints
pub mod Columns
pub mod Uniqueness
pub mod Conforms
use dirbase.Prelude.{
  ℕ, suc, String, Bool, true, false, Option, none, some, List, [], ◌∷◌, if◌then◌else◌,
}
use dirbase.BTreeMap
use dirbase.Json.{as_array, as_object}
use dirbase.Error.{AppError, app_error, bad_request, Result, ok, err, ok_or, ◌>>=◌, ◌>>◌}
use dirbase.Runtime.{Runtime, Value}
use dirbase.Text.{format}
use dirbase.Text.Decimal.{show_nat}
use dirbase.Schema.Types.{TableKind, DeclaredTableSchema, is_valid_identifier}
use dirbase.Storage.Validation.Columns.{Messages, validate_declared_columns}
use dirbase.Storage.Validation.Uniqueness.{
  validate_unique_constraints, validate_primary_key_uniqueness,
}

-- An identifier of a query that is no name of the program is refused, with its kind in the error.
unfoldable validate_sql_identifier : String → String → Result (Unit {0}) AppError
validate_sql_identifier identifier kind =
    if is_valid_identifier identifier
    then ok tt
    else err (
        app_error bad_request
          (format ("Invalid " ∷ kind ∷ " identifier '" ∷ identifier ∷ "'" ∷ [])))

-- The texts of the errors of a row, and of a resource that is one object.
abbrev pub row_messages : ℕ → String → Messages
row_messages index resource = record {
  missing_message = λ column_name. format (
      "Row "
      ∷ show_nat index
      ∷ " in resource '"
      ∷ resource
      ∷ "' is missing non-null column '"
      ∷ column_name
      ∷ "'"
      ∷ []);
  null_message = λ column_name. format (
      "Row "
      ∷ show_nat index
      ∷ " in resource '"
      ∷ resource
      ∷ "' has null for non-null column '"
      ∷ column_name
      ∷ "'"
      ∷ []);
  type_message = λ column_name. format (
      "Row "
      ∷ show_nat index
      ∷ " in resource '"
      ∷ resource
      ∷ "' has invalid type for '"
      ∷ column_name
      ∷ "'"
      ∷ []);
  enum_message = λ column_name. format (
      "Row "
      ∷ show_nat index
      ∷ " in resource '"
      ∷ resource
      ∷ "' has value outside enum for '"
      ∷ column_name
      ∷ "'"
      ∷ []);
  constraint_message = λ column_name constraint. format (
      "Row "
      ∷ show_nat index
      ∷ " in resource '"
      ∷ resource
      ∷ "' violates "
      ∷ constraint
      ∷ " for '"
      ∷ column_name
      ∷ "'"
      ∷ []);
}

abbrev pub object_messages : String → Messages
object_messages resource = record {
  missing_message = λ column_name.
      format ("Resource '" ∷ resource ∷ "' is missing non-null column '" ∷ column_name ∷ "'" ∷ []);
  null_message = λ column_name.
      format
        ("Resource '" ∷ resource ∷ "' has null for non-null column '" ∷ column_name ∷ "'" ∷ []);
  type_message = λ column_name.
      format ("Resource '" ∷ resource ∷ "' has invalid type for '" ∷ column_name ∷ "'" ∷ []);
  enum_message = λ column_name.
      format ("Resource '" ∷ resource ∷ "' has value outside enum for '" ∷ column_name ∷ "'" ∷ []);
  constraint_message = λ column_name constraint.
      format
        ("Resource '" ∷ resource ∷ "' violates " ∷ constraint ∷ " for '" ∷ column_name ∷ "'" ∷ []);
}

abbrev pub row_error : ℕ → String → AppError
row_error index resource =
    app_error bad_request
      (format ("Row " ∷ show_nat index ∷ " in resource '" ∷ resource ∷ "' is not an object" ∷ []))

abbrev pub not_a : String → String → AppError
not_a kind resource =
    app_error bad_request (format ("Resource '" ∷ resource ∷ "' is not a JSON " ∷ kind ∷ []))

module _ ⦃rt : Runtime⦄ where
  -- src/storage/validation/types.rs
  is_object_kind : Option TableKind → Bool
  is_object_kind (some TableKind.object_table) = true
  is_object_kind _ = false

  unfoldable pub declared_schema_expects_object : DeclaredTableSchema → Bool
  unfolding is_object_kind
  declared_schema_expects_object table = is_object_kind table.kind

  -- The loop over the rows.
  unfoldable pub validate_rows :
      String → DeclaredTableSchema → ℕ → List Value → Result (Unit {0}) AppError
  validate_rows resource table index [] = ok tt
  validate_rows resource table index (item ∷ items) = do
    object ← ok_or (as_object item) (row_error index resource)
    validate_declared_columns (row_messages index resource) (BTreeMap.get object) table
    validate_rows resource table (suc index) items

  unfoldable pub validate_array_resource_data :
      String → List Value → DeclaredTableSchema → Result (Unit {0}) AppError
  validate_array_resource_data resource array table = do
    validate_rows resource table 0 array
    validate_unique_constraints resource array table
    validate_primary_key_uniqueness resource array table

  unfoldable pub validate_object_resource_data :
      String → BTreeMap.BTreeMap Value → DeclaredTableSchema → Result (Unit {0}) AppError
  validate_object_resource_data resource object table =
      validate_declared_columns (object_messages resource) (BTreeMap.get object) table

  validate_scalar : String → DeclaredTableSchema → Result (Unit {0}) AppError
  unfolding declared_schema_expects_object
  validate_scalar resource table =
      if declared_schema_expects_object table
      then err (not_a "object" resource)
      else err (not_a "array" resource)

  validate_value :
      String
      → DeclaredTableSchema
      → Option (List Value)
      → Option (BTreeMap.BTreeMap Value)
      → Result (Unit {0}) AppError
  validate_value resource table (some array) _ = validate_array_resource_data resource array table
  validate_value resource table none (some object) =
      validate_object_resource_data resource object table
  validate_value resource table none none = validate_scalar resource table

  unfoldable pub validate_resource_data_with_table :
      String → Value → DeclaredTableSchema → Result (Unit {0}) AppError
  unfolding validate_value validate_scalar validate_array_resource_data
      validate_object_resource_data validate_rows
  validate_resource_data_with_table resource value table =
      validate_value resource table (as_array value) (as_object value)
