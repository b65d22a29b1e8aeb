-- ===== src/Storage/Validation/Uniqueness.antt =====
-- src/storage/validation/uniqueness.rs
pub mod Distinct
pub mod Parts
pub mod Texts
pub mod Keys
pub mod Apart
use dirbase.Prelude.{
  String, Bool, true, false, ◌||◌, Option, none, some, List, [], ◌∷◌, any, map, str_eq,
  if◌then◌else◌, and_then,
}
use dirbase.BTreeMap
use dirbase.Error.{AppError, app_error, bad_request, Result, ok, err, ◌>>◌}
use dirbase.Json.{Json, as_object, is_null}
use dirbase.Runtime.{Runtime, Value}
use dirbase.Text.{format, join}
use dirbase.Text.Decimal.{show_bool}
use dirbase.Schema.Types.{DeclaredTableSchema}

-- `set.contains(key)`, over the keys inserted so far.
abbrev pub contains : List String → String → Bool
contains seen key = any (λ s. str_eq s key) seen

-- The two errors.
duplicate_key : String → String → AppError
duplicate_key resource primary_key =
    app_error bad_request
      (format ("Resource '" ∷ resource ∷ "' has duplicate primary key '" ∷ primary_key ∷ "'" ∷ []))

violated : String → List String → AppError
violated resource columns = app_error bad_request (
    format (
      "Resource '" ∷ resource ∷ "' violates unique constraint on '" ∷ join ", " columns ∷ "'" ∷ []))

-- The loop over the rows: a row without a key is skipped, and a key seen before is an error.
unfoldable pub all_new : AppError → List String → List (Option String) → Result (Unit {0}) AppError
all_new error seen [] = ok tt
all_new error seen (none ∷ keys) = all_new error seen keys
all_new error seen (some key ∷ keys) =
    if contains seen key then err error else all_new error (key ∷ seen) keys

module _ ⦃rt : Runtime⦄ where
  unfoldable pub unique_value_key : Value → String
  unique_value_key (Json.string s) = format ("s:" ∷ s ∷ [])
  unique_value_key (Json.number n) = format ("n:" ∷ rt.number_text n ∷ [])
  unique_value_key (Json.bool b) = format ("b:" ∷ show_bool b ∷ [])
  unique_value_key Json.null = "null"
  unique_value_key (Json.array vs) = format ("j:" ∷ rt.json_text (Json.array vs) ∷ [])
  unique_value_key (Json.object fs) = format ("j:" ∷ rt.json_text (Json.object fs) ∷ [])

  -- The key of a value that is present and not null.
  key_of : Option Value → Option String
  key_of none = none
  key_of (some value) = if is_null value then none else some (unique_value_key value)

  abbrev cons_part : Option String → Option (List String) → Option (List String)
  cons_part none parts = none
  cons_part (some part) none = none
  cons_part (some part) (some parts) = some (part ∷ parts)

  parts_of : BTreeMap.BTreeMap Value → List String → Option (List String)
  unfolding key_of
  parts_of object [] = some []
  parts_of object (column_name ∷ columns) =
      cons_part (key_of (BTreeMap.get object column_name)) (parts_of object columns)

  abbrev joined : Option (List String) → Option String
  joined none = none
  joined (some parts) = some (join "\u{1f}" parts)

  -- The key of a row under a constraint: none if a column is missing or null.
  unfoldable pub constraint_key : List String → Value → Option String
  unfolding parts_of
  constraint_key constraint row =
      and_then (as_object row) (λ object. joined (parts_of object constraint))

  unfoldable pub primary_key_of : String → Value → Option String
  unfolding key_of
  primary_key_of primary_key row =
      key_of (and_then (as_object row) (λ object. BTreeMap.get object primary_key))

  check_constraints : String → List Value → List (List String) → Result (Unit {0}) AppError
  unfolding violated all_new constraint_key
  check_constraints resource array [] = ok tt
  check_constraints resource array (constraint ∷ constraints) = do
    all_new (violated resource constraint) [] (map (constraint_key constraint) array)
    check_constraints resource array constraints

  unfoldable pub validate_unique_constraints :
      String → List Value → DeclaredTableSchema → Result (Unit {0}) AppError
  unfolding check_constraints
  validate_unique_constraints resource array table = check_constraints resource array table.unique

  check_primary_key : String → List Value → Option String → Result (Unit {0}) AppError
  unfolding duplicate_key
  check_primary_key resource array none = ok tt
  check_primary_key resource array (some primary_key) =
      all_new (duplicate_key resource primary_key) [] (map (primary_key_of primary_key) array)

  unfoldable pub validate_primary_key_uniqueness :
      String → List Value → DeclaredTableSchema → Result (Unit {0}) AppError
  unfolding check_primary_key
  validate_primary_key_uniqueness resource array table =
      check_primary_key resource array table.primary_key
