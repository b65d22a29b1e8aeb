-- ===== src/Tests/Resources.antt =====
-- Validation of rows, and reads by id.
use dirbase.Prelude.{
  ℕ, String, true, false, Option, none, some, List, [], ◌∷◌, ◌≡◌, ◌↔◌, inr, refl, All,
}
use dirbase.Prelude.Int.{ℤ, pos}
use dirbase.BTreeMap
use dirbase.Json.{Json, as_array, as_object, from_array, from_object}
use dirbase.Error.{ok, err, ok_or}
use dirbase.Text.Decimal.{show_int, show_nat}
use dirbase.Text.{join, all_chars}
use dirbase.Schema.Types.{
  ColumnType, column_schema, TableSchema, DeclaredTableSchema, primary_key_name,
}
use dirbase.Storage.Index.{id_matches, find_item_by_key, build_id_index}
use dirbase.Storage.Index.Lookup.{last_item}
use dirbase.Storage.Cache.{Shared, cached_resource_from_value_at_revision}
use dirbase.Storage.Validation.{
  validate_array_resource_data, validate_resource_data_with_table, row_error,
}
use dirbase.Storage.Validation.Columns.{validate_column, validate_columns}
use dirbase.Storage.Validation.Constraints.{validate_column_constraints}
use dirbase.Storage.Validation.Scalars.{value_matches_type}
use dirbase.Storage.Validation.Uniqueness.{
  validate_unique_constraints, validate_primary_key_uniqueness, primary_key_of, unique_value_key,
}
use dirbase.Storage.Validation.Uniqueness.Parts.{
  IsClean, PlainRow, row_parts, parts_at, part_at, part_of, IsPlain, encode,
}
use dirbase.Storage.Validation.Conforms.{
  Conforms, validate_array_resource_data-Conforms, validate_array_resource_data_iff,
}
use dirbase.Http.Items.{item_not_found, get_local_item}
use dirbase.Http.Items.Indexed.{get_local_item-last, get_local_item-find}
use dirbase.Tests.{toy}

abbrev row : ℕ → String → Json ℤ
row id name = from_object (("id", Json.number (pos id)) ∷ ("name", Json.string name) ∷ [])

abbrev pub people : List (Json ℤ)
people = row 1 "ann" ∷ row 2 "bob" ∷ []

abbrev pub twins : List (Json ℤ)
twins = row 1 "ann" ∷ row 1 "bob" ∷ []

abbrev pub declared : DeclaredTableSchema
declared = record {
  kind = none;
  primary_key = some "id";
  columns =
      ("id", column_schema ColumnType.integer false)
      ∷ ("name", column_schema ColumnType.string true)
      ∷ [];
  foreign_keys = [];
  suppressed_foreign_keys = [];
  unique = ("name" ∷ []) ∷ [];
}

abbrev pub shared : List (Json ℤ) → Shared
shared rows = record { address = 0; content = from_array rows }

abbrev no_table : Option TableSchema
no_table = none

evaluate : Unit {0}
unfolding validate_array_resource_data validate_resource_data_with_table validate_column
    validate_column_constraints value_matches_type validate_unique_constraints
    validate_primary_key_uniqueness primary_key_of BTreeMap.get from_array from_object as_array
    as_object get_local_item build_id_index id_matches find_item_by_key
    cached_resource_from_value_at_revision primary_key_name show_int show_nat join validate_columns
    unique_value_key
evaluate = tt

validation_tests :
    (validate_resource_data_with_table "people" (from_array people) declared ≡ ok tt)
    × (validate_resource_data_with_table "people" (from_array (Json.null ∷ [])) declared
        ≡ err (row_error 0 "people"))
unfolding evaluate
validation_tests = (refl, refl)

-- A name together with an id comes once.
abbrev paired : DeclaredTableSchema
paired = record declared { unique = ("id" ∷ "name" ∷ []) ∷ [] }

people-IsClean : All (IsClean people) paired.unique
unfolding evaluate IsClean PlainRow row_parts parts_at part_at part_of IsPlain encode all_chars
people-IsClean = (inr (((refl, (refl, tt))), ((refl, (refl, tt)), tt)), tt)

validate_array_resource_data-iff_example :
    validate_array_resource_data "people" people paired ≡ ok tt ↔ Conforms paired people
validate_array_resource_data-iff_example =
    validate_array_resource_data_iff paired "people" people people-IsClean

validate_array_resource_data-Conforms_example : Conforms paired people
unfolding evaluate
validate_array_resource_data-Conforms_example =
    validate_array_resource_data-Conforms paired "people" people refl

get_local_item-last_example :
    get_local_item twins
      (some (cached_resource_from_value_at_revision (shared twins) no_table none))
      "id"
      "1"
    ≡ ok_or (last_item "id" "1" twins none) item_not_found
unfolding evaluate
get_local_item-last_example = get_local_item-last (shared twins) twins no_table none refl "1"

get_local_item-find_example :
    get_local_item people
      (some (cached_resource_from_value_at_revision (shared people) no_table none))
      "id"
      "1"
    ≡ ok_or (find_item_by_key people "id" "1") item_not_found
unfolding evaluate
get_local_item-find_example =
    get_local_item-find (shared people) people no_table none refl "1"
      (λ e. (refl, tt), (λ e. tt, tt))
