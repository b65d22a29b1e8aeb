-- ===== src/Tests/Inferred.antt =====
-- Inference on a few rows.
use dirbase.Prelude.{String, true, some, List, [], ◌∷◌, ◌≡◌, ◌≢◌, refl, ◌⊎◌, map, any, is_some}
use dirbase.Prelude.Int.{ℤ, pos}
use dirbase.BTreeMap
use dirbase.BTreeMap.{BTreeMap}
use dirbase.Json.{Json, from_object, as_object}
use dirbase.Schema.Types.{ColumnSchema, ColumnType, column_schema, infer_json}
use dirbase.Schema.Infer.{
  infer_table_schema, see_rows, mark_rows, see_object, see_value, mark_row, mark_missing,
  merge_type, infer_primary_key, key_in, find_key, is_unique_scalar_column, unique_keys,
}
use dirbase.Schema.Infer.Columns.{
  values_of, rows_of, lacks, IsTextual, infer_table_schema-columns, infer_table_schema-null_first,
}
use dirbase.Schema.Infer.Keys.{IsKey, infer_primary_key-IsKey}
use dirbase.Schema.Relations.{singularize_table_name}
use dirbase.Text.{format}
use dirbase.Text.Decimal.{show_int}
use dirbase.Tests.{toy}
use dirbase.Tests.Resources.{people}

-- One row has no age yet, and one has one.
abbrev unknown_age : BTreeMap (Json ℤ)
unknown_age = ("age", Json.null) ∷ []

abbrev known_age : BTreeMap (Json ℤ)
known_age = ("age", Json.number (pos 7)) ∷ []

abbrev ages : List (BTreeMap (Json ℤ))
ages = unknown_age ∷ known_age ∷ []

infer_table_schema-columns_example :
    (is_some (BTreeMap.get (infer_table_schema (rows_of "age" ages)).columns "age")
      ≡ any is_some (values_of "age" ages))
    × ((column : ColumnSchema)
        → BTreeMap.get (infer_table_schema (rows_of "age" ages)).columns "age" ≡ some column
        → column.nullable ≡ any (lacks "age") (values_of "age" ages))
unfolding BTreeMap.get
infer_table_schema-columns_example =
    infer_table_schema-columns "age" ages ((refl, tt), ((refl, tt), tt))

abbrev age_column : ColumnSchema
age_column = column_schema ColumnType.string true

infer_table_schema-null_first_example : IsTextual "age" age_column.column_type
unfolding BTreeMap.get BTreeMap.insert infer_table_schema from_object as_object see_rows mark_rows
    see_object see_value mark_row mark_missing merge_type infer_json
infer_table_schema-null_first_example =
    infer_table_schema-null_first "age" unknown_age (known_age ∷ []) age_column
      ((refl, tt), ((refl, tt), tt)) refl refl

abbrev id_column : String
id_column = "id"

infer_primary_key-IsKey_example :
    (people ≢ [])
    × IsKey (map (key_in id_column) people)
    × ((id_column ≡ "id")
        ⊎ ((id_column ≡ format (singularize_table_name "people" ∷ "_id" ∷ []))
            ⊎ (id_column ≡ format ("people" ∷ "_id" ∷ []))))
unfolding infer_primary_key find_key is_unique_scalar_column unique_keys key_in from_object
    as_object BTreeMap.get show_int
infer_primary_key-IsKey_example = infer_primary_key-IsKey "people" people id_column refl
