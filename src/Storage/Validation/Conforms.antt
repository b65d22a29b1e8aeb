-- ===== src/Storage/Validation/Conforms.antt =====
-- What validation accepts, said without the order of its checks and without its messages.
use dirbase.Prelude.{
  ℕ, suc, String, some, List, [], ◌∷◌, ◌≡◌, ◌↔◌, refl, sym, ◌∙◌, All, map, Option, none,
}
use dirbase.BTreeMap
use dirbase.BTreeMap.{BTreeMap}
use dirbase.Error.{AppError, Result, ok, ok_or, ◌>>=◌, ◌>>◌, err-ne-ok, both_ok}
use dirbase.Json.{as_object}
use dirbase.Runtime.{Runtime, Value}
use dirbase.Schema.Types.{DeclaredTableSchema}
use dirbase.Storage.Validation.Columns.{validate_declared_columns}
use dirbase.Storage.Validation.Columns.Accepts.{Accepts, validate_columns_iff}
use dirbase.Storage.Validation.Uniqueness.{
  constraint_key, validate_unique_constraints, validate_primary_key_uniqueness,
}
use dirbase.Storage.Validation.Uniqueness.Distinct.{
  HasDistinct, HasDistinctPrimary, validate_unique_constraints_iff,
  validate_primary_key_uniqueness_iff,
}
use dirbase.Storage.Validation.Uniqueness.Parts.{IsClean}
use dirbase.Storage.Validation.Uniqueness.Apart.{
  HasDistinctRows, HasDistinctIds, HasDistinctPrimary-iff, constraint_key-HasDistinctRows,
  HasDistinctRows-constraint_key,
}
use dirbase.Storage.Validation.{
  row_messages, row_error, validate_rows, validate_array_resource_data,
}

module _ ⦃rt : Runtime⦄ (table : DeclaredTableSchema) where
  -- Every column of the table accepts the field of its name.
  pub HasFields : BTreeMap Value → Type 0
  HasFields object = All (λ entry. Accepts entry.1 (BTreeMap.get object entry.0)) table.columns

  -- The row is an object with such fields.
  pub RowConforms : Option (BTreeMap Value) → Type 0
  RowConforms none = ⊥
  RowConforms (some object) = HasFields object

  row_result : String → ℕ → Option (BTreeMap Value) → Result (Unit {0}) AppError
  row_result resource index row = ok_or row (row_error index resource) >>= λ object.
      validate_declared_columns (row_messages index resource) (BTreeMap.get object) table

  row_result_iff :
      (resource : String) (index : ℕ) (row : Option (BTreeMap Value))
      → row_result resource index row ≡ ok tt ↔ RowConforms row
  unfolding row_result RowConforms HasFields
  row_result_iff resource index none = (λ h. absurd (err-ne-ok h), λ h. absurd h)
  row_result_iff resource index (some object) =
      validate_columns_iff (row_messages index resource) (BTreeMap.get object) table.columns

  split_row :
      (resource : String) (index : ℕ) (row : Option (BTreeMap Value))
      (k : Result (Unit {0}) AppError)
      → (ok_or row (row_error index resource) >>= λ object.
          validate_declared_columns (row_messages index resource) (BTreeMap.get object) table >> k)
        ≡ (row_result resource index row >> k)
  unfolding row_result
  split_row resource index none k = refl
  split_row resource index (some object) k = refl

  validate_rows_iff :
      (resource : String) (index : ℕ) (items : List Value)
      → validate_rows resource table index items ≡ ok tt
        ↔ All (λ item. RowConforms (as_object item)) items
  unfolding validate_rows
  validate_rows_iff resource index [] = (λ h. tt, λ h. refl)
  validate_rows_iff resource index (item ∷ items) =
      let split =
        split_row resource index (as_object item)
          (validate_rows resource table (suc index) items) in
      let here = row_result_iff resource index (as_object item) in
      let later = validate_rows_iff resource (suc index) items in
      let both =
        both_ok (row_result resource index (as_object item))
          (validate_rows resource table (suc index) items) in
      (
        λ h. let a = both.0 (sym split ∙ h) in (here.0 a.0, later.0 a.1),
        λ h. split ∙ both.1 (here.1 h.0, later.1 h.1),
      )

  -- The rows in terms of the keys that the code compares.
  HasKeys : List Value → Type 0
  HasKeys array =
      All (λ item. RowConforms (as_object item)) array
      × All (λ constraint. HasDistinct (map (constraint_key constraint) array)) table.unique
      × HasDistinctPrimary array table.primary_key

  validate_array_resource_data-HasKeys :
      (resource : String) (array : List Value)
      → validate_array_resource_data resource array table ≡ ok tt ↔ HasKeys array
  unfolding validate_array_resource_data HasKeys
  validate_array_resource_data-HasKeys resource array =
      let rows = validate_rows_iff resource 0 array in
      let unique = validate_unique_constraints_iff resource array table in
      let primary = validate_primary_key_uniqueness_iff resource array table in
      let outer = both_ok (validate_rows resource table 0 array) (
        validate_unique_constraints resource array table
        >> validate_primary_key_uniqueness resource array table) in
      let inner =
        both_ok (validate_unique_constraints resource array table)
          (validate_primary_key_uniqueness resource array table) in
      (
        λ h. let a = outer.0 h in let b = inner.0 a.1 in (rows.0 a.0, unique.0 b.0, primary.0 b.1),
        λ h. outer.1 (rows.1 h.0, inner.1 (unique.1 h.1, primary.1 h.2)),
      )

  -- What a table asks of the rows of a resource.
  pub Conforms : List Value → Type 0
  Conforms array =
      All (λ item. RowConforms (as_object item)) array
      × All (HasDistinctRows array) table.unique
      × HasDistinctIds array table.primary_key

  distinct_rows :
      (array : List Value) (constraints : List (List String))
      → All (λ constraint. HasDistinct (map (constraint_key constraint) array)) constraints
      → All (HasDistinctRows array) constraints
  distinct_rows array [] h = tt
  distinct_rows array (constraint ∷ constraints) h =
      (constraint_key-HasDistinctRows array constraint h.0, distinct_rows array constraints h.1)

  distinct_keys :
      (array : List Value) (constraints : List (List String))
      → All (IsClean array) constraints
      → All (HasDistinctRows array) constraints
      → All (λ constraint. HasDistinct (map (constraint_key constraint) array)) constraints
  distinct_keys array [] clean h = tt
  distinct_keys array (constraint ∷ constraints) clean h = (
    HasDistinctRows-constraint_key array constraint clean.0 h.0,
    distinct_keys array constraints clean.1 h.1,
  )

  -- Rows that pass validation are objects whose fields the columns accept, no two rows that have
  -- values in all the columns of a unique constraint have the same ones there, and no two rows have
  -- the same value under the primary key. Numbers count as the same when they print the same, arrays
  -- and objects when they have the same JSON text.
  pub validate_array_resource_data-Conforms :
      (resource : String) (array : List Value)
      → validate_array_resource_data resource array table ≡ ok tt
      → Conforms array
  unfolding Conforms HasKeys
  validate_array_resource_data-Conforms resource array h =
      let held = (validate_array_resource_data-HasKeys resource array).0 h in
      (
        held.0,
        distinct_rows array table.unique held.1,
        (HasDistinctPrimary-iff array table.primary_key).0 held.2,
      )

  -- Where no text of a value in a unique constraint of two or more columns has the character U+001F,
  -- validation succeeds just when each row is an object whose fields the columns accept, no two rows
  -- that have values in all the columns of a unique constraint have the same ones there, and no two
  -- rows have the same value under the primary key. Numbers count as the same when they print the
  -- same, arrays and objects when they have the same JSON text.
  pub validate_array_resource_data_iff :
      (resource : String) (array : List Value)
      → All (IsClean array) table.unique
      → validate_array_resource_data resource array table ≡ ok tt ↔ Conforms array
  unfolding Conforms HasKeys
  validate_array_resource_data_iff resource array clean = (
    validate_array_resource_data-Conforms resource array,
    λ h. (validate_array_resource_data-HasKeys resource array).1 (
      h.0,
      distinct_keys array table.unique clean h.1,
      (HasDistinctPrimary-iff array table.primary_key).1 h.2,
    ),
  )
