-- ===== src/Schema/Infer/Columns.antt =====
-- The columns that are inferred, as a fold over the values that the rows have under their names.
use dirbase.Prelude.{
  String, Bool, true, false, not, ◌||◌, Option, none, some, List, [], ◌∷◌, ◌≡◌, ◌≢◌, ◌⊎◌, subst,
  inl, inr, refl, sym, ap, ◌∙◌, arith, All, Bool-cases, any, map, is_some, if◌then◌else◌, str_eq,
  eq_iff, unwrap_or,
}
use mathlib.Core.Option.{some-injective}
use dirbase.BTreeMap
use dirbase.BTreeMap.{BTreeMap, HasDistinctKeys, get-insert}
use dirbase.Json.{Json, from_object, as_object-from_object, is_null}
use dirbase.Runtime.{Runtime, Value}
use dirbase.Schema.Types.{ColumnType, ColumnSchema, infer_json}
use dirbase.Schema.Infer.{
  see_value, see_object, see_rows, mark_missing, mark_row, mark_rows, infer_table_schema,
  merge_type,
}

none-ne-some {ℓ} : {A : Type ℓ} {a : A} → ◌≢◌ {A = Option A} none (some a)
none-ne-some e = cc

module _ ⦃rt : Runtime⦄ (name : String) where
  see_option : Option ColumnSchema → Option Value → Option ColumnSchema
  see_option old none = old
  see_option old (some value) = some (see_value old value)

  mark_option : Option Value → Option ColumnSchema → Option ColumnSchema
  mark_option value none = none
  mark_option value (some column) =
      some (if is_some value then column else record column { nullable = true })

  see_all : List (Option Value) → Option ColumnSchema → Option ColumnSchema
  unfolding see_option
  see_all [] old = old
  see_all (value ∷ values) old = see_all values (see_option old value)

  mark_all : List (Option Value) → Option ColumnSchema → Option ColumnSchema
  unfolding mark_option
  mark_all [] old = old
  mark_all (value ∷ values) old = mark_all values (mark_option value old)

  -- What the rows have under the name.
  abbrev pub values_of : List (BTreeMap Value) → List (Option Value)
  values_of objects = map (λ object. BTreeMap.get object name) objects

  abbrev pub rows_of : List (BTreeMap Value) → List Value
  rows_of objects = map (λ object. from_object object) objects

  see_absent :
      (object : BTreeMap Value) (key : String)
      → str_eq key name ≡ true
      → BTreeMap.get object key ≡ none
      → BTreeMap.get object name ≡ none
  see_absent object key same h = ground (arith, eq_iff key name)

  at_name :
      {V : Type 0} (m : BTreeMap V) (key : String)
      → str_eq key name ≡ true
      → BTreeMap.get m key ≡ BTreeMap.get m name
  at_name m key same = ap (BTreeMap.get m) ((eq_iff key name).0 same)

  see_object-get :
      (object : BTreeMap Value) (columns : BTreeMap ColumnSchema)
      → HasDistinctKeys object
      → BTreeMap.get (see_object object columns) name
        ≡ see_option (BTreeMap.get columns name) (BTreeMap.get object name)
  unfolding see_object see_option BTreeMap.get
  see_object-get [] columns h = refl
  see_object-get ((key, value) ∷ object) columns h =
      see_object-get object _ h.1 ∙ (elim (Bool-cases (str_eq key name)) [
        | inl same ↦
            simp (get-insert, same, see_absent object key same h.0, at_name columns key same)
        | inr other ↦ simp (get-insert, other)
      ])

  see_rows-get :
      (objects : List (BTreeMap Value)) (columns : BTreeMap ColumnSchema)
      → All HasDistinctKeys objects
      → BTreeMap.get (see_rows (rows_of objects) columns) name
        ≡ see_all (values_of objects) (BTreeMap.get columns name)
  unfolding see_rows see_all
  see_rows-get [] columns h = refl
  see_rows-get (object ∷ objects) columns h =
      ap (λ o. BTreeMap.get (see_rows (rows_of objects) (see_object (unwrap_or o []) columns)) name)
        (as_object-from_object object)
      ∙ see_rows-get objects (see_object object columns) h.1
      ∙ ap (see_all (values_of objects)) (see_object-get object columns h.0)

  mark_missing-get :
      (object : BTreeMap Value) (columns : BTreeMap ColumnSchema)
      → BTreeMap.get (mark_missing object columns) name
        ≡ mark_option (BTreeMap.get object name) (BTreeMap.get columns name)
  unfolding mark_missing mark_option BTreeMap.get
  mark_missing-get object [] = refl
  mark_missing-get object ((key, column) ∷ columns) = elim (Bool-cases (str_eq key name)) [
    | inl same ↦ simp (same, at_name object key same)
    | inr other ↦ rw other (mark_missing-get object columns)
  ]

  mark_rows-get :
      (objects : List (BTreeMap Value)) (columns : BTreeMap ColumnSchema)
      → BTreeMap.get (mark_rows (rows_of objects) columns) name
        ≡ mark_all (values_of objects) (BTreeMap.get columns name)
  unfolding mark_rows mark_row mark_all
  mark_rows-get [] columns = refl
  mark_rows-get (object ∷ objects) columns =
      ap (λ o. BTreeMap.get (mark_rows (rows_of objects) (mark_row o columns)) name)
        (as_object-from_object object)
      ∙ mark_rows-get objects (mark_missing object columns)
      ∙ ap (mark_all (values_of objects)) (mark_missing-get object columns)

  -- The column of the name, as the two folds one after the other.
  infer_table_schema-get :
      (objects : List (BTreeMap Value))
      → All HasDistinctKeys objects
      → BTreeMap.get (infer_table_schema (rows_of objects)).columns name
        ≡ mark_all (values_of objects) (see_all (values_of objects) none)
  unfolding infer_table_schema BTreeMap.get
  infer_table_schema-get objects h =
      mark_rows-get objects (see_rows (rows_of objects) [])
      ∙ ap (mark_all (values_of objects)) (see_rows-get objects [] h)

  nullable_of : Option ColumnSchema → Bool
  nullable_of none = false
  nullable_of (some column) = column.nullable

  abbrev null_at : Option Value → Bool
  null_at none = false
  null_at (some value) = is_null value

  -- A row without the name, or with null under it.
  abbrev pub lacks : Option Value → Bool
  lacks none = true
  lacks (some value) = is_null value

  see_option-nullable :
      (old : Option ColumnSchema) (value : Option Value)
      → nullable_of (see_option old value) ≡ (nullable_of old || null_at value)
  unfolding see_option see_value nullable_of
  see_option-nullable none none = refl
  see_option-nullable (some column) none = ground arith
  see_option-nullable none (some value) = ground arith
  see_option-nullable (some column) (some value) = ground arith

  see_all-nullable :
      (values : List (Option Value)) (old : Option ColumnSchema)
      → nullable_of (see_all values old) ≡ (nullable_of old || any null_at values)
  unfolding see_all
  see_all-nullable [] old = ground arith
  see_all-nullable (value ∷ values) old =
      ground (arith, see_all-nullable values (see_option old value), see_option-nullable old value)

  see_all-present :
      (values : List (Option Value)) (old : Option ColumnSchema)
      → is_some (see_all values old) ≡ (is_some old || any is_some values)
  unfolding see_all see_option
  see_all-present [] old = ground arith
  see_all-present (none ∷ values) old = see_all-present values old
  see_all-present (some value ∷ values) old =
      ground (arith, see_all-present values (some (see_value old value)))

  mark_all-none : (values : List (Option Value)) → mark_all values none ≡ none
  unfolding mark_all mark_option
  mark_all-none [] = refl
  mark_all-none (value ∷ values) = mark_all-none values

  -- Marking keeps the column and its type.
  mark_all-some :
      (values : List (Option Value)) (column : ColumnSchema)
      → (marked : ColumnSchema) × (mark_all values (some column) ≡ some marked)
        × (marked.column_type ≡ column.column_type)
        × (marked.nullable ≡ (column.nullable || any (λ v. not (is_some v)) values))
  unfolding mark_all mark_option
  mark_all-some [] column = (column, refl, refl, ground arith)
  mark_all-some (none ∷ values) column =
      let (marked, e, t, n) = mark_all-some values (record column { nullable = true }) in
      (marked, e, t, ground arith)
  mark_all-some (some value ∷ values) column =
      let (marked, e, t, n) = mark_all-some values column in (marked, e, t, ground arith)

  any-lacks :
      (values : List (Option Value))
      → (any null_at values || any (λ v. not (is_some v)) values) ≡ any lacks values
  any-lacks [] = refl
  any-lacks (none ∷ values) = ground (arith, any-lacks values)
  any-lacks (some value ∷ values) = ground (arith, any-lacks values)

  folded :
      (values : List (Option Value)) (seen : Option ColumnSchema)
      → see_all values none ≡ seen
      → (is_some (mark_all values seen) ≡ any is_some values)
        × ((column : ColumnSchema)
            → mark_all values seen ≡ some column
            → column.nullable ≡ any lacks values)
  unfolding nullable_of
  folded values none h = (
    rw mark_all-none (ap is_some (sym h) ∙ see_all-present values none),
    λ column e. absurd (none-ne-some (sym (mark_all-none values) ∙ e)),
  )
  folded values (some seen) h =
      let (marked, e, t, n) = mark_all-some values seen in
      (
        rw e (ap is_some (sym h) ∙ see_all-present values none),
        λ column e2.
            ap (λ (c : ColumnSchema). c.nullable) (some-injective _ _ (sym e2 ∙ e))
            ∙ n
            ∙ ap (λ b. b || any (λ v. not (is_some v)) values)
                (ap nullable_of (sym h) ∙ see_all-nullable values none)
            ∙ any-lacks values,
      )

  -- Where the rows are objects without repeated fields: a column is inferred for a name exactly when
  -- some row has the name, and it is nullable exactly when some row lacks the name or has null there.
  pub infer_table_schema-columns :
      (objects : List (BTreeMap Value))
      → All HasDistinctKeys objects
      → (is_some (BTreeMap.get (infer_table_schema (rows_of objects)).columns name)
          ≡ any is_some (values_of objects))
        × ((column : ColumnSchema)
            → BTreeMap.get (infer_table_schema (rows_of objects)).columns name ≡ some column
            → column.nullable ≡ any lacks (values_of objects))
  infer_table_schema-columns objects h =
      let f = folded (values_of objects) (see_all (values_of objects) none) refl in
      (
        ap is_some (infer_table_schema-get objects h) ∙ f.0,
        λ column e. f.1 column (sym (infer_table_schema-get objects h) ∙ e),
      )

  -- A type that no further value changes to a number, a Boolean, or another one.
  abbrev pub IsTextual : ColumnType → Type 0
  IsTextual t = (t ≡ ColumnType.string) ⊎ (t ≡ ColumnType.json)

  merge_type-IsTextual :
      (old : ColumnType) (new : Option ColumnType) → IsTextual old → IsTextual (merge_type old new)
  unfolding merge_type
  merge_type-IsTextual old none h = h
  merge_type-IsTextual old (some new) h = ground arith

  see_all-IsTextual :
      (values : List (Option Value)) (seen : ColumnSchema) (column : ColumnSchema)
      → IsTextual seen.column_type
      → see_all values (some seen) ≡ some column
      → IsTextual column.column_type
  unfolding see_all see_option see_value
  see_all-IsTextual [] seen column h e =
      subst (λ (c : ColumnSchema). IsTextual c.column_type) (some-injective _ _ e) h
  see_all-IsTextual (none ∷ values) seen column h e = see_all-IsTextual values seen column h e
  see_all-IsTextual (some value ∷ values) seen column h e =
      see_all-IsTextual values (see_value (some seen) value) column
        (merge_type-IsTextual seen.column_type (infer_json value) h) e

  -- A column whose first value is null has the type of a text, or of JSON, whatever values follow: an
  -- integer column that starts with null is no integer column.
  pub infer_table_schema-null_first :
      (object : BTreeMap Value) (objects : List (BTreeMap Value)) (column : ColumnSchema)
      → All HasDistinctKeys (object ∷ objects)
      → BTreeMap.get object name ≡ some Json.null
      → BTreeMap.get (infer_table_schema (rows_of (object ∷ objects))).columns name ≡ some column
      → IsTextual column.column_type
  unfolding see_all see_option see_value merge_type infer_json
  infer_table_schema-null_first object objects column h null_here e =
      typed (see_all (values_of objects) (some (see_value none Json.null))) refl (
        ap (λ o. mark_all (o ∷ values_of objects) (see_all (o ∷ values_of objects) none))
          (sym null_here)
        ∙ sym (infer_table_schema-get (object ∷ objects) h)
        ∙ e)
    where
      typed :
          (seen : Option ColumnSchema)
          → see_all (values_of objects) (some (see_value none Json.null)) ≡ seen
          → mark_all (some Json.null ∷ values_of objects) seen ≡ some column
          → IsTextual column.column_type
      typed none s e2 =
          absurd (none-ne-some (sym (mark_all-none (some Json.null ∷ values_of objects)) ∙ e2))
      typed (some seen) s e2 =
          let (marked, m, t, n) = mark_all-some (some Json.null ∷ values_of objects) seen in
          subst IsTextual
            (sym t ∙ ap (λ (c : ColumnSchema). c.column_type) (some-injective _ _ (sym m ∙ e2)))
            (see_all-IsTextual (values_of objects) (see_value none Json.null) seen (inl refl) s)
