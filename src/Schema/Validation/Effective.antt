-- ===== src/Schema/Validation/Effective.antt =====
-- What an effective schema that passes has.
use dirbase.Prelude.{
  String, Bool, true, false, Option, none, some, [], ◌∷◌, ◌≡◌, ◌↔◌, refl, All, if◌then◌else◌,
}
use dirbase.BTreeMap
use dirbase.BTreeMap.{BTreeMap}
use dirbase.Error.{Result, ok, err, ◌>>◌, >>=-eq-ok, ok_or-eq-ok, err-ne-ok, both_ok}
use dirbase.Runtime.{Runtime}
use dirbase.Schema.Types.{ForeignKey, ColumnSchema, TableSchema, Schema, is_compatible_with}
use dirbase.Schema.Validation.{
  validate_primary_key, validate_foreign_key, validate_foreign_keys, validate_columns,
  validate_table, validate_tables, validate_effective_schema,
}
use dirbase.Schema.Validation.Constraints.{validate_column_constraints}

module _ ⦃rt : Runtime⦄ (tables : BTreeMap TableSchema) where
  -- The primary key, if there is one, is a column.
  pub HasKey : TableSchema → Option String → Type 0
  HasKey table none = Unit
  HasKey table (some key) = BTreeMap.contains_key table.columns key ≡ true

  -- The foreign key is a column whose type may be joined with that of an existing column.
  pub record Joins (table : TableSchema) (source_column : String) (fk : ForeignKey) : Type 0 where
    pub source : ColumnSchema
    pub target : TableSchema
    pub target_column : ColumnSchema
    pub is_source : BTreeMap.get table.columns source_column ≡ some source
    pub is_target : BTreeMap.get tables fk.target_table ≡ some target
    pub is_target_column : BTreeMap.get target.columns fk.target_column ≡ some target_column
    pub compatible : is_compatible_with source.column_type target_column.column_type ≡ true

  when-ok :
      {E : Type 0} (b : Bool) (e : E)
      → ◌≡◌ {A = Result (Unit {0}) E} (if b then ok tt else err e) (ok tt) ↔ (b ≡ true)
  when-ok true e = (λ h. refl, λ h. refl)
  when-ok false e = (λ h. absurd (err-ne-ok h), λ h. cc)

  validate_primary_key_iff :
      (name : String) (table : TableSchema) (key : Option String)
      → validate_primary_key name table key ≡ ok tt ↔ HasKey table key
  unfolding validate_primary_key HasKey
  validate_primary_key_iff name table none = (λ h. tt, λ h. refl)
  validate_primary_key_iff name table (some key) =
      when-ok (BTreeMap.contains_key table.columns key) _

  validate_foreign_key_iff :
      (name : String) (table : TableSchema) (column : String) (fk : ForeignKey)
      → validate_foreign_key tables name table column fk ≡ ok tt ↔ Joins table column fk
  unfolding validate_foreign_key
  validate_foreign_key_iff name table column fk = (
    λ h.
        let (source, is_source, h1) = >>=-eq-ok _ _ h in
        let (target, is_target, h2) = >>=-eq-ok _ _ h1 in
        let (target_column, is_target_column, h3) = >>=-eq-ok _ _ h2 in
        record {
          source = source;
          target = target;
          target_column = target_column;
          is_source = ok_or-eq-ok _ _ is_source;
          is_target = ok_or-eq-ok _ _ is_target;
          is_target_column = ok_or-eq-ok _ _ is_target_column;
          compatible =
              (when-ok (is_compatible_with source.column_type target_column.column_type) _).0 h3;
        },
    λ j. rw (j.is_source, j.is_target, j.is_target_column, j.compatible) refl,
  )

  validate_foreign_keys_iff :
      (name : String) (table : TableSchema) (fks : BTreeMap ForeignKey)
      → validate_foreign_keys tables name table fks ≡ ok tt
        ↔ All (λ entry. Joins table entry.0 entry.1) fks
  unfolding validate_foreign_keys
  validate_foreign_keys_iff name table [] = (λ h. tt, λ h. refl)
  validate_foreign_keys_iff name table ((column, fk) ∷ fks) =
      let here = validate_foreign_key_iff name table column fk in
      let later = validate_foreign_keys_iff name table fks in
      let each =
        both_ok (validate_foreign_key tables name table column fk)
          (validate_foreign_keys tables name table fks) in
      (λ h. (here.0 (each.0 h).0, later.0 (each.0 h).1), λ h. each.1 (here.1 h.0, later.1 h.1))

  validate_columns_iff :
      (name : String) (columns : BTreeMap ColumnSchema)
      → validate_columns name columns ≡ ok tt
        ↔ All (λ entry. validate_column_constraints name entry.0 entry.1 ≡ ok tt) columns
  unfolding validate_columns
  validate_columns_iff name [] = (λ h. tt, λ h. refl)
  validate_columns_iff name ((column_name, column) ∷ columns) =
      let later = validate_columns_iff name columns in
      let each =
        both_ok (validate_column_constraints name column_name column)
          (validate_columns name columns) in
      (λ h. ((each.0 h).0, later.0 (each.0 h).1), λ h. each.1 (h.0, later.1 h.1))

  -- A table whose key exists, whose foreign keys join, and whose columns have sound constraints.
  pub record IsSound (name : String) (table : TableSchema) : Type 0 where
    pub key : HasKey table table.primary_key
    pub joins : All (λ entry. Joins table entry.0 entry.1) table.foreign_keys
    pub constraints :
        All (λ entry. validate_column_constraints name entry.0 entry.1 ≡ ok tt) table.columns

  validate_table_iff :
      (name : String) (table : TableSchema)
      → validate_table tables name table ≡ ok tt ↔ IsSound name table
  unfolding validate_table
  validate_table_iff name table =
      let key = validate_primary_key_iff name table table.primary_key in
      let joins = validate_foreign_keys_iff name table table.foreign_keys in
      let columns = validate_columns_iff name table.columns in
      let inner =
        both_ok (validate_foreign_keys tables name table table.foreign_keys)
          (validate_columns name table.columns) in
      let outer = both_ok (validate_primary_key name table table.primary_key) (
        validate_foreign_keys tables name table table.foreign_keys
        >> validate_columns name table.columns) in
      (
        λ h.
            let a = outer.0 h in
            let b = inner.0 a.1 in
            record { key = key.0 a.0; joins = joins.0 b.0; constraints = columns.0 b.1 },
        λ s. outer.1 (key.1 s.key, inner.1 (joins.1 s.joins, columns.1 s.constraints)),
      )

  validate_tables_iff :
      (rest : BTreeMap TableSchema)
      → validate_tables tables rest ≡ ok tt ↔ All (λ entry. IsSound entry.0 entry.1) rest
  unfolding validate_tables
  validate_tables_iff [] = (λ h. tt, λ h. refl)
  validate_tables_iff ((name, table) ∷ rest) =
      let here = validate_table_iff name table in
      let later = validate_tables_iff rest in
      let each = both_ok (validate_table tables name table) (validate_tables tables rest) in
      (λ h. (here.0 (each.0 h).0, later.0 (each.0 h).1), λ h. each.1 (here.1 h.0, later.1 h.1))

module _ ⦃rt : Runtime⦄ where
  -- The effective schema passes exactly when in every table the primary key is a column, each
  -- foreign key is a column that may be joined with an existing column of an existing table, and the
  -- constraints of each column pass.
  pub validate_effective_schema_iff :
      (schema : Schema)
      → validate_effective_schema schema ≡ ok tt
        ↔ All (λ entry. IsSound schema.tables entry.0 entry.1) schema.tables
  unfolding validate_effective_schema
  validate_effective_schema_iff schema = validate_tables_iff schema.tables schema.tables
