-- ===== src/Schema/Relations/Detected.antt =====
-- The foreign keys that detection finds.
use dirbase.Prelude.{
  String, Bool, true, false, Option, none, some, List, [], ◌∷◌, ◌≡◌, ◌≢◌, refl, subst, All,
  Bool-cases, inl, inr, str_eq, eq_iff, if◌then◌else◌, and_then,
}
use mathlib.Core.Option.{some-injective}
use dirbase.BTreeMap
use dirbase.BTreeMap.{BTreeMap, get-insert, HasDistinctKeys, get-All}
use dirbase.Error.{ok}
use dirbase.Runtime.{Runtime}
use dirbase.Text.{strip_suffix}
use dirbase.Schema.Types.{ForeignKey, ColumnSchema, TableSchema, is_compatible_with}
use dirbase.Schema.Relations.{
  contains_name, detect_foreign_key, insert_some, detect_columns, detect_of_table,
  detect_foreign_keys,
}
use dirbase.Schema.Validation.{validate_foreign_key}

and_then-some {ℓ κ} :
    {A : Type ℓ} {B : Type κ} (o : Option A) (f : A → Option B) {b : B}
    → and_then o f ≡ some b
    → (a : A) × (o ≡ some a) × (f a ≡ some b)
and_then-some none f h = cc
and_then-some (some a) f h = (a, refl, h)

unless-some {ℓ} :
    {A : Type ℓ} (b : Bool) (o : Option A) {a : A}
    → (if b then none else o) ≡ some a
    → (b ≡ false) × (o ≡ some a)
unless-some true o h = cc
unless-some false o h = (refl, h)

when-some {ℓ} :
    {A : Type ℓ} (b : Bool) (o : Option A) {a : A}
    → (if b then o else none) ≡ some a
    → (b ≡ true) × (o ≡ some a)
when-some true o h = (refl, h)
when-some false o h = cc

module _ ⦃rt : Runtime⦄ (source : String) (tables : BTreeMap TableSchema)
    (aliases : BTreeMap String) (skip_columns : List String) (table : TableSchema) where
  -- A column of the table that is not skipped refers to the primary key of another table, whose type
  -- agrees with the column's.
  pub record Refers (column_name : String) (fk : ForeignKey) : Type 0 where
    pub column : ColumnSchema
    pub target : TableSchema
    pub target_column : ColumnSchema
    pub is_column : BTreeMap.get table.columns column_name ≡ some column
    pub not_skipped : contains_name skip_columns column_name ≡ false
    pub other : str_eq fk.target_table source ≡ false
    pub is_target : BTreeMap.get tables fk.target_table ≡ some target
    pub is_key : target.primary_key ≡ some fk.target_column
    pub is_target_column : BTreeMap.get target.columns fk.target_column ≡ some target_column
    pub compatible : is_compatible_with column.column_type target_column.column_type ≡ true

  detect_foreign_key-Refers :
      (column_name : String) (column : ColumnSchema) (fk : ForeignKey)
      → BTreeMap.get table.columns column_name ≡ some column
      → detect_foreign_key source tables aliases skip_columns column_name column ≡ some fk
      → Refers column_name fk
  unfolding detect_foreign_key
  detect_foreign_key-Refers column_name column fk is_column h =
      let (kept, h1) = unless-some (contains_name skip_columns column_name) _ h in
      let (prefix, is_prefix, h2) = and_then-some (strip_suffix "_id" column_name) _ h1 in
      let (name, is_name, h3) = and_then-some (BTreeMap.get aliases prefix) _ h2 in
      let (other, h4) = unless-some (str_eq name source) _ h3 in
      let (target, is_target, h5) = and_then-some (BTreeMap.get tables name) _ h4 in
      let (key, is_key, h6) = and_then-some target.primary_key _ h5 in
      let (target_column, is_target_column, h7) =
        and_then-some (BTreeMap.get target.columns key) _ h6 in
      let (compatible, h8) = when-some _ _ h7 in
      subst (Refers column_name) (some-injective _ _ h8) (record {
        column = column;
        target = target;
        target_column = target_column;
        is_column = is_column;
        not_skipped = kept;
        other = other;
        is_target = is_target;
        is_key = is_key;
        is_target_column = is_target_column;
        compatible = compatible;
      })

  abbrev AllRefer : BTreeMap ForeignKey → Type 0
  AllRefer fks = (j : String) (fk : ForeignKey) → BTreeMap.get fks j ≡ some fk → Refers j fk

  insert_some-AllRefer :
      (fks : BTreeMap ForeignKey) (name : String) (o : Option ForeignKey)
      → AllRefer fks
      → ((fk : ForeignKey) → o ≡ some fk → Refers name fk)
      → AllRefer (insert_some fks name o)
  unfolding insert_some
  insert_some-AllRefer fks name none before here j fk h = before j fk h
  insert_some-AllRefer fks name (some new) before here j fk h = elim (Bool-cases (str_eq name j)) [
    | inl same ↦
        subst (λ n. Refers n fk) ((eq_iff name j).0 same) (here fk (rw (get-insert, same) at h))
    | inr other ↦ before j fk (rw (get-insert, other) at h)
  ]

  detect_columns-AllRefer :
      (columns : BTreeMap ColumnSchema) (fks : BTreeMap ForeignKey)
      → All (λ entry. BTreeMap.get table.columns entry.0 ≡ some entry.1) columns
      → AllRefer fks
      → AllRefer (detect_columns source tables aliases skip_columns columns fks)
  unfolding detect_columns
  detect_columns-AllRefer [] fks h before = before
  detect_columns-AllRefer ((name, column) ∷ columns) fks h before =
      detect_columns-AllRefer columns _ h.1 (
        insert_some-AllRefer fks name _ before (λ fk. detect_foreign_key-Refers name column fk h.0))

  -- In a table without a repeated column name every foreign key that is detected is one of its
  -- columns, not skipped, that refers to the primary key of another table with a compatible type.
  pub detect_foreign_keys-Refers :
      HasDistinctKeys table.columns
      → BTreeMap.get tables source ≡ some table
      → (j : String) (fk : ForeignKey)
      → BTreeMap.get (detect_foreign_keys source tables aliases skip_columns) j ≡ some fk
      → Refers j fk
  unfolding detect_foreign_keys detect_of_table BTreeMap.get
  detect_foreign_keys-Refers distinct is_table j fk h =
      detect_columns-AllRefer table.columns [] (get-All table.columns distinct)
        (λ i k e. absurd (none-ne-some e)) j fk (rw is_table at h)
    where
      none-ne-some : {k : ForeignKey} → ◌≢◌ {A = Option ForeignKey} none (some k)
      none-ne-some e = cc

  -- In a table without a repeated column name every foreign key that is detected passes the
  -- foreign-key check of the effective schema.
  pub detect_foreign_keys-valid :
      HasDistinctKeys table.columns
      → BTreeMap.get tables source ≡ some table
      → (j : String) (fk : ForeignKey)
      → BTreeMap.get (detect_foreign_keys source tables aliases skip_columns) j ≡ some fk
      → validate_foreign_key tables source table j fk ≡ ok tt
  unfolding validate_foreign_key
  detect_foreign_keys-valid distinct is_table j fk h =
      let r = detect_foreign_keys-Refers distinct is_table j fk h in
      rw (r.is_column, r.is_target, r.is_target_column, r.compatible) refl
