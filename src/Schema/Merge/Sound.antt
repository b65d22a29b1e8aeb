-- ===== src/Schema/Merge/Sound.antt =====
-- A merge against the two schemas it is made of.
use mathlib.Core.Option
use dirbase.Prelude.{
  String, true, ◌||◌, Option, none, some, [], ◌≡◌, inl, refl, sym, ap, ◌∙◌, or_else, and_then,
  is_some,
}
use dirbase.BTreeMap
use dirbase.BTreeMap.{BTreeMap, HasDistinctKeys}
use dirbase.Error.{ok, >>=-eq-ok, ok-injective}
use dirbase.Runtime.{Runtime}
use dirbase.Schema.Types.{
  ForeignKey, ColumnSchema, TableSchema, Schema, DeclaredTableSchema, DeclaredSchema,
}
use dirbase.Schema.Relations.{build_table_aliases}
use dirbase.Schema.Relations.ManyToMany.{derive_many_to_many_schema}
use dirbase.Schema.Relations.ManyToMany.Kept.{shape, facts, facts-derive_many_to_many_schema}
use dirbase.Schema.Validation.{validate_effective_schema, validate_declared_schema}
use dirbase.Schema.Merge.{
  declared_keys, declared_tables, overlay_table, overlay_tables, merged_tables, merge_schemas,
}
use dirbase.Schema.Merge.Tables.{overlaid, get-overlay_tables, get-insert_all, shape-merged_tables}
use dirbase.Schema.Merge.Keys.{is_some-same, any-keys, key_at, key-relate_tables}

module _ ⦃rt : Runtime⦄ where
  -- A column, and the primary key, of a table that may not be there, in one schema or the other.
  abbrev pub column_of : Option TableSchema → String → Option ColumnSchema
  column_of found column = and_then found (λ table. BTreeMap.get table.columns column)

  abbrev pub primary_key_of : Option TableSchema → Option String
  primary_key_of found = and_then found (λ table. table.primary_key)

  abbrev pub declared_column : Option DeclaredTableSchema → String → Option ColumnSchema
  declared_column found column = and_then found (λ table. BTreeMap.get table.columns column)

  abbrev pub declared_primary_key : Option DeclaredTableSchema → Option String
  declared_primary_key found = and_then found (λ table. table.primary_key)

  abbrev pub foreign_key_of : Option TableSchema → String → Option ForeignKey
  foreign_key_of found column = and_then found (λ table. BTreeMap.get table.foreign_keys column)

  abbrev pub declared_foreign_key : Option DeclaredTableSchema → String → Option ForeignKey
  declared_foreign_key found column =
      and_then found (λ table. BTreeMap.get table.foreign_keys column)

  -- No column and no foreign key is declared twice.
  abbrev pub HasNoRepeats : Option DeclaredTableSchema → Type 0
  HasNoRepeats none = Unit
  HasNoRepeats (some table) = HasDistinctKeys table.columns × HasDistinctKeys table.foreign_keys

  -- The table of the merged schema, given the declared and the inferred one of the same name.
  pub IsMerged : Option DeclaredTableSchema → Option TableSchema → Option TableSchema → Type 0
  IsMerged declared inferred merged =
      (is_some merged ≡ (is_some declared || is_some inferred))
      × (primary_key_of merged ≡ or_else (declared_primary_key declared) (primary_key_of inferred))
      × ((column : String)
          → (column_of merged column
              ≡ or_else (declared_column declared column) (column_of inferred column))
            × ((key : ForeignKey)
                → declared_foreign_key declared column ≡ some key
                → foreign_key_of merged column ≡ some key))

  shape-facts :
      (a b : Option TableSchema)
      → Option.map facts a ≡ Option.map facts b
      → Option.map shape a ≡ Option.map shape b
  shape-facts a b h = sym (first a) ∙ ap (Option.map (λ f. f.0)) h ∙ first b
    where
      first :
          (o : Option TableSchema) → Option.map (λ f. f.0) (Option.map facts o) ≡ Option.map shape o
      first none = refl
      first (some table) = refl

  keys-facts :
      (a b : Option TableSchema) (column : String)
      → Option.map facts a ≡ Option.map facts b
      → foreign_key_of a column ≡ foreign_key_of b column
  keys-facts a b column h =
      sym (second a)
      ∙ ap
          (λ o. and_then o (λ (f : (BTreeMap ColumnSchema × Option String) × BTreeMap ForeignKey).
            BTreeMap.get f.1 column))
          h
      ∙ second b
    where
      second :
          (o : Option TableSchema)
          → and_then (Option.map facts o) (λ f. BTreeMap.get f.1 column) ≡ foreign_key_of o column
      second none = refl
      second (some table) = refl

  column-shape :
      (a b : Option TableSchema) (column : String)
      → Option.map shape a ≡ Option.map shape b
      → column_of a column ≡ column_of b column
  column-shape a b column h =
      sym (of_shape a)
      ∙ ap
          (λ o. and_then o (λ (s : BTreeMap ColumnSchema × Option String). BTreeMap.get s.0 column))
          h
      ∙ of_shape b
    where
      of_shape :
          (o : Option TableSchema)
          → and_then (Option.map shape o) (λ s. BTreeMap.get s.0 column) ≡ column_of o column
      of_shape none = refl
      of_shape (some table) = refl

  primary_key-shape :
      (a b : Option TableSchema)
      → Option.map shape a ≡ Option.map shape b
      → primary_key_of a ≡ primary_key_of b
  primary_key-shape a b h =
      sym (of_shape a)
      ∙ ap (λ o. and_then o (λ (s : BTreeMap ColumnSchema × Option String). s.1)) h
      ∙ of_shape b
    where
      of_shape :
          (o : Option TableSchema) → and_then (Option.map shape o) (λ s. s.1) ≡ primary_key_of o
      of_shape none = refl
      of_shape (some table) = refl

  some-overlaid :
      (declared : Option DeclaredTableSchema) (inferred : Option TableSchema)
      → is_some (overlaid declared inferred) ≡ (is_some declared || is_some inferred)
  unfolding overlaid
  some-overlaid none inferred = refl
  some-overlaid (some table) inferred = refl

  primary_key-overlaid :
      (declared : Option DeclaredTableSchema) (inferred : Option TableSchema)
      → primary_key_of (overlaid declared inferred)
        ≡ or_else (declared_primary_key declared) (primary_key_of inferred)
  unfolding overlaid overlay_table
  primary_key-overlaid none inferred = refl
  primary_key-overlaid (some table) none = refl
  primary_key-overlaid (some table) (some found) = refl

  column-overlaid :
      (declared : Option DeclaredTableSchema) (inferred : Option TableSchema) (column : String)
      → HasNoRepeats declared
      → column_of (overlaid declared inferred) column
        ≡ or_else (declared_column declared column) (column_of inferred column)
  unfolding overlaid overlay_table BTreeMap.get
  column-overlaid none inferred column h = refl
  column-overlaid (some table) none column h = get-insert_all table.columns [] column h.0
  column-overlaid (some table) (some found) column h =
      get-insert_all table.columns found.columns column h.0

  declared_keys-distinct :
      (declared : Option DeclaredTableSchema)
      → HasNoRepeats declared
      → HasDistinctKeys (declared_keys declared)
  unfolding declared_keys
  declared_keys-distinct none h = tt
  declared_keys-distinct (some table) h = h.1

  get-declared_keys :
      (declared : Option DeclaredTableSchema) (inferred : Option TableSchema) (column : String)
      (key : ForeignKey)
      → declared_foreign_key declared column ≡ some key
      → (BTreeMap.get (declared_keys declared) column ≡ some key)
        × (is_some (overlaid declared inferred) ≡ true)
  unfolding declared_keys overlaid
  get-declared_keys none inferred column key h = cc
  get-declared_keys (some table) inferred column key h = (h, refl)

  key-merged_tables :
      (declared : Option DeclaredSchema) (inferred : Schema) (t column : String) (key : ForeignKey)
      → HasDistinctKeys (declared_tables declared)
      → HasNoRepeats (BTreeMap.get (declared_tables declared) t)
      → declared_foreign_key (BTreeMap.get (declared_tables declared) t) column ≡ some key
      → key_at (merged_tables declared inferred) t column ≡ some key
  unfolding merged_tables
  key-merged_tables declared inferred t column key distinct no_repeats h =
      let all_declared = declared_tables declared in
      let tables = overlay_tables all_declared inferred.tables in
      let (found, there) =
        get-declared_keys (BTreeMap.get all_declared t) (BTreeMap.get inferred.tables t) column key
          h in
      let present =
        ap is_some (get-overlay_tables all_declared inferred.tables t distinct) ∙ there in
      key-relate_tables (build_table_aliases tables) all_declared t column key found
        (declared_keys-distinct (BTreeMap.get all_declared t) no_repeats) (BTreeMap.keys tables)
        tables present (inl (any-keys tables t present))

  merge_schemas-derived :
      (declared : Option DeclaredSchema) (inferred merged : Schema)
      → merge_schemas declared inferred ≡ ok merged
      → merged ≡ derive_many_to_many_schema (record { tables = merged_tables declared inferred })
  unfolding merge_schemas
  merge_schemas-derived declared inferred merged h =
      let effective : Schema = record { tables = merged_tables declared inferred } in
      let (u, is_effective, h1) = >>=-eq-ok (validate_effective_schema effective) _ h in
      let (v, is_declared, h2) = >>=-eq-ok (validate_declared_schema declared effective) _ h1 in
      sym (ok-injective h2)

  -- A merge that succeeds has exactly the tables that are declared or inferred. In each, a declared
  -- column and a declared primary key win over the inferred ones, the other columns and keys are the
  -- inferred ones, and every declared foreign key is there, whatever has been detected for its column;
  -- if no table is declared twice, and no column and no foreign key twice in the table.
  pub merge_schemas-IsMerged :
      (declared : Option DeclaredSchema) (inferred merged : Schema) (table_name : String)
      → HasDistinctKeys (declared_tables declared)
      → HasNoRepeats (BTreeMap.get (declared_tables declared) table_name)
      → merge_schemas declared inferred ≡ ok merged
      → IsMerged
          (BTreeMap.get (declared_tables declared) table_name)
          (BTreeMap.get inferred.tables table_name)
          (BTreeMap.get merged.tables table_name)
  unfolding IsMerged
  merge_schemas-IsMerged declared inferred merged t distinct no_repeats h =
      let d = BTreeMap.get (declared_tables declared) t in
      let i = BTreeMap.get inferred.tables t in
      let m = BTreeMap.get merged.tables t in
      let kept =
        ap (λ (s : Schema). Option.map facts (BTreeMap.get s.tables t))
          (merge_schemas-derived declared inferred merged h)
        ∙ facts-derive_many_to_many_schema (record { tables = merged_tables declared inferred })
            t in
      let same =
        shape-facts m (BTreeMap.get (merged_tables declared inferred) t) kept
        ∙ shape-merged_tables declared inferred t distinct in
      (
        is_some-same shape m (overlaid d i) same ∙ some-overlaid d i,
        primary_key-shape m (overlaid d i) same ∙ primary_key-overlaid d i,
        λ column. (
          column-shape m (overlaid d i) column same ∙ column-overlaid d i column no_repeats,
          λ key declares.
              keys-facts m (BTreeMap.get (merged_tables declared inferred) t) column kept
              ∙ key-merged_tables declared inferred t column key distinct no_repeats declares,
        ),
      )
