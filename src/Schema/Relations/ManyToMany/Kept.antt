-- ===== src/Schema/Relations/ManyToMany/Kept.antt =====
-- What the relations through junction tables leave as it is.
use mathlib.Core.Option
use dirbase.Prelude.{
  String, Option, none, some, List, [], ◌∷◌, ◌≡◌, inl, inr, refl, ◌∙◌, Bool-cases, str_eq,
}
use dirbase.BTreeMap
use dirbase.BTreeMap.{BTreeMap}
use dirbase.BTreeMap.Parts.{get-insert-part}
use dirbase.Runtime.{Runtime}
use dirbase.Schema.Types.{ForeignKey, ManyToManyRelation, ColumnSchema, TableSchema, Schema}
use dirbase.Schema.Relations.{is_strict_junction_table}
use dirbase.Schema.Relations.ManyToMany.{
  add_many_to_many_relation, with_relation, add_both, add_through, derive_from, cleared,
  derive_many_to_many_schema,
}

module _ ⦃rt : Runtime⦄ where
  -- What the loops over the tables leave as it is.
  abbrev pub shape : TableSchema → BTreeMap ColumnSchema × Option String
  shape table = (table.columns, table.primary_key)

  abbrev pub facts : TableSchema → (BTreeMap ColumnSchema × Option String) × BTreeMap ForeignKey
  facts table = (shape table, table.foreign_keys)

  facts-with_relation :
      (tables : BTreeMap TableSchema) (name : String) (relation : ManyToManyRelation) (t : String)
      (found : Option TableSchema)
      → BTreeMap.get tables name ≡ found
      → Option.map facts (BTreeMap.get (with_relation tables name relation found) t)
        ≡ Option.map facts (BTreeMap.get tables t)
  unfolding with_relation
  facts-with_relation tables name relation t none h = refl
  facts-with_relation tables name relation t (some table) h =
      get-insert-part facts tables name table _ t h refl

  facts-add :
      (tables : BTreeMap TableSchema) (name : String) (relation : ManyToManyRelation) (t : String)
      → Option.map facts (BTreeMap.get (add_many_to_many_relation tables name relation) t)
        ≡ Option.map facts (BTreeMap.get tables t)
  unfolding add_many_to_many_relation
  facts-add tables name relation t =
      facts-with_relation tables name relation t (BTreeMap.get tables name) refl

  facts-add_both :
      (name : String) (keys : BTreeMap ForeignKey) (tables : BTreeMap TableSchema) (t : String)
      → Option.map facts (BTreeMap.get (add_both name keys tables) t)
        ≡ Option.map facts (BTreeMap.get tables t)
  unfolding add_both
  facts-add_both name [] tables t = refl
  facts-add_both name (a ∷ []) tables t = refl
  facts-add_both name (a ∷ b ∷ c ∷ rest) tables t = refl
  facts-add_both name ((left_column, left_fk) ∷ (right_column, right_fk) ∷ []) tables t =
      facts-add _ right_fk.target_table _ t ∙ facts-add tables left_fk.target_table _ t

  facts-add_through :
      (name : String) (through : Option TableSchema) (tables : BTreeMap TableSchema) (t : String)
      → Option.map facts (BTreeMap.get (add_through name through tables) t)
        ≡ Option.map facts (BTreeMap.get tables t)
  unfolding add_through
  facts-add_through name none tables t = refl
  facts-add_through name (some table) tables t =
      elim (Bool-cases (is_strict_junction_table name table tables)) [
        | inl strict ↦ rw strict (facts-add_both name table.foreign_keys tables t)
        | inr loose ↦ rw loose refl
      ]

  facts-derive_from :
      (names : List String) (tables : BTreeMap TableSchema) (t : String)
      → Option.map facts (BTreeMap.get (derive_from names tables) t)
        ≡ Option.map facts (BTreeMap.get tables t)
  unfolding derive_from
  facts-derive_from [] tables t = refl
  facts-derive_from (name ∷ names) tables t =
      facts-derive_from names (add_through name (BTreeMap.get tables name) tables) t
      ∙ facts-add_through name (BTreeMap.get tables name) tables t

  facts-cleared :
      (tables : BTreeMap TableSchema) (t : String)
      → Option.map facts (BTreeMap.get (cleared tables) t)
        ≡ Option.map facts (BTreeMap.get tables t)
  unfolding cleared BTreeMap.get
  facts-cleared [] t = refl
  facts-cleared ((name, table) ∷ tables) t = elim (Bool-cases (str_eq name t)) [
    | inl same ↦ rw same refl
    | inr other ↦ rw other (facts-cleared tables t)
  ]

  -- The relations through junction tables change nothing else.
  pub facts-derive_many_to_many_schema :
      (schema : Schema) (t : String)
      → Option.map facts (BTreeMap.get (derive_many_to_many_schema schema).tables t)
        ≡ Option.map facts (BTreeMap.get schema.tables t)
  unfolding derive_many_to_many_schema
  facts-derive_many_to_many_schema schema t =
      facts-derive_from (BTreeMap.keys (cleared schema.tables)) (cleared schema.tables) t
      ∙ facts-cleared schema.tables t
