-- ===== src/Schema/Merge/Tables.antt =====
-- What the loops of the merge keep of each table.
use mathlib.Core.Option
use dirbase.Prelude.{
  String, true, Option, none, some, List, [], ◌∷◌, ◌≡◌, inl, inr, refl, ap, ◌∙◌, Bool-cases, str_eq,
  eq_iff, or_else, unwrap_or, arith,
}
use dirbase.BTreeMap
use dirbase.BTreeMap.{BTreeMap, HasDistinctKeys, get-insert}
use dirbase.BTreeMap.Parts.{get-insert-part}
use dirbase.Runtime.{Runtime}
use dirbase.Schema.Types.{
  TableKind, ForeignKey, TableSchema, Schema, DeclaredTableSchema, DeclaredSchema,
}
use dirbase.Schema.Relations.{build_table_aliases}
use dirbase.Schema.Relations.ManyToMany.Kept.{shape}
use dirbase.Schema.Merge.{
  insert_all, overlay_table, overlay_tables, default_table, set_relations, relate_table,
  relate_tables, declared_tables, merged_tables,
}

module _ {ℓ} {V : Type ℓ} where
  absent_at :
      (m : BTreeMap V) (key j : String)
      → str_eq key j ≡ true
      → BTreeMap.get m key ≡ none
      → BTreeMap.get m j ≡ none
  absent_at m key j same h = ground (arith, eq_iff key j)

  -- The inserted entries win, and the others stay.
  pub get-insert_all :
      (new old : BTreeMap V) (j : String)
      → HasDistinctKeys new
      → BTreeMap.get (insert_all new old) j ≡ or_else (BTreeMap.get new j) (BTreeMap.get old j)
  unfolding insert_all BTreeMap.get
  get-insert_all [] old j h = refl
  get-insert_all ((key, value) ∷ new) old j h =
      get-insert_all new (BTreeMap.insert old key value) j h.1 ∙ (elim (Bool-cases (str_eq key j)) [
        | inl same ↦ simp (get-insert, same, absent_at new key j same h.0)
        | inr other ↦ simp (get-insert, other)
      ])

module _ ⦃rt : Runtime⦄ where
  -- The table of a name after the first loop.
  unfoldable pub overlaid : Option DeclaredTableSchema → Option TableSchema → Option TableSchema
  overlaid none found = found
  overlaid (some declared_table) found =
      some (overlay_table declared_table (unwrap_or found default_table))

  undeclared_at :
      (declared : BTreeMap DeclaredTableSchema) (name t : String) (found : Option TableSchema)
      → str_eq name t ≡ true
      → BTreeMap.get declared name ≡ none
      → overlaid (BTreeMap.get declared t) found ≡ found
  unfolding overlaid
  undeclared_at declared name t found same h =
      ap (λ d. overlaid d found) (absent_at declared name t same h)

  pub get-overlay_tables :
      (declared : BTreeMap DeclaredTableSchema) (tables : BTreeMap TableSchema) (t : String)
      → HasDistinctKeys declared
      → BTreeMap.get (overlay_tables declared tables) t
        ≡ overlaid (BTreeMap.get declared t) (BTreeMap.get tables t)
  unfolding overlay_tables overlaid BTreeMap.get
  get-overlay_tables [] tables t h = refl
  get-overlay_tables ((name, declared_table) ∷ declared) tables t h =
      get-overlay_tables declared _ t h.1 ∙ (elim (Bool-cases (str_eq name t)) [
        | inl same ↦
            rw
              (
                get-insert tables name t (
                    overlay_table declared_table
                      (unwrap_or (BTreeMap.get tables name) default_table)),
                same,
              )
              (undeclared_at declared name t _ same h.0
                ∙ ap
                    (λ k. some (
                      overlay_table declared_table
                        (unwrap_or (BTreeMap.get tables k) default_table)))
                    ((eq_iff name t).0 same))
        | inr other ↦
            rw
              (
                get-insert tables name t (
                    overlay_table declared_table
                      (unwrap_or (BTreeMap.get tables name) default_table)),
                other,
              )
              refl
      ])

  shape-set_relations :
      (name : String) (tables : BTreeMap TableSchema) (foreign_keys : BTreeMap ForeignKey)
      (kind : TableKind) (found : Option TableSchema) (t : String)
      → BTreeMap.get tables name ≡ found
      → Option.map shape (BTreeMap.get (set_relations name tables foreign_keys kind found) t)
        ≡ Option.map shape (BTreeMap.get tables t)
  unfolding set_relations
  shape-set_relations name tables foreign_keys kind none t h = refl
  shape-set_relations name tables foreign_keys kind (some table) t h =
      get-insert-part shape tables name table _ t h refl

  pub shape-relate_table :
      (name : String) (tables : BTreeMap TableSchema) (aliases : BTreeMap String)
      (declared_table : Option DeclaredTableSchema) (t : String)
      → Option.map shape (BTreeMap.get (relate_table name tables aliases declared_table) t)
        ≡ Option.map shape (BTreeMap.get tables t)
  unfolding relate_table
  shape-relate_table name tables aliases declared_table t =
      shape-set_relations name tables _ _ (BTreeMap.get tables name) t refl

  shape-relate_tables :
      (names : List String) (tables : BTreeMap TableSchema) (aliases : BTreeMap String)
      (declared : BTreeMap DeclaredTableSchema) (t : String)
      → Option.map shape (BTreeMap.get (relate_tables names tables aliases declared) t)
        ≡ Option.map shape (BTreeMap.get tables t)
  unfolding relate_tables
  shape-relate_tables [] tables aliases declared t = refl
  shape-relate_tables (name ∷ names) tables aliases declared t =
      shape-relate_tables names _ aliases declared t
      ∙ shape-relate_table name tables aliases (BTreeMap.get declared name) t

  -- Before the relations are added, each table has the declared columns and key over the inferred.
  pub shape-merged_tables :
      (declared : Option DeclaredSchema) (inferred : Schema) (t : String)
      → HasDistinctKeys (declared_tables declared)
      → Option.map shape (BTreeMap.get (merged_tables declared inferred) t)
        ≡ Option.map shape
            (overlaid (BTreeMap.get (declared_tables declared) t) (BTreeMap.get inferred.tables t))
  unfolding merged_tables
  shape-merged_tables declared inferred t h =
      let tables = overlay_tables (declared_tables declared) inferred.tables in
      shape-relate_tables (BTreeMap.keys tables) tables (build_table_aliases tables)
        (declared_tables declared) t
      ∙ ap (Option.map shape) (get-overlay_tables (declared_tables declared) inferred.tables t h)
