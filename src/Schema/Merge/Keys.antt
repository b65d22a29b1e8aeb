-- ===== src/Schema/Merge/Keys.antt =====
-- The declared foreign keys in the second loop of the merge.
use mathlib.Core.Option
use mathlib.Core.Bool.{false≢true}
use dirbase.Prelude.{
  String, true, false, Option, none, some, List, [], ◌∷◌, ◌≡◌, ◌⊎◌, inl, inr, refl, sym, ap, ◌∙◌,
  subst, Bool-cases, str_eq, eq_iff, and_then, is_some, any,
}
use dirbase.BTreeMap
use dirbase.BTreeMap.{BTreeMap, HasDistinctKeys, get-insert, get-insert_self}
use dirbase.Runtime.{Runtime}
use dirbase.Schema.Types.{TableKind, ForeignKey, TableSchema, DeclaredTableSchema}
use dirbase.Schema.Relations.ManyToMany.Kept.{shape}
use dirbase.Schema.Merge.{
  declared_keys, foreign_keys_of, set_relations, relate_table, relate_tables,
}
use dirbase.Schema.Merge.Tables.{get-insert_all, shape-relate_table}

module _ {ℓ κ} {A : Type ℓ} {B : Type κ} (f : A → B) where
  is_some-map : (o : Option A) → is_some (Option.map f o) ≡ is_some o
  is_some-map none = refl
  is_some-map (some a) = refl

  -- An equation of mapped options is one of whether they are there.
  pub is_some-same : (a b : Option A) → Option.map f a ≡ Option.map f b → is_some a ≡ is_some b
  is_some-same a b h = sym (is_some-map a) ∙ ap is_some h ∙ is_some-map b

pub any-keys {ℓ} :
    {V : Type ℓ} (m : BTreeMap V) (t : String)
    → is_some (BTreeMap.get m t) ≡ true
    → any (λ n. str_eq n t) (BTreeMap.keys m) ≡ true
unfolding BTreeMap.get
any-keys [] t h = absurd (false≢true h)
any-keys ((key, value) ∷ m) t h = elim (Bool-cases (str_eq key t)) [
  | inl same ↦ rw same refl
  | inr other ↦ rw other (any-keys m t (rw other at h))
]

module _ ⦃rt : Runtime⦄ where
  abbrev pub key_at : BTreeMap TableSchema → String → String → Option ForeignKey
  key_at tables t column =
      and_then (BTreeMap.get tables t) (λ table. BTreeMap.get table.foreign_keys column)

  other-set_relations :
      (name : String) (tables : BTreeMap TableSchema) (foreign_keys : BTreeMap ForeignKey)
      (kind : TableKind) (found : Option TableSchema) (t : String)
      → str_eq name t ≡ false
      → BTreeMap.get (set_relations name tables foreign_keys kind found) t ≡ BTreeMap.get tables t
  unfolding set_relations
  other-set_relations name tables foreign_keys kind none t other = refl
  other-set_relations name tables foreign_keys kind (some table) t other =
      rw
        (
          get-insert tables name t
              (record table { foreign_keys = foreign_keys; many_to_many = []; kind = kind }),
          other,
        )
        refl

  other-relate_table :
      (name : String) (tables : BTreeMap TableSchema) (aliases : BTreeMap String)
      (declared_table : Option DeclaredTableSchema) (t : String)
      → str_eq name t ≡ false
      → BTreeMap.get (relate_table name tables aliases declared_table) t ≡ BTreeMap.get tables t
  unfolding relate_table
  other-relate_table name tables aliases declared_table t =
      other-set_relations name tables _ _ (BTreeMap.get tables name) t

  set_key :
      (t : String) (tables : BTreeMap TableSchema) (foreign_keys : BTreeMap ForeignKey)
      (kind : TableKind) (found : Option TableSchema) (column : String)
      → is_some found ≡ true
      → key_at (set_relations t tables foreign_keys kind found) t column
        ≡ BTreeMap.get foreign_keys column
  unfolding set_relations
  set_key t tables foreign_keys kind none column h = absurd (false≢true h)
  set_key t tables foreign_keys kind (some table) column h =
      rw
        (get-insert_self tables t
          (record table { foreign_keys = foreign_keys; many_to_many = []; kind = kind }))
        refl

  module _ (aliases : BTreeMap String) (declared : BTreeMap DeclaredTableSchema) (t column : String)
      (key : ForeignKey)
      (declares : BTreeMap.get (declared_keys (BTreeMap.get declared t)) column ≡ some key)
      (distinct : HasDistinctKeys (declared_keys (BTreeMap.get declared t))) where
    key-relate_table :
        (tables : BTreeMap TableSchema)
        → is_some (BTreeMap.get tables t) ≡ true
        → key_at (relate_table t tables aliases (BTreeMap.get declared t)) t column ≡ some key
    unfolding relate_table foreign_keys_of
    key-relate_table tables there =
        set_key t tables _ _ (BTreeMap.get tables t) column there
        ∙ get-insert_all (declared_keys (BTreeMap.get declared t)) _ column distinct
        ∙ rw declares refl

    -- The loop passes the table, or has passed it.
    pub key-relate_tables :
        (names : List String) (tables : BTreeMap TableSchema)
        → is_some (BTreeMap.get tables t) ≡ true
        → ((any (λ n. str_eq n t) names ≡ true) ⊎ (key_at tables t column ≡ some key))
        → key_at (relate_tables names tables aliases declared) t column ≡ some key
    unfolding relate_tables
    key-relate_tables [] tables there (inl h) = absurd (false≢true h)
    key-relate_tables [] tables there (inr h) = h
    key-relate_tables (name ∷ names) tables there h =
        let next = relate_table name tables aliases (BTreeMap.get declared name) in
        let still =
          is_some-same shape (BTreeMap.get next t) (BTreeMap.get tables t)
            (shape-relate_table name tables aliases (BTreeMap.get declared name) t)
          ∙ there in
        key-relate_tables names next still (elim (Bool-cases (str_eq name t)) [
          | inl same ↦ inr (
              subst
                (λ n.
                  key_at (relate_table n tables aliases (BTreeMap.get declared n)) t column
                  ≡ some key)
                (sym ((eq_iff name t).0 same)) (key-relate_table tables there))
          | inr other ↦ passed name names tables other h
        ])
      where
        passed :
            (name : String) (names : List String) (tables : BTreeMap TableSchema)
            → str_eq name t ≡ false
            → ((any (λ n. str_eq n t) (name ∷ names) ≡ true) ⊎ (key_at tables t column ≡ some key))
            → (any (λ n. str_eq n t) names ≡ true)
              ⊎ (key_at (relate_table name tables aliases (BTreeMap.get declared name)) t column
                  ≡ some key)
        passed name names tables other (inl h) = inl (rw other at h)
        passed name names tables other (inr h) =
            inr (rw (other-relate_table name tables aliases (BTreeMap.get declared name) t other) h)
