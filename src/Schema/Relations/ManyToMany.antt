-- ===== src/Schema/Relations/ManyToMany.antt =====
-- src/schema/relations.rs: the many-to-many relations through the junction tables.
pub mod Kept
use dirbase.Prelude.{String, Option, none, some, List, [], ◌∷◌, if◌then◌else◌}
use dirbase.BTreeMap
use dirbase.BTreeMap.{BTreeMap}
use dirbase.Runtime.{Runtime}
use dirbase.Text.{format}
use dirbase.Schema.Types.{ForeignKey, ManyToManyRelation, TableSchema, Schema}
use dirbase.Schema.Relations.{is_strict_junction_table}

module _ ⦃rt : Runtime⦄ where
  relation_name : TableSchema → ManyToManyRelation → String
  relation_name source_table relation =
      if BTreeMap.contains_key source_table.many_to_many relation.target_table
      then format (relation.target_table ∷ "_via_" ∷ relation.through_table ∷ [])
      else relation.target_table

  with_relation :
      BTreeMap TableSchema → String → ManyToManyRelation → Option TableSchema → BTreeMap TableSchema
  unfolding relation_name
  with_relation tables source_table_name relation none = tables
  with_relation tables source_table_name relation (some source_table) =
      BTreeMap.insert tables source_table_name (record source_table {
        many_to_many =
            BTreeMap.insert source_table.many_to_many (relation_name source_table relation)
              relation;
      })

  unfoldable pub add_many_to_many_relation :
      BTreeMap TableSchema → String → ManyToManyRelation → BTreeMap TableSchema
  unfolding with_relation
  add_many_to_many_relation tables source_table_name relation =
      with_relation tables source_table_name relation (BTreeMap.get tables source_table_name)

  -- The relation from the target of one key of the junction table to the target of the other.
  abbrev pub relation_through :
      String → String → ForeignKey → String → ForeignKey → ManyToManyRelation
  relation_through through_table_name source_column source_fk target_column target_fk = record {
    through_table = through_table_name;
    source_column = source_column;
    source_target_column = source_fk.target_column;
    target_table = target_fk.target_table;
    target_column = target_fk.target_column;
    through_target_column = target_column;
  }

  -- Both directions; a map's entries are in key order already.
  add_both : String → BTreeMap ForeignKey → BTreeMap TableSchema → BTreeMap TableSchema
  unfolding add_many_to_many_relation
  add_both through_table_name ((left_column, left_fk) ∷ (right_column, right_fk) ∷ []) tables =
      add_many_to_many_relation
        (add_many_to_many_relation tables left_fk.target_table
          (relation_through through_table_name left_column left_fk right_column right_fk))
        right_fk.target_table
        (relation_through through_table_name right_column right_fk left_column left_fk)
  add_both through_table_name _ tables = tables

  add_through : String → Option TableSchema → BTreeMap TableSchema → BTreeMap TableSchema
  unfolding add_both
  add_through through_table_name none tables = tables
  add_through through_table_name (some through_table) tables =
      if is_strict_junction_table through_table_name through_table tables
      then add_both through_table_name through_table.foreign_keys tables
      else tables

  -- The loop over the names of the tables.
  derive_from : List String → BTreeMap TableSchema → BTreeMap TableSchema
  unfolding add_through
  derive_from [] tables = tables
  derive_from (through_table_name ∷ names) tables =
      derive_from names
        (add_through through_table_name (BTreeMap.get tables through_table_name) tables)

  cleared : BTreeMap TableSchema → BTreeMap TableSchema
  cleared [] = []
  cleared ((name, table) ∷ tables) = (name, record table { many_to_many = [] }) ∷ cleared tables

  unfoldable pub derive_many_to_many_schema : Schema → Schema
  unfolding derive_from cleared
  derive_many_to_many_schema schema = record {
    tables = derive_from (BTreeMap.keys (cleared schema.tables)) (cleared schema.tables);
  }
