-- ===== src/Tests/Schemas.antt =====
-- Foreign keys, the merge and the revisions of a small schema.
use dirbase.Prelude.{
  All, none, Option, All, String, true, false, some, [], ◌∷◌, ◌≡◌, ◌↔◌, refl, arith, ◌<◌,
}
use dirbase.BTreeMap.{BTreeMap, get, insert}
use dirbase.Error.{ok}
use dirbase.Text.{strip_suffix}
use dirbase.Schema.Types.{
  TableKind, ColumnType, ForeignKey, column_schema, TableSchema, is_compatible_with,
}
use dirbase.Schema.Relations.{
  singularize_table_name, build_table_aliases, detect_foreign_keys, infer_table_kind,
  is_strict_junction_table,
}
use dirbase.Schema.Relations.Detected.{
  Refers, detect_foreign_keys-Refers, detect_foreign_keys-valid,
}
use dirbase.Schema.Types.{Schema, DeclaredSchema}
use dirbase.Schema.Validation.{validate_foreign_key, validate_effective_schema}
use dirbase.Schema.Validation.Effective.{IsSound, validate_effective_schema_iff}
use dirbase.Schema.Types.{DeclaredTableSchema}
use dirbase.Schema.Relations.ManyToMany.{derive_many_to_many_schema}
use dirbase.Schema.Validation.{validate_declared_schema}
use dirbase.Schema.Validation.Constraints.{validate_column_constraints}
use dirbase.Schema.Validation.{validate_primary_key, validate_foreign_keys}
use dirbase.Schema.Merge.{insert_all, merged_tables, merge_schemas, overlay_table}
use dirbase.Schema.Merge.Sound.{IsMerged, merge_schemas-IsMerged}
use dirbase.Schema.Types.Equal.{same_table}
use dirbase.App.SchemaStore.{
  SchemaStore, replace_declared, install_declared, declared_table, validation_snapshot,
  changed_resources, tables_of, collect,
}
use dirbase.App.SchemaStore.Trust.{replace_declared-validation_snapshot}
use dirbase.Tests.{toy}

abbrev users : TableSchema
users = record {
  kind = TableKind.object_table;
  primary_key = some "id";
  columns = ("id", column_schema ColumnType.integer false) ∷ [];
  foreign_keys = [];
  many_to_many = [];
}

abbrev posts : TableSchema
posts = record {
  kind = TableKind.object_table;
  primary_key = some "id";
  columns =
      ("id", column_schema ColumnType.integer false)
      ∷ ("user_id", column_schema ColumnType.big_integer true)
      ∷ [];
  foreign_keys = [];
  many_to_many = [];
}

abbrev tables : BTreeMap TableSchema
tables = ("posts", posts) ∷ ("users", users) ∷ []

abbrev aliases : BTreeMap String
aliases = ("post", "posts") ∷ ("posts", "posts") ∷ ("user", "users") ∷ ("users", "users") ∷ []

abbrev to_users : ForeignKey
to_users = record { target_table = "users"; target_column = "id" }

evaluate : Unit {0}
unfolding get insert singularize_table_name build_table_aliases detect_foreign_keys
    is_compatible_with infer_table_kind is_strict_junction_table strip_suffix
evaluate = tt

relation_tests :
    (build_table_aliases tables ≡ aliases)
    × (singularize_table_name "categories" ≡ "category")
    × (singularize_table_name "s" ≡ "s")
    × (detect_foreign_keys "posts" tables aliases [] ≡ ("user_id", to_users) ∷ [])
    × (detect_foreign_keys "posts" tables aliases ("user_id" ∷ []) ≡ [])
    × (infer_table_kind "posts" posts tables ≡ TableKind.object_table)
unfolding evaluate
relation_tests = (refl, refl, refl, refl, refl, refl)

detect_foreign_keys-Refers_example : Refers "posts" tables aliases [] posts "user_id" to_users
unfolding evaluate
detect_foreign_keys-Refers_example =
    detect_foreign_keys-Refers "posts" tables aliases [] posts (refl, (refl, tt)) refl "user_id"
      to_users refl

detect_foreign_keys-valid_example :
    validate_foreign_key tables "posts" posts "user_id" to_users ≡ ok tt
unfolding evaluate
detect_foreign_keys-valid_example =
    detect_foreign_keys-valid "posts" tables aliases [] posts (refl, (refl, tt)) refl "user_id"
      to_users refl

abbrev schema : Schema
schema = record { tables = tables }

validate_effective_schema_iff_example :
    validate_effective_schema schema ≡ ok tt ↔ All (λ entry. IsSound tables entry.0 entry.1) tables
validate_effective_schema_iff_example = validate_effective_schema_iff schema

abbrev related : Schema
related = record {
  tables =
      ("posts", record posts { foreign_keys = ("user_id", to_users) ∷ [] }) ∷ ("users", users) ∷ [];
}

abbrev undeclared : Option DeclaredSchema
undeclared = none

abbrev declared_posts : DeclaredTableSchema
declared_posts = record {
  kind = none;
  primary_key = none;
  columns = ("title", column_schema ColumnType.string false) ∷ [];
  foreign_keys = [];
  suppressed_foreign_keys = [];
  unique = [];
}

abbrev keyed_posts : DeclaredTableSchema
keyed_posts = record declared_posts { foreign_keys = ("user_id", to_users) ∷ [] }

abbrev keyed : Option DeclaredSchema
keyed = some (record { tables = ("posts", keyed_posts) ∷ [] })

abbrev titled : Schema
titled = record {
  tables =
      (
        "posts",
        record posts {
          columns = insert posts.columns "title" (column_schema ColumnType.string false);
          foreign_keys = ("user_id", to_users) ∷ [];
        },
      )
      ∷ ("users", users)
      ∷ [];
}

merge_schemas-IsMerged_example :
    IsMerged (some keyed_posts) (some posts) (get titled.tables "posts")
unfolding evaluate merge_schemas merged_tables derive_many_to_many_schema validate_effective_schema
    validate_declared_schema validate_column_constraints validate_foreign_key validate_primary_key
    validate_foreign_keys insert_all overlay_table
merge_schemas-IsMerged_example =
    merge_schemas-IsMerged keyed schema titled "posts" (refl, tt) ((refl, tt), (refl, tt)) refl

-- A store whose only declared table is about to be dropped.
abbrev declaring : SchemaStore
declaring = record {
  declared = some (record { tables = ("posts", declared_posts) ∷ [] });
  inferred = schema;
  merged = schema;
  declared_revisions = [];
  next_declared_revision = 0;
}

replace_declared-validation_snapshot_example :
    let replaced = replace_declared declaring undeclared in
    (same_table (declared_table declaring.declared "posts") (declared_table undeclared "posts")
        ≡ true
      → (validation_snapshot replaced.0 "posts").0 ≡ (validation_snapshot declaring "posts").0)
    × (same_table (declared_table declaring.declared "posts") (declared_table undeclared "posts")
          ≡ false
        → 0 < (validation_snapshot replaced.0 "posts").0)
unfolding evaluate merge_schemas merged_tables derive_many_to_many_schema validate_effective_schema
    validate_declared_schema validate_column_constraints validate_foreign_key validate_primary_key
    validate_foreign_keys insert_all replace_declared install_declared changed_resources tables_of
    collect insert
replace_declared-validation_snapshot_example =
    replace_declared-validation_snapshot declaring undeclared "posts" (omega arith) refl
