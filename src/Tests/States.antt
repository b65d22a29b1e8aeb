-- ===== src/Tests/States.antt =====
-- A small server: one resource in the cache, on the disk that is a map.
use mathlib.Core.Option.{none-ne-some}
use dirbase.Prelude.{true, Option, none, some, List, [], ◌∷◌, ◌≡◌, refl, ap, inl, arith, ◌&&◌}
use dirbase.Prelude.Int.{ℤ, pos, negsuc, leb_ℤ}
use dirbase.BTreeMap
use dirbase.Json.{Json, from_array, from_object, as_array, as_object}
use dirbase.Error.{Result, ok, err, AppError}
use dirbase.Schema.Types.{Schema, DeclaredSchema, primary_key_name}
use dirbase.Schema.Types.Equal.Sound.{IsSound}
use dirbase.Schema.Merge.{insert_all, merged_tables, merge_schemas}
use dirbase.Schema.Relations.{build_table_aliases}
use dirbase.Schema.Relations.ManyToMany.{derive_many_to_many_schema}
use dirbase.Schema.Validation.{validate_effective_schema, validate_declared_schema}
use dirbase.App.Metrics.{MetricsStore, record_resource_cache_hit}
use dirbase.App.SchemaStore.{
  new, validation_snapshot, revision_of, declared_table, changed_resources, tables_of, collect,
}
use dirbase.App.SchemaStore.Trust.{Conforms}
use dirbase.App.State.{AppState, DataSource}
use dirbase.Storage.Cache.{cached_resource_from_value_at_revision}
use dirbase.Storage.Cache.Updates.{
  update_cached_resource, mark_cached_resource_validated, replaced_concurrently,
}
use dirbase.Storage.Io.{read_resource_value, persist_resource_value}
use dirbase.Storage.Io.Files.{
  call, read_file, parse_json, map_err, with_exclusive_file_lock, write_through,
  write_json_atomically_unlocked, sync_parent, unlocked, pretty_payload, payload_of,
}
use dirbase.Storage.Io.Database.{write_resource_in_db_file, write_root}
use dirbase.Storage.Io.RoundTrip.{read_resource_value-persist}
use dirbase.Storage.Loading.{
  load_resource, load_from, admit_and_mark, validate_resource_snapshot, admit,
}
use dirbase.Storage.Admission.{Event, World, validated, step, run, Fits, EventFits}
use dirbase.Storage.Validation.{validate_array_resource_data, validate_resource_data_with_table}
use dirbase.Storage.Validation.Columns.{validate_column, validate_columns}
use dirbase.Storage.Validation.Constraints.{validate_column_constraints}
use dirbase.Storage.Validation.Scalars.{value_matches_type}
use dirbase.Storage.Validation.Uniqueness.{
  validate_unique_constraints, validate_primary_key_uniqueness, primary_key_of, unique_value_key,
}
use dirbase.Storage.Index.{id_matches, find_item_by_key, find_item_index_by_key}
use dirbase.Text.Decimal.{show_int, show_nat}
use dirbase.Text.{join, all_chars}
use dirbase.App.Action.{proceed}
use dirbase.Storage.Admission.Entries.{insert-AllTrue, unvalidated-IsTrue}
use dirbase.Storage.Io.Names.{resource_file_path, is_valid_resource_name}
use dirbase.Storage.Admission.Invariant.{IsAdmitted}
use dirbase.Storage.Admission.Runs.{run-IsAdmitted, new-IsAdmitted}
use dirbase.Storage.Admission.Loads.{load_resource-Conforms}
use dirbase.Storage.Admission.Repeated.{load_resource-again}
use dirbase.Mutation as Change
use dirbase.Mutation.Service.{ResourceValidation, update_locked_resource, load_for}
use dirbase.Mutation.Service.Admitted.{update_locked_resource-IsAdmitted}
use dirbase.Mutation.Service.Refused.{Refuses, update_locked_resource-refused}
use dirbase.Tests.{toy, pretty_text, parse_text}
use dirbase.Tests.Disk.{toy_disk, toy_disk-IsFaithful, empty_database, flag-ReadsBack}
use dirbase.Tests.Resources.{people, declared, shared}

abbrev empty_schema : Schema
empty_schema = record { tables = [] }

abbrev metrics : MetricsStore
metrics = record {
  requests_total = 0;
  responses_total = 0;
  responses_error = 0;
  auth_failures = 0;
  events_sent = 0;
  resource_cache_hits_total = 0;
  resource_cache_misses_total = 0;
  resource_cache_revalidations_total = 0;
  resource_validation_passes_total = 0;
  resource_validation_rows_total = 0;
}

-- The server as it starts, without a declared schema.
abbrev start : AppState
start = record {
  data_source = DataSource.folder "data";
  resources = ("people", tt) ∷ [];
  resource_cache = [];
  schema_store = record {
    declared = none;
    inferred = empty_schema;
    merged = empty_schema;
    declared_revisions = [];
    next_declared_revision = 0;
  };
  graphql_store = record { schema = none; build_error = none };
  metrics = metrics;
  health = record { ready = true; last_error = none };
  events = [];
  disk = [];
  allocated = 1;
}

start-IsAdmitted : IsAdmitted (start, [])
unfolding new merge_schemas merged_tables build_table_aliases derive_many_to_many_schema
    validate_effective_schema validate_declared_schema insert_all
start-IsAdmitted = new-IsAdmitted none empty_schema start refl refl

leb_ℤ-antisym : IsSound (λ (a b : ℤ). leb_ℤ a b && leb_ℤ b a)
leb_ℤ-antisym (pos m) (pos n) h = ap pos (ground arith)
leb_ℤ-antisym (pos m) (negsuc n) h = cc
leb_ℤ-antisym (negsuc m) (pos n) h = cc
leb_ℤ-antisym (negsuc m) (negsuc n) h = ap negsuc (ground arith)

abbrev declared_people : Option DeclaredSchema
declared_people = some (record { tables = ("people", declared) ∷ [] })

-- A write, a validation of what was written, a change of the declared schema, and only then the mark.
abbrev events : List Event
events =
    Event.write "people" (shared people)
    ∷ Event.validate "people" (shared people)
    ∷ Event.declare declared_people
    ∷ Event.mark 0
    ∷ []

abbrev begin : World
begin = (start, [])

run-IsAdmitted_example : IsAdmitted (run begin events)
unfolding Fits EventFits step changed_resources tables_of collect BTreeMap.insert
    update_cached_resource validate_resource_snapshot admit validated validation_snapshot
    declared_table
run-IsAdmitted_example =
    run-IsAdmitted leb_ℤ-antisym begin events (tt, (tt, (omega arith, (tt, tt)))) start-IsAdmitted

-- The server with the declared schema and a snapshot in its cache that was never validated.
abbrev serving : AppState
serving =
    update_cached_resource
      (record start { schema_store = record start.schema_store { declared = declared_people } })
      "people" (shared people)

serving-IsAdmitted : IsAdmitted (serving, [])
unfolding update_cached_resource revision_of BTreeMap.get
serving-IsAdmitted = record {
  bounded = λ resource. omega arith;
  entries =
      insert-AllTrue serving.schema_store [] "people" _
        (unvalidated-IsTrue serving.schema_store "people" (shared people) none)
        (λ resource cached found. absurd (none-ne-some _ found));
  underway = tt;
}

evaluate : Unit {0}
unfolding validate_array_resource_data validate_resource_data_with_table validate_column
    validate_column_constraints value_matches_type validate_unique_constraints
    validate_primary_key_uniqueness primary_key_of BTreeMap.get BTreeMap.insert from_array
    from_object as_array as_object id_matches find_item_by_key
    cached_resource_from_value_at_revision primary_key_name show_int show_nat join validate_columns
    unique_value_key validate_resource_snapshot load_resource load_from admit admit_and_mark
    resource_file_path is_valid_resource_name all_chars proceed update_cached_resource
    validation_snapshot mark_cached_resource_validated replaced_concurrently revision_of
    declared_table
evaluate = tt

load_resource-Conforms_example :
    Conforms "people" (validation_snapshot serving.schema_store "people").1 (from_array people)
unfolding evaluate
load_resource-Conforms_example =
    load_resource-Conforms serving [] "people" (shared people) serving-IsAdmitted refl

abbrev loaded : AppState
loaded = (load_resource "people" serving).0

load_resource-again_example :
    load_resource "people" loaded
    ≡ (record loaded { metrics = record_resource_cache_hit loaded.metrics }, ok (shared people))
unfolding evaluate
load_resource-again_example = load_resource-again serving "people" (shared people) refl

abbrev delete_first : Json ℤ → Result (Json ℤ × Unit {0}) AppError
delete_first = Change.delete_item none "1"

update_locked_resource-IsAdmitted_example : IsAdmitted (
  (update_locked_resource "people" ResourceValidation.before_and_after delete_first serving).0,
  [],
)
update_locked_resource-IsAdmitted_example =
    update_locked_resource-IsAdmitted [] serving "people" ResourceValidation.before_and_after
      delete_first serving-IsAdmitted

abbrev delete_absent : Json ℤ → Result (Json ℤ × Unit {0}) AppError
delete_absent = Change.delete_item none "9"

update_locked_resource-refused_example :
    let answer =
      update_locked_resource "people" ResourceValidation.before_and_after delete_absent serving in
    (answer.1 ≡ err Change.item_missing) × (answer.0.disk ≡ serving.disk)
unfolding evaluate load_for Change.delete_item Refuses find_item_index_by_key
update_locked_resource-refused_example =
    update_locked_resource-refused serving "people" ResourceValidation.before_and_after
      delete_absent (shared people) Change.item_missing refl (inl refl)

read_resource_value-persist_example :
    (read_resource_value
      (DataSource.file "data.json")
      "data.json"
      "flag"
      (persist_resource_value
        (DataSource.file "data.json")
        "data.json"
        "flag"
        (Json.bool true)
        empty_database).0).1
    ≡ ok (Json.bool true)
unfolding persist_resource_value write_resource_in_db_file write_root with_exclusive_file_lock call
    map_err read_file parse_json parse_text as_object from_object write_json_atomically_unlocked
    write_through sync_parent unlocked pretty_payload payload_of pretty_text proceed BTreeMap.get
    BTreeMap.insert BTreeMap.remove
read_resource_value-persist_example =
    read_resource_value-persist toy_disk-IsFaithful (DataSource.file "data.json") "data.json" "flag"
      (Json.bool true) empty_database flag-ReadsBack refl
