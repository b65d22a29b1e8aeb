-- ===== src/App/State.antt =====
-- `AppState` of src/app.rs. The locks are left out: a model's step is what a handler does while it
-- holds them.
use dirbase.Prelude.{ℕ, suc, String, Option, none, some, List, ◌∷◌}
use dirbase.BTreeMap
use dirbase.BTreeMap.{BTreeMap}
use dirbase.Error.{Result, ok, err}
use dirbase.Runtime.{Runtime, Value}
use dirbase.Schema.Types.{Schema, TableSchema, DeclaredSchema, DeclaredTableSchema}
use dirbase.Storage.Cache.{Shared, CachedResource}
use dirbase.App.FileSystem.{FileSystem}
use dirbase.App.Metrics.{MetricsStore, HealthState, record_event}
use dirbase.App.SchemaStore.{
  BTreeSet, SchemaStore, replace_inferred, replace_declared, validation_snapshot,
}

-- A folder of JSON files, or one database file.
pub data DataSource : Type 0 where
  folder file : String → DataSource

pub record ServerEvent : Type 0 where
  pub kind : String
  pub resource : Option String

module _ ⦃rt : Runtime⦄ where
  pub record GraphqlStore : Type 0 where
    pub schema : Option rt.DynamicSchema
    pub build_error : Option String

  abbrev default_store : GraphqlStore
  default_store = record { schema = none; build_error = none }

  -- What a request finds in the store: the schema, or the error that building it met.
  found_schema : Option rt.DynamicSchema → Option String → Option (Result rt.DynamicSchema String)
  found_schema (some schema) error = some (ok schema)
  found_schema none (some error) = some (err error)
  found_schema none none = none

  unfoldable pub stored_schema : GraphqlStore → Option (Result rt.DynamicSchema String)
  unfolding found_schema
  stored_schema store = found_schema store.schema store.build_error

  store_built : Result rt.DynamicSchema String → GraphqlStore → GraphqlStore
  store_built (ok schema) store = record store { schema = some schema }
  store_built (err error) store = record store { build_error = some error }

  answer_stored :
      Option (Result rt.DynamicSchema String)
      → Result rt.DynamicSchema String
      → GraphqlStore
      → GraphqlStore × Result rt.DynamicSchema String
  unfolding store_built
  answer_stored (some answer) built store = (store, answer)
  answer_stored none built store = (store_built built store, built)

  -- What `graphql_schema` does after it has built a schema: another task may have stored one.
  unfoldable pub install_built :
      Result rt.DynamicSchema String → GraphqlStore → GraphqlStore × Result rt.DynamicSchema String
  unfolding answer_stored stored_schema
  install_built built store = answer_stored (stored_schema store) built store

  module _ ⦃fs : FileSystem⦄ where
    pub record AppState : Type 0 where
      pub data_source : DataSource
      pub resources : BTreeSet
      pub resource_cache : BTreeMap CachedResource
      pub schema_store : SchemaStore
      pub graphql_store : GraphqlStore
      pub metrics : MetricsStore
      pub health : HealthState
      -- what was sent on `event_bus`, the last event first
      pub events : List ServerEvent
      pub disk : fs.Disk
      -- the allocations made so far
      pub allocated : ℕ

    -- `Arc::new(value)`
    abbrev pub allocate : AppState → Value → AppState × Shared
    allocate state value = (
      record state { allocated = suc state.allocated },
      record { address = state.allocated; content = value },
    )

    abbrev pub schema_table : AppState → String → Option TableSchema
    schema_table state resource = BTreeMap.get state.schema_store.merged.tables resource

    abbrev pub validation_schema_snapshot : AppState → String → ℕ × Option DeclaredTableSchema
    validation_schema_snapshot state resource = validation_snapshot state.schema_store resource

    abbrev pub validation_schema_table : AppState → String → Option DeclaredTableSchema
    validation_schema_table state resource = (validation_schema_snapshot state resource).1

    abbrev pub update_inferred_schema : AppState → Schema → AppState × Result (Unit {0}) String
    update_inferred_schema state inferred =
        let replaced = replace_inferred state.schema_store inferred in
        (record state { schema_store = replaced.0 }, replaced.1)

    abbrev pub update_declared_schema :
        AppState → Option DeclaredSchema → AppState × Result (Unit {0}) String
    update_declared_schema state declared =
        let replaced = replace_declared state.schema_store declared in
        (record state { schema_store = replaced.0 }, replaced.1)

    abbrev pub resource_names_sorted : AppState → List String
    resource_names_sorted state = BTreeMap.keys state.resources

    abbrev pub invalidate_graphql_schema : AppState → AppState
    invalidate_graphql_schema state = record state { graphql_store = default_store }

    abbrev pub emit_event : AppState → String → Option String → AppState
    emit_event state kind resource = record state {
      events = record { kind = kind; resource = resource } ∷ state.events;
      metrics = record_event state.metrics;
    }
