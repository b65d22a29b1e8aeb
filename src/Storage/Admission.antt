-- ===== src/Storage/Admission.antt =====
-- The snapshots of the cache under interleaved loads, writes and schema updates: each step is what a
-- handler does under one lock of the cache or of the schema store.
pub mod Entries
pub mod Invariant
pub mod Runs
pub mod Loads
pub mod Repeated
use dirbase.Prelude.{ℕ, String, Option, none, some, List, [], ◌∷◌, get_elem?}
use dirbase.Error.{AppError, Result, ok, err}
use dirbase.Runtime.{Runtime, Value}
use dirbase.Schema.Types.{Schema, DeclaredSchema}
use dirbase.App.FileSystem.{FileSystem}
use dirbase.App.SchemaStore.Trust.{HasRoom}
use dirbase.App.State.{AppState, update_inferred_schema, update_declared_schema}
use dirbase.Storage.Cache.{Shared}
use dirbase.Storage.Cache.Updates.{
  update_cached_resource, insert_cached_resource_if_absent, mark_cached_resource_validated,
  remove_cached_resource, clear_resource_cache,
}
use dirbase.Storage.Loading.{validate_resource_snapshot}

module _ ⦃rt : Runtime⦄ where
  -- A validation that has succeeded and may still mark the cache.
  pub record Pending : Type 0 where
    pub resource : String
    pub value : Shared
    pub validation_revision : ℕ

  pub data Event : Type 0 where
    declare : Option DeclaredSchema → Event
    infer : Schema → Event
    write : String → Shared → Event
    read : String → Shared → Event
    validate : String → Shared → Event
    -- the validation at this place of the list marks the cache
    mark : ℕ → Event
    forget : String → Event
    clear : Event

  module _ ⦃fs : FileSystem⦄ where
    abbrev pub World : Type 0
    World = AppState × List Pending

    -- A validation that fails leaves nothing to mark.
    unfoldable pub validated : String → Shared → List Pending → AppState × Result ℕ AppError → World
    validated resource value pending (state, err e) = (state, pending)
    validated resource value pending (state, ok revision) = (
      state,
      record { resource = resource; value = value; validation_revision = revision } ∷ pending,
    )

    unfoldable pub marked : AppState → List Pending → Option Pending → World
    marked state pending none = (state, pending)
    marked state pending (some p) =
        (mark_cached_resource_validated state p.resource p.value p.validation_revision, pending)

    unfoldable pub step : World → Event → World
    unfolding validated marked
    step (state, pending) (declare declared) = ((update_declared_schema state declared).0, pending)
    step (state, pending) (infer inferred) = ((update_inferred_schema state inferred).0, pending)
    step (state, pending) (write resource value) =
        (update_cached_resource state resource value, pending)
    step (state, pending) (read resource value) =
        (insert_cached_resource_if_absent state resource value, pending)
    step (state, pending) (validate resource value) =
        validated resource value pending (validate_resource_snapshot resource value.content state)
    step (state, pending) (mark position) = marked state pending (get_elem? pending position)
    step (state, pending) (forget resource) = (remove_cached_resource state resource, pending)
    step (state, pending) clear = (clear_resource_cache state, pending)

    unfoldable pub run : World → List Event → World
    unfolding step
    run world [] = world
    run world (event ∷ events) = run (step world event) events

    -- No update of the declared schema runs out of revisions.
    unfoldable pub EventFits : World → Event → Type 0
    EventFits world (declare declared) = HasRoom world.0.schema_store declared
    EventFits world _ = Unit

    unfoldable pub Fits : World → List Event → Type 0
    unfolding EventFits
    Fits world [] = Unit
    Fits world (event ∷ events) = EventFits world event × Fits (step world event) events
