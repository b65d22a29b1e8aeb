-- ===== src/Storage/Admission/Runs.antt =====
-- The invariant of the cache along interleaved loads, writes and schema updates.
use mathlib.Core.Option.{some-injective, none-ne-some}
use dirbase.Prelude.{
  ℕ, zero, suc, String, Option, none, some, List, [], ◌∷◌, ◌≡◌, refl, sym, ap, subst, get_elem?,
  All, arith,
}
use dirbase.BTreeMap
use dirbase.Error.{AppError, Result, ok, err, ok-injective, >>=-eq-ok}
use dirbase.Runtime.{Runtime}
use dirbase.Schema.Types.{Schema, DeclaredSchema}
use dirbase.Schema.Types.Equal.Sound.{IsSound}
use dirbase.App.FileSystem.{FileSystem}
use dirbase.App.SchemaStore.{SchemaStore, new, revision_of}
use dirbase.Schema.Merge.{merge_schemas}
use dirbase.App.SchemaStore.Trust.{
  Authorizes, replace_declared-IsBoundedStore, replace_declared-Authorizes,
  replace_inferred-IsBoundedStore, replace_inferred-Authorizes,
}
use dirbase.App.State.{AppState, schema_table}
use dirbase.Storage.Cache.{Shared}
use dirbase.Storage.Cache.Updates.{
  update_cached_resource, insert_cached_resource_if_absent, remove_cached_resource,
  clear_resource_cache,
}
use dirbase.Storage.Loading.{validate_resource_snapshot}
use dirbase.Storage.Admission.{Pending, Event, World, step, run, Fits, EventFits, validated, marked}
use dirbase.Storage.Admission.Entries.{
  insert-AllTrue, or_insert-AllTrue, remove-AllTrue, unvalidated-IsTrue,
}
use dirbase.Storage.Admission.Invariant.{
  PendingTrue, IsAdmitted, All-map, mark_cached_resource_validated-IsAdmitted,
  validate_resource_snapshot-IsAdmitted, validate_resource_snapshot-Authorizes,
}

module _ ⦃rt : Runtime⦄ ⦃fs : FileSystem⦄ where
  validated-IsAdmitted :
      (resource : String) (value : Shared) (pending : List Pending)
      (answer : AppState × Result ℕ AppError)
      → IsAdmitted (answer.0, pending)
      → ((revision : ℕ)
          → answer.1 ≡ ok revision
          → Authorizes answer.0.schema_store resource value.content revision)
      → IsAdmitted (validated resource value pending answer)
  unfolding validated
  validated-IsAdmitted resource value pending (state, err e) all h = all
  validated-IsAdmitted resource value pending (state, ok revision) all h = record {
    bounded = all.bounded;
    entries = all.entries;
    underway = (h revision refl, all.underway);
  }

  All-get_elem? :
      (P : Pending → Type 0) (pending : List Pending) (position : ℕ) {p : Pending}
      → All P pending
      → get_elem? pending position ≡ some p
      → P p
  All-get_elem? P [] position all h = cc
  All-get_elem? P (p ∷ pending) zero all h = subst P (some-injective _ _ h) all.0
  All-get_elem? P (p ∷ pending) (suc position) all h = All-get_elem? P pending position all.1 h

  marked-IsAdmitted :
      (state : AppState) (pending : List Pending) (found : Option Pending)
      → ((p : Pending) → found ≡ some p → PendingTrue state.schema_store p)
      → IsAdmitted (state, pending)
      → IsAdmitted (marked state pending found)
  unfolding marked
  marked-IsAdmitted state pending none h all = all
  marked-IsAdmitted state pending (some p) h all =
      mark_cached_resource_validated-IsAdmitted state pending p.resource p.value
        p.validation_revision (h p refl) all

  step-IsAdmitted :
      IsSound rt.number_eq
      → (world : World) (event : Event) → EventFits world event
      → IsAdmitted world
      → IsAdmitted (step world event)
  unfolding step EventFits update_cached_resource insert_cached_resource_if_absent
      remove_cached_resource clear_resource_cache BTreeMap.get
  step-IsAdmitted sound (state, pending) (Event.declare declared) room all = record {
    bounded = replace_declared-IsBoundedStore state.schema_store declared room all.bounded;
    entries = λ resource cached found revision e.
        replace_declared-Authorizes sound state.schema_store declared room resource
          cached.value.content revision (all.entries resource cached found revision e);
    underway =
        All-map
          (λ p.
            replace_declared-Authorizes sound state.schema_store declared room p.resource
              p.value.content p.validation_revision)
          pending all.underway;
  }
  step-IsAdmitted sound (state, pending) (Event.infer inferred) room all = record {
    bounded = replace_inferred-IsBoundedStore state.schema_store inferred all.bounded;
    entries = λ resource cached found revision e.
        replace_inferred-Authorizes state.schema_store inferred resource cached.value.content
          revision (all.entries resource cached found revision e);
    underway =
        All-map
          (λ p.
            replace_inferred-Authorizes state.schema_store inferred p.resource p.value.content
              p.validation_revision)
          pending all.underway;
  }
  step-IsAdmitted sound (state, pending) (Event.write resource value) room all = record {
    bounded = all.bounded;
    entries =
        insert-AllTrue state.schema_store state.resource_cache resource _
          (unvalidated-IsTrue state.schema_store resource value (schema_table state resource))
          all.entries;
    underway = all.underway;
  }
  step-IsAdmitted sound (state, pending) (Event.read resource value) room all = record {
    bounded = all.bounded;
    entries =
        or_insert-AllTrue state.schema_store state.resource_cache resource _
          (unvalidated-IsTrue state.schema_store resource value (schema_table state resource))
          all.entries;
    underway = all.underway;
  }
  step-IsAdmitted sound (state, pending) (Event.validate resource value) room all =
      validated-IsAdmitted resource value pending
        (validate_resource_snapshot resource value.content state)
        (validate_resource_snapshot-IsAdmitted state pending resource value.content all)
        λ revision h.
          (validate_resource_snapshot-Authorizes state resource value.content revision all.bounded
            h).2
  step-IsAdmitted sound (state, pending) (Event.mark position) room all =
      marked-IsAdmitted state pending (get_elem? pending position)
        (λ p h. All-get_elem? (PendingTrue state.schema_store) pending position all.underway h) all
  step-IsAdmitted sound (state, pending) (Event.forget resource) room all = record {
    bounded = all.bounded;
    entries = remove-AllTrue state.schema_store state.resource_cache resource all.entries;
    underway = all.underway;
  }
  step-IsAdmitted sound (state, pending) Event.clear room all = record {
    bounded = all.bounded;
    entries = λ resource cached found. absurd (none-ne-some _ found);
    underway = all.underway;
  }

  -- However loads, writes and updates of the schemas interleave, a cache entry whose revision is the
  -- current one of its resource holds a value that satisfies the declared table, as long as it was so
  -- before, numbers that compare equal are the same and the 64-bit counter does not wrap around.
  pub run-IsAdmitted :
      IsSound rt.number_eq
      → (world : World) (events : List Event) → Fits world events
      → IsAdmitted world
      → IsAdmitted (run world events)
  unfolding run Fits
  run-IsAdmitted sound world [] room all = all
  run-IsAdmitted sound world (event ∷ events) room all =
      run-IsAdmitted sound (step world event) events room.1
        (step-IsAdmitted sound world event room.0 all)

  new-shape :
      (declared : Option DeclaredSchema) (inferred : Schema) (store : SchemaStore)
      → new declared inferred ≡ ok store
      → (store.declared_revisions ≡ []) × (store.next_declared_revision ≡ 0)
  unfolding new
  new-shape declared inferred store h =
      let (merged, done, rest) = >>=-eq-ok (merge_schemas declared inferred) _ h in
      (
        ap (λ s. s.declared_revisions) (sym (ok-injective rest)),
        ap (λ s. s.next_declared_revision) (sym (ok-injective rest)),
      )

  -- The state that the program starts with, a new schema store and an empty cache, is true.
  pub new-IsAdmitted :
      (declared : Option DeclaredSchema) (inferred : Schema) (state : AppState)
      → new declared inferred ≡ ok state.schema_store
      → state.resource_cache ≡ []
      → IsAdmitted (state, [])
  unfolding revision_of BTreeMap.get
  new-IsAdmitted declared inferred state made empty =
      let (revisions, last) = new-shape declared inferred state.schema_store made in
      record {
        bounded = λ resource. rw (revisions, last) (omega arith);
        entries = λ resource cached found. absurd (none-ne-some _ (rw empty at found));
        underway = tt;
      }
