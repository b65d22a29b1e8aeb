-- ===== src/Http/Embed/Locks.antt =====
-- The resources that a request with embeds locks, in the order of their names.
use dirbase.Prelude.{String, List, [], ◌∷◌}
use dirbase.BTreeMap
use dirbase.Error.{AppError, Result, ok, ok_or, ◌>>=◌}
use dirbase.Runtime.{Runtime}
use dirbase.Schema.Types.{TableSchema}
use dirbase.App.FileSystem.{FileSystem}
use dirbase.App.SchemaStore.{BTreeSet}
use dirbase.App.State.{AppState, schema_table}
use dirbase.Http.Embed.{no_metadata, not_embeddable}

module _ ⦃rt : Runtime⦄ where
  lock_targets : String → TableSchema → List String → BTreeSet → Result BTreeSet AppError
  lock_targets resource table [] resources = ok resources
  lock_targets resource table (embed ∷ embeds) resources = do
    fk ← ok_or (BTreeMap.get table.foreign_keys embed) (not_embeddable embed resource)
    lock_targets resource table embeds (BTreeMap.insert resources fk.target_table tt)

  module _ ⦃fs : FileSystem⦄ where
    lock_set : AppState → String → List String → Result BTreeSet AppError
    unfolding lock_targets
    lock_set state resource [] = ok (BTreeMap.insert [] resource tt)
    lock_set state resource (embed ∷ embeds) = do
      table ← ok_or (schema_table state resource) no_metadata
      lock_targets resource table (embed ∷ embeds) (BTreeMap.insert [] resource tt)

    unfoldable pub embed_lock_resources :
        AppState → String → List String → Result (List String) AppError
    unfolding lock_set
    embed_lock_resources state resource embeds = do
      resources ← lock_set state resource embeds
      ok (BTreeMap.keys resources)
