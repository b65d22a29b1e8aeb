-- ===== src/Mutation/Service.antt =====
-- src/mutation_service.rs from the load to the write: what each handler does under the lock of its
-- resource.
pub mod Admitted
pub mod Refused
use dirbase.Prelude.{ℕ, String}
use dirbase.Error.{AppError, Result, ok, err}
use dirbase.Runtime.{Runtime, Value}
use dirbase.App.FileSystem.{FileSystem}
use dirbase.App.Action.{Action, return, lift, ◌>>=◌, ◌>>◌}
use dirbase.App.State.{AppState, schema_table}
use dirbase.Storage.Cache.{Shared}
use dirbase.Storage.Loading.{load_resource, load_resource_unvalidated, validate_resource_snapshot}
use dirbase.Storage.Loading.Writing.{write_validated_resource}
use dirbase.Mutation as Change

pub data ResourceValidation : Type 0 where
  before_and_after after_only : ResourceValidation

module _ ⦃rt : Runtime⦄ ⦃fs : FileSystem⦄ where
  unfoldable pub load_for : ResourceValidation → String → Action AppState Shared
  load_for ResourceValidation.before_and_after resource = load_resource resource
  load_for ResourceValidation.after_only resource = load_resource_unvalidated resource

  -- The changed value is validated before it is written.
  unfoldable pub validate_and_write {ℓ} : {T : Type ℓ} → String → Value × T → Action AppState T
  validate_and_write resource changed = do
    validation_revision ← validate_resource_snapshot resource changed.0
    write_validated_resource resource changed.0 validation_revision
    return changed.1

  unfoldable pub update_locked_resource {ℓ} :
      {T : Type ℓ}
      → String
      → ResourceValidation
      → (Value → Result (Value × T) AppError)
      → Action AppState T
  unfolding load_for validate_and_write
  update_locked_resource resource validation update = do
    current ← load_for validation resource
    changed ← lift (update current.content)
    validate_and_write resource changed

  abbrev pub create_item : String → Value → Action AppState Value
  create_item resource payload state =
      update_locked_resource resource ResourceValidation.before_and_after
        (Change.create_item (schema_table state resource) payload) state

  abbrev pub replace_item : String → String → Value → Action AppState Value
  replace_item resource id payload state =
      update_locked_resource resource ResourceValidation.after_only
        (Change.replace_item (schema_table state resource) id payload) state

  abbrev pub patch_item : String → String → Value → Action AppState Value
  patch_item resource id payload state =
      update_locked_resource resource ResourceValidation.before_and_after
        (Change.patch_item (schema_table state resource) id payload) state

  abbrev pub delete_item : String → String → Action AppState (Unit {0})
  delete_item resource id state =
      update_locked_resource resource ResourceValidation.before_and_after
        (Change.delete_item (schema_table state resource) id) state

  abbrev pub replace_resource_object : String → Value → Action AppState Value
  replace_resource_object resource payload =
      update_locked_resource resource ResourceValidation.after_only
        (Change.replace_resource_object payload)

  abbrev pub patch_resource_object : String → Value → Action AppState Value
  patch_resource_object resource payload =
      update_locked_resource resource ResourceValidation.after_only
        (Change.patch_resource_object payload)
