-- ===== src/Http/Embed.antt =====
-- src/relations.rs and src/http/embed.rs: related rows in place of the ids that refer to them.
pub mod Locks
pub mod Related
use dirbase.Prelude.{
  String, Bool, true, false, ◌||◌, Option, none, some, List, [], ◌∷◌, if◌then◌else◌, unwrap_or,
  and_then,
}
use dirbase.BTreeMap
use dirbase.BTreeMap.{BTreeMap}
use dirbase.Json.{Json, as_array, as_object, from_array, from_object, is_object, is_null}
use dirbase.Error.{AppError, app_error, bad_request, Result, ok, err, ok_or}
use dirbase.Runtime.{Runtime, Value}
use dirbase.Text.{format}
use dirbase.Schema.Types.{ForeignKey, TableSchema}
use dirbase.Query.Evaluator.{value_to_filter_string}
use dirbase.App.FileSystem.{FileSystem}
use dirbase.App.Action.{Action, return, lift, ◌>>=◌, ◌>>◌}
use dirbase.App.State.{AppState, schema_table}
use dirbase.Storage.Cache.{Shared}
use dirbase.Storage.Loading.{load_resource_unvalidated}

abbrev pub no_metadata : AppError
no_metadata =
    app_error bad_request "Embedding requires schema metadata with foreign key definitions"

abbrev pub not_embeddable : String → String → AppError
not_embeddable embed resource =
    app_error bad_request
      (format ("Cannot embed '" ∷ embed ∷ "' for resource '" ∷ resource ∷ "'" ∷ []))

abbrev embedded_not_array : String → AppError
embedded_not_array table =
    app_error bad_request (format ("Embedded resource '" ∷ table ∷ "' is not a JSON array" ∷ []))

module _ ⦃rt : Runtime⦄ where
  -- A row without the column is left out.
  unfoldable pub add_key : Option Value → Value → BTreeMap Value → BTreeMap Value
  add_key none item lookup = lookup
  add_key (some key) item lookup = BTreeMap.insert lookup (value_to_filter_string key) item

  unfoldable pub key_of : String → Value → Option Value
  key_of target_column item =
      and_then (as_object item) (λ object. BTreeMap.get object target_column)

  unfoldable pub add_rows : List Value → String → BTreeMap Value → BTreeMap Value
  unfolding add_key key_of
  add_rows [] target_column lookup = lookup
  add_rows (item ∷ items) target_column lookup =
      add_rows items target_column (add_key (key_of target_column item) item lookup)

  unfoldable pub build_relation_lookup : List Value → String → BTreeMap Value
  unfolding add_rows
  build_relation_lookup target_items target_column = add_rows target_items target_column []

  unfoldable pub row_for : Option Value → BTreeMap Value → Option Value
  row_for none lookup = none
  row_for (some current_value) lookup =
      if is_object current_value || is_null current_value
      then none
      else BTreeMap.get lookup (value_to_filter_string current_value)

  unfoldable pub resolve_related_row_in_lookup :
      BTreeMap Value → String → BTreeMap Value → Option Value
  unfolding row_for
  resolve_related_row_in_lookup source_object source_column lookup =
      row_for (BTreeMap.get source_object source_column) lookup

  -- One round of the inner loop; an item that is no object stays as it is.
  unfoldable pub embed_object : String → BTreeMap Value → Value → Option (BTreeMap Value) → Value
  embed_object embed lookup item none = item
  embed_object embed lookup item (some object) = from_object (
      BTreeMap.insert object embed
        (unwrap_or (resolve_related_row_in_lookup object embed lookup) Json.null))

  unfoldable pub embed_item : String → BTreeMap Value → Value → Value
  unfolding embed_object
  embed_item embed lookup item = embed_object embed lookup item (as_object item)

  embed_items : String → BTreeMap Value → List Value → List Value
  embed_items embed lookup [] = []
  embed_items embed lookup (item ∷ items) =
      embed_item embed lookup item ∷ embed_items embed lookup items

  module _ ⦃fs : FileSystem⦄ where
    -- A target is loaded once; afterwards it is at hand.
    load_target :
        String → BTreeMap Shared → Option Shared → Action AppState (BTreeMap Shared × Shared)
    load_target table targets (some shared) = return (targets, shared)
    load_target table targets none = do
      shared ← load_resource_unvalidated table
      return (BTreeMap.insert targets table shared, shared)

    embed_each :
        String
        → TableSchema
        → List String
        → BTreeMap Shared
        → List Value
        → Action AppState (List Value)
    unfolding load_target embed_items
    embed_each resource table [] targets items = return items
    embed_each resource table (embed ∷ embeds) targets items = do
      fk ← lift (ok_or (BTreeMap.get table.foreign_keys embed) (not_embeddable embed resource))
      loaded ← load_target fk.target_table targets (BTreeMap.get targets fk.target_table)
      target_items ← lift (ok_or (as_array loaded.1.content) (embedded_not_array fk.target_table))
      embed_each resource table embeds loaded.0
          (embed_items embed (build_relation_lookup target_items fk.target_column) items)

    unfoldable pub embed_collection_data : String → Value → List String → Action AppState Value
    unfolding embed_each
    embed_collection_data resource value embeds = do
      table ← λ state. (state, ok_or (schema_table state resource) no_metadata)
      items ← lift (ok_or (as_array value) (app_error bad_request "Resource is not a JSON array"))
      embedded_items ← embed_each resource table embeds [] items
      return (from_array embedded_items)
