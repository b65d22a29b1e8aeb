-- ===== src/Storage/Cache.antt =====
-- src/storage/cache.rs and `CachedResource` of src/app.rs: one immutable snapshot of a resource.
pub mod Updates
use dirbase.Prelude.{ℕ, String, Option, none}
use dirbase.BTreeMap.{BTreeMap}
use dirbase.Runtime.{Runtime, Value}
use dirbase.Schema.Types.{TableSchema, primary_key_name}
use dirbase.Storage.Index.{build_id_index}

module _ ⦃rt : Runtime⦄ where
  -- `Arc<Value>`: the allocation, which `Arc::ptr_eq` compares, and the value that stands there.
  pub record Shared : Type 0 where
    pub address : ℕ
    pub content : Value

  pub record CachedResource : Type 0 where
    pub value : Shared
    pub id_index : Option (BTreeMap ℕ)
    pub primary_key : String
    pub validation_revision : Option ℕ

  unfoldable pub cached_resource_from_value_at_revision :
      Shared → Option TableSchema → Option ℕ → CachedResource
  cached_resource_from_value_at_revision value table validation_revision = record {
    value = value;
    id_index = build_id_index value.content table;
    primary_key = primary_key_name table;
    validation_revision = validation_revision;
  }

  abbrev pub cached_resource_from_value : Shared → Option TableSchema → CachedResource
  cached_resource_from_value value table = cached_resource_from_value_at_revision value table none
