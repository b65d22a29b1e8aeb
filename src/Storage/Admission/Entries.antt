-- ===== src/Storage/Admission/Entries.antt =====
-- The entries of the cache and the revisions they carry.
use mathlib.Core.Option.{some-injective, none-ne-some}
use dirbase.Prelude.{
  ℕ, String, true, false, Option, none, some, ◌≡◌, refl, sym, ◌∙◌, subst, str_eq, eq_iff,
  Bool-cases, inl, inr,
}
use dirbase.BTreeMap
use dirbase.BTreeMap.{BTreeMap, get-insert, get-remove}
use dirbase.Runtime.{Runtime}
use dirbase.Schema.Types.{TableSchema}
use dirbase.App.SchemaStore.{SchemaStore}
use dirbase.App.SchemaStore.Trust.{Authorizes}
use dirbase.Storage.Cache.{Shared, CachedResource, cached_resource_from_value_at_revision}

module _ ⦃rt : Runtime⦄ where
  get-insert_at :
      (cache : BTreeMap CachedResource) (resource name : String) (cached : CachedResource)
      → str_eq resource name ≡ true
      → BTreeMap.get (BTreeMap.insert cache resource cached) name ≡ some cached
  get-insert_at cache resource name cached same =
      get-insert cache resource name cached ∙ rw same refl

  get-insert_off :
      (cache : BTreeMap CachedResource) (resource name : String) (cached : CachedResource)
      → str_eq resource name ≡ false
      → BTreeMap.get (BTreeMap.insert cache resource cached) name ≡ BTreeMap.get cache name
  get-insert_off cache resource name cached other =
      get-insert cache resource name cached ∙ rw other refl

  -- A revision that an entry carries authorizes its value.
  abbrev pub IsTrue : SchemaStore → String → CachedResource → Type 0
  IsTrue store resource cached =
      (revision : ℕ)
      → cached.validation_revision ≡ some revision
      → Authorizes store resource cached.value.content revision

  abbrev pub AllTrue : SchemaStore → BTreeMap CachedResource → Type 0
  AllTrue store cache =
      (resource : String) (cached : CachedResource)
      → BTreeMap.get cache resource ≡ some cached
      → IsTrue store resource cached

  pub insert-AllTrue :
      (store : SchemaStore) (cache : BTreeMap CachedResource) (resource : String)
      (cached : CachedResource)
      → IsTrue store resource cached
      → AllTrue store cache
      → AllTrue store (BTreeMap.insert cache resource cached)
  insert-AllTrue store cache resource cached here there name found h =
      elim (Bool-cases (str_eq resource name)) [
        | inl same ↦
            subst (IsTrue store name)
              (some-injective _ _ (sym (get-insert_at cache resource name cached same) ∙ h))
              (subst (λ n. IsTrue store n cached) ((eq_iff resource name).0 same) here)
        | inr other ↦ there name found (sym (get-insert_off cache resource name cached other) ∙ h)
      ]

  pub remove-AllTrue :
      (store : SchemaStore) (cache : BTreeMap CachedResource) (resource : String)
      → AllTrue store cache
      → AllTrue store (BTreeMap.remove cache resource)
  remove-AllTrue store cache resource all name found h = elim (Bool-cases (str_eq resource name)) [
    | inl same ↦ absurd (none-ne-some _ (sym (get-remove cache resource name ∙ rw same refl) ∙ h))
    | inr other ↦ all name found (sym (get-remove cache resource name ∙ rw other refl) ∙ h)
  ]

  -- An entry without a revision claims nothing.
  pub unvalidated-IsTrue :
      (store : SchemaStore) (resource : String) (value : Shared) (table : Option TableSchema)
      → IsTrue store resource (cached_resource_from_value_at_revision value table none)
  unfolding cached_resource_from_value_at_revision
  unvalidated-IsTrue store resource value table revision h = cc

  pub validated-IsTrue :
      (store : SchemaStore) (resource : String) (value : Shared) (table : Option TableSchema)
      (revision : ℕ)
      → Authorizes store resource value.content revision
      → IsTrue store resource (cached_resource_from_value_at_revision value table (some revision))
  unfolding cached_resource_from_value_at_revision
  validated-IsTrue store resource value table revision h other e =
      subst (Authorizes store resource value.content) (some-injective _ _ e) h

  pub or_insert-AllTrue :
      (store : SchemaStore) (cache : BTreeMap CachedResource) (resource : String)
      (cached : CachedResource)
      → IsTrue store resource cached
      → AllTrue store cache
      → AllTrue store (BTreeMap.or_insert cache resource cached)
  or_insert-AllTrue store cache resource cached here there =
      elim (Bool-cases (BTreeMap.contains_key cache resource)) [
        | inl present ↦ rw present there
        | inr absent ↦ rw absent (insert-AllTrue store cache resource cached here there)
      ]
