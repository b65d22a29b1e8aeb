-- ===== src/Mutation/Objects.antt =====
-- A patch of a resource that is one object.
use dirbase.Prelude.{String, some, ◌≡◌, sym, ap, ◌∙◌, or_else}
use dirbase.BTreeMap
use dirbase.BTreeMap.{BTreeMap, HasDistinctKeys}
use dirbase.Json.{as_object, as_object-from_object}
use dirbase.Error.{ok, >>=-eq-ok, ok_or-eq-ok, ok-injective}
use dirbase.Runtime.{Runtime, Value}
use dirbase.Mutation.{merge_fields, patch_resource_object}
use dirbase.Mutation.Fields.{get-merge_fields}

module _ ⦃rt : Runtime⦄ where
  -- The object has the fields of the patch, and its own others.
  pub record Merged (payload value changed : Value) : Type 0 where
    pub patch : BTreeMap Value
    pub current : BTreeMap Value
    pub result : BTreeMap Value
    pub is_patch : as_object payload ≡ some patch
    pub is_current : as_object value ≡ some current
    pub is_result : as_object changed ≡ some result
    pub fields :
        (j : String)
        → HasDistinctKeys patch
        → BTreeMap.get result j ≡ or_else (BTreeMap.get patch j) (BTreeMap.get current j)

  -- A patch of a whole resource that succeeds answers with the changed resource, which has the fields
  -- of the patch, if no key comes twice in it, and the other fields as they were.
  pub patch_resource_object-Merged :
      (payload value changed answer : Value)
      → patch_resource_object payload value ≡ ok (changed, answer)
      → (answer ≡ changed) × Merged payload value changed
  unfolding patch_resource_object
  patch_resource_object-Merged payload value changed answer h =
      let (current, is_current, h1) = >>=-eq-ok _ _ h in
      let (patch, is_patch, h2) = >>=-eq-ok _ _ h1 in
      let is_changed = ap (λ r. r.0) (ok-injective h2) in
      (
        sym (ap (λ r. r.1) (ok-injective h2)) ∙ is_changed,
        record {
          patch = patch;
          current = current;
          result = merge_fields patch current;
          is_patch = ok_or-eq-ok _ _ is_patch;
          is_current = ok_or-eq-ok _ _ is_current;
          is_result = ap as_object (sym is_changed) ∙ as_object-from_object _;
          fields = get-merge_fields patch current;
        },
      )
