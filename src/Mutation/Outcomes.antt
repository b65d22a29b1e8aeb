-- ===== src/Mutation/Outcomes.antt =====
-- What a write that succeeds has done to the array of the resource.
use dirbase.Prelude.{
  ℕ, String, true, Option, some, List, [], ◌∷◌, ◌++◌, ◌≡◌, ◌≢◌, refl, sym, ap, ◌∙◌, subst, or_else,
  set, erase_idx, and_then,
}
use dirbase.BTreeMap
use dirbase.BTreeMap.{BTreeMap, HasDistinctKeys}
use dirbase.Json.{as_array, as_object, from_array, as_array-from_array, as_object-from_object}
use dirbase.Error.{ok, >>=-eq-ok, ok_or-eq-ok, ok-injective}
use dirbase.Runtime.{Runtime, Value}
use dirbase.Schema.Types.{TableSchema, primary_key_name}
use dirbase.Storage.Index.{value_at, id_matches, find_item_index_by_key, coerce_id_value}
use dirbase.Storage.Index.Found.{NoneMatches, FirstMatch, find_item_index_by_key-FirstMatch}
use dirbase.Mutation.{replace_item, patch_item, delete_item, patch_fields}
use dirbase.Mutation.Fields.{get-patch_fields_key, get-patch_fields_other}

module _ ⦃rt : Runtime⦄ (table : Option TableSchema) (id : String) where
  -- The first item with the id made way for `items`; every other item is where it was.
  pub record Located (value changed : Value) (items : List Value) : Type 0 where
    pub before : List Value
    pub old : Value
    pub after : List Value
    pub value_items : as_array value ≡ some (before ++ old ∷ after)
    pub changed_items : as_array changed ≡ some (before ++ (items ++ after))
    pub first : NoneMatches (primary_key_name table) id before
    pub matches : id_matches old (primary_key_name table) id ≡ true

  Located-at :
      (value changed : Value) (array rest items : List Value) (position : ℕ)
      (m : FirstMatch (primary_key_name table) id array position)
      → as_array value ≡ some array
      → rest ≡ m.before ++ (items ++ m.after)
      → from_array rest ≡ changed
      → (l : Located value changed items) × (l.old ≡ m.found)
  Located-at value changed array rest items position m is_array is_rest is_changed = (
    record {
      before = m.before;
      old = m.found;
      after = m.after;
      value_items = is_array ∙ ap some m.split;
      changed_items = ap as_array (sym is_changed) ∙ as_array-from_array rest ∙ ap some is_rest;
      first = m.first;
      matches = m.matches;
    },
    refl,
  )

  Located-of :
      (value changed : Value) (array rest items : List Value) (position : ℕ)
      → as_array value ≡ some array
      → find_item_index_by_key array (primary_key_name table) id ≡ some position
      → ((m : FirstMatch (primary_key_name table) id array position)
          → rest ≡ m.before ++ (items ++ m.after))
      → from_array rest ≡ changed
      → Located value changed items
  Located-of value changed array rest items position is_array is_position is_rest is_changed =
      let m =
        find_item_index_by_key-FirstMatch (primary_key_name table) id array position is_position in
      (Located-at value changed array rest items position m is_array (is_rest m) is_changed).0

  -- A delete succeeds only by taking out the first item with the id, and nothing else.
  pub delete_item-Located :
      (value changed : Value) (u : Unit {0})
      → delete_item table id value ≡ ok (changed, u)
      → Located value changed []
  unfolding delete_item
  delete_item-Located value changed u h =
      let (array, is_array, h1) = >>=-eq-ok _ _ h in
      let (position, is_position, h2) = >>=-eq-ok _ _ h1 in
      Located-of value changed array (erase_idx array position) [] position
        (ok_or-eq-ok _ _ is_array) (ok_or-eq-ok _ _ is_position) (λ m. m.erased)
        (ap (λ r. r.0) (ok-injective h2))

  -- A replacement is the payload with the key set to the id, in the place of the first item with it.
  pub replace_item-Located :
      (payload value changed replacement : Value)
      → replace_item table id payload value ≡ ok (changed, replacement)
      → Located value changed (replacement ∷ [])
        × ((object : BTreeMap Value) × (as_object payload ≡ some object)
            × (as_object replacement
                ≡ some
                    (BTreeMap.insert object (primary_key_name table) (coerce_id_value id table))))
  unfolding replace_item
  replace_item-Located payload value changed replacement h =
      let (array, is_array, h1) = >>=-eq-ok _ _ h in
      let (object, is_object, h2) = >>=-eq-ok _ _ h1 in
      let (position, is_position, h3) = >>=-eq-ok _ _ h2 in
      (
        subst (λ v. Located value changed (v ∷ [])) (ap (λ r. r.1) (ok-injective h3))
            (Located-of value changed array (set array position _) _ position
              (ok_or-eq-ok _ _ is_array) (ok_or-eq-ok _ _ is_position) (λ m. m.written _)
              (ap (λ r. r.0) (ok-injective h3))),
        (
          object,
          ok_or-eq-ok _ _ is_object,
          ap as_object (sym (ap (λ r. r.1) (ok-injective h3))) ∙ as_object-from_object _,
        ),
      )

  -- What a patch has made of an item: the key is the old one, so that the item has the id still, and
  -- every other field is the patch's, or the old one.
  pub record Patched (payload old patched : Value) : Type 0 where
    pub patch : BTreeMap Value
    pub current : BTreeMap Value
    pub result : BTreeMap Value
    pub is_patch : as_object payload ≡ some patch
    pub is_current : as_object old ≡ some current
    pub is_result : as_object patched ≡ some result
    pub matches : id_matches patched (primary_key_name table) id ≡ true
    pub key_stays :
        BTreeMap.get result (primary_key_name table) ≡ BTreeMap.get current (primary_key_name table)
    pub others :
        (j : String)
        → HasDistinctKeys patch
        → j ≢ primary_key_name table
        → BTreeMap.get result j ≡ or_else (BTreeMap.get patch j) (BTreeMap.get current j)

  same_match :
      (old new : Value) (key : String)
      → value_at key new ≡ value_at key old
      → id_matches old key id ≡ true
      → id_matches new key id ≡ true
  unfolding id_matches
  same_match old new key same h = rw same h

  Patched-of :
      (payload old patched : Value) (patch current : BTreeMap Value)
      → as_object payload ≡ some patch
      → as_object old ≡ some current
      → as_object patched ≡ some (patch_fields (primary_key_name table) patch current)
      → id_matches old (primary_key_name table) id ≡ true
      → Patched payload old patched
  Patched-of payload old patched patch current is_patch is_current is_patched h = record {
    patch = patch;
    current = current;
    result = patch_fields (primary_key_name table) patch current;
    is_patch = is_patch;
    is_current = is_current;
    is_result = is_patched;
    matches =
        same_match old patched (primary_key_name table)
          (simp (is_patched, is_current, get-patch_fields_key)) h;
    key_stays = get-patch_fields_key (primary_key_name table) patch current;
    others = get-patch_fields_other (primary_key_name table) patch current;
  }

  -- A patch that succeeds changes the first item with the id, and nothing else: the item keeps its
  -- key, takes the other fields of the patch if no key comes twice in it, and keeps the rest.
  pub patch_item-Patched :
      (payload value changed patched : Value)
      → patch_item table id payload value ≡ ok (changed, patched)
      → (l : Located value changed (patched ∷ [])) × Patched payload l.old patched
  unfolding patch_item
  patch_item-Patched payload value changed patched h =
      let (array, is_array, h1) = >>=-eq-ok _ _ h in
      let (patch, is_patch, h2) = >>=-eq-ok _ _ h1 in
      let (position, is_position, h3) = >>=-eq-ok _ _ h2 in
      let (current, is_current, h4) = >>=-eq-ok _ _ h3 in
      let m =
        find_item_index_by_key-FirstMatch (primary_key_name table) id array position
          (ok_or-eq-ok _ _ is_position) in
      let (l, is_old) =
        Located-at value changed array (set array position _) (patched ∷ []) position m
          (ok_or-eq-ok _ _ is_array)
          (ap (set array position) (ap (λ r. r.1) (ok-injective h4)) ∙ m.written patched)
          (ap (λ r. r.0) (ok-injective h4)) in
      (
        l,
        Patched-of payload l.old patched patch current (ok_or-eq-ok _ _ is_patch)
            (ap as_object is_old
              ∙ ap (λ o. and_then o as_object) (sym m.at)
              ∙ ok_or-eq-ok _ _ is_current)
            (ap as_object (sym (ap (λ r. r.1) (ok-injective h4))) ∙ as_object-from_object _)
            l.matches,
      )
