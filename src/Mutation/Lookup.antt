-- ===== src/Mutation/Lookup.antt =====
-- What a read finds after a write.
use dirbase.Prelude.{
  String, true, Option, none, some, List, [], ◌∷◌, ◌++◌, ◌≡◌, refl, sym, ap, ◌∙◌, subst, and_then,
}
use dirbase.Prelude.Int.{ℤ}
use mathlib.Core.Option.{some-injective}
use dirbase.BTreeMap
use dirbase.BTreeMap.{get-insert_self}
use dirbase.Json.{as_array, as_object}
use dirbase.Error.{ok, err}
use dirbase.Runtime.{Runtime, Value}
use dirbase.Text.Decimal.{show_int}
use dirbase.Schema.Types.{TableSchema, primary_key_name}
use dirbase.Storage.Index.{id_matches, find_item_by_key, find_item_index_by_key, coerce_id_value}
use dirbase.Storage.Index.Coerced.{is_kept, coerced-id_matches}
use dirbase.Storage.Index.Found.{NoneMatches, find_item_by_key-append, find_item_by_key-none}
use dirbase.Storage.Index.Lookup.{IsUnique}
use dirbase.Mutation.{replace_item, patch_item, delete_item, item_missing}
use dirbase.Mutation.Outcomes.{
  Located, delete_item-Located, replace_item-Located, patch_item-Patched,
}

module _ ⦃rt : Runtime⦄ (table : Option TableSchema) (id : String) where
  abbrev found_in : Value → Option Value
  found_in value =
      and_then (as_array value) (λ items. find_item_by_key items (primary_key_name table) id)

  found_in_written :
      (value changed new : Value)
      → Located table id value changed (new ∷ [])
      → id_matches new (primary_key_name table) id ≡ true
      → found_in changed ≡ some new
  found_in_written value changed new l h =
      ap (λ o. and_then o (λ items. find_item_by_key items (primary_key_name table) id))
        l.changed_items
      ∙ find_item_by_key-append (primary_key_name table) id l.before l.after new l.first h

  -- After a patch that succeeds, a search for the id finds the patched item.
  pub patch_item-found :
      (payload value changed patched : Value)
      → patch_item table id payload value ≡ ok (changed, patched)
      → found_in changed ≡ some patched
  patch_item-found payload value changed patched h =
      let (l, p) = patch_item-Patched table id payload value changed patched h in
      found_in_written value changed patched l p.matches

  find_item_index_by_key-none :
      (items : List Value)
      → NoneMatches (primary_key_name table) id items
      → find_item_index_by_key items (primary_key_name table) id ≡ none
  unfolding find_item_index_by_key
  find_item_index_by_key-none [] h = refl
  find_item_index_by_key-none (item ∷ items) h =
      rw (h.0, find_item_index_by_key-none items h.1) refl

  unique_rest :
      (before : List Value) (old : Value) (after : List Value)
      → IsUnique (primary_key_name table) id (before ++ old ∷ after)
      → NoneMatches (primary_key_name table) id before
      → id_matches old (primary_key_name table) id ≡ true
      → NoneMatches (primary_key_name table) id (before ++ after)
  unique_rest [] old after u first h = u.0 h
  unique_rest (item ∷ before) old after u first h =
      (first.0, unique_rest before old after u.1 first.1 h)

  -- After a delete of an id that at most one item had, a search for the id finds nothing.
  pub delete_item-not_found :
      (value changed : Value) (u : Unit {0}) (items : List Value)
      → as_array value ≡ some items
      → IsUnique (primary_key_name table) id items
      → delete_item table id value ≡ ok (changed, u)
      → found_in changed ≡ none
  delete_item-not_found value changed u items is_items unique h =
      let l = delete_item-Located table id value changed u h in
      ap (λ o. and_then o (λ rest. find_item_by_key rest (primary_key_name table) id))
        l.changed_items
      ∙ find_item_by_key-none (primary_key_name table) id (l.before ++ l.after) (
          unique_rest l.before l.old l.after
            (subst (IsUnique (primary_key_name table) id)
              (some-injective _ _ (sym is_items ∙ l.value_items)) unique)
            l.first l.matches)

  -- Where the number made of an integer prints as that integer: a replaced item has the id of the path
  -- just when the key column takes text, or the id is the text of the integer that it reads as or reads
  -- as none; then a search for the id finds the replacement.
  pub replace_item-found :
      ((z : ℤ) → rt.number_text (rt.number_of_i64 z) ≡ show_int z)
      → (payload value changed replacement : Value)
      → replace_item table id payload value ≡ ok (changed, replacement)
      → (id_matches replacement (primary_key_name table) id ≡ is_kept table id)
        × (is_kept table id ≡ true → found_in changed ≡ some replacement)
  replace_item-found lawful payload value changed replacement h =
      let (l, (object, is_object, is_replacement)) =
        replace_item-Located table id payload value changed replacement h in
      let kept = coerced-id_matches table id lawful replacement (primary_key_name table) (
        ap (λ o. and_then o (λ fields. BTreeMap.get fields (primary_key_name table))) is_replacement
        ∙ get-insert_self object (primary_key_name table) (coerce_id_value id table)) in
      (kept, λ own. found_in_written value changed replacement l (kept ∙ own))

  -- When no item of the array has the id and the payload is an object, replace, patch and delete all
  -- fail with 404.
  pub absent-item_missing :
      (payload value : Value) (items : List Value) (object : BTreeMap.BTreeMap Value)
      → as_array value ≡ some items
      → as_object payload ≡ some object
      → NoneMatches (primary_key_name table) id items
      → (replace_item table id payload value ≡ err item_missing)
        × (patch_item table id payload value ≡ err item_missing)
        × (delete_item table id value ≡ err item_missing)
  unfolding replace_item patch_item delete_item
  absent-item_missing payload value items object h k none_matches =
      let absent = find_item_index_by_key-none items none_matches in
      rw (h, k, absent) (refl, refl, refl)
