-- ===== src/Storage/Index/Lookup.antt =====
-- The index of ids against the scan for an id.
use dirbase.Prelude.{
  ℕ, suc, ◌+◌, String, Bool, true, false, Option, none, some, List, [], ◌∷◌, arith, ◌≡◌, ◌≢◌, refl,
  ap, sym, ◌∙◌, All, Bool-cases, inl, inr, if◌then◌else◌, and_then, is_some_and, get_elem?,
}
use dirbase.BTreeMap
use dirbase.BTreeMap.{BTreeMap, get-insert}
use mathlib.Core.Bool.{true≢false}
use dirbase.Json.{Json, as_array}
use dirbase.Schema.Types.{TableSchema, primary_key_name}
use dirbase.Runtime.{Runtime, Value}
use dirbase.Storage.Index.{
  value_at, id_value_matches, id_matches, insert_id, index_items, is_supported_id, build_id_index,
  find_item_by_key, then_some,
}

module _ ⦃rt : Runtime⦄ (key_name id : String) where
  -- The position of the last item with the id, counted from `position`, or `before` if there is none.
  pub last_match : List Value → ℕ → Option ℕ → Option ℕ
  last_match [] position before = before
  last_match (item ∷ items) position before =
      last_match items (suc position)
        (if id_matches item key_name id then some position else before)

  insert_id-get :
      (index : BTreeMap ℕ) (position : ℕ) (v : Option Value)
      → BTreeMap.get (insert_id index position v) id
        ≡ (if is_some_and v (id_value_matches id) then some position else BTreeMap.get index id)
  unfolding insert_id id_value_matches
  insert_id-get index position none = refl
  insert_id-get index position (some (Json.number n)) =
      get-insert index (rt.number_text n) id position
  insert_id-get index position (some (Json.string s)) = get-insert index s id position
  insert_id-get index position (some (Json.bool b)) = get-insert index _ id position
  insert_id-get index position (some Json.null) = refl
  insert_id-get index position (some (Json.array vs)) = refl
  insert_id-get index position (some (Json.object fs)) = refl

  index_items-get :
      (items : List Value) (position : ℕ) (index : BTreeMap ℕ) (seen : Bool)
      → BTreeMap.get (index_items items key_name position index seen).0 id
        ≡ last_match items position (BTreeMap.get index id)
  unfolding index_items last_match id_matches
  index_items-get [] position index seen = refl
  index_items-get (item ∷ items) position index seen =
      index_items-get items (suc position) (insert_id index position (value_at key_name item)) _
      ∙ ap (last_match items (suc position)) (insert_id-get index position (value_at key_name item))

  -- The last item with the id, or `before` if there is none.
  abbrev pub last_item : List Value → Option Value → Option Value
  last_item [] before = before
  last_item (item ∷ items) before =
      last_item items (if id_matches item key_name id then some item else before)

  last_match-item :
      (every items : List Value) (position : ℕ) (before : Option ℕ)
      → ((i : ℕ) → get_elem? every (position + i) ≡ get_elem? items i)
      → and_then (last_match items position before) (get_elem? every)
        ≡ last_item items (and_then before (get_elem? every))
  unfolding last_match
  last_match-item every [] position before h = refl
  last_match-item every (item ∷ items) position before h =
      last_match-item every items (suc position) _
        (λ i. ap (get_elem? every) (omega arith) ∙ h (suc i))
      ∙ ap (last_item items) (here (id_matches item key_name id))
    where
      here :
          (b : Bool)
          → and_then (if b then some position else before) (get_elem? every)
            ≡ (if b then some item else and_then before (get_elem? every))
      here true = ap (get_elem? every) (omega arith) ∙ h 0
      here false = refl

  supported_of_match :
      (v : Option Value) → is_supported_id v ≡ false → is_some_and v (id_value_matches id) ≡ false
  unfolding is_supported_id id_value_matches
  supported_of_match none h = refl
  supported_of_match (some (Json.number n)) h = cc
  supported_of_match (some (Json.string s)) h = cc
  supported_of_match (some (Json.bool b)) h = cc
  supported_of_match (some Json.null) h = refl
  supported_of_match (some (Json.array vs)) h = refl
  supported_of_match (some (Json.object fs)) h = refl

  seen_stays :
      (items : List Value) (position : ℕ) (index : BTreeMap ℕ)
      → (index_items items key_name position index true).1 ≡ true
  unfolding index_items
  seen_stays [] position index = refl
  seen_stays (item ∷ items) position index = seen_stays items (suc position) _

  -- Without any supported id no item matches.
  last_match_of_unseen :
      (items : List Value) (position : ℕ) (index : BTreeMap ℕ) (before : Option ℕ)
      → (index_items items key_name position index false).1 ≡ false
      → last_match items position before ≡ before
  unfolding index_items last_match id_matches
  last_match_of_unseen [] position index before h = refl
  last_match_of_unseen (item ∷ items) position index before h =
      elim (Bool-cases (is_supported_id (value_at key_name item))) [
        | inl supported ↦ absurd (
            true≢false (sym (seen_stays items (suc position) _) ∙ rw (supported, index_items) at h))
        | inr unsupported ↦ rw (supported_of_match (value_at key_name item) unsupported) (
            last_match_of_unseen items (suc position) _ before (rw (unsupported, index_items) at h))
      ]

  -- The index has the position of the last item with the id, and no entry when there is none.
  pub build_id_index-lookup :
      (value : Value) (items : List Value) (table : Option TableSchema)
      → as_array value ≡ some items
      → primary_key_name table ≡ key_name
      → and_then (build_id_index value table) (λ index. BTreeMap.get index id)
        ≡ last_match items 0 none
  unfolding build_id_index then_some BTreeMap.get
  build_id_index-lookup value items table h k =
      rw (h, k)
        (elim (Bool-cases (index_items items key_name 0 [] false).1) [
          | inl seen ↦ rw seen (index_items-get items 0 [] false)
          | inr unseen ↦ rw unseen (sym (last_match_of_unseen items 0 [] none unseen))
        ])

  last_match-ne-none :
      (items : List Value) (position before : ℕ) → last_match items position (some before) ≢ none
  unfolding last_match
  last_match-ne-none [] position before h = cc
  last_match-ne-none (item ∷ items) position before h =
      elim (Bool-cases (id_matches item key_name id)) [
        | inl here ↦ last_match-ne-none items (suc position) position (rw here at h)
        | inr other ↦ last_match-ne-none items (suc position) before (rw other at h)
      ]

  pub find_none_of_last_match :
      (items : List Value) (position : ℕ)
      → last_match items position none ≡ none
      → find_item_by_key items key_name id ≡ none
  unfolding last_match find_item_by_key
  find_none_of_last_match [] position h = refl
  find_none_of_last_match (item ∷ items) position h =
      elim (Bool-cases (id_matches item key_name id)) [
        | inl here ↦ absurd (last_match-ne-none items (suc position) position (rw here at h))
        | inr other ↦ rw other (find_none_of_last_match items (suc position) (rw other at h))
      ]

  pub last_match-item_zero :
      (items : List Value)
      → and_then (last_match items 0 none) (get_elem? items) ≡ last_item items none
  last_match-item_zero items =
      last_match-item items items 0 none (λ i. ap (get_elem? items) (omega arith))

  -- When no later item matches, the last match is the one at hand.
  last_item_of_unmatched :
      (items : List Value) (before : Option Value)
      → All (λ item. id_matches item key_name id ≡ false) items
      → last_item items before ≡ before
  last_item_of_unmatched [] before h = refl
  last_item_of_unmatched (item ∷ items) before h = rw h.0 (last_item_of_unmatched items before h.1)

  -- At most one item has the id.
  abbrev pub IsUnique : List Value → Type 0
  IsUnique [] = Unit
  IsUnique (item ∷ items) =
      (id_matches item key_name id ≡ true
        → All (λ other. id_matches other key_name id ≡ false) items)
      × IsUnique items

  pub last_item-find :
      (items : List Value)
      → IsUnique items
      → last_item items none ≡ find_item_by_key items key_name id
  unfolding find_item_by_key
  last_item-find [] u = refl
  last_item-find (item ∷ items) u = elim (Bool-cases (id_matches item key_name id)) [
    | inl here ↦ rw here (last_item_of_unmatched items (some item) (u.0 here))
    | inr other ↦ rw other (last_item-find items u.1)
  ]
