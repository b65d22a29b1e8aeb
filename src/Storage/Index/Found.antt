-- ===== src/Storage/Index/Found.antt =====
-- The position that a mutation works at.
use dirbase.Prelude.{
  ℕ, suc, String, true, false, Option, none, some, List, [], ◌∷◌, ◌++◌, ◌≡◌, refl, ap, subst, All,
  Bool-cases, inl, inr, get_elem?, set, erase_idx,
}
use mathlib.Core.Option.{some-injective}
use dirbase.Runtime.{Runtime, Value}
use dirbase.Storage.Index.{id_matches, after_one, find_item_by_key, find_item_index_by_key}

after_one-some :
    (o : Option ℕ) (n : ℕ) → after_one o ≡ some n → (m : ℕ) × (o ≡ some m) × (suc m ≡ n)
after_one-some none n h = cc
after_one-some (some m) n h = (m, refl, some-injective _ _ h)

module _ ⦃rt : Runtime⦄ (key_name id : String) where
  -- No item of the list has the id.
  abbrev pub NoneMatches : List Value → Type 0
  NoneMatches = All (λ item. id_matches item key_name id ≡ false)

  -- The list around its first item with the id, which is the one at the position.
  pub record FirstMatch (items : List Value) (position : ℕ) : Type 0 where
    pub before : List Value
    pub found : Value
    pub after : List Value
    pub split : items ≡ before ++ found ∷ after
    pub matches : id_matches found key_name id ≡ true
    pub first : NoneMatches before
    pub at : get_elem? items position ≡ some found
    pub written : (v : Value) → set items position v ≡ before ++ v ∷ after
    pub erased : erase_idx items position ≡ before ++ after

  match_here :
      (item : Value) (items : List Value)
      → id_matches item key_name id ≡ true
      → FirstMatch (item ∷ items) 0
  match_here item items h = record {
    before = [];
    found = item;
    after = items;
    split = refl;
    matches = h;
    first = tt;
    at = refl;
    written = λ v. refl;
    erased = refl;
  }

  match_later :
      (item : Value) (items : List Value) (position : ℕ)
      → id_matches item key_name id ≡ false
      → FirstMatch items position
      → FirstMatch (item ∷ items) (suc position)
  match_later item items position h m = record {
    before = item ∷ m.before;
    found = m.found;
    after = m.after;
    split = ap (λ l. item ∷ l) m.split;
    matches = m.matches;
    first = (h, m.first);
    at = m.at;
    written = λ v. ap (λ l. item ∷ l) (m.written v);
    erased = ap (λ l. item ∷ l) m.erased;
  }

  pub find_item_index_by_key-FirstMatch :
      (items : List Value) (position : ℕ)
      → find_item_index_by_key items key_name id ≡ some position
      → FirstMatch items position
  unfolding find_item_index_by_key
  find_item_index_by_key-FirstMatch [] position h = cc
  find_item_index_by_key-FirstMatch (item ∷ items) position h =
      elim (Bool-cases (id_matches item key_name id)) [
        | inl here ↦
            subst (FirstMatch (item ∷ items)) (some-injective _ _ (rw here at h))
              (match_here item items here)
        | inr other ↦
            let (before, found, e) =
              after_one-some (find_item_index_by_key items key_name id) position (rw other at h) in
            subst (FirstMatch (item ∷ items)) e (
              match_later item items before other
                (find_item_index_by_key-FirstMatch items before found))
      ]

  pub find_item_by_key-append :
      (before after : List Value) (v : Value)
      → NoneMatches before
      → id_matches v key_name id ≡ true
      → find_item_by_key (before ++ v ∷ after) key_name id ≡ some v
  unfolding find_item_by_key
  find_item_by_key-append [] after v h k = rw k refl
  find_item_by_key-append (item ∷ before) after v h k =
      rw h.0 (find_item_by_key-append before after v h.1 k)

  pub find_item_by_key-none :
      (items : List Value) → NoneMatches items → find_item_by_key items key_name id ≡ none
  unfolding find_item_by_key
  find_item_by_key-none [] h = refl
  find_item_by_key-none (item ∷ items) h = rw h.0 (find_item_by_key-none items h.1)
