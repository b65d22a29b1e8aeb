-- ===== src/Mutation/Fields.antt =====
-- The fields of an item after a write.
use dirbase.Prelude.{
  String, true, false, none, [], ◌∷◌, ◌≡◌, ◌≢◌, refl, ◌∙◌, arith, Bool-cases, inl, inr, or_else,
  str_eq, eq_iff,
}
use dirbase.BTreeMap
use dirbase.BTreeMap.{BTreeMap, get-insert, HasDistinctKeys}
use dirbase.Runtime.{Runtime, Value}
use dirbase.Mutation.{patch_fields, merge_fields}

module _ ⦃rt : Runtime⦄ where
  -- The key of the item stays.
  pub get-patch_fields_key :
      (item_key : String) (patch current : BTreeMap Value)
      → BTreeMap.get (patch_fields item_key patch current) item_key ≡ BTreeMap.get current item_key
  unfolding patch_fields
  get-patch_fields_key item_key [] current = refl
  get-patch_fields_key item_key ((key, value) ∷ patch) current =
      elim (Bool-cases (str_eq key item_key)) [
        | inl same ↦ rw same (get-patch_fields_key item_key patch current)
        | inr other ↦ rw other (
            get-patch_fields_key item_key patch (BTreeMap.insert current key value)
            ∙ simp (get-insert, other))
      ]

  absent_at :
      (m : BTreeMap Value) (key j : String)
      → str_eq key j ≡ true
      → BTreeMap.get m key ≡ none
      → BTreeMap.get m j ≡ none
  absent_at m key j same h = ground (arith, eq_iff key j)

  not_same :
      (key item_key j : String) → str_eq key item_key ≡ true → j ≢ item_key → str_eq key j ≡ false
  not_same key item_key j same h = ground (arith, eq_iff key j, eq_iff key item_key)

  -- The fields of the patch win, and the others stay.
  pub get-merge_fields :
      (patch current : BTreeMap Value) (j : String)
      → HasDistinctKeys patch
      → BTreeMap.get (merge_fields patch current) j
        ≡ or_else (BTreeMap.get patch j) (BTreeMap.get current j)
  unfolding merge_fields BTreeMap.get
  get-merge_fields [] current j h = refl
  get-merge_fields ((key, value) ∷ patch) current j h =
      get-merge_fields patch (BTreeMap.insert current key value) j h.1
      ∙ (elim (Bool-cases (str_eq key j)) [
        | inl same ↦ simp (get-insert, same, absent_at patch key j same h.0)
        | inr other ↦ simp (get-insert, other)
      ])

  -- Every other field is the patch's, or stays.
  pub get-patch_fields_other :
      (item_key : String) (patch current : BTreeMap Value) (j : String)
      → HasDistinctKeys patch
      → j ≢ item_key
      → BTreeMap.get (patch_fields item_key patch current) j
        ≡ or_else (BTreeMap.get patch j) (BTreeMap.get current j)
  unfolding patch_fields BTreeMap.get
  get-patch_fields_other item_key [] current j h k = refl
  get-patch_fields_other item_key ((key, value) ∷ patch) current j h k =
      elim (Bool-cases (str_eq key item_key)) [
        | inl skipped ↦ rw skipped (
            get-patch_fields_other item_key patch current j h.1 k
            ∙ simp (not_same key item_key j skipped k))
        | inr taken ↦ rw taken (
            get-patch_fields_other item_key patch (BTreeMap.insert current key value) j h.1 k
            ∙ (elim (Bool-cases (str_eq key j)) [
              | inl same ↦ simp (get-insert, same, absent_at patch key j same h.0)
              | inr other ↦ simp (get-insert, other)
            ]))
      ]
