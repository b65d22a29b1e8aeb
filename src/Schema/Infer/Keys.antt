-- ===== src/Schema/Infer/Keys.antt =====
-- The primary key that is inferred.
use dirbase.Prelude.{
  String, true, false, Option, none, some, List, [], ◌∷◌, ◌≡◌, ◌≢◌, ◌↔◌, ◌⊎◌, inl, inr, refl, sym,
  subst, ◌∙◌, All, Bool-cases, map, is_some,
}
use mathlib.Core.Bool.{true≢false, false≢true}
use mathlib.Core.Option.{some-injective}
use dirbase.Runtime.{Runtime, Value}
use dirbase.Text.{format}
use dirbase.Schema.Relations.{contains_name, singularize_table_name}
use dirbase.Schema.Infer.{key_in, unique_keys, is_unique_scalar_column, find_key, infer_primary_key}
use dirbase.Storage.Validation.Uniqueness.Distinct.{HasDistinct, NewTo, NewTo-cons, NewTo-nil}

none-ne-some : {a : String} → ◌≢◌ {A = Option String} none (some a)
none-ne-some e = cc

-- Every row has a key there, which a text, a number and a Boolean give, and no two rows the same one.
abbrev pub IsKey : List (Option String) → Type 0
IsKey keys = All (λ key. is_some key ≡ true) keys × HasDistinct keys

module _ ⦃rt : Runtime⦄ where
  unique_keys_iff :
      (keys : List (Option String)) (seen : List String)
      → unique_keys keys seen true ≡ true ↔ (NewTo seen keys × IsKey keys)
  unfolding unique_keys
  unique_keys_iff [] seen = (λ h. (tt, (tt, tt)), λ h. refl)
  unique_keys_iff (none ∷ keys) seen =
      (λ h. absurd (false≢true h), λ h. absurd (false≢true h.1.0.0))
  unique_keys_iff (some key ∷ keys) seen = elim (Bool-cases (contains_name seen key)) [
    | inl old ↦ (λ h. absurd (false≢true (rw old at h)), λ h. absurd (true≢false (sym old ∙ h.0.0)))
    | inr new ↦ (
      λ h.
          let (fresh, (scalars, distinct)) = (unique_keys_iff keys (key ∷ seen)).0 (rw new at h) in
          let (others, rest) = (NewTo-cons seen key keys).0 fresh in
          ((new, rest), ((refl, scalars), (others, distinct))),
      λ h. rw new (
          (unique_keys_iff keys (key ∷ seen)).1
            ((NewTo-cons seen key keys).1 (h.1.1.0, h.0.1), (h.1.0.1, h.1.1.1))),
    )
  ]

  -- The first row settles that there is one.
  any_row :
      (key : Option String) (keys : List (Option String))
      → unique_keys (key ∷ keys) [] false ≡ unique_keys (key ∷ keys) [] true
  unfolding unique_keys
  any_row none keys = refl
  any_row (some key) keys = refl

  -- A column is taken for a key exactly when there is a row, every row has a scalar there, and no two
  -- rows have the same one.
  pub is_unique_scalar_column_iff :
      (rows : List Value) (column_name : String)
      → is_unique_scalar_column rows column_name ≡ true
        ↔ ((rows ≢ []) × IsKey (map (key_in column_name) rows))
  unfolding is_unique_scalar_column unique_keys
  is_unique_scalar_column_iff [] column_name = (λ h. absurd (false≢true h), λ h. absurd (h.0 refl))
  is_unique_scalar_column_iff (row ∷ rows) column_name =
      let keys = map (key_in column_name) rows in
      let same = any_row (key_in column_name row) keys in
      let f = unique_keys_iff (key_in column_name row ∷ keys) [] in
      (
        λ h. (λ e. cc, (f.0 (sym same ∙ h)).1),
        λ h. same ∙ f.1 (NewTo-nil (key_in column_name row ∷ keys), h.1),
      )

  chosen :
      {P : Type 0} (rows : List Value) (key candidate : String)
      → candidate ≡ key
      → is_unique_scalar_column rows candidate ≡ true
      → (key ≡ candidate → P)
      → (rows ≢ []) × IsKey (map (key_in key) rows) × P
  chosen rows key candidate e h p =
      let (filled, is_key) = (is_unique_scalar_column_iff rows candidate).0 h in
      (filled, subst (λ k. IsKey (map (key_in k) rows)) e is_key, p (sym e))

  -- A primary key that is inferred is `id`, or the name of the table, or of its singular, with `_id`;
  -- there is a row, every row is an object with a text, a number or a Boolean there, and no two rows
  -- have there a value of the same kind with the same text.
  pub infer_primary_key-IsKey :
      (table_name : String) (rows : List Value) (key : String)
      → infer_primary_key table_name rows ≡ some key
      → (rows ≢ [])
        × IsKey (map (key_in key) rows)
        × ((key ≡ "id")
            ⊎ ((key ≡ format (singularize_table_name table_name ∷ "_id" ∷ []))
                ⊎ (key ≡ format (table_name ∷ "_id" ∷ []))))
  unfolding infer_primary_key find_key
  infer_primary_key-IsKey table_name rows key h =
      elim (Bool-cases (is_unique_scalar_column rows "id")) [
        | inl first ↦ chosen rows key "id" (some-injective _ _ (rw first at h)) first (λ e. inl e)
        | inr not_first ↦
            elim (Bool-cases (
              is_unique_scalar_column rows
                (format (singularize_table_name table_name ∷ "_id" ∷ [])))) [
                  | inl second ↦
                      chosen rows key _ (some-injective _ _ (rw (not_first, second) at h)) second
                        (λ e. inr (inl e))
                  | inr not_second ↦
                      elim (Bool-cases
                        (is_unique_scalar_column rows (format (table_name ∷ "_id" ∷ [])))) [
                          | inl third ↦
                              chosen rows key _
                                (some-injective _ _ (rw (not_first, not_second, third) at h)) third
                                (λ e. inr (inr e))
                          | inr not_third ↦
                              absurd (none-ne-some (rw (not_first, not_second, not_third) at h))
                        ]
                ]
      ]
