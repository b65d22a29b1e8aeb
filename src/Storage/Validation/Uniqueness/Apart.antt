-- ===== src/Storage/Validation/Uniqueness/Apart.antt =====
-- Rows have distinct keys where they have distinct values.
use mathlib.Core.Option
use mathlib.Core.Option.{some-injective}
use dirbase.Prelude.{
  ◌≤◌, String, Option, none, some, List, [], ◌∷◌, ◌≡◌, ◌≢◌, ◌⊎◌, inl, inr, ◌↔◌, refl, sym, ap,
  subst, All, map, length,
}
use dirbase.Runtime.{Runtime, Value}
use dirbase.Storage.Validation.Uniqueness.{constraint_key, primary_key_of}
use dirbase.Storage.Validation.Uniqueness.Distinct.{HasDistinct, HasDistinctPrimary}
use dirbase.Storage.Validation.Uniqueness.Parts.{
  Part, row_parts, row_part, encode, joined_key, IsSeparable, IsClean, PlainRow,
}
use dirbase.Storage.Validation.Uniqueness.Texts.{encode-injective, joined_key-injective}
use dirbase.Storage.Validation.Uniqueness.Keys.{
  constraint_key-row_parts, primary_key_of-row_part, length-row_parts,
}

abbrev GoodIf : {A : Type 0} → (A → Type 0) → Option A → Type 0
GoodIf Good none = Unit
GoodIf Good (some a) = Good a

module _ {A B : Type 0} (f : A → B) where
  keys_differ :
      (value : A) (others : List (Option A))
      → All (λ o. o ≢ some (f value)) (map (Option.map f) others)
      → All (λ o. o ≢ some value) others
  keys_differ value [] h = tt
  keys_differ value (o ∷ others) h = (λ e. h.0 (ap (Option.map f) e), keys_differ value others h.1)

  -- Values whose keys differ differ.
  HasDistinct-unmap : (os : List (Option A)) → HasDistinct (map (Option.map f) os) → HasDistinct os
  HasDistinct-unmap [] h = tt
  HasDistinct-unmap (none ∷ os) h = HasDistinct-unmap os h
  HasDistinct-unmap (some value ∷ os) h = (keys_differ value os h.0, HasDistinct-unmap os h.1)

  module _ (Good : A → Type 0) (injective : (a b : A) → Good a → Good b → f a ≡ f b → a ≡ b) where
    key_differs :
        (value : A) (o : Option A)
        → Good value
        → GoodIf Good o
        → o ≢ some value
        → Option.map f o ≢ some (f value)
    key_differs value none g k h e = cc
    key_differs value (some a) g k h e = h (ap some (injective a value k g (some-injective _ _ e)))

    values_differ :
        (value : A) (others : List (Option A))
        → Good value
        → All (GoodIf Good) others
        → All (λ o. o ≢ some value) others
        → All (λ o. o ≢ some (f value)) (map (Option.map f) others)
    values_differ value [] g k h = tt
    values_differ value (o ∷ others) g k h =
        (key_differs value o g k.0 h.0, values_differ value others g k.1 h.1)

    -- Good values that differ have keys that differ.
    HasDistinct-map :
        (os : List (Option A))
        → All (GoodIf Good) os
        → HasDistinct os
        → HasDistinct (map (Option.map f) os)
    HasDistinct-map [] g h = tt
    HasDistinct-map (none ∷ os) g h = HasDistinct-map os g.1 h
    HasDistinct-map (some value ∷ os) g h =
        (values_differ value os g.0 g.1 h.0, HasDistinct-map os g.1 h.1)

module _ {A : Type 0} {B C : Type 0} (f : B → C) (key : A → Option C) (value : A → Option B)
    (stands : (a : A) → key a ≡ Option.map f (value a)) where
  map-stands : (array : List A) → map key array ≡ map (Option.map f) (map value array)
  map-stands [] = refl
  map-stands (a ∷ array) = rw (stands a, map-stands array) refl

All-true : {A : Type 0} (P : A → Type 0) → ((a : A) → P a) → (xs : List A) → All P xs
All-true P f [] = tt
All-true P f (x ∷ xs) = (f x, All-true P f xs)

any_part : (part : Option Part) → GoodIf (λ p. Unit {0}) part
any_part none = tt
any_part (some part) = tt

module _ ⦃rt : Runtime⦄ (array : List Value) where
  -- No two rows that have values in all the columns have the same ones.
  pub HasDistinctRows : List String → Type 0
  HasDistinctRows columns = HasDistinct (map (row_parts columns) array)

  pub constraint_key-HasDistinctRows :
      (columns : List String)
      → HasDistinct (map (constraint_key columns) array)
      → HasDistinctRows columns
  unfolding HasDistinctRows
  constraint_key-HasDistinctRows columns h =
      HasDistinct-unmap joined_key (map (row_parts columns) array) (
        subst HasDistinct
          (map-stands joined_key (constraint_key columns) (row_parts columns)
            (constraint_key-row_parts columns) array)
          h)

  row-IsSeparable :
      (columns : List String) (row : Value) (parts : Option (List Part))
      → row_parts columns row ≡ parts
      → ((length columns ≤ 1) ⊎ PlainRow parts)
      → GoodIf (IsSeparable (length columns)) parts
  unfolding IsSeparable PlainRow
  row-IsSeparable columns row none e h = tt
  row-IsSeparable columns row (some parts) e h = (length-row_parts columns row parts e, h)

  rows-IsSeparable :
      (columns : List String) (rows : List Value)
      → IsClean rows columns
      → All (GoodIf (IsSeparable (length columns))) (map (row_parts columns) rows)
  unfolding IsClean
  rows-IsSeparable columns [] h = tt
  rows-IsSeparable columns (row ∷ rows) (inl few) = (
    row-IsSeparable columns row (row_parts columns row) refl (inl few),
    rows-IsSeparable columns rows (inl few),
  )
  rows-IsSeparable columns (row ∷ rows) (inr plain) = (
    row-IsSeparable columns row (row_parts columns row) refl (inr plain.0),
    rows-IsSeparable columns rows (inr plain.1),
  )

  pub HasDistinctRows-constraint_key :
      (columns : List String)
      → IsClean array columns
      → HasDistinctRows columns
      → HasDistinct (map (constraint_key columns) array)
  unfolding HasDistinctRows
  HasDistinctRows-constraint_key columns clean h =
      subst HasDistinct
        (sym (
          map-stands joined_key (constraint_key columns) (row_parts columns)
            (constraint_key-row_parts columns) array))
        (HasDistinct-map joined_key (IsSeparable (length columns))
          (λ a b. joined_key-injective (length columns) a b) (map (row_parts columns) array)
          (rows-IsSeparable columns array clean) h)

  -- No two rows have the same value under the primary key, if the table has one.
  pub HasDistinctIds : Option String → Type 0
  HasDistinctIds none = Unit
  HasDistinctIds (some column_name) = HasDistinct (map (row_part column_name) array)

  pub HasDistinctPrimary-iff :
      (key : Option String) → HasDistinctPrimary array key ↔ HasDistinctIds key
  unfolding HasDistinctIds HasDistinctPrimary
  HasDistinctPrimary-iff none = (λ h. h, λ h. h)
  HasDistinctPrimary-iff (some column_name) =
      let stands =
        map-stands encode (primary_key_of column_name) (row_part column_name)
          (primary_key_of-row_part column_name) array in
      let parts = map (row_part column_name) array in
      (
        λ h. HasDistinct-unmap encode parts (subst HasDistinct stands h),
        λ h. subst HasDistinct (sym stands) (
            HasDistinct-map encode (λ p. Unit) (λ a b x y e. encode-injective a b e) parts
              (All-true (GoodIf (λ p. Unit)) any_part parts) h),
      )
