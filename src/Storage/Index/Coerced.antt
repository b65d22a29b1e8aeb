-- ===== src/Storage/Index/Coerced.antt =====
-- The id of a path as the value of a key.
use dirbase.Prelude.{
  String, Bool, true, Option, none, some, ◌≡◌, ap, str_eq, Bool-cases, inl, inr, if◌then◌else◌,
}
use text.Mathlib.TextPositions.{eq_refl}
use dirbase.Prelude.Int.{ℤ}
use dirbase.Runtime.{Runtime, Value}
use dirbase.Text.Decimal.{show_int, parse_i64}
use dirbase.Schema.Types.{TableSchema}
use dirbase.Storage.Index.{
  value_at, id_matches, id_value_matches, number_or_text, is_string_column, coerce_id_value,
  key_column,
}

-- The text of the integer that the id reads as is the id itself; an id that is no integer is text.
abbrev pub is_own_text : String → Option ℤ → Bool
is_own_text id none = true
is_own_text id (some z) = str_eq (show_int z) id

module _ ⦃rt : Runtime⦄ (table : Option TableSchema) (id : String) where
  abbrev pub is_kept : Bool
  is_kept = if is_string_column (key_column table) then true else is_own_text id (parse_i64 id)

  number_or_text-matches :
      ((z : ℤ) → rt.number_text (rt.number_of_i64 z) ≡ show_int z)
      → (o : Option ℤ) → id_value_matches id (number_or_text id o) ≡ is_own_text id o
  unfolding id_value_matches number_or_text
  number_or_text-matches lawful none = eq_refl id
  number_or_text-matches lawful (some z) = ap (λ t. str_eq t id) (lawful z)

  coerce_id_value-matches :
      ((z : ℤ) → rt.number_text (rt.number_of_i64 z) ≡ show_int z)
      → id_value_matches id (coerce_id_value id table) ≡ is_kept
  unfolding coerce_id_value id_value_matches
  coerce_id_value-matches lawful = elim (Bool-cases (is_string_column (key_column table))) [
    | inl text ↦ rw text (eq_refl id)
    | inr other ↦ rw other (number_or_text-matches lawful (parse_i64 id))
  ]

  -- An item whose key was set to the id of the path has that id just when the id is kept.
  pub coerced-id_matches :
      ((z : ℤ) → rt.number_text (rt.number_of_i64 z) ≡ show_int z)
      → (item : Value) (key : String) → value_at key item ≡ some (coerce_id_value id table)
      → id_matches item key id ≡ is_kept
  unfolding id_matches
  coerced-id_matches lawful item key h = rw h (coerce_id_value-matches lawful)
