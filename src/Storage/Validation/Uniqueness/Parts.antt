-- ===== src/Storage/Validation/Uniqueness/Parts.antt =====
-- The values that uniqueness is about, without the texts that the code compares in their place.
use dirbase.Prelude.{
  ℕ, ◌≤◌, String, Bool, Option, none, some, List, [], ◌∷◌, ◌≡◌, ◌⊎◌, All, map, and_then, length,
  true,
}
use dirbase.BTreeMap
use dirbase.BTreeMap.{BTreeMap}
use dirbase.Json.{Json, as_object}
use dirbase.Runtime.{Runtime, Value}
use dirbase.Text.{format, join}
use dirbase.Text.Decimal.{show_bool}
use dirbase.Text.Join.{lacks}

-- A value that is not null, up to the text that a number prints as, and an array or an object.
pub data Part : Type 0 where
  string number json : String → Part
  boolean : Bool → Part

module _ ⦃rt : Runtime⦄ where
  unfoldable pub part_of : Value → Option Part
  part_of Json.null = none
  part_of (Json.string s) = some (Part.string s)
  part_of (Json.number n) = some (Part.number (rt.number_text n))
  part_of (Json.bool b) = some (Part.boolean b)
  part_of (Json.array vs) = some (Part.json (rt.json_text (Json.array vs)))
  part_of (Json.object fs) = some (Part.json (rt.json_text (Json.object fs)))

  unfoldable pub part_at : BTreeMap Value → String → Option Part
  unfolding part_of
  part_at object column_name = and_then (BTreeMap.get object column_name) part_of

  abbrev pub with_part : Option Part → Option (List Part) → Option (List Part)
  with_part (some part) (some parts) = some (part ∷ parts)
  with_part _ _ = none

  unfoldable pub parts_at : List String → BTreeMap Value → Option (List Part)
  unfolding part_at
  parts_at [] object = some []
  parts_at (column_name ∷ columns) object =
      with_part (part_at object column_name) (parts_at columns object)

  -- The values of a row in the columns, if the row is an object that has them all, none of them null.
  unfoldable pub row_parts : List String → Value → Option (List Part)
  unfolding parts_at
  row_parts columns row = and_then (as_object row) (parts_at columns)

  unfoldable pub row_part : String → Value → Option Part
  unfolding part_at
  row_part column_name row = and_then (as_object row) (λ object. part_at object column_name)

-- The text of a value, and the letter before it.
unfoldable pub encode : Part → String
encode (Part.string s) = format ("s:" ∷ s ∷ [])
encode (Part.number s) = format ("n:" ∷ s ∷ [])
encode (Part.json s) = format ("j:" ∷ s ∷ [])
encode (Part.boolean b) = format ("b:" ∷ show_bool b ∷ [])

-- The text that stands for a value in the code does not have the separator U+001F.
unfoldable pub IsPlain : Part → Type 0
unfolding encode
IsPlain p = lacks 31 (encode p) ≡ true

-- What joining needs: at most one value, or values whose texts do not have the separator.
unfoldable pub IsSeparable : ℕ → List Part → Type 0
IsSeparable count parts = (length parts ≡ count) × ((count ≤ 1) ⊎ All IsPlain parts)

unfoldable pub joined_key : List Part → String
unfolding encode
joined_key parts = join "\u{1f}" (map encode parts)

module _ ⦃rt : Runtime⦄ where
  unfoldable pub PlainRow : Option (List Part) → Type 0
  PlainRow none = Unit
  PlainRow (some parts) = All IsPlain parts

  -- The constraint has at most one column, or no row has the separator in the text of a value.
  unfoldable pub IsClean : List Value → List String → Type 0
  unfolding PlainRow
  IsClean array columns = (length columns ≤ 1) ⊎ All (λ row. PlainRow (row_parts columns row)) array
