-- ===== src/Storage/Validation/Scalars.antt =====
-- src/storage/validation/types.rs
use dirbase.Prelude.{
  String, Bool, true, false, not, ◌&&◌, ◌||◌, Option, none, some, List, [], ◌∷◌, if◌then◌else◌,
  is_some, is_some_and,
}
use dirbase.Json.{Json, as_str, is_null}
use dirbase.Runtime.{Runtime, Value, as_i64, as_u64}
use dirbase.Text.{split, strip_prefix, all_chars, is_ascii_digit, is_empty}
use dirbase.Schema.Types.{ColumnType}

-- A text without one leading sign.
unsigned : String → Option String → Option String → String
unsigned text (some rest) plus = rest
unsigned text none (some rest) = rest
unsigned text none none = text

strip_sign : String → String
unfolding unsigned
strip_sign text = unsigned text (strip_prefix b'-' text) (strip_prefix b'+' text)

-- Not empty, and digits only.
digits_only : String → Bool
digits_only s = not (is_empty s) && all_chars is_ascii_digit s

unfoldable pub is_big_integer_literal : String → Bool
unfolding strip_sign digits_only
is_big_integer_literal text = digits_only (strip_sign text)

decimal_parts : List String → Bool
decimal_parts [] = false
decimal_parts (first ∷ []) = digits_only first
decimal_parts (first ∷ second ∷ []) = digits_only first && digits_only second
decimal_parts (first ∷ second ∷ third ∷ rest) = false

unfoldable pub is_decimal_literal : String → Bool
unfolding strip_sign digits_only decimal_parts
is_decimal_literal text =
    if is_empty (strip_sign text) then false else decimal_parts (split b'.' (strip_sign text))

module _ ⦃rt : Runtime⦄ where
  is_number : Value → Bool
  is_number (Json.number n) = true
  is_number _ = false

  is_boolean : Value → Bool
  is_boolean (Json.bool b) = true
  is_boolean _ = false

  type_matches : Value → ColumnType → Bool
  unfolding is_number is_boolean
  type_matches value ColumnType.integer = is_some (as_i64 value) || is_some (as_u64 value)
  type_matches value ColumnType.float = is_number value
  type_matches value ColumnType.boolean = is_boolean value
  type_matches value ColumnType.string = is_some (as_str value)
  type_matches value ColumnType.json = true
  type_matches value ColumnType.date =
      is_some_and (as_str value) (λ text. is_some (rt.parse_date text))
  type_matches value ColumnType.datetime =
      is_some_and (as_str value) (λ text. is_some (rt.parse_rfc3339 text))
  type_matches value ColumnType.uuid = is_some_and (as_str value) rt.is_uuid
  type_matches value ColumnType.big_integer =
      is_some (as_i64 value)
      || is_some (as_u64 value)
      || is_some_and (as_str value) is_big_integer_literal
  type_matches value ColumnType.decimal =
      is_number value || is_some_and (as_str value) is_decimal_literal

  unfoldable pub value_matches_type : Value → ColumnType → Bool
  unfolding type_matches
  value_matches_type value column_type =
      if is_null value then true else type_matches value column_type
