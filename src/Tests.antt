-- ===== src/Tests.antt =====
-- A small runtime to evaluate the model with: every number is an integer, a date is a text of ten
-- characters, and an identifier or a pattern is any text.
pub mod Queries
pub mod Mutations
pub mod Schemas
pub mod Resources
pub mod Disk
pub mod Embeds
pub mod Inferred
pub mod Sql
pub mod States
pub mod TypeNames
use Prim.Native.String.{compare as compare_text, count}
use dirbase.Prelude.{
  ℕ, String, Bool, true, false, Option, none, some, Ordering, compare, str_eq, if◌then◌else◌, ◌==◌,
  ◌&&◌, ◌^◌, ◌-◌, [], ◌∷◌,
}
use dirbase.Prelude.Int.{ℤ, pos, negsuc, leb_ℤ}
use dirbase.Json.{Json, Fields, from_object}
use dirbase.Error.{Result, ok, err}
use dirbase.Runtime.{Runtime}
use dirbase.Text.{format}
use dirbase.Text.Decimal.{show_int, parse_i64}

unfoldable pub compare_ℤ : ℤ → ℤ → Ordering
compare_ℤ a b = if leb_ℤ a b then (if leb_ℤ b a then Ordering.eq else Ordering.lt) else Ordering.gt

abbrev natural : ℤ → Option ℕ
natural (pos n) = some n
natural (negsuc n) = none

unfoldable pub json_text : Json ℤ → String
json_text (Json.number z) = show_int z
json_text (Json.bool true) = "true"
json_text (Json.bool false) = "false"
json_text (Json.string s) = s
json_text _ = "null"

-- Texts of the values without numbers and strings, and of objects with one field that is true.
unfoldable pub pretty_text : Json ℤ → Result String String
pretty_text Json.null = ok "null"
pretty_text (Json.bool true) = ok "true"
pretty_text (Json.bool false) = ok "false"
pretty_text (Json.object (Fields.field name (Json.bool true) Fields.end)) =
    ok (format ("{\"" ∷ name ∷ "\": true}" ∷ []))
pretty_text _ = err "unsupported"

unfoldable pub parse_text : String → Result (Json ℤ) String
parse_text text =
    if str_eq text "null\n"
    then ok Json.null
    else if str_eq text "true\n"
    then ok (Json.bool true)
    else if str_eq text "false\n"
    then ok (Json.bool false)
    else if str_eq text "{}"
    then ok (from_object [])
    else if str_eq text "{\"flag\": true}\n"
    then ok (from_object (("flag", Json.bool true) ∷ []))
    else err "unsupported"

instance abbrev pub toy : Runtime
toy = record {
  Number = ℤ;
  Float = ℤ;
  number_as_i64 = some;
  number_as_u64 = natural;
  number_as_f64 = some;
  number_text = show_int;
  number_of_i64 = λ z. z;
  number_eq = λ a b. leb_ℤ a b && leb_ℤ b a;
  json_text = json_text;
  from_str = parse_text;
  to_string_pretty = pretty_text;
  DynamicSchema = Unit;
  float_cmp = λ a b. some (compare_ℤ a b);
  parse_f64 = parse_i64;
  infinity = pos (2 ^ 63 - 1);
  neg_infinity = negsuc (2 ^ 63 - 1);
  to_lowercase = λ s. s;
  Date = String;
  parse_date = λ s. if count s == 10 then some s else none;
  date_cmp = compare_text;
  Instant = String;
  parse_rfc3339 = some;
  instant_cmp = compare_text;
  date_error = λ s. "input contains invalid characters";
  rfc3339_error = λ s. "input contains invalid characters";
  regex_error = λ s. none;
  is_uuid = λ s. true;
  regex_is_match = λ pattern text. some true;
}
