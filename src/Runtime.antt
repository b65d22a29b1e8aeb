-- ===== src/Runtime.antt =====
-- What the program takes from crates and from the floating-point unit, as one interface: numbers of
-- `serde_json`, `f64`, dates of `chrono`, `uuid` and `regex`, Unicode lowercase. The modules take it
-- as an instance argument; what they need of it is stated as named laws.
use dirbase.Prelude.{ℕ, String, Bool, Option, Ordering, and_then}
use dirbase.Prelude.Int.{ℤ}
use dirbase.Json.{Json, as_number}
use dirbase.Error.{Result}

pub record Runtime : Type 1 where
  -- `serde_json::Number`: `as_i64`, `as_u64`, `as_f64`, `to_string`, `Number::from(i64)`
  pub Number : Type 0
  pub Float : Type 0
  pub number_as_i64 : Number → Option ℤ
  pub number_as_u64 : Number → Option ℕ
  pub number_as_f64 : Number → Option Float
  pub number_text : Number → String
  pub number_of_i64 : ℤ → Number
  -- `==` of `serde_json::Number`
  pub number_eq : Number → Number → Bool
  -- `Value::to_string`, the JSON text of a value
  pub json_text : Json Number → String
  -- `serde_json::from_str`, `to_string_pretty`, or the texts of their errors
  pub from_str : String → Result (Json Number) String
  pub to_string_pretty : Json Number → Result String String
  -- the schema that `async_graphql` builds
  pub DynamicSchema : Type 0
  -- `f64::partial_cmp`, `parse::<f64>`
  pub float_cmp : Float → Float → Option Ordering
  pub parse_f64 : String → Option Float
  pub infinity : Float
  pub neg_infinity : Float
  -- `str::to_lowercase`
  pub to_lowercase : String → String
  -- `NaiveDate::parse_from_str(_, "%Y-%m-%d")`, `DateTime::parse_from_rfc3339`, and their orders
  pub Date : Type 0
  pub parse_date : String → Option Date
  pub date_cmp : Date → Date → Ordering
  pub Instant : Type 0
  pub parse_rfc3339 : String → Option Instant
  pub instant_cmp : Instant → Instant → Ordering
  -- the texts of the errors of the two parsers, and of `Regex::new`, if it fails
  pub date_error : String → String
  pub rfc3339_error : String → String
  pub regex_error : String → Option String
  -- `Uuid::parse_str(_).is_ok()`
  pub is_uuid : String → Bool
  -- `Regex::new(pattern)`, and then `is_match(text)`
  pub regex_is_match : String → String → Option Bool

module _ ⦃rt : Runtime⦄ where
  abbrev pub Value : Type 0
  Value = Json rt.Number

  abbrev pub as_i64 : Value → Option ℤ
  as_i64 v = and_then (as_number v) rt.number_as_i64

  abbrev pub as_u64 : Value → Option ℕ
  as_u64 v = and_then (as_number v) rt.number_as_u64

  abbrev pub as_f64 : Value → Option rt.Float
  as_f64 v = and_then (as_number v) rt.number_as_f64
