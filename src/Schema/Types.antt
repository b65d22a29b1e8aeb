-- ===== src/Schema/Types.antt =====
-- src/schema/types.rs
pub mod Equal
pub mod Names
use dirbase.Prelude.{
  ℕ, String, Bool, true, false, ◌||◌, Option, none, some, List, ◌==◌, if◌then◌else◌, is_some,
  unwrap_or, and_then,
}
use dirbase.BTreeMap.{BTreeMap}
use dirbase.Json.{Json}
use dirbase.Runtime.{Runtime, Value}
use dirbase.Text.{all_chars, is_ascii_alphanumeric, is_empty}

pub data TableKind : Type 0 where
  object_table relation unknown : TableKind

pub data ColumnType : Type 0 where
  integer float boolean string json date datetime uuid big_integer decimal : ColumnType

pub record ForeignKey : Type 0 where
  pub target_table : String
  pub target_column : String

pub record ManyToManyRelation : Type 0 where
  pub through_table : String
  pub source_column : String
  pub source_target_column : String
  pub target_table : String
  pub target_column : String
  pub through_target_column : String

-- `==` of the derived `PartialEq`: the constructors are told apart by their places.
abbrev pub place : ColumnType → ℕ
place ColumnType.integer = 0
place ColumnType.float = 1
place ColumnType.boolean = 2
place ColumnType.string = 3
place ColumnType.json = 4
place ColumnType.date = 5
place ColumnType.datetime = 6
place ColumnType.uuid = 7
place ColumnType.big_integer = 8
place ColumnType.decimal = 9

abbrev pub column_type_eq : ColumnType → ColumnType → Bool
column_type_eq a b = place a == place b

abbrev pub label : ColumnType → String
label ColumnType.integer = "integer"
label ColumnType.float = "float"
label ColumnType.boolean = "boolean"
label ColumnType.string = "string"
label ColumnType.json = "json"
label ColumnType.date = "date"
label ColumnType.datetime = "datetime"
label ColumnType.uuid = "uuid"
label ColumnType.big_integer = "big_integer"
label ColumnType.decimal = "decimal"

-- The pairs that `is_compatible_with` lists.
listed_pair : ColumnType → ColumnType → Bool
listed_pair ColumnType.integer ColumnType.float = true
listed_pair ColumnType.float ColumnType.integer = true
listed_pair ColumnType.integer ColumnType.big_integer = true
listed_pair ColumnType.big_integer ColumnType.integer = true
listed_pair ColumnType.float ColumnType.big_integer = true
listed_pair ColumnType.big_integer ColumnType.float = true
listed_pair ColumnType.integer ColumnType.decimal = true
listed_pair ColumnType.decimal ColumnType.integer = true
listed_pair ColumnType.float ColumnType.decimal = true
listed_pair ColumnType.decimal ColumnType.float = true
listed_pair ColumnType.big_integer ColumnType.decimal = true
listed_pair ColumnType.decimal ColumnType.big_integer = true
listed_pair _ _ = false

unfoldable pub is_compatible_with : ColumnType → ColumnType → Bool
unfolding listed_pair
is_compatible_with a b = column_type_eq a b || listed_pair a b

abbrev pub is_string_backed : ColumnType → Bool
is_string_backed ColumnType.string = true
is_string_backed ColumnType.date = true
is_string_backed ColumnType.datetime = true
is_string_backed ColumnType.uuid = true
is_string_backed ColumnType.big_integer = true
is_string_backed ColumnType.decimal = true
is_string_backed _ = false

abbrev pub is_numeric_like : ColumnType → Bool
is_numeric_like ColumnType.integer = true
is_numeric_like ColumnType.float = true
is_numeric_like ColumnType.big_integer = true
is_numeric_like ColumnType.decimal = true
is_numeric_like _ = false

abbrev date_like : ColumnType → Bool
date_like ColumnType.date = true
date_like ColumnType.datetime = true
date_like _ = false

abbrev pub is_orderable_with_bounds : ColumnType → Bool
is_orderable_with_bounds t = is_numeric_like t || date_like t

unfoldable pub is_valid_identifier : String → Bool
is_valid_identifier name =
    if is_empty name
    then false
    else all_chars (λ c. is_ascii_alphanumeric c || c == b'_' || c == b'-') name

module _ ⦃rt : Runtime⦄ where
  pub record ColumnSchema : Type 0 where
    pub column_type : ColumnType
    pub nullable : Bool
    pub enum_values : Option (List String)
    pub min : Option Value
    pub max : Option Value
    pub min_length : Option ℕ
    pub max_length : Option ℕ
    pub pattern : Option String

  -- `ColumnSchema::new`
  abbrev pub column_schema : ColumnType → Bool → ColumnSchema
  column_schema column_type nullable = record {
    column_type = column_type;
    nullable = nullable;
    enum_values = none;
    min = none;
    max = none;
    min_length = none;
    max_length = none;
    pattern = none;
  }

  pub record TableSchema : Type 0 where
    pub kind : TableKind
    pub primary_key : Option String
    pub columns : BTreeMap ColumnSchema
    pub foreign_keys : BTreeMap ForeignKey
    pub many_to_many : BTreeMap ManyToManyRelation

  pub record Schema : Type 0 where
    pub tables : BTreeMap TableSchema

  pub record DeclaredTableSchema : Type 0 where
    pub kind : Option TableKind
    pub primary_key : Option String
    pub columns : BTreeMap ColumnSchema
    pub foreign_keys : BTreeMap ForeignKey
    pub suppressed_foreign_keys : List String
    pub unique : List (List String)

  pub record DeclaredSchema : Type 0 where
    pub tables : BTreeMap DeclaredTableSchema

  -- `ColumnType::infer_json`
  unfoldable pub infer_json : Value → Option ColumnType
  infer_json Json.null = none
  infer_json (Json.bool b) = some ColumnType.boolean
  infer_json (Json.number n) =
      if is_some (rt.number_as_i64 n)
      then some ColumnType.integer
      else if is_some (rt.number_as_u64 n)
      then some ColumnType.integer
      else some ColumnType.float
  infer_json (Json.string s) = some ColumnType.string
  infer_json (Json.array vs) = some ColumnType.json
  infer_json (Json.object fs) = some ColumnType.json

  unfoldable pub primary_key_name : Option TableSchema → String
  primary_key_name table = unwrap_or (and_then table (λ t. t.primary_key)) "id"
