-- ===== src/Schema/Types/Names.antt =====
-- The names of column types in DBML and in XSD (src/schema/types.rs).
use dirbase.Prelude.{String, Bool, false, ◌||◌, Option, none, some, List, [], ◌∷◌, if◌then◌else◌}
use dirbase.Text.{split, rsplit_once, eq_ignore_ascii_case}
use dirbase.Schema.Types.{ColumnType}

-- A lower-case name that the text is, once in lower case itself.
is_one_of : String → List String → Bool
is_one_of text [] = false
is_one_of text (name ∷ names) = eq_ignore_ascii_case text name || is_one_of text names

-- The type of the first arm that the text is in.
type_named : List (ColumnType × List String) → String → ColumnType
unfolding is_one_of
type_named [] text = ColumnType.string
type_named ((column_type, names) ∷ arms) text =
    if is_one_of text names then column_type else type_named arms text

first_part : String → List String → String
first_part raw [] = raw
first_part raw (part ∷ parts) = part

abbrev dbml_types : List (ColumnType × List String)
dbml_types =
    (ColumnType.integer, "int" ∷ "integer" ∷ "smallint" ∷ "serial" ∷ [])
    ∷ (ColumnType.big_integer, "bigint" ∷ "bigserial" ∷ [])
    ∷ (ColumnType.float, "float" ∷ "double" ∷ "real" ∷ [])
    ∷ (ColumnType.decimal, "decimal" ∷ "numeric" ∷ [])
    ∷ (ColumnType.boolean, "bool" ∷ "boolean" ∷ [])
    ∷ (ColumnType.json, "json" ∷ "jsonb" ∷ [])
    ∷ (ColumnType.date, "date" ∷ [])
    ∷ (ColumnType.datetime, "datetime" ∷ "timestamp" ∷ "timestamptz" ∷ [])
    ∷ (ColumnType.uuid, "uuid" ∷ [])
    ∷ []

abbrev xsd_types : List (ColumnType × List String)
xsd_types =
    (
      ColumnType.integer,
      "int" ∷ "integer" ∷ "short" ∷ "byte" ∷ "nonnegativeinteger" ∷ "nonpositiveinteger"
          ∷ "positiveinteger" ∷ "negativeinteger" ∷ "unsignedbyte" ∷ "unsignedshort" ∷ [],
    )
    ∷ (ColumnType.big_integer, "long" ∷ "unsignedint" ∷ "unsignedlong" ∷ [])
    ∷ (ColumnType.decimal, "decimal" ∷ [])
    ∷ (ColumnType.float, "float" ∷ "double" ∷ [])
    ∷ (ColumnType.boolean, "boolean" ∷ [])
    ∷ (ColumnType.date, "date" ∷ [])
    ∷ (ColumnType.datetime, "datetime" ∷ [])
    ∷ (
      ColumnType.string,
      "string" ∷ "normalizedstring" ∷ "token" ∷ "id" ∷ "idref" ∷ "language" ∷ "name" ∷ "ncname"
          ∷ "nmtoken" ∷ "anyuri" ∷ [],
    )
    ∷ []

unfoldable pub from_dbml_type : String → ColumnType
unfolding type_named first_part
from_dbml_type raw = type_named dbml_types (first_part raw (split b'(' raw))

local_name : String → Option (String × String) → String
local_name name none = name
local_name name (some (prefix, local)) = local

-- A name without its prefix.
normalize_qname : String → String
unfolding local_name
normalize_qname name = local_name name (rsplit_once b':' name)

unfoldable pub from_xsd_type : String → ColumnType
unfolding type_named normalize_qname
from_xsd_type raw = type_named xsd_types (normalize_qname raw)
