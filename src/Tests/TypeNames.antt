-- ===== src/Tests/TypeNames.antt =====
-- Names of column types with a precision, a prefix and capitals.
use dirbase.Prelude.{◌≡◌, refl}
use dirbase.Text.{split, rsplit_once, eq_ignore_ascii_case}
use dirbase.Schema.Types.{ColumnType}
use dirbase.Schema.Types.Names.{from_dbml_type, from_xsd_type}

timestamp_with_precision : from_dbml_type "TimestampTZ(6)" ≡ ColumnType.datetime
unfolding from_dbml_type eq_ignore_ascii_case split
timestamp_with_precision = refl

prefixed_int : from_xsd_type "xs:unsignedInt" ≡ ColumnType.big_integer
unfolding from_xsd_type eq_ignore_ascii_case rsplit_once
prefixed_int = refl
