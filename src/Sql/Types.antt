-- ===== src/Sql/Types.antt =====
-- src/sql/types.rs
use dirbase.Prelude.{String, Option, List}
use dirbase.Runtime.{Runtime}
use dirbase.Schema.Types.{ColumnType}
use dirbase.Query.Types.{FilterCondition, SortColumn, Pagination}

pub data SqlExportDialect : Type 0 where
  postgres sqlite : SqlExportDialect

unfoldable pub type_name : SqlExportDialect → ColumnType → String
type_name _ ColumnType.integer = "INTEGER"
type_name SqlExportDialect.postgres ColumnType.big_integer = "BIGINT"
type_name SqlExportDialect.sqlite ColumnType.big_integer = "INTEGER"
type_name _ ColumnType.float = "REAL"
type_name SqlExportDialect.postgres ColumnType.decimal = "NUMERIC"
type_name SqlExportDialect.sqlite ColumnType.decimal = "TEXT"
type_name _ ColumnType.boolean = "BOOLEAN"
type_name SqlExportDialect.sqlite ColumnType.json = "TEXT"
type_name SqlExportDialect.postgres ColumnType.json = "JSONB"
type_name SqlExportDialect.postgres ColumnType.date = "DATE"
type_name SqlExportDialect.postgres ColumnType.datetime = "TIMESTAMPTZ"
type_name SqlExportDialect.postgres ColumnType.uuid = "UUID"
type_name _ _ = "TEXT"

pub record ParsedSqlProjection : Type 0 where
  pub source : String
  pub output : String

pub record ParsedSqlJoin : Type 0 where
  pub resource : String
  pub alias : String
  pub left_alias : String
  pub left_column : String
  pub right_column : String

module _ ⦃rt : Runtime⦄ where
  pub record ParsedSqlQuery : Type 0 where
    pub resource : String
    pub resource_alias : String
    pub selected_columns : Option (List ParsedSqlProjection)
    pub filters : List FilterCondition
    pub sort_columns : List SortColumn
    pub pagination : Option Pagination
    pub joins : List ParsedSqlJoin
