-- ===== src/Tests/Sql.antt =====
-- A join of two small tables, and a quoted text.
use dirbase.Prelude.{some, List, [], ◌∷◌, ◌≡◌}
use dirbase.Prelude.Int.{ℤ, pos}
use dirbase.BTreeMap.{BTreeMap}
use dirbase.Json.{Json, from_object}
use dirbase.Sql.Types.{ParsedSqlJoin}
use dirbase.Sql.Executor.{join_rows}
use dirbase.Sql.Executor.Joins.{nested_loop, join_rows-nested_loop}
use dirbase.Sql.Export.{quote_sql_string}
use dirbase.Sql.Export.Quotes.{read_sql_string, read_sql_string-quote}
use dirbase.Tests.{toy}

abbrev user : ℤ → BTreeMap (Json ℤ)
user id = ("id", Json.number id) ∷ []

abbrev post : ℤ → BTreeMap (Json ℤ)
post author = ("author", Json.number author) ∷ []

abbrev by_author : ParsedSqlJoin
by_author = record {
  resource = "posts";
  alias = "p";
  left_alias = "u";
  left_column = "id";
  right_column = "author";
}

abbrev targets : List (BTreeMap (Json ℤ))
targets = post (pos 2) ∷ post (pos 1) ∷ post (pos 2) ∷ []

abbrev users : List (Json ℤ)
users =
    from_object (("u", from_object (user (pos 2))) ∷ [])
    ∷ from_object (("u", from_object (user (pos 3))) ∷ [])
    ∷ []

join_rows-nested_loop_example :
    join_rows by_author targets users ≡ nested_loop by_author targets users
join_rows-nested_loop_example = join_rows-nested_loop by_author targets users

read_sql_string-quote_example : read_sql_string (quote_sql_string "it's") ≡ some "it's"
read_sql_string-quote_example = read_sql_string-quote "it's"
