-- ===== src/Sql/Export/Quotes.antt =====
-- The string literals of src/sql/export.rs, as SQL reads them.
use Prim.Native.Char.{Char, code}
use Prim.Native.String.{◌++◌ as string_append}
use dirbase.Prelude.{
  String, Bool, true, false, Option, none, some, ◌==◌, ◌≡◌, refl, ap, ◌∙◌, Bool-cases, inl, inr,
  if◌then◌else◌,
}
use text.Mathlib.TextLemmas.{cons-append, nil-append}
use dirbase.Sql.Export.{double_quotes, quote_sql_string}

abbrev cons_some : Char → Option String → Option String
cons_some c none = none
cons_some c (some s) = some (String.◌∷◌ c s)

-- A literal after its opening quote, and whether the last character was a quote that is not yet known
-- to close it or to be the first of two, which stand for one.
unfoldable pub read_literal : Bool → String → Option String
read_literal false String.[] = none
read_literal true String.[] = some ""
read_literal false (String.◌∷◌ c s) =
    let quoted = read_literal true s in
    let plain = cons_some c (read_literal false s) in if code c == b'\'' then quoted else plain
read_literal true (String.◌∷◌ c s) =
    let rest = cons_some c (read_literal false s) in if code c == b'\'' then rest else none

-- A text that starts with a quote, as a literal that ends where the text ends.
unfoldable pub read_sql_string : String → Option String
unfolding read_literal
read_sql_string String.[] = none
read_sql_string (String.◌∷◌ c s) =
    let rest = read_literal false s in if code c == b'\'' then rest else none

read_quote :
    (c : Char) (s : String)
    → code c == b'\'' ≡ true
    → read_literal false (String.◌∷◌ c (String.◌∷◌ c s)) ≡ cons_some c (read_literal false s)
unfolding read_literal
read_quote c s quote = rw quote refl

read_other :
    (c : Char) (s : String)
    → code c == b'\'' ≡ false
    → read_literal false (String.◌∷◌ c s) ≡ cons_some c (read_literal false s)
unfolding read_literal
read_other c s other = rw other refl

read_literal-double_quotes :
    (s : String) → read_literal false (string_append (double_quotes s) "'") ≡ some s
unfolding double_quotes read_literal
read_literal-double_quotes String.[] = refl
read_literal-double_quotes (String.◌∷◌ c s) =
    let rest = string_append (double_quotes s) "'" in
    elim (Bool-cases (code c == b'\'')) [
      | inl quote ↦ rw quote (
          ap (read_literal false) (
            cons-append c (String.◌∷◌ c (double_quotes s)) "'"
            ∙ ap (String.◌∷◌ c) (cons-append c (double_quotes s) "'"))
          ∙ read_quote c rest quote
          ∙ ap (cons_some c) (read_literal-double_quotes s))
      | inr other ↦ rw other (
          ap (read_literal false) (cons-append c (double_quotes s) "'")
          ∙ read_other c rest other
          ∙ ap (cons_some c) (read_literal-double_quotes s))
    ]

-- A quoted text is one literal of SQL, which ends at its last character and stands for the text: no
-- text closes the literal early.
pub read_sql_string-quote : (input : String) → read_sql_string (quote_sql_string input) ≡ some input
unfolding read_sql_string quote_sql_string
read_sql_string-quote input =
    let rest = string_append (double_quotes input) "'" in
    ap read_sql_string (cons-append "'" "" rest ∙ ap (String.◌∷◌ "'") (nil-append rest))
    ∙ read_literal-double_quotes input
