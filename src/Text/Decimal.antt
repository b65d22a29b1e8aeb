-- ===== src/Text/Decimal.antt =====
-- Decimal numerals: `to_string` of integers and `parse` into `usize`, `i64` and `bool`.
use Prim.Native.Char.{Char, code}
use dirbase.Prelude.{
  ℕ, zero, suc, ◌+◌, ◌-◌, ◌*◌, ◌/◌, ◌%◌, ◌^◌, String, Bool, true, false, ◌&&◌, Option, none, some,
  ltb, leb, ◌==◌, str_eq, if◌then◌else◌, Bool-cases, inl, inr, ◌≡◌, ◌≤◌, ◌<◌, arith,
}
use dirbase.Prelude.Int.{ℤ, pos, negsuc}

abbrev digit : ℕ → Char
digit d =
    if d == 0
    then "0"
    else if d == 1
    then "1"
    else if d == 2
    then "2"
    else if d == 3
    then "3"
    else if d == 4
    then "4"
    else if d == 5
    then "5"
    else if d == 6
    then "6"
    else if d == 7
    then "7"
    else if d == 8
    then "8"
    else "9"

-- The digits of `n` before `acc`; a number has fewer digits than its own successor.
show_from : ℕ → ℕ → String → String
show_from zero n acc = acc
show_from (suc fuel) n acc =
    let more = show_from fuel (n / 10) (String.◌∷◌ (digit (n % 10)) acc) in
    if ltb n 10 then String.◌∷◌ (digit n) acc else more

-- `n.to_string()`.
unfoldable pub show_nat : ℕ → String
unfolding show_from
show_nat n = show_from (suc n) n ""

unfoldable pub show_int : ℤ → String
unfolding show_nat
show_int (pos n) = show_nat n
show_int (negsuc n) = String.◌∷◌ "-" (show_nat (suc n))

-- The value of a text of decimal digits after those read so far.
read_from : ℕ → String → Option ℕ
read_from n String.[] = some n
read_from n (String.◌∷◌ c s) =
    let rest = read_from (n * 10 + (code c - 48)) s in
    if leb 48 (code c) && leb (code c) 57 then rest else none

read_digits : String → Option ℕ
unfolding read_from
read_digits String.[] = none
read_digits s = read_from 0 s

at_most : ℕ → Option ℕ → Option ℕ
at_most bound none = none
at_most bound (some n) = if leb n bound then some n else none

-- `text.parse::<usize>()` on a 64-bit target: an optional plus sign, then digits.
unfoldable pub parse_usize : String → Option ℕ
unfolding read_digits at_most
parse_usize String.[] = none
parse_usize (String.◌∷◌ c s) =
    if code c == b'+'
    then at_most (2 ^ 64 - 1) (read_digits s)
    else at_most (2 ^ 64 - 1) (read_digits (String.◌∷◌ c s))

negated : Option ℕ → Option ℤ
negated none = none
negated (some zero) = some (pos 0)
negated (some (suc n)) = some (negsuc n)

non_negated : Option ℕ → Option ℤ
non_negated none = none
non_negated (some n) = some (pos n)

-- `text.parse::<i64>()`: an optional sign, then digits.
unfoldable pub parse_i64 : String → Option ℤ
unfolding read_digits at_most negated non_negated
parse_i64 String.[] = none
parse_i64 (String.◌∷◌ c s) =
    if code c == b'-'
    then negated (at_most (2 ^ 63) (read_digits s))
    else if code c == b'+'
    then non_negated (at_most (2 ^ 63 - 1) (read_digits s))
    else non_negated (at_most (2 ^ 63 - 1) (read_digits (String.◌∷◌ c s)))

-- `text.parse::<bool>()`.
abbrev pub parse_bool : String → Option Bool
parse_bool s = if str_eq s "true" then some true else if str_eq s "false" then some false else none

-- `b.to_string()`.
abbrev pub show_bool : Bool → String
show_bool true = "true"
show_bool false = "false"

at_most-le : (bound : ℕ) (o : Option ℕ) (n : ℕ) → at_most bound o ≡ some n → n ≤ bound
unfolding at_most
at_most-le bound none n h = cc
at_most-le bound (some m) n h = ground arith

-- A parsed `usize` fits in 64 bits.
pub parse_usize-lt : (s : String) (n : ℕ) → parse_usize s ≡ some n → n < 2 ^ 64
unfolding parse_usize
parse_usize-lt String.[] n h = cc
parse_usize-lt (String.◌∷◌ c s) n h = elim (Bool-cases (code c == b'+')) [
  | inl plus ↦ omega (arith, at_most-le (2 ^ 64 - 1) (read_digits s) n (rw plus at h))
  | inr digits ↦
      omega (arith, at_most-le (2 ^ 64 - 1) (read_digits (String.◌∷◌ c s)) n (rw digits at h))
]
