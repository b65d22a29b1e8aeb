-- ===== src/Text.antt =====
-- The methods of Rust's `str` that the program calls, over the characters of a text.
pub mod Decimal
pub mod Join
use Prim.Native.Char.{Char, code}
use Prim.Native.String
use Prim.Native.String.{◌++◌ as string_append}
use dirbase.Prelude.{
  ℕ, ◌+◌, String, Bool, true, false, ◌&&◌, ◌||◌, Option, none, some, List, [], ◌∷◌, leb, ◌==◌,
  str_eq, if◌then◌else◌,
}

-- `format!` with its parts in order.
abbrev pub format : List String → String
format [] = ""
format (s ∷ ss) = string_append s (format ss)

-- `parts.join(separator)`.
unfoldable pub join : String → List String → String
join sep [] = ""
join sep (s ∷ []) = s
join sep (s ∷ t ∷ ss) = string_append s (string_append sep (join sep (t ∷ ss)))

abbrev cons_head : Char → List String → List String
cons_head c [] = String.◌∷◌ c "" ∷ []
cons_head c (part ∷ parts) = String.◌∷◌ c part ∷ parts

-- `text.split(separator)` at a character: always at least one part.
unfoldable pub split : ℕ → String → List String
split sep String.[] = "" ∷ []
split sep (String.◌∷◌ c s) =
    let rest = split sep s in if code c == sep then "" ∷ rest else cons_head c rest

abbrev cons_left : Char → Option (String × String) → Option (String × String)
cons_left c none = none
cons_left c (some (a, b)) = some (String.◌∷◌ c a, b)

-- `text.split_once(separator)`: at the first occurrence.
unfoldable pub split_once : ℕ → String → Option (String × String)
split_once sep String.[] = none
split_once sep (String.◌∷◌ c s) =
    let rest = split_once sep s in if code c == sep then some ("", s) else cons_left c rest

abbrev or_here : Char → String → Bool → Option (String × String) → Option (String × String)
or_here c s here none = if here then some ("", s) else none
or_here c s here (some (a, b)) = some (String.◌∷◌ c a, b)

-- `text.rsplit_once(separator)`: at the last occurrence.
unfoldable pub rsplit_once : ℕ → String → Option (String × String)
rsplit_once sep String.[] = none
rsplit_once sep (String.◌∷◌ c s) = or_here c s (code c == sep) (rsplit_once sep s)

-- `text.strip_prefix(c)` at a character.
unfoldable pub strip_prefix : ℕ → String → Option String
strip_prefix p String.[] = none
strip_prefix p (String.◌∷◌ c s) = if code c == p then some s else none

abbrev cons_some : Char → Option String → Option String
cons_some c none = none
cons_some c (some s) = some (String.◌∷◌ c s)

-- `text.strip_suffix(suffix)`.
unfoldable pub strip_suffix : String → String → Option String
strip_suffix suffix String.[] = if str_eq "" suffix then some "" else none
strip_suffix suffix (String.◌∷◌ c s) =
    if str_eq (String.◌∷◌ c s) suffix then some "" else cons_some c (strip_suffix suffix s)

-- `text.starts_with(prefix)`, `text.contains(part)` and `text.ends_with(suffix)`.
unfoldable pub starts_with : String → String → Bool
starts_with s String.[] = true
starts_with String.[] (String.◌∷◌ d t) = false
starts_with (String.◌∷◌ c s) (String.◌∷◌ d t) = code c == code d && starts_with s t

unfoldable pub contains : String → String → Bool
unfolding starts_with
contains String.[] t = starts_with "" t
contains (String.◌∷◌ c s) t = starts_with (String.◌∷◌ c s) t || contains s t

unfoldable pub ends_with : String → String → Bool
ends_with String.[] t = str_eq "" t
ends_with (String.◌∷◌ c s) t = str_eq (String.◌∷◌ c s) t || ends_with s t

-- `char::is_whitespace`: the code points with the Unicode property White_Space.
is_whitespace : ℕ → Bool
is_whitespace c =
    (leb 0x9 c && leb c 0xd)
    || c == 0x20
    || c == 0x85
    || c == 0xa0
    || c == 0x1680
    || (leb 0x2000 c && leb c 0x200a)
    || c == 0x2028
    || c == 0x2029
    || c == 0x202f
    || c == 0x205f
    || c == 0x3000

trim_start : String → String
trim_start String.[] = ""
trim_start (String.◌∷◌ c s) =
    let rest = trim_start s in if is_whitespace (code c) then rest else String.◌∷◌ c s

abbrev cons_unless_blank : Char → Bool → String → String
cons_unless_blank c blank String.[] = if blank then "" else String.◌∷◌ c ""
cons_unless_blank c blank s = String.◌∷◌ c s

trim_end : String → String
trim_end String.[] = ""
trim_end (String.◌∷◌ c s) = cons_unless_blank c (is_whitespace (code c)) (trim_end s)

-- `text.trim()`.
unfoldable pub trim : String → String
unfolding is_whitespace trim_start trim_end
trim s = trim_end (trim_start s)

abbrev pub is_empty : String → Bool
is_empty String.[] = true
is_empty (String.◌∷◌ c s) = false

-- The classes of ASCII characters.
abbrev pub is_ascii_digit : ℕ → Bool
is_ascii_digit c = leb 48 c && leb c 57

abbrev pub is_ascii_alphanumeric : ℕ → Bool
is_ascii_alphanumeric c = is_ascii_digit c || (leb 65 c && leb c 90) || (leb 97 c && leb c 122)

abbrev to_ascii_lowercase : ℕ → ℕ
to_ascii_lowercase c = if leb 65 c && leb c 90 then c + 32 else c

-- `text.eq_ignore_ascii_case(other)`.
unfoldable pub eq_ignore_ascii_case : String → String → Bool
eq_ignore_ascii_case String.[] String.[] = true
eq_ignore_ascii_case (String.◌∷◌ c s) (String.◌∷◌ d t) =
    to_ascii_lowercase (code c) == to_ascii_lowercase (code d) && eq_ignore_ascii_case s t
eq_ignore_ascii_case _ _ = false

-- `text.chars().all(p)`, over code points.
unfoldable pub all_chars : (ℕ → Bool) → String → Bool
all_chars p String.[] = true
all_chars p (String.◌∷◌ c s) = p (code c) && all_chars p s
