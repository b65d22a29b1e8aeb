-- ===== src/Text/Join.antt =====
-- A joined text is split into its parts again, when no part has the separator.
use Prim.Native.Char.{code}
use Prim.Native.String.{◌++◌ as string_append}
use text.Mathlib.TextLemmas.{cons-append, nil-append}
use dirbase.Prelude.{
  ℕ, String, Bool, true, false, not, List, [], ◌∷◌, ◌==◌, ◌≡◌, refl, ap, ◌∙◌, All, both_true,
}
use dirbase.Text.{split, join, all_chars, cons_head}

-- Every character is another one.
abbrev pub lacks : ℕ → String → Bool
lacks sep = all_chars (λ c. not (c == sep))

not-true : (b : Bool) → not b ≡ true → b ≡ false
not-true false h = refl
not-true true h = cc

-- Up to the separator U+001F.
split_first :
    (s rest : String)
    → lacks 31 s ≡ true
    → split 31 (string_append s (String.◌∷◌ "\u{1f}" rest)) ≡ s ∷ split 31 rest
unfolding split all_chars
split_first String.[] rest free = ap (split 31) (nil-append (String.◌∷◌ "\u{1f}" rest))
split_first (String.◌∷◌ c s) rest free =
    let (here, later) = both_true (not (code c == 31)) (lacks 31 s) free in
    ap (split 31) (cons-append c s (String.◌∷◌ "\u{1f}" rest))
    ∙ rw (not-true (code c == 31) here) (ap (cons_head c) (split_first s rest later))

split_last : (s : String) → lacks 31 s ≡ true → split 31 s ≡ s ∷ []
unfolding split all_chars
split_last String.[] free = refl
split_last (String.◌∷◌ c s) free =
    let (here, later) = both_true (not (code c == 31)) (lacks 31 s) free in
    rw (not-true (code c == 31) here) (ap (cons_head c) (split_last s later))

pub split-join :
    (part : String) (parts : List String)
    → All (λ s. lacks 31 s ≡ true) (part ∷ parts)
    → split 31 (join "\u{1f}" (part ∷ parts)) ≡ part ∷ parts
unfolding join
split-join part [] free = split_last part free.0
split-join part (next ∷ parts) free =
    let rest = join "\u{1f}" (next ∷ parts) in
    ap (λ t. split 31 (string_append part t))
      (cons-append "\u{1f}" "" rest ∙ ap (String.◌∷◌ "\u{1f}") (nil-append rest))
    ∙ split_first part rest free.0
    ∙ ap (λ l. part ∷ l) (split-join next parts free.1)
