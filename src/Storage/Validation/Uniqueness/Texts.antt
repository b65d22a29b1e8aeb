-- ===== src/Storage/Validation/Uniqueness/Texts.antt =====
-- The text that the code compares tells values apart.
use Prim.Native.Char.{code}
use Prim.Native.String.{◌++◌ as string_append}
use text.Mathlib.TextLemmas.{cons-append, append-nil, append_cancel_left}
use mathlib.Core.List.{head-eq_of_cons-eq, tail-eq_of_cons-eq}
use dirbase.Prelude.{
  ℕ, ◌≤◌, String, Bool, true, false, List, [], ◌∷◌, ◌≡◌, inl, inr, refl, sym, ap, ◌∙◌, All, map,
  length, arith,
}
use dirbase.Text.{format, join, split}
use dirbase.Text.Decimal.{show_bool}
use dirbase.Text.Join.{lacks, split-join}
use dirbase.Storage.Validation.Uniqueness.Parts.{Part, encode, IsPlain, IsSeparable, joined_key}

letter : Part → ℕ
letter (Part.string s) = b's'
letter (Part.number s) = b'n'
letter (Part.json s) = b'j'
letter (Part.boolean b) = b'b'

first_code : String → ℕ
first_code String.[] = 0
first_code (String.◌∷◌ c s) = code c

first_code-encode : (p : Part) → first_code (encode p) ≡ letter p
unfolding first_code encode letter
first_code-encode (Part.string s) = ap first_code (cons-append "s" ":" (string_append s ""))
first_code-encode (Part.number s) = ap first_code (cons-append "n" ":" (string_append s ""))
first_code-encode (Part.json s) = ap first_code (cons-append "j" ":" (string_append s ""))
first_code-encode (Part.boolean b) =
    ap first_code (cons-append "b" ":" (string_append (show_bool b) ""))

untagged : (tag s t : String) → format (tag ∷ s ∷ []) ≡ format (tag ∷ t ∷ []) → s ≡ t
untagged tag s t h =
    sym (append-nil s)
    ∙ append_cancel_left tag (string_append s "") (string_append t "") h
    ∙ append-nil t

show_bool-injective : (a b : Bool) → show_bool a ≡ show_bool b → a ≡ b
unfolding first_code
show_bool-injective true true h = refl
show_bool-injective false false h = refl
show_bool-injective true false h = let e = ap first_code h in absurd (omega arith)
show_bool-injective false true h = let e = ap first_code h in absurd (omega arith)

same_letter : (p q : Part) → letter p ≡ letter q → encode p ≡ encode q → p ≡ q
unfolding letter encode
same_letter (Part.string s) (Part.string t) l h = ap Part.string (untagged "s:" s t h)
same_letter (Part.number s) (Part.number t) l h = ap Part.number (untagged "n:" s t h)
same_letter (Part.json s) (Part.json t) l h = ap Part.json (untagged "j:" s t h)
same_letter (Part.boolean a) (Part.boolean b) l h =
    ap Part.boolean (show_bool-injective a b (untagged "b:" (show_bool a) (show_bool b) h))
same_letter _ _ l h = absurd (omega arith)

-- The text of a value tells it apart from every other.
pub encode-injective : (p q : Part) → encode p ≡ encode q → p ≡ q
encode-injective p q h =
    same_letter p q (sym (first_code-encode p) ∙ ap first_code h ∙ first_code-encode q) h

map-encode-injective : (ps qs : List Part) → map encode ps ≡ map encode qs → ps ≡ qs
map-encode-injective [] [] h = refl
map-encode-injective (p ∷ ps) [] h = cc
map-encode-injective [] (q ∷ qs) h = cc
map-encode-injective (p ∷ ps) (q ∷ qs) h =
    rw
      (
        encode-injective p q (head-eq_of_cons-eq h),
        map-encode-injective ps qs (tail-eq_of_cons-eq h),
      )
      refl

plain_texts :
    (parts : List Part) → All IsPlain parts → All (λ s. lacks 31 s ≡ true) (map encode parts)
unfolding IsPlain
plain_texts [] h = tt
plain_texts (p ∷ ps) h = (h.0, plain_texts ps h.1)

split_plain :
    (p : Part) (ps : List Part)
    → All IsPlain (p ∷ ps)
    → split 31 (joined_key (p ∷ ps)) ≡ map encode (p ∷ ps)
unfolding joined_key
split_plain p ps h = split-join (encode p) (map encode ps) (plain_texts (p ∷ ps) h)

plain_joined :
    (ps qs : List Part)
    → length ps ≡ length qs
    → All IsPlain ps
    → All IsPlain qs
    → joined_key ps ≡ joined_key qs
    → ps ≡ qs
plain_joined [] [] l f g h = refl
plain_joined [] (q ∷ qs) l f g h = absurd (omega arith)
plain_joined (p ∷ ps) [] l f g h = absurd (omega arith)
plain_joined (p ∷ ps) (q ∷ qs) l f g h =
    map-encode-injective (p ∷ ps) (q ∷ qs)
      (sym (split_plain p ps f) ∙ ap (split 31) h ∙ split_plain q qs g)

single_joined :
    (ps qs : List Part)
    → length ps ≡ length qs
    → length ps ≤ 1
    → joined_key ps ≡ joined_key qs
    → ps ≡ qs
unfolding joined_key join
single_joined [] [] l f h = refl
single_joined [] (q ∷ qs) l f h = absurd (omega arith)
single_joined (p ∷ ps) [] l f h = absurd (omega arith)
single_joined (p ∷ []) (q ∷ []) l f h = ap (λ r. r ∷ []) (encode-injective p q h)
single_joined (p ∷ a ∷ ps) qs l f h = absurd (omega arith)
single_joined (p ∷ []) (q ∷ b ∷ qs) l f h = absurd (omega arith)

pub joined_key-injective :
    (count : ℕ) (ps qs : List Part)
    → IsSeparable count ps
    → IsSeparable count qs
    → joined_key ps ≡ joined_key qs
    → ps ≡ qs
unfolding IsSeparable
joined_key-injective count ps qs (l, inl f) (m, g) h =
    single_joined ps qs (l ∙ sym m) (omega arith) h
joined_key-injective count ps qs (l, inr f) (m, inl g) h =
    single_joined ps qs (l ∙ sym m) (omega arith) h
joined_key-injective count ps qs (l, inr f) (m, inr g) h = plain_joined ps qs (l ∙ sym m) f g h
