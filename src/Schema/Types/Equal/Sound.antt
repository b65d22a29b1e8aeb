-- ===== src/Schema/Types/Equal/Sound.antt =====
-- The derived equality of the declared schema against equality of the values.
use dirbase.Prelude.{
  both_true, String, Bool, true, false, ◌==◌, Option, none, some, [], ◌∷◌, ◌≡◌, refl, sym, ap, ◌∙◌,
  arith, str_eq, eq_iff, is_some_and-some,
}
use mathlib.Core.Bool.{false≢true}
use dirbase.Json.{Json, Items, Fields, as_bool, as_number, as_str, is_null}
use dirbase.Runtime.{Runtime}
use dirbase.Schema.Types.{column_type_eq}
use dirbase.Schema.Types.Equal.{
  bool_eq, table_kind_eq, foreign_key_eq, option_eq, list_eq, entry_eq, items_in, fields_in,
  json_eq, items_eq, fields_eq, column_schema_eq, declared_table_eq, same_table,
}

-- A test that holds of equal values only.
abbrev pub IsSound {ℓ} : {A : Type ℓ} → (A → A → Bool) → Type ℓ
IsSound {A} eq = (a b : A) → eq a b ≡ true → a ≡ b

str_eq-IsSound : IsSound str_eq
str_eq-IsSound a b h = (eq_iff a b).0 h

pub ==-IsSound : IsSound ◌==◌
==-IsSound a b h = ground arith

bool_eq-IsSound : IsSound bool_eq
unfolding bool_eq
bool_eq-IsSound true b h = sym h
bool_eq-IsSound false true h = h
bool_eq-IsSound false false h = refl

table_kind_eq-IsSound : IsSound table_kind_eq
unfolding table_kind_eq
table_kind_eq-IsSound a b h = ground arith

column_type_eq-IsSound : IsSound column_type_eq
column_type_eq-IsSound a b h = ground arith

foreign_key_eq-IsSound : IsSound foreign_key_eq
unfolding foreign_key_eq
foreign_key_eq-IsSound a b h =
    ground (arith, eq_iff a.target_table b.target_table, eq_iff a.target_column b.target_column)

module _ {ℓ} {A : Type ℓ} (eq : A → A → Bool) (sound : IsSound eq) where
  option_eq-IsSound : IsSound (option_eq eq)
  option_eq-IsSound none none h = refl
  option_eq-IsSound none (some b) h = cc
  option_eq-IsSound (some a) none h = cc
  option_eq-IsSound (some a) (some b) h = ap some (sound a b h)

  list_eq-IsSound : IsSound (list_eq eq)
  unfolding list_eq
  list_eq-IsSound [] [] h = refl
  list_eq-IsSound [] (b ∷ bs) h = cc
  list_eq-IsSound (a ∷ rest) [] h = cc
  list_eq-IsSound (a ∷ rest) (b ∷ bs) h =
      let (here, later) = both_true (eq a b) _ h in
      λ i. sound a b here i ∷ list_eq-IsSound rest bs later i

  entry_eq-IsSound : IsSound (entry_eq eq)
  entry_eq-IsSound (j, a) (k, b) h =
      let (here, later) = both_true (str_eq j k) _ h in
      λ i. (str_eq-IsSound j k here i, sound a b later i)

module _ {N : Type 0} (number_eq : N → N → Bool) (sound : IsSound number_eq) where
  items_in-array : (w : Json N) (vs : Items N) → items_in w ≡ some vs → Json.array vs ≡ w
  unfolding items_in
  items_in-array (Json.array ws) vs h = cc
  items_in-array _ vs h = cc

  fields_in-object : (w : Json N) (fs : Fields N) → fields_in w ≡ some fs → Json.object fs ≡ w
  unfolding fields_in
  fields_in-object (Json.object gs) fs h = cc
  fields_in-object _ fs h = cc

  null-is_null : (w : Json N) → is_null w ≡ true → Json.null ≡ w
  null-is_null Json.null h = refl
  null-is_null _ h = cc

  bool-as_bool : (w : Json N) (b : Bool) → as_bool w ≡ some b → Json.bool b ≡ w
  bool-as_bool (Json.bool c) b h = cc
  bool-as_bool _ b h = cc

  number-as_number : (w : Json N) (n : N) → as_number w ≡ some n → Json.number n ≡ w
  number-as_number (Json.number m) n h = cc
  number-as_number _ n h = cc

  string-as_str : (w : Json N) (s : String) → as_str w ≡ some s → Json.string s ≡ w
  string-as_str (Json.string t) s h = cc
  string-as_str _ s h = cc

  mutual
    unfolding json_eq

    json_eq-IsSound : (v w : Json N) → json_eq number_eq v w ≡ true → v ≡ w
    json_eq-IsSound Json.null w h = null-is_null w h
    json_eq-IsSound (Json.bool b) w h =
        let (c, found, same) = is_some_and-some (as_bool w) (bool_eq b) h in
        bool-as_bool w b (found ∙ ap some (sym (bool_eq-IsSound b c same)))
    json_eq-IsSound (Json.number n) w h =
        let (m, found, same) = is_some_and-some (as_number w) (number_eq n) h in
        number-as_number w n (found ∙ ap some (sym (sound n m same)))
    json_eq-IsSound (Json.string s) w h =
        let (t, found, same) = is_some_and-some (as_str w) (str_eq s) h in
        string-as_str w s (found ∙ ap some (sym (str_eq-IsSound s t same)))
    json_eq-IsSound (Json.array vs) w h = items_in-array w vs (items_eq-IsSound vs (items_in w) h)
    json_eq-IsSound (Json.object fs) w h =
        fields_in-object w fs (fields_eq-IsSound fs (fields_in w) h)

    items_eq-IsSound :
        (vs : Items N) (o : Option (Items N)) → items_eq number_eq vs o ≡ true → o ≡ some vs
    items_eq-IsSound vs none h = absurd (false≢true h)
    items_eq-IsSound Items.nil (some Items.nil) h = refl
    items_eq-IsSound Items.nil (some (Items.cons w ws)) h = cc
    items_eq-IsSound (Items.cons v vs) (some Items.nil) h = cc
    items_eq-IsSound (Items.cons v vs) (some (Items.cons w ws)) h =
        let (here, later) = both_true (json_eq number_eq v w) _ h in
        let front = json_eq-IsSound v w here in let back = items_eq-IsSound vs (some ws) later in cc

    fields_eq-IsSound :
        (fs : Fields N) (o : Option (Fields N)) → fields_eq number_eq fs o ≡ true → o ≡ some fs
    fields_eq-IsSound fs none h = absurd (false≢true h)
    fields_eq-IsSound Fields.end (some Fields.end) h = refl
    fields_eq-IsSound Fields.end (some (Fields.field l w gs)) h = cc
    fields_eq-IsSound (Fields.field k v fs) (some Fields.end) h = cc
    fields_eq-IsSound (Fields.field k v fs) (some (Fields.field l w gs)) h =
        let (key, rest) = both_true (str_eq k l) _ h in
        let (value, later) = both_true (json_eq number_eq v w) _ rest in
        let same_key = str_eq-IsSound k l key in
        let same_value = json_eq-IsSound v w value in
        let back = fields_eq-IsSound fs (some gs) later in cc

module _ ⦃rt : Runtime⦄ (sound : IsSound rt.number_eq) where
  column_schema_eq-IsSound : IsSound column_schema_eq
  unfolding column_schema_eq
  column_schema_eq-IsSound a b h =
      let (t, h1) = both_true (column_type_eq a.column_type b.column_type) _ h in
      let (n, h2) = both_true (bool_eq a.nullable b.nullable) _ h1 in
      let (e, h3) = both_true (option_eq (list_eq str_eq) a.enum_values b.enum_values) _ h2 in
      let (least, h4) = both_true (option_eq (json_eq rt.number_eq) a.min b.min) _ h3 in
      let (most, h5) = both_true (option_eq (json_eq rt.number_eq) a.max b.max) _ h4 in
      let (short, h6) = both_true (option_eq ◌==◌ a.min_length b.min_length) _ h5 in
      let (long, p) = both_true (option_eq ◌==◌ a.max_length b.max_length) _ h6 in
      let json = json_eq-IsSound rt.number_eq sound in
      λ i. record {
        column_type = column_type_eq-IsSound a.column_type b.column_type t i;
        nullable = bool_eq-IsSound a.nullable b.nullable n i;
        enum_values =
            option_eq-IsSound (list_eq str_eq) (list_eq-IsSound str_eq str_eq-IsSound) a.enum_values
              b.enum_values e i;
        min = option_eq-IsSound (json_eq rt.number_eq) json a.min b.min least i;
        max = option_eq-IsSound (json_eq rt.number_eq) json a.max b.max most i;
        min_length = option_eq-IsSound ◌==◌ ==-IsSound a.min_length b.min_length short i;
        max_length = option_eq-IsSound ◌==◌ ==-IsSound a.max_length b.max_length long i;
        pattern = option_eq-IsSound str_eq str_eq-IsSound a.pattern b.pattern p i;
      }

  declared_table_eq-IsSound : IsSound declared_table_eq
  unfolding declared_table_eq
  declared_table_eq-IsSound a b h =
      let (k, h1) = both_true (option_eq table_kind_eq a.kind b.kind) _ h in
      let (p, h2) = both_true (option_eq str_eq a.primary_key b.primary_key) _ h1 in
      let (c, h3) = both_true (list_eq (entry_eq column_schema_eq) a.columns b.columns) _ h2 in
      let (f, h4) =
        both_true (list_eq (entry_eq foreign_key_eq) a.foreign_keys b.foreign_keys) _ h3 in
      let (s, u) =
        both_true (list_eq str_eq a.suppressed_foreign_keys b.suppressed_foreign_keys) _ h4 in
      let texts = list_eq-IsSound str_eq str_eq-IsSound in
      λ i. record {
        kind = option_eq-IsSound table_kind_eq table_kind_eq-IsSound a.kind b.kind k i;
        primary_key = option_eq-IsSound str_eq str_eq-IsSound a.primary_key b.primary_key p i;
        columns =
            list_eq-IsSound (entry_eq column_schema_eq)
              (entry_eq-IsSound column_schema_eq column_schema_eq-IsSound) a.columns b.columns c i;
        foreign_keys =
            list_eq-IsSound (entry_eq foreign_key_eq)
              (entry_eq-IsSound foreign_key_eq foreign_key_eq-IsSound) a.foreign_keys b.foreign_keys
              f i;
        suppressed_foreign_keys = texts a.suppressed_foreign_keys b.suppressed_foreign_keys s i;
        unique = list_eq-IsSound (list_eq str_eq) texts a.unique b.unique u i;
      }

  pub same_table-IsSound : IsSound same_table
  unfolding same_table
  same_table-IsSound = option_eq-IsSound declared_table_eq declared_table_eq-IsSound
