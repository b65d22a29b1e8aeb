-- ===== src/Http/Embed/Related.antt =====
-- The rows that src/relations.rs finds.
use mathlib.Core.Option.{none-ne-some}
use dirbase.Prelude.{
  String, Bool, true, false, ◌||◌, Option, none, some, List, [], ◌∷◌, ◌≡◌, refl, ap, ◌∙◌,
  if◌then◌else◌, unwrap_or, str_eq, Bool-cases, inl, inr, arith,
}
use dirbase.BTreeMap
use dirbase.BTreeMap.{BTreeMap, get-insert, get-insert_self}
use dirbase.Json.{Json, as_object, from_object, is_object, is_null, as_object-from_object}
use dirbase.Runtime.{Runtime, Value}
use dirbase.Query.Evaluator.{value_to_filter_string}
use dirbase.Http.Embed.{
  add_key, key_of, add_rows, build_relation_lookup, row_for, resolve_related_row_in_lookup,
  embed_object, embed_item,
}

module _ ⦃rt : Runtime⦄ where
  -- Every row of a lookup is an object.
  abbrev HasObjects : BTreeMap Value → Type 0
  HasObjects lookup =
      (key : String) (row : Value) → BTreeMap.get lookup key ≡ some row → is_object row ≡ true

  insert-HasObjects :
      (lookup : BTreeMap Value) (key : String) (item : Value)
      → is_object item ≡ true
      → HasObjects lookup
      → HasObjects (BTreeMap.insert lookup key item)
  insert-HasObjects lookup key item here all name row found =
      ground (arith, get-insert lookup key name item, all name row)

  key_of-is_object :
      (column : String) (item : Value) {key : Value}
      → key_of column item ≡ some key
      → is_object item ≡ true
  unfolding key_of as_object
  key_of-is_object column (Json.object fields) h = refl
  key_of-is_object column _ h = cc

  add_key-HasObjects :
      (column : String) (item : Value) (lookup : BTreeMap Value) (key : Option Value)
      → key_of column item ≡ key
      → HasObjects lookup
      → HasObjects (add_key key item lookup)
  unfolding add_key
  add_key-HasObjects column item lookup none h all = all
  add_key-HasObjects column item lookup (some key) h all =
      insert-HasObjects lookup (value_to_filter_string key) item (key_of-is_object column item h)
        all

  add_rows-HasObjects :
      (items : List Value) (column : String) (lookup : BTreeMap Value)
      → HasObjects lookup
      → HasObjects (add_rows items column lookup)
  unfolding add_rows
  add_rows-HasObjects [] column lookup all = all
  add_rows-HasObjects (item ∷ items) column lookup all =
      add_rows-HasObjects items column (add_key (key_of column item) item lookup)
        (add_key-HasObjects column item lookup (key_of column item) refl all)

  build_relation_lookup-HasObjects :
      (items : List Value) (column : String) → HasObjects (build_relation_lookup items column)
  unfolding build_relation_lookup BTreeMap.get
  build_relation_lookup-HasObjects items column =
      add_rows-HasObjects items column [] (λ key row found. absurd (none-ne-some _ found))

  -- Whether a row has the text under the column.
  has_text : String → Option Value → Bool
  has_text text none = false
  has_text text (some key) = str_eq (value_to_filter_string key) text

  -- The last of the rows that have the text under the column, or else another one.
  unfoldable pub last_related : String → String → List Value → Option Value → Option Value
  unfolding has_text
  last_related column text [] other = other
  last_related column text (item ∷ items) other =
      last_related column text items
        (if has_text text (key_of column item) then some item else other)

  get-add_key :
      (key : Option Value) (item : Value) (lookup : BTreeMap Value) (text : String)
      → BTreeMap.get (add_key key item lookup) text
        ≡ (if has_text text key then some item else BTreeMap.get lookup text)
  unfolding add_key has_text
  get-add_key none item lookup text = refl
  get-add_key (some key) item lookup text = get-insert lookup (value_to_filter_string key) text item

  get-add_rows :
      (items : List Value) (column text : String) (lookup : BTreeMap Value)
      → BTreeMap.get (add_rows items column lookup) text
        ≡ last_related column text items (BTreeMap.get lookup text)
  unfolding add_rows last_related
  get-add_rows [] column text lookup = refl
  get-add_rows (item ∷ items) column text lookup =
      get-add_rows items column text (add_key (key_of column item) item lookup)
      ∙ ap (last_related column text items) (get-add_key (key_of column item) item lookup text)

  -- A source value that is no object and not null is resolved to the last target row that has the
  -- same text under the target column, and to none when no row has it.
  pub resolve_related_row_in_lookup-last :
      (items : List Value) (target_column source_column : String) (source : BTreeMap Value)
      (current : Value)
      → BTreeMap.get source source_column ≡ some current
      → (is_object current || is_null current) ≡ false
      → resolve_related_row_in_lookup source source_column
          (build_relation_lookup items target_column)
        ≡ last_related target_column (value_to_filter_string current) items none
  unfolding resolve_related_row_in_lookup row_for build_relation_lookup BTreeMap.get
  resolve_related_row_in_lookup-last items target_column source_column source current found plain =
      rw (found, plain) (get-add_rows items target_column (value_to_filter_string current) [])

  abbrev is_object_or_null : Value → Bool
  is_object_or_null value = is_object value || is_null value

  found-kind :
      (found : Option Value)
      → ((row : Value) → found ≡ some row → is_object row ≡ true)
      → is_object_or_null (unwrap_or found Json.null) ≡ true
  found-kind none h = refl
  found-kind (some row) h = rw (h row refl) refl

  -- What an embedding leaves under its column is an object or null.
  row_for-kind :
      (value : Option Value) (lookup : BTreeMap Value)
      → HasObjects lookup
      → is_object_or_null (unwrap_or (row_for value lookup) Json.null) ≡ true
  unfolding row_for
  row_for-kind none lookup all = refl
  row_for-kind (some current) lookup all = elim (Bool-cases (is_object_or_null current)) [
    | inl skipped ↦ rw skipped refl
    | inr plain ↦ rw plain (
        found-kind (BTreeMap.get lookup (value_to_filter_string current))
          (all (value_to_filter_string current)))
  ]

  row_for-skipped :
      (current : Value) (lookup : BTreeMap Value)
      → is_object_or_null current ≡ true
      → row_for (some current) lookup ≡ none
  unfolding row_for
  row_for-skipped current lookup skipped = rw skipped refl

  embed_item-object :
      (embed : String) (lookup object : BTreeMap Value)
      → embed_item embed lookup (from_object object)
        ≡ from_object (
            BTreeMap.insert object embed
              (unwrap_or (row_for (BTreeMap.get object embed) lookup) Json.null))
  unfolding embed_item embed_object resolve_related_row_in_lookup
  embed_item-object embed lookup object = rw (as_object-from_object object) refl

  -- Embedding the same column of a row a second time puts null there, whatever row the first one
  -- has found.
  pub embed_item-again :
      (items : List Value) (target_column embed : String) (object : BTreeMap Value)
      → let lookup = build_relation_lookup items target_column in
        key_of embed (embed_item embed lookup (embed_item embed lookup (from_object object)))
        ≡ some Json.null
  unfolding key_of
  embed_item-again items target_column embed object =
      let lookup = build_relation_lookup items target_column in
      let first = unwrap_or (row_for (BTreeMap.get object embed) lookup) Json.null in
      let skipped =
        row_for-kind (BTreeMap.get object embed) lookup
          (build_relation_lookup-HasObjects items target_column) in
      rw
        (
          embed_item-object embed lookup object,
          embed_item-object embed lookup (BTreeMap.insert object embed first),
          get-insert_self object embed first,
          row_for-skipped first lookup skipped,
        )
        (rw
          (as_object-from_object
            (BTreeMap.insert (BTreeMap.insert object embed first) embed Json.null))
          (get-insert_self (BTreeMap.insert object embed first) embed Json.null))
