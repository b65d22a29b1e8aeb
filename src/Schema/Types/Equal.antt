-- ===== src/Schema/Types/Equal.antt =====
-- `==` of the schema's types, which the program derives field by field.
pub mod Sound
use dirbase.Prelude.{
  ℕ, String, Bool, true, false, ◌&&◌, ◌==◌, Option, none, some, List, [], ◌∷◌, str_eq, is_some_and,
}
use dirbase.BTreeMap.{BTreeMap}
use dirbase.Json.{Json, Items, Fields, as_bool, as_number, as_str, is_null}
use dirbase.Runtime.{Runtime, Value}
use dirbase.Schema.Types.{
  TableKind, ColumnType, ForeignKey, ColumnSchema, DeclaredTableSchema, column_type_eq,
}

bool_eq : Bool → Bool → Bool
bool_eq true b = b
bool_eq false true = false
bool_eq false false = true

table_kind_eq : TableKind → TableKind → Bool
table_kind_eq TableKind.object_table TableKind.object_table = true
table_kind_eq TableKind.relation TableKind.relation = true
table_kind_eq TableKind.unknown TableKind.unknown = true
table_kind_eq _ _ = false

foreign_key_eq : ForeignKey → ForeignKey → Bool
foreign_key_eq a b = str_eq a.target_table b.target_table && str_eq a.target_column b.target_column

module _ {ℓ} {A : Type ℓ} (eq : A → A → Bool) where
  abbrev pub option_eq : Option A → Option A → Bool
  option_eq none none = true
  option_eq (some a) (some b) = eq a b
  option_eq _ _ = false

  list_eq : List A → List A → Bool
  list_eq [] [] = true
  list_eq (a ∷ as') (b ∷ bs) = eq a b && list_eq as' bs
  list_eq _ _ = false

abbrev entry_eq {ℓ} : {V : Type ℓ} → (V → V → Bool) → String × V → String × V → Bool
entry_eq eq a b = str_eq a.0 b.0 && eq a.1 b.1

items_in : {N : Type 0} → Json N → Option (Items N)
items_in (Json.array vs) = some vs
items_in _ = none

fields_in : {N : Type 0} → Json N → Option (Fields N)
fields_in (Json.object fs) = some fs
fields_in _ = none

module _ {N : Type 0} (number_eq : N → N → Bool) where
  mutual
    unfolding bool_eq items_in fields_in

    json_eq : Json N → Json N → Bool
    json_eq Json.null w = is_null w
    json_eq (Json.bool b) w = is_some_and (as_bool w) (bool_eq b)
    json_eq (Json.number n) w = is_some_and (as_number w) (number_eq n)
    json_eq (Json.string s) w = is_some_and (as_str w) (str_eq s)
    json_eq (Json.array vs) w = items_eq vs (items_in w)
    json_eq (Json.object fs) w = fields_eq fs (fields_in w)

    items_eq : Items N → Option (Items N) → Bool
    items_eq vs none = false
    items_eq Items.nil (some Items.nil) = true
    items_eq Items.nil (some (Items.cons w ws)) = false
    items_eq (Items.cons v vs) (some Items.nil) = false
    items_eq (Items.cons v vs) (some (Items.cons w ws)) = json_eq v w && items_eq vs (some ws)

    fields_eq : Fields N → Option (Fields N) → Bool
    fields_eq fs none = false
    fields_eq Fields.end (some Fields.end) = true
    fields_eq Fields.end (some (Fields.field l w gs)) = false
    fields_eq (Fields.field k v fs) (some Fields.end) = false
    fields_eq (Fields.field k v fs) (some (Fields.field l w gs)) =
        str_eq k l && (json_eq v w && fields_eq fs (some gs))

module _ ⦃rt : Runtime⦄ where
  column_schema_eq : ColumnSchema → ColumnSchema → Bool
  unfolding bool_eq json_eq list_eq
  column_schema_eq a b =
      column_type_eq a.column_type b.column_type
      && (bool_eq a.nullable b.nullable
          && (option_eq (list_eq str_eq) a.enum_values b.enum_values
              && (option_eq (json_eq rt.number_eq) a.min b.min
                  && (option_eq (json_eq rt.number_eq) a.max b.max
                      && (option_eq ◌==◌ a.min_length b.min_length
                          && (option_eq ◌==◌ a.max_length b.max_length
                              && option_eq str_eq a.pattern b.pattern))))))

  declared_table_eq : DeclaredTableSchema → DeclaredTableSchema → Bool
  unfolding column_schema_eq table_kind_eq foreign_key_eq list_eq
  declared_table_eq a b =
      option_eq table_kind_eq a.kind b.kind
      && (option_eq str_eq a.primary_key b.primary_key
          && (list_eq (entry_eq column_schema_eq) a.columns b.columns
              && (list_eq (entry_eq foreign_key_eq) a.foreign_keys b.foreign_keys
                  && (list_eq str_eq a.suppressed_foreign_keys b.suppressed_foreign_keys
                      && list_eq (list_eq str_eq) a.unique b.unique))))

  -- `previous == next`
  unfoldable pub same_table : Option DeclaredTableSchema → Option DeclaredTableSchema → Bool
  unfolding declared_table_eq
  same_table previous next = option_eq declared_table_eq previous next
