-- ===== src/Tests/Mutations.antt =====
-- The write requests on a small resource.
use dirbase.Prelude.{
  String, true, Option, none, some, [], ◌∷◌, ◌≡◌, ◌≢◌, refl, sym, arith, All, and_then,
}
use dirbase.Prelude.Int.{ℤ, pos, wrapping_suc}
use dirbase.BTreeMap.{BTreeMap, get, insert}
use dirbase.Json.{Json, as_array, as_object, from_array, from_object}
use dirbase.Error.{ok, err}
use dirbase.Text.Decimal.{show_int, parse_i64}
use dirbase.Schema.Types.{TableSchema, primary_key_name}
use dirbase.Storage.Index.{
  id_matches, find_item_by_key, find_item_index_by_key, next_numeric_id, coerce_id_value,
  is_string_column,
}
use dirbase.Mutation.{
  create_item, replace_item, patch_item, delete_item, replace_resource_object,
  patch_resource_object, item_missing, not_objects, maybe_fill_missing_id,
}
use dirbase.Mutation.Outcomes.{
  Located, Patched, delete_item-Located, replace_item-Located, patch_item-Patched,
}
use dirbase.Mutation.Lookup.{
  patch_item-found, delete_item-not_found, replace_item-found, absent-item_missing,
}
use dirbase.Mutation.Creation.{Created, create_item-Created, create_item-fresh}
use dirbase.Storage.Index.Coerced.{is_kept}
use dirbase.Storage.Index.Fresh.{numeric_id, next_numeric_id-fresh}
use dirbase.Mutation.Objects.{Merged, patch_resource_object-Merged}
use dirbase.Tests.{toy}
use mathlib.Core.Bool.{true≢false}

abbrev Row : Type 0
Row = Json ℤ

abbrev row : ℤ → String → Row
row id name = from_object (("id", Json.number id) ∷ ("name", Json.string name) ∷ [])

abbrev people : Row
people = from_array (row (pos 1) "ann" ∷ row (pos 2) "bob" ∷ [])

abbrev ann_only : Row
ann_only = from_array (row (pos 1) "ann" ∷ [])

abbrev ann_and_rob : Row
ann_and_rob = from_array (row (pos 1) "ann" ∷ row (pos 2) "rob" ∷ [])

abbrev rob_and_bob : Row
rob_and_bob = from_array (row (pos 1) "rob" ∷ row (pos 2) "bob" ∷ [])

abbrev cat : Row
cat = from_object (("name", Json.string "cat") ∷ [])

abbrev with_cat : Row
with_cat = from_array (row (pos 1) "ann" ∷ row (pos 2) "bob" ∷ row (pos 3) "cat" ∷ [])

abbrev no_table : Option TableSchema
no_table = none

abbrev renamed : Row
renamed = from_object (("id", Json.number (pos 9)) ∷ ("name", Json.string "rob") ∷ [])

evaluate : Unit {0}
unfolding create_item replace_item patch_item delete_item replace_resource_object
    patch_resource_object find_item_by_key find_item_index_by_key id_matches next_numeric_id
    coerce_id_value get insert from_array from_object as_array as_object primary_key_name show_int
    parse_i64 maybe_fill_missing_id is_string_column wrapping_suc
evaluate = tt

mutation_tests :
    (delete_item no_table "2" people ≡ ok (ann_only, tt))
    × (patch_item no_table "2" renamed people ≡ ok (ann_and_rob, row (pos 2) "rob"))
    × (replace_item no_table "1" renamed people ≡ ok (rob_and_bob, row (pos 1) "rob"))
    × (create_item no_table cat people ≡ ok (with_cat, row (pos 3) "cat"))
    × (delete_item no_table "3" people ≡ err item_missing)
    × (replace_resource_object people renamed ≡ err not_objects)
unfolding evaluate
mutation_tests = (refl, refl, refl, refl, refl, refl)

delete_item-Located_example : Located no_table "2" people ann_only []
unfolding evaluate
delete_item-Located_example = delete_item-Located no_table "2" people ann_only tt refl

replace_item-Located_example :
    Located no_table "1" people rob_and_bob (row (pos 1) "rob" ∷ [])
    × ((object : BTreeMap Row) × (as_object renamed ≡ some object)
        × (as_object (row (pos 1) "rob") ≡ some (insert object "id" (Json.number (pos 1)))))
unfolding evaluate
replace_item-Located_example =
    replace_item-Located no_table "1" renamed people rob_and_bob (row (pos 1) "rob") refl

patch_item-Patched_example :
    (l : Located no_table "2" people ann_and_rob (row (pos 2) "rob" ∷ [])) × Patched no_table "2"
      renamed l.old
      (row (pos 2) "rob")
unfolding evaluate
patch_item-Patched_example =
    patch_item-Patched no_table "2" renamed people ann_and_rob (row (pos 2) "rob") refl

patch_item-found_example :
    and_then (as_array ann_and_rob) (λ items. find_item_by_key items "id" "2")
    ≡ some (row (pos 2) "rob")
unfolding evaluate
patch_item-found_example =
    patch_item-found no_table "2" renamed people ann_and_rob (row (pos 2) "rob") refl

delete_item-not_found_example :
    and_then (as_array ann_only) (λ items. find_item_by_key items "id" "2") ≡ none
unfolding evaluate
delete_item-not_found_example =
    delete_item-not_found no_table "2" people ann_only tt
      (row (pos 1) "ann" ∷ row (pos 2) "bob" ∷ []) refl
      (λ e. absurd (true≢false (sym e)), (λ e. tt, tt)) refl

replace_item-found_example :
    (id_matches (row (pos 1) "rob") "id" "1" ≡ is_kept no_table "1")
    × (is_kept no_table "1" ≡ true
        → and_then (as_array rob_and_bob) (λ items. find_item_by_key items "id" "1")
          ≡ some (row (pos 1) "rob"))
unfolding evaluate
replace_item-found_example =
    replace_item-found no_table "1" (λ z. refl) renamed people rob_and_bob (row (pos 1) "rob") refl

absent-item_missing_example :
    (replace_item no_table "7" renamed people ≡ err item_missing)
    × (patch_item no_table "7" renamed people ≡ err item_missing)
    × (delete_item no_table "7" people ≡ err item_missing)
unfolding evaluate
absent-item_missing_example =
    absent-item_missing no_table "7" renamed people (row (pos 1) "ann" ∷ row (pos 2) "bob" ∷ [])
      (("id", Json.number (pos 9)) ∷ ("name", Json.string "rob") ∷ []) refl refl (refl, (refl, tt))

create_item-Created_example : Created no_table cat people with_cat (row (pos 3) "cat")
unfolding evaluate
create_item-Created_example =
    create_item-Created no_table cat people with_cat (row (pos 3) "cat") refl

create_item-fresh_example :
    (id : ℤ) × (numeric_id "id" (row (pos 3) "cat") ≡ some id)
    × All (λ item. numeric_id "id" item ≢ some id) (row (pos 1) "ann" ∷ row (pos 2) "bob" ∷ [])
unfolding evaluate
create_item-fresh_example =
    create_item-fresh no_table (λ z. refl) cat people with_cat (row (pos 3) "cat")
      (row (pos 1) "ann" ∷ row (pos 2) "bob" ∷ []) (("name", Json.string "cat") ∷ []) refl refl refl
      refl (omega arith, (omega arith, tt)) refl

next_numeric_id-fresh_example :
    All
      (λ item. numeric_id "id" item ≢ some (next_numeric_id (row (pos 1) "ann" ∷ []) "id"))
      (row (pos 1) "ann" ∷ [])
unfolding evaluate
next_numeric_id-fresh_example =
    next_numeric_id-fresh "id" (row (pos 1) "ann" ∷ []) (omega arith, tt)

patch_resource_object-Merged_example :
    (row (pos 9) "rob" ≡ row (pos 9) "rob") × Merged renamed (row (pos 1) "ann") (row (pos 9) "rob")
unfolding evaluate
patch_resource_object-Merged_example =
    patch_resource_object-Merged renamed (row (pos 1) "ann") (row (pos 9) "rob") (row (pos 9) "rob")
      refl
