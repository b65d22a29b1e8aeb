-- ===== src/Query/Sort.antt =====
-- src/query/sort.rs. The standard library documents `sort_by` for a comparison that orders the items:
-- there is one stable sorted order then, and insertion sort finds it. For another comparison it may
-- panic, or leave the items in any order, and the result is none here.
pub mod Insertion
pub mod Sorted
use mathlib.Core.Option
use dirbase.Prelude.{
  Bool, true, false, not, ◌&&◌, ◌||◌, Option, none, some, List, [], ◌∷◌, Ordering, all,
  if◌then◌else◌, and_then, unwrap_or,
}
use Prim.Native.String.{compare as compare_text}
use dirbase.Json.{Json, as_array, from_array}
use dirbase.Error.{AppError, app_error, bad_request, Result, ok, err}
use dirbase.Runtime.{Runtime, Value}
use dirbase.Query.Types.{SortColumn}
use dirbase.Query.Evaluator.{get_value_at_path, value_to_filter_string, compare_bool, is_greater}

abbrev pub reverse : Ordering → Ordering
reverse Ordering.lt = Ordering.gt
reverse Ordering.gt = Ordering.lt
reverse Ordering.eq = Ordering.eq

-- The first result if it is not `Equal`.
abbrev pub then_with : Ordering → Ordering → Ordering
then_with Ordering.eq later = later
then_with first later = first

unfoldable pub same_ordering : Ordering → Ordering → Bool
same_ordering Ordering.lt Ordering.lt = true
same_ordering Ordering.eq Ordering.eq = true
same_ordering Ordering.gt Ordering.gt = true
same_ordering _ _ = false

module _ {ℓ} {A : Type ℓ} (compare : A → A → Ordering) where
  unfoldable pub insert_sorted : A → List A → List A
  insert_sorted x [] = x ∷ []
  insert_sorted x (y ∷ ys) =
      let later = insert_sorted x ys in if is_greater (compare x y) then y ∷ later else x ∷ y ∷ ys

  unfoldable pub insertion_sort : List A → List A
  unfolding insert_sorted
  insertion_sort [] = []
  insertion_sort (x ∷ xs) = insert_sorted x (insertion_sort xs)

  -- What the standard library asks of the comparison: that it gives the opposite for the items the
  -- other way round, and that an item that does not follow a second one, which does not follow a
  -- third, does not follow the third.
  abbrev pub opposite : A → A → Bool
  opposite x y = same_ordering (compare x y) (reverse (compare y x))

  abbrev pub chained : A → A → A → Bool
  chained x y z =
      is_greater (compare x y) || is_greater (compare y z) || not (is_greater (compare x z))

  unfoldable pub orders : List A → Bool
  orders items = all (λ x. all (λ y. opposite x y && all (chained x y) items) items) items

  -- `items.sort_by(compare)`
  unfoldable pub sort_by : List A → Option (List A)
  sort_by items = if orders items then some (insertion_sort items) else none

module _ ⦃rt : Runtime⦄ where
  compare_floats : Option rt.Float → Option rt.Float → Ordering
  compare_floats left right =
      unwrap_or (and_then left (λ l. and_then right (λ r. rt.float_cmp l r))) Ordering.eq

  unfoldable pub compare_json_values : Value → Value → Ordering
  unfolding compare_floats
  compare_json_values (Json.number left) (Json.number right) =
      compare_floats (rt.number_as_f64 left) (rt.number_as_f64 right)
  compare_json_values (Json.bool left) (Json.bool right) = compare_bool left right
  compare_json_values (Json.string left) (Json.string right) = compare_text left right
  compare_json_values Json.null Json.null = Ordering.eq
  compare_json_values left right =
      compare_text (value_to_filter_string left) (value_to_filter_string right)

  unfoldable pub compare_optional_values : Option Value → Option Value → Ordering
  compare_optional_values (some left) (some right) = compare_json_values left right
  compare_optional_values (some left) none = Ordering.gt
  compare_optional_values none (some right) = Ordering.lt
  compare_optional_values none none = Ordering.eq

  unfoldable pub compare_column : Value → Value → SortColumn → Ordering
  unfolding compare_optional_values
  compare_column left right column =
      let cmp =
        compare_optional_values (get_value_at_path left column.field_path)
          (get_value_at_path right column.field_path) in
      if column.descending then reverse cmp else cmp

  unfoldable pub compare_items_by_columns : List SortColumn → Value → Value → Ordering
  unfolding compare_column
  compare_items_by_columns [] left right = Ordering.eq
  compare_items_by_columns (column ∷ columns) left right =
      then_with (compare_column left right column) (compare_items_by_columns columns left right)

  unfoldable pub sort_collection_refs : List SortColumn → List Value → Option (List Value)
  sort_collection_refs columns items = sort_by (compare_items_by_columns columns) items

  sort_array : List SortColumn → Option (List Value) → Option (Result Value AppError)
  unfolding sort_collection_refs
  sort_array columns none = some (err (app_error bad_request "Resource is not a JSON array"))
  sort_array columns (some items) =
      Option.map (λ sorted. ok (from_array sorted)) (sort_collection_refs columns items)

  -- None stands for the panic, or for any order of the items.
  unfoldable pub sort_collection_data : Value → List SortColumn → Option (Result Value AppError)
  unfolding sort_array
  sort_collection_data value columns = sort_array columns (as_array value)
