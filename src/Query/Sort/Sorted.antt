-- ===== src/Query/Sort/Sorted.antt =====
-- What sorting by columns gives.
use mathlib.Core.List.{Perm}
use mathlib.Core.Bool.{true≢false}
use dirbase.Prelude.{
  Bool, true, false, some, List, [], ◌∷◌, Ordering, ◌≡◌, ◌⊎◌, inl, inr, refl, ap, ◌∙◌, All, filter,
  if◌then◌else◌,
}
use dirbase.Json.{as_array, from_array}
use dirbase.Error.{ok}
use dirbase.Runtime.{Runtime, Value}
use dirbase.Query.Types.{SortColumn}
use dirbase.Query.Evaluator.{is_greater, get_value_at_path}
use dirbase.Query.Sort.{
  reverse, then_with, compare_optional_values, compare_column, compare_items_by_columns, orders,
  insertion_sort, sort_collection_refs, sort_collection_data, sort_array,
}
use dirbase.Query.Sort.Insertion.{
  IsSorted, IsSorted-imp, insertion_sort-Perm, insertion_sort-IsSorted, filter-insertion_sort,
  sort_by-eq-some,
}

module _ ⦃rt : Runtime⦄ where
  -- How the values of two rows in a column compare.
  abbrev pub values_in : SortColumn → Value → Value → Ordering
  values_in column x y =
      compare_optional_values (get_value_at_path x column.field_path)
        (get_value_at_path y column.field_path)

  abbrev first_of : Bool → Ordering
  first_of true = Ordering.gt
  first_of false = Ordering.lt

  -- The first column that tells the rows apart has the lesser value in the first row, or the greater
  -- one if the column is descending; or no column tells them apart.
  pub Before : List SortColumn → Value → Value → Type 0
  Before [] x y = Unit
  Before (column ∷ columns) x y =
      (values_in column x y ≡ first_of column.descending)
      ⊎ ((values_in column x y ≡ Ordering.eq) × Before columns x y)

  -- The columns do not tell any two of the rows apart that `p` picks.
  abbrev pub Tied : List SortColumn → (Value → Bool) → Type 0
  Tied columns p =
      (x y : Value)
      → p x ≡ true
      → p y ≡ true
      → All (λ column. values_in column x y ≡ Ordering.eq) columns

  by_first :
      {P : Type 0} (ordering later : Ordering) (descending : Bool)
      → (is_greater later ≡ false → P)
      → is_greater (then_with (if descending then reverse ordering else ordering) later) ≡ false
      → (ordering ≡ first_of descending) ⊎ ((ordering ≡ Ordering.eq) × P)
  by_first Ordering.lt later false f h = inl refl
  by_first Ordering.gt later true f h = inl refl
  by_first Ordering.eq later true f h = inr (refl, f h)
  by_first Ordering.eq later false f h = inr (refl, f h)
  by_first Ordering.lt later true f h = absurd (true≢false h)
  by_first Ordering.gt later false f h = absurd (true≢false h)

  NotAfter-Before :
      (columns : List SortColumn) (x y : Value)
      → is_greater (compare_items_by_columns columns x y) ≡ false
      → Before columns x y
  unfolding compare_items_by_columns compare_column Before
  NotAfter-Before [] x y h = tt
  NotAfter-Before (column ∷ columns) x y h =
      by_first (values_in column x y) (compare_items_by_columns columns x y) column.descending
        (NotAfter-Before columns x y) h

  tied_order :
      (ordering later : Ordering) (descending : Bool)
      → ordering ≡ Ordering.eq
      → then_with (if descending then reverse ordering else ordering) later ≡ later
  tied_order Ordering.eq later true h = refl
  tied_order Ordering.eq later false h = refl
  tied_order Ordering.lt later descending h = cc
  tied_order Ordering.gt later descending h = cc

  tied-NotAfter :
      (columns : List SortColumn) (x y : Value)
      → All (λ column. values_in column x y ≡ Ordering.eq) columns
      → is_greater (compare_items_by_columns columns x y) ≡ false
  unfolding compare_items_by_columns compare_column
  tied-NotAfter [] x y h = refl
  tied-NotAfter (column ∷ columns) x y h =
      ap is_greater (
        tied_order (values_in column x y) (compare_items_by_columns columns x y) column.descending
          h.0)
      ∙ tied-NotAfter columns x y h.1

  -- An array whose items the columns put in an order is sorted without a panic: the result has the
  -- same items, each stands before the later ones by the first column that tells the two apart,
  -- ascending or descending as the column says, and items that no column tells apart keep their order.
  pub sort_collection_data-IsSorted :
      (columns : List SortColumn) (value : Value) (items : List Value)
      → as_array value ≡ some items
      → orders (compare_items_by_columns columns) items ≡ true
      → (result : List Value) × (sort_collection_data value columns ≡ some (ok (from_array result)))
        × Perm result items
        × IsSorted (Before columns) result
        × ((p : Value → Bool) → Tied columns p → filter p result ≡ filter p items)
  unfolding sort_collection_data sort_array sort_collection_refs
  sort_collection_data-IsSorted columns value items is_items ordered =
      let compare = compare_items_by_columns columns in
      (
        insertion_sort compare items,
        rw (is_items, sort_by-eq-some compare items ordered) refl,
        insertion_sort-Perm compare items,
        IsSorted-imp (NotAfter-Before columns) (insertion_sort compare items)
            (insertion_sort-IsSorted compare items ordered),
        λ p tied.
            filter-insertion_sort compare p
              (λ x y px py. tied-NotAfter columns x y (tied x y px py)) items,
      )
