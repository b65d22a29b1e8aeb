-- ===== src/Query/Sort/Insertion.antt =====
-- Insertion sort by a comparison that orders the items.
use mathlib.Core.List.Perm
use dirbase.Prelude.{
  Bool, true, false, not, ◌&&◌, ◌||◌, List, [], ◌∷◌, Ordering, ◌≡◌, refl, sym, ap, ◌∙◌, All, all,
  filter, Bool-cases, inl, inr, if◌then◌else◌, some, both_true,
}
use mathlib.Core.List.{Perm}
use mathlib.Core.Bool.{true≢false}
use dirbase.Query.Evaluator.{is_greater}
use dirbase.Query.Sort.{
  insert_sorted, insertion_sort, sort_by, orders, opposite, chained, same_ordering, reverse,
}

module _ {ℓ κ} {A : Type ℓ} (R : A → A → Type κ) where
  -- Every item stands in the relation to every later one.
  pub IsSorted : List A → Type κ
  IsSorted [] = Unit
  IsSorted (x ∷ xs) = All (R x) xs × IsSorted xs

module _ {ℓ κ ν} {A : Type ℓ} {P : A → Type κ} {Q : A → Type ν} (f : (x : A) → P x → Q x) where
  pub All-imp : (xs : List A) → All P xs → All Q xs
  All-imp [] h = tt
  All-imp (x ∷ xs) h = (f x h.0, All-imp xs h.1)

module _ {ℓ κ ν} {A : Type ℓ} {R : A → A → Type κ} {S : A → A → Type ν}
    (f : (x y : A) → R x y → S x y) where
  pub IsSorted-imp : (xs : List A) → IsSorted R xs → IsSorted S xs
  unfolding IsSorted
  IsSorted-imp [] h = tt
  IsSorted-imp (x ∷ xs) h = (All-imp (f x) xs h.0, IsSorted-imp xs h.1)

not_greater_back :
    (a b : Ordering)
    → same_ordering a (reverse b) ≡ true
    → is_greater a ≡ true
    → is_greater b ≡ false
unfolding same_ordering
not_greater_back Ordering.gt Ordering.lt h k = refl
not_greater_back Ordering.gt Ordering.eq h k = absurd (true≢false (sym h))
not_greater_back Ordering.gt Ordering.gt h k = absurd (true≢false (sym h))
not_greater_back Ordering.lt b h k = absurd (true≢false (sym k))
not_greater_back Ordering.eq b h k = absurd (true≢false (sym k))

not_greater_on : (a b c : Bool) → (a || b || not c) ≡ true → a ≡ false → b ≡ false → c ≡ false
not_greater_on a b true h k l = absurd (true≢false (sym h ∙ rw (k, l) refl))
not_greater_on a b false h k l = refl

module _ {ℓ} {A : Type ℓ} where
  -- The item passes every test that all items pass.
  abbrev Within : List A → A → Type ℓ
  Within items x = (q : A → Bool) → all q items ≡ true → q x ≡ true

  All-Within : (items : List A) → All (Within items) items
  All-Within [] = tt
  All-Within (x ∷ xs) = (
    λ q h. (both_true (q x) (all q xs) h).0,
    All-imp (λ y within q h. within q (both_true (q x) (all q xs) h).1) xs (All-Within xs),
  )

module _ {ℓ} {A : Type ℓ} (compare : A → A → Ordering) where
  insert_sorted-Perm : (x : A) (ys : List A) → Perm (insert_sorted compare x ys) (x ∷ ys)
  unfolding insert_sorted
  insert_sorted-Perm x [] = Perm.refl _
  insert_sorted-Perm x (y ∷ ys) = elim (Bool-cases (is_greater (compare x y))) [
    | inl gt ↦ rw gt (Perm.trans (Perm.cons y (insert_sorted-Perm x ys)) (Perm.swap _ _ _))
    | inr le ↦ rw le (Perm.refl _)
  ]

  pub insertion_sort-Perm : (xs : List A) → Perm (insertion_sort compare xs) xs
  unfolding insertion_sort
  insertion_sort-Perm [] = Perm.refl _
  insertion_sort-Perm (x ∷ xs) =
      Perm.trans (insert_sorted-Perm x (insertion_sort compare xs))
        (Perm.cons x (insertion_sort-Perm xs))

  module _ (p : A → Bool)
      (tied : (x y : A) → p x ≡ true → p y ≡ true → is_greater (compare x y) ≡ false) where
    swapped :
        (x y : A) (rest : List A)
        → is_greater (compare x y) ≡ true
        → (if p y then y ∷ (if p x then x ∷ rest else rest) else (if p x then x ∷ rest else rest))
          ≡ (if p x then x ∷ (if p y then y ∷ rest else rest) else (if p y then y ∷ rest else rest))
    swapped x y rest gt = elim (Bool-cases (p x)) [
      | inl px ↦ elim (Bool-cases (p y)) [
        | inl py ↦ absurd (true≢false (sym gt ∙ tied x y px py))
        | inr ny ↦ rw (px, ny) refl
      ]
      | inr nx ↦ rw nx refl
    ]

    filter-insert_sorted :
        (x : A) (ys : List A) → filter p (insert_sorted compare x ys) ≡ filter p (x ∷ ys)
    unfolding insert_sorted
    filter-insert_sorted x [] = refl
    filter-insert_sorted x (y ∷ ys) = elim (Bool-cases (is_greater (compare x y))) [
      | inl gt ↦ rw gt (
          ap (λ rest. if p y then y ∷ rest else rest) (filter-insert_sorted x ys)
          ∙ swapped x y (filter p ys) gt)
      | inr le ↦ rw le refl
    ]

    -- Items that tie with each other keep their order.
    pub filter-insertion_sort : (xs : List A) → filter p (insertion_sort compare xs) ≡ filter p xs
    unfolding insertion_sort
    filter-insertion_sort [] = refl
    filter-insertion_sort (x ∷ xs) =
        filter-insert_sorted x (insertion_sort compare xs)
        ∙ ap (λ rest. if p x then x ∷ rest else rest) (filter-insertion_sort xs)

  -- The first item does not follow the second.
  abbrev pub NotAfter : A → A → Type 0
  NotAfter x y = is_greater (compare x y) ≡ false

  module _ {κ} (Q : A → Type κ) where
    insert_sorted-All : (x : A) (ys : List A) → All Q (x ∷ ys) → All Q (insert_sorted compare x ys)
    unfolding insert_sorted
    insert_sorted-All x [] h = h
    insert_sorted-All x (y ∷ ys) h = elim (Bool-cases (is_greater (compare x y))) [
      | inl gt ↦ rw gt ((h.1.0, insert_sorted-All x ys (h.0, h.1.1)))
      | inr le ↦ rw le h
    ]

    insertion_sort-All : (xs : List A) → All Q xs → All Q (insertion_sort compare xs)
    unfolding insertion_sort
    insertion_sort-All [] h = tt
    insertion_sort-All (x ∷ xs) h =
        insert_sorted-All x (insertion_sort compare xs) (h.0, insertion_sort-All xs h.1)

  module _ (items : List A) (ordered : orders compare items ≡ true) where
    laws :
        (x y : A)
        → Within items x
        → Within items y
        → (opposite compare x y ≡ true) × (all (chained compare x y) items ≡ true)
    unfolding orders
    laws x y of_x of_y = both_true (opposite compare x y) (all (chained compare x y) items) (
        of_y (λ z. opposite compare x z && all (chained compare x z) items)
          (of_x (λ w. all (λ z. opposite compare w z && all (chained compare w z) items) items)
            ordered))

    after-NotAfter :
        (x y : A) → Within items x → Within items y → is_greater (compare x y) ≡ true → NotAfter y x
    after-NotAfter x y of_x of_y gt =
        not_greater_back (compare x y) (compare y x) (laws x y of_x of_y).0 gt

    NotAfter-trans :
        (x y z : A)
        → Within items x
        → Within items y
        → Within items z
        → NotAfter x y
        → NotAfter y z
        → NotAfter x z
    NotAfter-trans x y z of_x of_y of_z =
        not_greater_on (is_greater (compare x y)) (is_greater (compare y z))
          (is_greater (compare x z)) (of_z (chained compare x y) (laws x y of_x of_y).1)

    All-after :
        (x y : A) (ys : List A)
        → Within items x
        → Within items y
        → NotAfter x y
        → All (Within items) ys
        → All (NotAfter y) ys
        → All (NotAfter x) ys
    All-after x y [] of_x of_y le within later = tt
    All-after x y (z ∷ ys) of_x of_y le within later = (
      NotAfter-trans x y z of_x of_y within.0 le later.0,
      All-after x y ys of_x of_y le within.1 later.1,
    )

    insert_sorted-IsSorted :
        (x : A) (ys : List A)
        → Within items x
        → All (Within items) ys
        → IsSorted NotAfter ys
        → IsSorted NotAfter (insert_sorted compare x ys)
    unfolding insert_sorted IsSorted
    insert_sorted-IsSorted x [] of_x within sorted = (tt, tt)
    insert_sorted-IsSorted x (y ∷ ys) of_x within sorted =
        elim (Bool-cases (is_greater (compare x y))) [
          | inl gt ↦ rw gt (
              (
                insert_sorted-All (NotAfter y) x ys (after-NotAfter x y of_x within.0 gt, sorted.0),
                insert_sorted-IsSorted x ys of_x within.1 sorted.1,
              ))
          | inr le ↦ rw le (((le, All-after x y ys of_x within.0 le within.1 sorted.0), sorted))
        ]

    IsSorted-part :
        (xs : List A) → All (Within items) xs → IsSorted NotAfter (insertion_sort compare xs)
    unfolding insertion_sort IsSorted
    IsSorted-part [] within = tt
    IsSorted-part (x ∷ xs) within =
        insert_sorted-IsSorted x (insertion_sort compare xs) within.0
          (insertion_sort-All (Within items) xs within.1) (IsSorted-part xs within.1)

    -- No item follows a later one.
    pub insertion_sort-IsSorted : IsSorted NotAfter (insertion_sort compare items)
    insertion_sort-IsSorted = IsSorted-part items (All-Within items)

    pub sort_by-eq-some : sort_by compare items ≡ some (insertion_sort compare items)
    unfolding sort_by
    sort_by-eq-some = rw ordered refl
