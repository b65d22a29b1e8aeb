-- ===== src/Storage/Index/Fresh.antt =====
-- The id that a created item is given.
use dirbase.Prelude.{
  zero, suc, ◌-◌, ◌^◌, ◌<◌, String, true, false, Option, none, some, List, [], ◌∷◌, arith, ◌≡◌, ◌≢◌,
  subst, All, and_then, Bool-cases, inl, inr,
}
use dirbase.Prelude.Int.{ℤ, pos, negsuc, pos_part, leb_ℤ, ◌≤ℤ◌, wrapping_suc}
use mathlib.Core.Option.{some-injective}
use dirbase.Runtime.{Runtime, Value, as_i64}
use dirbase.Storage.Index.{value_at, larger, max_id, after_max, next_numeric_id}

-- What the largest id says of one id.
Bounded : Option ℤ → Option ℤ → Type 0
Bounded m none = Unit
Bounded none (some z) = ⊥
Bounded (some m) (some z) = z ≤ℤ m

-- The id is missing, or is below the largest `i64`.
abbrev pub BelowMax : Option ℤ → Type 0
BelowMax none = Unit
BelowMax (some z) = pos_part z < 2 ^ 63 - 1

leb_ℤ→≤ℤ : (a b : ℤ) → leb_ℤ a b ≡ true → a ≤ℤ b
leb_ℤ→≤ℤ (pos m) (pos n) h = ground arith
leb_ℤ→≤ℤ (pos m) (negsuc n) h = cc
leb_ℤ→≤ℤ (negsuc m) (pos n) h = omega arith
leb_ℤ→≤ℤ (negsuc m) (negsuc n) h = ground arith

≤ℤ_of_not_leb : (a b : ℤ) → leb_ℤ a b ≡ false → b ≤ℤ a
≤ℤ_of_not_leb (pos m) (pos n) h = ground arith
≤ℤ_of_not_leb (pos m) (negsuc n) h = omega arith
≤ℤ_of_not_leb (negsuc m) (pos n) h = cc
≤ℤ_of_not_leb (negsuc m) (negsuc n) h = ground arith

Bounded-first : (a b : Option ℤ) → Bounded (larger a b) a
unfolding Bounded larger
Bounded-first none b = tt
Bounded-first (some a) none = omega arith
Bounded-first (some a) (some b) = elim (Bool-cases (leb_ℤ a b)) [
  | inl le ↦ rw le (leb_ℤ→≤ℤ a b le)
  | inr gt ↦ rw gt (omega arith)
]

Bounded-second : (a b o : Option ℤ) → Bounded b o → Bounded (larger a b) o
unfolding Bounded larger
Bounded-second none b o h = h
Bounded-second (some a) b none h = tt
Bounded-second (some a) none (some z) h = elim h [ ]
Bounded-second (some a) (some b) (some z) h = elim (Bool-cases (leb_ℤ a b)) [
  | inl le ↦ rw le h
  | inr gt ↦ rw gt (omega (arith, ≤ℤ_of_not_leb a b gt))
]

BelowMax-larger : (a b : Option ℤ) → BelowMax a → BelowMax b → BelowMax (larger a b)
unfolding larger
BelowMax-larger none b h k = k
BelowMax-larger (some a) none h k = h
BelowMax-larger (some a) (some b) h k = elim (Bool-cases (leb_ℤ a b)) [
  | inl le ↦ rw le k
  | inr gt ↦ rw gt h
]

wrapping_suc-gt : (m : ℤ) → pos_part m < 2 ^ 63 - 1 → ¬ (wrapping_suc m ≤ℤ m)
unfolding wrapping_suc
wrapping_suc-gt (pos n) h k = ground arith
wrapping_suc-gt (negsuc zero) h k = omega arith
wrapping_suc-gt (negsuc (suc n)) h k = omega arith

after_max-ne : (m : Option ℤ) (z : ℤ) → BelowMax m → Bounded m (some z) → z ≢ after_max m
unfolding Bounded after_max
after_max-ne none z below h e = elim h [ ]
after_max-ne (some m) z below h e = wrapping_suc-gt m below (subst (λ y. y ≤ℤ m) e h)

module _ ⦃rt : Runtime⦄ (key_name : String) where
  -- The id of an item as an `i64`, if it is one.
  abbrev pub numeric_id : Value → Option ℤ
  numeric_id item = and_then (value_at key_name item) as_i64

  All-Bounded_second :
      (a b : Option ℤ) (items : List Value)
      → All (λ item. Bounded b (numeric_id item)) items
      → All (λ item. Bounded (larger a b) (numeric_id item)) items
  All-Bounded_second a b [] h = tt
  All-Bounded_second a b (item ∷ items) h =
      (Bounded-second a b (numeric_id item) h.0, All-Bounded_second a b items h.1)

  max_id-Bounded :
      (items : List Value) → All (λ item. Bounded (max_id items key_name) (numeric_id item)) items
  unfolding max_id
  max_id-Bounded [] = tt
  max_id-Bounded (item ∷ items) = (
    Bounded-first (numeric_id item) (max_id items key_name),
    All-Bounded_second (numeric_id item) (max_id items key_name) items (max_id-Bounded items),
  )

  max_id-BelowMax :
      (items : List Value)
      → All (λ item. BelowMax (numeric_id item)) items
      → BelowMax (max_id items key_name)
  unfolding max_id
  max_id-BelowMax [] h = tt
  max_id-BelowMax (item ∷ items) h =
      BelowMax-larger (numeric_id item) (max_id items key_name) h.0 (max_id-BelowMax items h.1)

  fresh_of_bounds :
      (m : Option ℤ) (items : List Value)
      → BelowMax m
      → All (λ item. Bounded m (numeric_id item)) items
      → All (λ item. numeric_id item ≢ some (after_max m)) items
  fresh_of_bounds m [] below h = tt
  fresh_of_bounds m (item ∷ items) below h =
      (ne (numeric_id item) h.0, fresh_of_bounds m items below h.1)
    where
      ne : (o : Option ℤ) → Bounded m o → o ≢ some (after_max m)
      ne none k e = cc
      ne (some z) k e = after_max-ne m z below k (some-injective _ _ e)

  -- The generated id is no item's numeric id, as long as no item has the largest `i64` for its id.
  pub next_numeric_id-fresh :
      (items : List Value)
      → All (λ item. BelowMax (numeric_id item)) items
      → All (λ item. numeric_id item ≢ some (next_numeric_id items key_name)) items
  unfolding next_numeric_id
  next_numeric_id-fresh items below =
      fresh_of_bounds (max_id items key_name) items (max_id-BelowMax items below)
        (max_id-Bounded items)
