-- ===== src/Storage/Validation/Uniqueness/Distinct.antt =====
-- What the two scans for duplicate keys accept.
use dirbase.Prelude.{
  String, false, Option, none, some, List, [], ◌∷◌, ◌≡◌, ◌≢◌, ◌↔◌, refl, sym, ap, ◌∙◌, All,
  Bool-cases, inl, inr, str_eq, eq_iff, is_some_and, map,
}
use mathlib.Core.Bool.{true≢false}
use mathlib.Core.Option.{some-injective}
use text.Mathlib.TextPositions.{eq_refl}
use dirbase.Error.{AppError, ok, err-ne-ok, both_ok}
use dirbase.Runtime.{Runtime, Value}
use dirbase.Schema.Types.{DeclaredTableSchema}
use dirbase.Storage.Validation.Uniqueness.{
  contains, all_new, check_constraints, check_primary_key, violated, duplicate_key, constraint_key,
  primary_key_of, validate_unique_constraints, validate_primary_key_uniqueness,
}

-- No two rows that have a key have the same one.
abbrev pub HasDistinct {ℓ} : {A : Type ℓ} → List (Option A) → Type ℓ
HasDistinct [] = Unit
HasDistinct (none ∷ keys) = HasDistinct keys
HasDistinct (some key ∷ keys) = All (λ other. other ≢ some key) keys × HasDistinct keys

abbrev pub NewTo : List String → List (Option String) → Type 0
NewTo seen = All (λ o. is_some_and o (contains seen) ≡ false)

new_cons :
    (seen : List String) (key : String) (o : Option String)
    → is_some_and o (contains (key ∷ seen)) ≡ false
      ↔ ((o ≢ some key) × (is_some_and o (contains seen) ≡ false))
new_cons seen key none = (λ h. (λ e. cc, refl), λ h. refl)
new_cons seen key (some k) = elim (Bool-cases (str_eq key k)) [
  | inl same ↦ (
    λ h. absurd (true≢false (rw same at h)),
    λ h. absurd (h.0 (ap some (sym ((eq_iff key k).0 same)))),
  )
  | inr other ↦ (
    λ h. (
      λ e. true≢false (sym (eq_refl key) ∙ ap (str_eq key) (sym (some-injective _ _ e)) ∙ other),
      rw other at h,
    ),
    λ h. rw other h.1,
  )
]

pub NewTo-cons :
    (seen : List String) (key : String) (keys : List (Option String))
    → NewTo (key ∷ seen) keys ↔ (All (λ o. o ≢ some key) keys × NewTo seen keys)
NewTo-cons seen key [] = (λ h. (tt, tt), λ h. tt)
NewTo-cons seen key (o ∷ keys) = (
  λ h.
      let a = (new_cons seen key o).0 h.0 in
      let b = (NewTo-cons seen key keys).0 h.1 in ((a.0, b.0), (a.1, b.1)),
  λ h. ((new_cons seen key o).1 (h.0.0, h.1.0), (NewTo-cons seen key keys).1 (h.0.1, h.1.1)),
)

all_new_iff :
    (error : AppError) (seen : List String) (keys : List (Option String))
    → all_new error seen keys ≡ ok tt ↔ (NewTo seen keys × HasDistinct keys)
unfolding all_new
all_new_iff error seen [] = (λ h. (tt, tt), λ h. refl)
all_new_iff error seen (none ∷ keys) = (
  λ h. let a = (all_new_iff error seen keys).0 h in ((refl, a.0), a.1),
  λ h. (all_new_iff error seen keys).1 (h.0.1, h.1),
)
all_new_iff error seen (some key ∷ keys) = elim (Bool-cases (contains seen key)) [
  | inl old ↦ (λ h. absurd (err-ne-ok (rw old at h)), λ h. absurd (true≢false (sym old ∙ h.0.0)))
  | inr new ↦ (
    λ h.
        let a = (all_new_iff error (key ∷ seen) keys).0 (rw new at h) in
        let b = (NewTo-cons seen key keys).0 a.0 in ((new, b.1), (b.0, a.1)),
    λ h. rw new (
        (all_new_iff error (key ∷ seen) keys).1
          ((NewTo-cons seen key keys).1 (h.1.0, h.0.1), h.1.1)),
  )
]

pub NewTo-nil : (keys : List (Option String)) → NewTo [] keys
NewTo-nil [] = tt
NewTo-nil (none ∷ keys) = (refl, NewTo-nil keys)
NewTo-nil (some key ∷ keys) = (refl, NewTo-nil keys)

-- The scan of all rows from the first on.
pub all_new-HasDistinct :
    (error : AppError) (keys : List (Option String))
    → all_new error [] keys ≡ ok tt ↔ HasDistinct keys
all_new-HasDistinct error keys = (
  λ h. ((all_new_iff error [] keys).0 h).1,
  λ h. (all_new_iff error [] keys).1 (NewTo-nil keys, h),
)

module _ ⦃rt : Runtime⦄ where
  check_constraints_iff :
      (resource : String) (array : List Value) (constraints : List (List String))
      → check_constraints resource array constraints ≡ ok tt
        ↔ All (λ constraint. HasDistinct (map (constraint_key constraint) array)) constraints
  unfolding check_constraints
  check_constraints_iff resource array [] = (λ h. tt, λ h. refl)
  check_constraints_iff resource array (constraint ∷ constraints) =
      let keys = map (constraint_key constraint) array in
      let here = all_new-HasDistinct (violated resource constraint) keys in
      let later = check_constraints_iff resource array constraints in
      let both =
        both_ok (all_new (violated resource constraint) [] keys)
          (check_constraints resource array constraints) in
      (λ h. (here.0 (both.0 h).0, later.0 (both.0 h).1), λ h. both.1 (here.1 h.0, later.1 h.1))

  -- The unique constraints hold just when, for each, no two rows with a key have the same one.
  pub validate_unique_constraints_iff :
      (resource : String) (array : List Value) (table : DeclaredTableSchema)
      → validate_unique_constraints resource array table ≡ ok tt
        ↔ All (λ constraint. HasDistinct (map (constraint_key constraint) array)) table.unique
  unfolding validate_unique_constraints
  validate_unique_constraints_iff resource array table =
      check_constraints_iff resource array table.unique

  -- No two rows have the same primary key, if the table has one.
  unfoldable pub HasDistinctPrimary : List Value → Option String → Type 0
  HasDistinctPrimary array none = Unit
  HasDistinctPrimary array (some key) = HasDistinct (map (primary_key_of key) array)

  check_primary_key_iff :
      (resource : String) (array : List Value) (key : Option String)
      → check_primary_key resource array key ≡ ok tt ↔ HasDistinctPrimary array key
  unfolding check_primary_key HasDistinctPrimary
  check_primary_key_iff resource array none = (λ h. tt, λ h. refl)
  check_primary_key_iff resource array (some key) =
      all_new-HasDistinct (duplicate_key resource key) (map (primary_key_of key) array)

  pub validate_primary_key_uniqueness_iff :
      (resource : String) (array : List Value) (table : DeclaredTableSchema)
      → validate_primary_key_uniqueness resource array table ≡ ok tt
        ↔ HasDistinctPrimary array table.primary_key
  unfolding validate_primary_key_uniqueness
  validate_primary_key_uniqueness_iff resource array table =
      check_primary_key_iff resource array table.primary_key
