-- ===== src/App/Action.antt =====
-- A handler's run: it changes the shared state and returns a result. What it changed before an error
-- stays changed.
use dirbase.Prelude.{◌≡◌, refl, sym, ap}
use dirbase.Error.{AppError, Result, ok, err, err-ne-ok, ok-injective}

abbrev pub Action {ℓ κ} : Type ℓ → Type κ → Type (ℓ ⊔ κ)
Action S A = S → S × Result A AppError

module _ {ℓ κ} {S : Type ℓ} {A : Type κ} where
  abbrev pub return : A → Action S A
  return a s = (s, ok a)

  abbrev pub fail : AppError → Action S A
  fail e s = (s, err e)

  abbrev pub lift : Result A AppError → Action S A
  lift r s = (s, r)

  abbrev pub gets : (S → A) → Action S A
  gets f s = (s, ok (f s))

abbrev pub modify {ℓ} : {S : Type ℓ} → (S → S) → Action S (Unit {0})
modify f s = (f s, ok tt)

-- What follows a step, from the state that the step left.
unfoldable pub proceed {ℓ κ ν} :
    {S : Type ℓ} {A : Type κ} {B : Type ν}
    → S × Result A AppError
    → (A → Action S B)
    → S × Result B AppError
proceed (s, err e) next = (s, err e)
proceed (s, ok a) next = next a s

module _ {ℓ κ ν} {S : Type ℓ} {A : Type κ} {B : Type ν} where
  infixl 5 ◌>>=◌ ◌>>◌
  abbrev pub ◌>>=◌ : Action S A → (A → Action S B) → Action S B
  ◌>>=◌ first next s = proceed (first s) next

  abbrev pub ◌>>◌ : Action S A → Action S B → Action S B
  first >> second = first >>= (λ _. second)

  -- A chain that succeeds has succeeded at its first step, and goes on from the state this left.
  pub proceed-eq-ok :
      (first : S × Result A AppError) (next : A → Action S B) {answer : B}
      → (proceed first next).1 ≡ ok answer
      → (value : A) × ((first.1 ≡ ok value) × (proceed first next ≡ next value first.0))
  unfolding proceed
  proceed-eq-ok (s, err e) next h = cc
  proceed-eq-ok (s, ok a) next h = (a, (refl, refl))

  pub proceed-eq-next :
      (first : S × Result A AppError) (next : A → Action S B) (value : A)
      → first.1 ≡ ok value
      → proceed first next ≡ next value first.0
  unfolding proceed
  proceed-eq-next (s, err e) next value h = absurd (err-ne-ok h)
  proceed-eq-next (s, ok a) next value h = ap (λ v. next v s) (ok-injective h)

  pub proceed-eq-err :
      (first : S × Result A AppError) (next : A → Action S B) (failure : AppError)
      → first.1 ≡ err failure
      → proceed first next ≡ (first.0, err failure)
  unfolding proceed
  proceed-eq-err (s, err e) next failure h = cc
  proceed-eq-err (s, ok a) next failure h = absurd (err-ne-ok (sym h))

  -- What holds after the first step and after each step that may follow holds after both.
  pub proceed-All {μ} :
      (P : S → Type μ) (first : S × Result A AppError) (next : A → Action S B)
      → P first.0
      → ((value : A) → first.1 ≡ ok value → P (next value first.0).0)
      → P (proceed first next).0
  unfolding proceed
  proceed-All P (s, err e) next here later = here
  proceed-All P (s, ok a) next here later = later a refl

abbrev pub Succeeds {ℓ} : {A : Type ℓ} → Result A AppError → Type ℓ
Succeeds {A} result = (value : A) × (result ≡ ok value)

module _ {ℓ κ ν} {S : Type ℓ} {A : Type κ} {B : Type ν} where
  -- What the second step ensures when it succeeds, the chain ensures when it succeeds.
  pub proceed-Ensures {μ} :
      (P : S → Type μ) (first : S × Result A AppError) (next : A → Action S B)
      → ((value : A)
          → first.1 ≡ ok value
          → Succeeds (next value first.0).1
          → P (next value first.0).0)
      → Succeeds (proceed first next).1
      → P (proceed first next).0
  unfolding proceed
  proceed-Ensures P (s, err e) next later h = absurd (err-ne-ok h.1)
  proceed-Ensures P (s, ok a) next later h = later a refl h
