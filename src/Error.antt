-- ===== src/Error.antt =====
-- src/error.rs: the error that a handler returns, and the `Result` of the fallible functions.
use dirbase.Prelude.{String, ◌≡◌, ◌≢◌, ◌↔◌, refl, Option, none, some}

-- The status codes that the program answers with.
pub data StatusCode : Type 0 where
  bad_request unauthorized not_found conflict payload_too_large internal_server_error : StatusCode

pub record AppError : Type 0 where
  pub status : StatusCode
  pub message : String
  pub code : Option String

-- `AppError::new`, whose other constructors only fix the status.
abbrev pub app_error : StatusCode → String → AppError
app_error status message = record { status = status; message = message; code = none }

abbrev pub with_code : AppError → String → AppError
with_code e code = record e { code = some code }

pub data Result {ℓ κ} (A : Type ℓ) (E : Type κ) : Type (ℓ ⊔ κ) where
  ok : A → Result A E
  err : E → Result A E

-- `?`: an error returns early.
module _ {ℓ κ ν} {A : Type ℓ} {B : Type κ} {E : Type ν} where
  infixl 5 ◌>>=◌ ◌>>◌
  abbrev pub ◌>>=◌ : Result A E → (A → Result B E) → Result B E
  err failure >>= next = err failure
  ok value >>= next = next value

  abbrev pub ◌>>◌ : Result A E → Result B E → Result B E
  first >> second = first >>= (λ _. second)

  -- A chain that succeeds has succeeded at its first step.
  pub >>=-eq-ok :
      (first : Result A E) (next : A → Result B E) {answer : B}
      → (first >>= next) ≡ ok answer
      → (value : A) × (first ≡ ok value) × (next value ≡ ok answer)
  >>=-eq-ok (err failure) next done = cc
  >>=-eq-ok (ok value) next done = (value, refl, done)

-- `option.ok_or_else(...)`
abbrev pub ok_or {ℓ κ} : {A : Type ℓ} {E : Type κ} → Option A → E → Result A E
ok_or none e = err e
ok_or (some a) e = ok a

pub ok_or-eq-ok {ℓ κ} :
    {A : Type ℓ} {E : Type κ} (o : Option A) (e : E) {a : A} → ok_or o e ≡ ok a → o ≡ some a
ok_or-eq-ok none e h = cc
ok_or-eq-ok (some a) e h = cc

pub ok-injective {ℓ κ} :
    {A : Type ℓ} {E : Type κ} {a b : A} → ◌≡◌ {A = Result A E} (ok a) (ok b) → a ≡ b
ok-injective h = cc

pub err-ne-ok {ℓ κ} :
    {A : Type ℓ} {E : Type κ} {e : E} {a : A} → ◌≢◌ {A = Result A E} (err e) (ok a)
err-ne-ok h = cc

-- Two steps succeed just when each does.
pub both_ok {κ} :
    {E : Type κ} (m k : Result (Unit {0}) E) → (m >> k) ≡ ok tt ↔ ((m ≡ ok tt) × (k ≡ ok tt))
both_ok (ok u) k = (λ h. (refl, h), λ h. h.1)
both_ok (err e) k = (λ h. absurd (err-ne-ok h), λ h. absurd (err-ne-ok h.0))
