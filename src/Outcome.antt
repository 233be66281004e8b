-- ===== src/Outcome.antt =====
-- Python's exceptions as values, for the code under backend/app/persistence and backend/app/runtime.
use k8s_incident_agent.Prelude.{String, Bool, true, false, Option, none, some, ◌≡◌, refl}

-- The exceptions that the modelled code raises. A text is the message where the code tells
-- exceptions of one class apart by it.
pub data Error : Type 0 where
  lease_lost lock_timeout unsafe_retry approval_conflict idempotency_conflict type_error
        integrity_error :
      Error
  api_error other_exception : Error
  value_error budget_exceeded outcome_unknown : String → Error

pub data Outcome {ℓ} (A : Type ℓ) : Type ℓ where
  ok : A → Outcome A
  raised : Error → Outcome A

-- Subscripting a row that `fetchone` did not find.
abbrev pub row_of {ℓ} : {A : Type ℓ} → Option A → Outcome A
row_of none = raised type_error
row_of (some a) = ok a

-- A transaction that raises is rolled back.
abbrev pub committed {ℓ} : {A : Type ℓ} → A → Outcome A → A
committed before (ok after) = after
committed before (raised e) = before

-- `if test: raise error`
abbrev pub raise_if : Bool → Error → Outcome (Unit {0})
raise_if true error = raised error
raise_if false error = ok tt

module _ {ℓ κ} {A : Type ℓ} {B : Type κ} where
  infixl 5 ◌>>=◌
  -- The statements after the one that may raise.
  abbrev pub ◌>>=◌ : Outcome A → (A → Outcome B) → Outcome B
  raised error >>= rest = raised error
  ok value >>= rest = rest value

  -- What returns has returned at each statement.
  pub >>=-eq-ok :
      (first : Outcome A) (rest : A → Outcome B) {b : B}
      → (first >>= rest) ≡ ok b
      → (value : A) × (first ≡ ok value) × (rest value ≡ ok b)
  >>=-eq-ok (raised error) rest returned = cc
  >>=-eq-ok (ok value) rest returned = (value, refl, returned)

infixl 5 ◌>>◌
abbrev pub ◌>>◌ {κ} : {B : Type κ} → Outcome (Unit {0}) → Outcome B → Outcome B
test >> rest = test >>= λ _. rest
