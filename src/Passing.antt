-- ===== src/Passing.antt =====
-- What a test that did not raise says, for all the code that raises.
use k8s_incident_agent.Prelude.{
  ℕ, ◌≡◌, refl, ap, Bool, true, false, not, ◌&&◌, ◌||◌, Option, none, some, String, eq_iff, says,
  equals, ==→eq, arith,
}
use k8s_incident_agent.Outcome.{Error, Outcome, ok, ◌>>◌, raise_if}
use k8s_incident_agent.Equality.{Equality, same}

-- A test that did not raise.
pub passed {ℓ} :
    {A : Type ℓ} (b : Bool) (e : Error) (rest : Outcome A) {a : A}
    → (raise_if b e >> rest) ≡ ok a
    → (b ≡ false) × (rest ≡ ok a)
passed true e rest h = cc
passed false e rest h = (refl, h)

-- The same where it is the last statement.
pub last_passed : (b : Bool) (e : Error) {u : Unit {0}} → raise_if b e ≡ ok u → b ≡ false
last_passed true e h = cc
last_passed false e h = refl

pub says-some : (o : Option String) (s : String) → not (says o s) ≡ false → o ≡ some s
says-some none s h = cc
says-some (some t) s h = ap some ((eq_iff t s).0 (ground arith))

pub same-eq : {A : Type 0} ⦃e : Equality A⦄ (a b : A) → not (same a b) ≡ false → a ≡ b
same-eq ⦃e⦄ a b h = e.sound a b (ground arith)

-- Neither of two tests that `or` joins.
pub neither : (a b : Bool) → (a || b) ≡ false → (a ≡ false) × (b ≡ false)
neither true b h = cc
neither false b h = (refl, h)

pub &&-both : (a b : Bool) → (a && b) ≡ true → (a ≡ true) × (b ≡ true)
&&-both true b h = (refl, h)
&&-both false b h = ground arith

pub not-false : (b : Bool) → not b ≡ false → b ≡ true
not-false true h = refl
not-false false h = ground arith

pub equals-some : (o : Option ℕ) (k : ℕ) → equals o k ≡ true → o ≡ some k
equals-some none k h = ground arith
equals-some (some j) k h = ap some (==→eq j k h)
