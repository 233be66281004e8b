-- ===== src/Diagnosis/Loops.antt =====
-- What holds of the result of the loops and of the early returns of backend/app/diagnosis/rules.py.
use mathlib.Core.List.{Memᴰ}
use k8s_incident_agent.Prelude.{
  any, ap, sym, subst, Bool-cases, inl, inr, arith, Holds, or_else, get_or, ◌≡◌, refl, Bool, true,
  false, Option, none, some, List, [], ◌∷◌, String, if◌then◌else◌,
}
use k8s_incident_agent.Evidence.{EventInfo}
use k8s_incident_agent.Diagnosis.{first_some}
use k8s_incident_agent.Diagnosis.Engine.{is_probe_failure, last_probe_failure}

module _ {A : Type 0} (P : A → Type 0) where
  pub or_else-Holds : (o p : Option A) → Holds P o → Holds P p → Holds P (or_else o p)
  or_else-Holds none p h k = k
  or_else-Holds (some a) p h k = h

  pub get_or-Holds : (o : Option A) (a : A) → Holds P o → P a → P (get_or o a)
  get_or-Holds none a h p = p
  get_or-Holds (some x) a h p = h

  pub first_some-Holds :
      {B : Type 0} (f : B → Option A) (xs : List B)
      → ((x : B) → Memᴰ x xs → Holds P (f x))
      → Holds P (first_some f xs)
  first_some-Holds f [] h = tt
  first_some-Holds f (x ∷ xs) h =
      or_else-Holds (f x) (first_some f xs) (h x (Memᴰ.head refl))
        (first_some-Holds f xs (λ y m. h y (Memᴰ.tail m)))

  pub if-Holds : (t : Bool) (a : A) → (t ≡ true → P a) → Holds P (if t then some a else none)
  if-Holds true a p = p refl
  if-Holds false a p = tt

  pub else-Holds :
      (t : Bool) (o : Option A) → (t ≡ false → Holds P o) → Holds P (if t then none else o)
  else-Holds true o p = tt
  else-Holds false o p = p refl

  -- Four early returns before the result.
  pub guards-Holds :
      (t1 t2 t3 t4 : Bool) (a : A)
      → (t2 ≡ false → t4 ≡ false → P a)
      → Holds P (
          if t1
          then none
          else if t2
          then none
          else if t3
          then none
          else if t4
          then none
          else some a)
  guards-Holds true t2 t3 t4 a p = tt
  guards-Holds false true t3 t4 a p = tt
  guards-Holds false false true t4 a p = tt
  guards-Holds false false false true a p = tt
  guards-Holds false false false false a p = p refl refl

-- A loop that keeps the last event that passes keeps one that passes.
pub last_probe_failure-Holds :
    (lower : String → String) (occurs_in : String → String → Bool) (P : EventInfo → Type 0)
    (es : List EventInfo) (kept : Option EventInfo)
    → ((e : EventInfo) → Memᴰ e es → is_probe_failure lower occurs_in e ≡ true → P e)
    → Holds P kept
    → Holds P (last_probe_failure lower occurs_in es kept)
last_probe_failure-Holds lower occurs_in P [] kept h k = k
last_probe_failure-Holds lower occurs_in P (e ∷ es) kept h k =
    last_probe_failure-Holds lower occurs_in P es
      (if is_probe_failure lower occurs_in e then some e else kept) (λ x m. h x (Memᴰ.tail m))
      (elim (Bool-cases (is_probe_failure lower occurs_in e)) [
        | inl t ↦ subst (λ t. Holds P (if t then some e else kept)) (sym t) (h e (Memᴰ.head refl) t)
        | inr t ↦ subst (λ t. Holds P (if t then some e else kept)) (sym t) k
      ])

-- A test that an element passes is passed by some.
pub any-in :
    {A : Type 0} (t : A → Bool) (x : A) (xs : List A) → Memᴰ x xs → t x ≡ true → any t xs ≡ true
any-in t x [] m h = elim m [ ]
any-in t x (y ∷ ys) (Memᴰ.head e) h = rw (← ap t e) (rw h refl)
any-in t x (y ∷ ys) (Memᴰ.tail m) h = let rest = any-in t x ys m h in ground arith
