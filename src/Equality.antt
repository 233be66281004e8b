-- ===== src/Equality.antt =====
-- Python's == on texts, numbers, options and lists, as tests that are right; models compare field by
-- field, as backend/app/agent/schemas.py declares them.
use k8s_incident_agent.Prelude.{
  ℕ, ◌≡◌, refl, ap, sym, ◌∙◌, Bool, true, false, not, ◌&&◌, Option, none, some, List, [], ◌∷◌,
  String, str_eq, eq_iff, arith, ◌==◌, ==→eq, ==_refl,
}

-- A test of equality that is right.
pub record Equality {ℓ} (A : Type ℓ) : Type ℓ where
  pub test : A → A → Bool
  pub sound : (a b : A) → test a b ≡ true → a ≡ b
  pub reflexive : (a : A) → test a a ≡ true

abbrev pub same {ℓ} : {A : Type ℓ} ⦃e : Equality A⦄ → A → A → Bool
same ⦃e⦄ = e.test

instance abbrev pub nat_equality : Equality ℕ
nat_equality = record { test = ◌==◌; sound = ==→eq; reflexive = ==_refl }

instance abbrev pub string_equality : Equality String
string_equality = record {
  test = str_eq;
  sound = λ s t. (eq_iff s t).0;
  reflexive = λ s. (eq_iff s s).1 refl;
}

abbrev same_bool : Bool → Bool → Bool
same_bool true b = b
same_bool false b = not b

pub same_bool_sound : (a b : Bool) → same_bool a b ≡ true → a ≡ b
same_bool_sound true b h = sym h
same_bool_sound false false h = refl
same_bool_sound false true h = ground arith

pub same_bool_reflexive : (a : Bool) → same_bool a a ≡ true
same_bool_reflexive true = refl
same_bool_reflexive false = refl

instance abbrev pub bool_equality : Equality Bool
bool_equality = record {
  test = same_bool;
  sound = same_bool_sound;
  reflexive = same_bool_reflexive;
}

&&-both : (a b : Bool) → (a && b) ≡ true → (a ≡ true) × (b ≡ true)
&&-both true b h = (refl, h)
&&-both false b h = ground arith

module _ {ℓ κ} {A : Type ℓ} {B : Type κ} (e : Equality A) (f : Equality B) where
  abbrev same_pair : A × B → A × B → Bool
  same_pair (a, b) (c, d) = e.test a c && f.test b d

  pub same_pair_sound : (p q : A × B) → same_pair p q ≡ true → p ≡ q
  same_pair_sound (a, b) (c, d) h =
      let both = &&-both (e.test a c) (f.test b d) h in
      let first = e.sound a c both.0 in let second = f.sound b d both.1 in cc

  pub same_pair_reflexive : (p : A × B) → same_pair p p ≡ true
  same_pair_reflexive (a, b) = rw (e.reflexive a) (f.reflexive b)

infixr 40 ◌⊗◌
abbrev pub ◌⊗◌ {ℓ κ} : {A : Type ℓ} {B : Type κ} → Equality A → Equality B → Equality (A × B)
e ⊗ f = record {
  test = same_pair e f;
  sound = same_pair_sound e f;
  reflexive = same_pair_reflexive e f;
}

instance abbrev pub label_equality : Equality (String × String)
label_equality = string_equality ⊗ string_equality

-- The one that the type tells.
abbrev pub known {ℓ} : {A : Type ℓ} ⦃e : Equality A⦄ → Equality A
known ⦃e⦄ = e

module _ {ℓ} {A : Type ℓ} (e : Equality A) where
  abbrev same_option : Option A → Option A → Bool
  same_option none none = true
  same_option (some a) (some b) = e.test a b
  same_option _ _ = false

  pub same_option_sound : (o p : Option A) → same_option o p ≡ true → o ≡ p
  same_option_sound none none h = refl
  same_option_sound (some a) (some b) h = ap some (e.sound a b h)
  same_option_sound none (some b) h = ground arith
  same_option_sound (some a) none h = ground arith

  pub same_option_reflexive : (o : Option A) → same_option o o ≡ true
  same_option_reflexive none = refl
  same_option_reflexive (some a) = e.reflexive a

  abbrev same_list : List A → List A → Bool
  same_list [] [] = true
  same_list (a ∷ xs) (b ∷ ys) = e.test a b && same_list xs ys
  same_list _ _ = false

  pub same_list_sound : (xs ys : List A) → same_list xs ys ≡ true → xs ≡ ys
  same_list_sound [] [] h = refl
  same_list_sound (a ∷ xs) (b ∷ ys) h =
      let both = &&-both (e.test a b) (same_list xs ys) h in
      let first = e.sound a b both.0 in let rest = same_list_sound xs ys both.1 in cc
  same_list_sound [] (b ∷ ys) h = ground arith
  same_list_sound (a ∷ xs) [] h = ground arith

  pub same_list_reflexive : (xs : List A) → same_list xs xs ≡ true
  same_list_reflexive [] = refl
  same_list_reflexive (a ∷ xs) = rw (e.reflexive a) (same_list_reflexive xs)

instance abbrev pub option_equality {ℓ} : {A : Type ℓ} ⦃e : Equality A⦄ → Equality (Option A)
option_equality ⦃e⦄ = record {
  test = same_option e;
  sound = same_option_sound e;
  reflexive = same_option_reflexive e;
}

instance abbrev pub list_equality {ℓ} : {A : Type ℓ} ⦃e : Equality A⦄ → Equality (List A)
list_equality ⦃e⦄ = record {
  test = same_list e;
  sound = same_list_sound e;
  reflexive = same_list_reflexive e;
}

-- Equality by what a value is written xs, if it can be read back.
abbrev pub by_parts {ℓ κ} :
    {A : Type ℓ} {B : Type κ} (e : Equality B) (to : A → B) (from : B → A)
    → ((a : A) → from (to a) ≡ a)
    → Equality A
by_parts e to from back = record {
  test = λ a b. e.test (to a) (to b);
  sound = λ a b h. sym (back a) ∙ ap from (e.sound (to a) (to b) h) ∙ back b;
  reflexive = λ a. e.reflexive (to a);
}
