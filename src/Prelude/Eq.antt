-- ===== src/Prelude/Eq.antt =====
-- Python's `==` and `in`, for the types whose equality a Boolean test decides.
use Prim.Native.Nat.{ℕ}
use Prim.Native.String.{String}
use mathlib.Core.Path.{◌≡◌, refl, ap}
use mathlib.Core.Logic.{◌≢◌, ◌↔◌, ◌⊎◌, inl, inr}
use mathlib.Core.Bool.{Bool, true, false, ◌||◌, ◌&&◌}
use mathlib.Core.Option.{Option, none, some}
use mathlib.Core.List.{List, [], ◌∷◌}
use native.Mathlib.Omega.{arith}
use text.Mathlib.Text.{◌==◌ as text_eq}
use text.Mathlib.TextEquality.{eq_iff}
use one_m2m_dds_ipe.Prelude.Tests.{nat_eq, Bool-cases}

pub record Equality {ℓ} (A : Type ℓ) : Type ℓ where
  pub equals : A → A → Bool
  pub equals_iff : (a b : A) → (equals a b ≡ true) ↔ (a ≡ b)

infix 50 ◌==◌
abbrev pub ◌==◌ {ℓ} : {T : Type ℓ} ⦃eq : Equality T⦄ → T → T → Bool
◌==◌ ⦃eq⦄ = eq.equals

instance abbrev pub string_equality : Equality String
string_equality = record { equals = text_eq; equals_iff = eq_iff }

pub nat_eq_iff : (a b : ℕ) → (nat_eq a b ≡ true) ↔ (a ≡ b)
nat_eq_iff a b = ground arith

instance abbrev pub nat_equality : Equality ℕ
nat_equality = record { equals = nat_eq; equals_iff = nat_eq_iff }

module _ {ℓ} {A : Type ℓ} ⦃e : Equality A⦄ where
  pub ==_refl : (a : A) → (a == a) ≡ true
  ==_refl a = (e.equals_iff a a).1 refl

  pub ==_cases : (a b : A) → ((a == b) ≡ true) × (a ≡ b) ⊎ ((a == b) ≡ false) × (a ≢ b)
  ==_cases a b = elim (Bool-cases (a == b)) [
    | inl h ↦ inl (h, (e.equals_iff a b).0 h)
    | inr h ↦ inr (h, λ p. cc (h, (e.equals_iff a b).1 p))
  ]

  -- Python's `a in xs`.
  abbrev pub contains : A → List A → Bool
  contains a [] = false
  contains a (x ∷ xs) = (a == x) || contains a xs

  abbrev pub option_eq : Option A → Option A → Bool
  option_eq none none = true
  option_eq (some a) (some b) = a == b
  option_eq _ _ = false

  pub option_eq_iff : (a b : Option A) → (option_eq a b ≡ true) ↔ (a ≡ b)
  option_eq_iff none none = (λ _. refl, λ _. refl)
  option_eq_iff none (some b) = (λ h. cc, λ h. cc)
  option_eq_iff (some a) none = (λ h. cc, λ h. cc)
  option_eq_iff (some a) (some b) =
      (λ h. ap some ((e.equals_iff a b).0 h), λ h. ground (arith, e.equals_iff a b))

  instance abbrev pub option_equality : Equality (Option A)
  option_equality = record { equals = option_eq; equals_iff = option_eq_iff }

-- Equality of pairs and of lists, part by part.
module _ {ℓ κ} {A : Type ℓ} {B : Type κ} ⦃a : Equality A⦄ ⦃b : Equality B⦄ where
  abbrev pub pair_eq : A × B → A × B → Bool
  pair_eq p q = a.equals p.0 q.0 && b.equals p.1 q.1

  pub pair_eq_iff : (p q : A × B) → (pair_eq p q ≡ true) ↔ (p ≡ q)
  pair_eq_iff (x, y) (z, w) = ground (arith, a.equals_iff x z, b.equals_iff y w)

  instance abbrev pub pair_equality : Equality (A × B)
  pair_equality = record { equals = pair_eq; equals_iff = pair_eq_iff }

module _ {ℓ} {A : Type ℓ} ⦃a : Equality A⦄ where
  abbrev pub list_eq : List A → List A → Bool
  list_eq [] [] = true
  list_eq [] (y ∷ ys) = false
  list_eq (x ∷ xs) [] = false
  list_eq (x ∷ xs) (y ∷ ys) = a.equals x y && list_eq xs ys

  pub list_eq_iff : (xs ys : List A) → (list_eq xs ys ≡ true) ↔ (xs ≡ ys)
  list_eq_iff [] [] = (λ _. refl, λ _. refl)
  list_eq_iff [] (y ∷ ys) = (λ h. cc, λ h. cc)
  list_eq_iff (x ∷ xs) [] = (λ h. cc, λ h. cc)
  list_eq_iff (x ∷ xs) (y ∷ ys) = ground (arith, a.equals_iff x y, list_eq_iff xs ys)

  instance abbrev pub list_equality : Equality (List A)
  list_equality = record { equals = list_eq; equals_iff = list_eq_iff }
