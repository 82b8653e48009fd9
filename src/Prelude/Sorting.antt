-- ===== src/Prelude/Sorting.antt =====
-- Python's `sorted` and `list.sort`, which are stable, by the test `<` of two keys.
use mathlib.Core.Path.{◌≡◌, refl, sym, subst}
use mathlib.Core.Logic.{inl, inr}
use mathlib.Core.Bool.{Bool, true, false}
use mathlib.Core.List.{List, [], ◌∷◌}
use one_m2m_dds_ipe.Prelude.Tests.{if◌then◌else◌, Bool-cases}

-- `z in xs`, with the place kept.
pub data In {ℓ} {A : Type ℓ} (z : A) : List A → Type ℓ where
  here : {x : A} {xs : List A} → z ≡ x → In z (x ∷ xs)
  there : {x : A} {xs : List A} → In z xs → In z (x ∷ xs)

module _ {ℓ} {A : Type ℓ} where
  insert_sorted : (A → A → Bool) → A → List A → List A
  insert_sorted lt x [] = x ∷ []
  insert_sorted lt x (y ∷ ys) =
      let later = y ∷ insert_sorted lt x ys in if lt y x then later else x ∷ (y ∷ ys)

  unfoldable pub sorted : (A → A → Bool) → List A → List A
  unfolding insert_sorted
  sorted lt [] = []
  sorted lt (x ∷ xs) = insert_sorted lt x (sorted lt xs)

  abbrev pub All {κ} : (A → Type κ) → List A → Type κ
  All P [] = Unit
  All P (x ∷ xs) = P x × All P xs

  -- No element is below an earlier one.
  abbrev pub Ordered : (A → A → Bool) → List A → Type ℓ
  Ordered lt [] = Unit
  Ordered lt (x ∷ xs) = All (λ y. lt y x ≡ false) xs × Ordered lt xs

module _ {ℓ κ} {A : Type ℓ} (P : A → Type κ) where
  pub All-In : (x : A) (xs : List A) → All P xs → In x xs → P x
  All-In x [] h m = elim m [ ]
  All-In x (y ∷ xs) h (here e) = subst P (sym e) h.0
  All-In x (y ∷ xs) h (there m) = All-In x xs h.1 m

  All-insert_sorted :
      (lt : A → A → Bool) (x : A) (ys : List A) → P x → All P ys → All P (insert_sorted lt x ys)
  unfolding insert_sorted
  All-insert_sorted lt x [] p h = (p, tt)
  All-insert_sorted lt x (y ∷ ys) p h = elim (Bool-cases (lt y x)) [
    | inl e ↦ rw e (h.0, All-insert_sorted lt x ys p h.1)
    | inr e ↦ rw e (p, h)
  ]

module _ {ℓ} {A : Type ℓ} (lt : A → A → Bool) where
  In-insert_sorted_self : (x : A) (ys : List A) → In x (insert_sorted lt x ys)
  unfolding insert_sorted
  In-insert_sorted_self x [] = here refl
  In-insert_sorted_self x (y ∷ ys) = elim (Bool-cases (lt y x)) [
    | inl e ↦ rw e (there (In-insert_sorted_self x ys))
    | inr e ↦ rw e (here refl)
  ]

  In-insert_sorted : (z x : A) (ys : List A) → In z ys → In z (insert_sorted lt x ys)
  unfolding insert_sorted
  In-insert_sorted z x [] m = elim m [ ]
  In-insert_sorted z x (y ∷ ys) (here same) = elim (Bool-cases (lt y x)) [
    | inl e ↦ rw e (here same)
    | inr e ↦ rw e (there (here same))
  ]
  In-insert_sorted z x (y ∷ ys) (there m) = elim (Bool-cases (lt y x)) [
    | inl e ↦ rw e (there (In-insert_sorted z x ys m))
    | inr e ↦ rw e (there (there m))
  ]

  pub In-sorted : (z : A) (xs : List A) → In z xs → In z (sorted lt xs)
  unfolding sorted
  In-sorted z [] m = elim m [ ]
  In-sorted z (x ∷ xs) (here e) =
      subst (λ w. In w (insert_sorted lt x (sorted lt xs))) (sym e)
        (In-insert_sorted_self x (sorted lt xs))
  In-sorted z (x ∷ xs) (there m) = In-insert_sorted z x (sorted lt xs) (In-sorted z xs m)

  -- A test that orders, up to elements that it does not tell apart.
  module _ (asym : (x y : A) → lt x y ≡ true → lt y x ≡ false)
      (trans : (x y z : A) → lt y x ≡ false → lt z y ≡ false → lt z x ≡ false) where
    All-trans :
        (x y : A) (ys : List A)
        → lt y x ≡ false
        → All (λ z. lt z y ≡ false) ys
        → All (λ z. lt z x ≡ false) ys
    All-trans x y [] h all = tt
    All-trans x y (z ∷ ys) h all = (trans x y z h all.0, All-trans x y ys h all.1)

    insert_sorted-Ordered :
        (x : A) (ys : List A) → Ordered lt ys → Ordered lt (insert_sorted lt x ys)
    unfolding insert_sorted
    insert_sorted-Ordered x [] h = (tt, tt)
    insert_sorted-Ordered x (y ∷ ys) h = elim (Bool-cases (lt y x)) [
      | inl e ↦ rw e (
        All-insert_sorted (λ z. lt z y ≡ false) lt x ys (asym y x e) h.0,
        insert_sorted-Ordered x ys h.1,
      )
      | inr e ↦ rw e ((e, All-trans x y ys e h.0), h)
    ]

    pub sorted-Ordered : (xs : List A) → Ordered lt (sorted lt xs)
    unfolding sorted
    sorted-Ordered [] = tt
    sorted-Ordered (x ∷ xs) = insert_sorted-Ordered x (sorted lt xs) (sorted-Ordered xs)
