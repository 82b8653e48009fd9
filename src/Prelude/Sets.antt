-- ===== src/Prelude/Sets.antt =====
-- Python's `set` as a list without repetitions, and the pigeonhole principle for dicts.
use Prim.Native.Nat.{suc, ◌≤◌}
use mathlib.Core.Path.{◌≡◌, refl, ◌∙◌}
use mathlib.Core.Bool.{true, false, ◌||◌}
use mathlib.Core.List.{List, [], ◌∷◌, ◌++◌}
use native.Mathlib.Omega.{arith}
use one_m2m_dds_ipe.Prelude.Tests.{if◌then◌else◌}
use one_m2m_dds_ipe.Prelude.Lists.{length}
use one_m2m_dds_ipe.Prelude.Eq.{Equality, ◌==◌, contains}
use one_m2m_dds_ipe.Prelude.Dict.{Dict, member, insert, NodupKeys, member-insert}

module _ {ℓ} {A : Type ℓ} ⦃e : Equality A⦄ where
  -- `s.add(a)`
  unfoldable pub add : A → List A → List A
  add a xs = if contains a xs then xs else xs ++ (a ∷ [])

  -- `s.discard(a)`
  unfoldable pub discard : A → List A → List A
  discard a [] = []
  discard a (x ∷ xs) = if a == x then xs else x ∷ discard a xs

  abbrev pub Distinct : List A → Type 0
  Distinct [] = Unit
  Distinct (x ∷ xs) = (contains x xs ≡ false) × Distinct xs

  pub contains-append :
      (a : A) (xs ys : List A) → contains a (xs ++ ys) ≡ (contains a xs || contains a ys)
  contains-append a [] ys = refl
  contains-append a (x ∷ xs) ys = ground (arith, contains-append a xs ys)

  append-Distinct :
      (a : A) (xs : List A) → contains a xs ≡ false → Distinct xs → Distinct (xs ++ (a ∷ []))
  append-Distinct a [] h d = (refl, tt)
  append-Distinct a (x ∷ xs) h d = ground (
    arith,
    append-Distinct a xs,
    contains-append x xs (a ∷ []),
    e.equals_iff a x,
    e.equals_iff x a,
  )

  pub add-Distinct : (a : A) (xs : List A) → Distinct xs → Distinct (add a xs)
  unfolding add
  add-Distinct a xs d = ground (arith, append-Distinct a xs)

  pub contains-add : (b a : A) (xs : List A) → contains b (add a xs) ≡ ((b == a) || contains b xs)
  unfolding add
  contains-add b a xs = ground (arith, contains-append b xs (a ∷ []), e.equals_iff b a)

  pub contains-discard_ne :
      (b a : A) (xs : List A) → (b == a) ≡ false → contains b (discard a xs) ≡ contains b xs
  unfolding discard
  contains-discard_ne b a [] h = refl
  contains-discard_ne b a (x ∷ xs) h =
      ground
        (arith, contains-discard_ne b a xs, e.equals_iff b x, e.equals_iff a x, e.equals_iff b a)

  contains-discard-false :
      (b a : A) (xs : List A) → contains b xs ≡ false → contains b (discard a xs) ≡ false
  unfolding discard
  contains-discard-false b a [] h = refl
  contains-discard-false b a (x ∷ xs) h = ground (arith, contains-discard-false b a xs)

  pub contains-discard_self :
      (a : A) (xs : List A) → Distinct xs → contains a (discard a xs) ≡ false
  unfolding discard
  contains-discard_self a [] d = refl
  contains-discard_self a (x ∷ xs) d = ground (arith, contains-discard_self a xs, e.equals_iff a x)

  pub discard-Distinct : (a : A) (xs : List A) → Distinct xs → Distinct (discard a xs)
  unfolding discard
  discard-Distinct a [] d = tt
  discard-Distinct a (x ∷ xs) d =
      ground (arith, discard-Distinct a xs, contains-discard-false x a xs)

  pub length-discard :
      (a : A) (xs : List A) → contains a xs ≡ true → length xs ≡ suc (length (discard a xs))
  unfolding discard
  length-discard a [] h = cc
  length-discard a (x ∷ xs) h = ground (arith, length-discard a xs)

module _ {ℓ} {A : Type ℓ} ⦃e : Equality A⦄ where
  pub contains-middle :
      (b a : A) (xs ys : List A) → contains b (xs ++ (a ∷ ys)) ≡ ((b == a) || contains b (xs ++ ys))
  contains-middle b a [] ys = refl
  contains-middle b a (x ∷ xs) ys = ground (arith, contains-middle b a xs ys)

  -- Taking out one member of distinct ones.
  pub Distinct-middle :
      (a : A) (xs ys : List A)
      → Distinct (xs ++ (a ∷ ys))
      → (contains a (xs ++ ys) ≡ false) × Distinct (xs ++ ys)
  Distinct-middle a [] ys d = d
  Distinct-middle a (x ∷ xs) ys d = ground (
    arith,
    Distinct-middle a xs ys d.1,
    contains-middle x a xs ys,
    e.equals_iff x a,
    e.equals_iff a x,
  )

module _ {ℓ κ} {K : Type ℓ} {V : Type κ} ⦃e : Equality K⦄ where
  member_cons_ne :
      (j k : K) (v : V) (d : Dict K V)
      → member k d ≡ false
      → member j d ≡ true
      → ((j == k) ≡ false) × (member j ((k, v) ∷ d) ≡ true)
  unfolding member
  member_cons_ne j k v d u m = ground (arith, e.equals_iff j k)

  member_cons_self : (k : K) (v : V) (d : Dict K V) → member k ((k, v) ∷ d) ≡ true
  unfolding member
  member_cons_self k v d = ground (arith, e.equals_iff k k)

  -- A dict whose keys all stand in a list has at most as many entries as the list has places.
  pub length-le_of_member :
      (xs : List K) (d : Dict K V)
      → NodupKeys d
      → ((k : K) → member k d ≡ true → contains k xs ≡ true)
      → length d ≤ length xs
  length-le_of_member xs [] u h = omega arith
  length-le_of_member xs ((k, v) ∷ d) u h = omega (
    arith,
    length-discard k xs (h k (member_cons_self k v d)),
    length-le_of_member (discard k xs) d u.1 (λ j m.
        let (differs, among) = member_cons_ne j k v d u.0 m in
        contains-discard_ne j k xs differs ∙ h j among),
  )

  -- Inserting a key of the list keeps the keys within it.
  pub insert_within :
      (xs : List K) (d : Dict K V) (k : K) (v : V)
      → ((j : K) → member j d ≡ true → contains j xs ≡ true)
      → contains k xs ≡ true
      → (j : K) → member j (insert k v d) ≡ true
      → contains j xs ≡ true
  insert_within xs d k v h listed j m = ground (arith, member-insert j k v d, h j, e.equals_iff j k)

module _ {ℓ} {A : Type ℓ} ⦃e : Equality A⦄ where
  discard-last : (a : A) (xs : List A) → contains a xs ≡ false → discard a (xs ++ (a ∷ [])) ≡ xs
  unfolding discard
  discard-last a [] h = ground (arith, e.equals_iff a a)
  discard-last a (x ∷ xs) h = ground (arith, discard-last a xs)

  pub discard-add : (a : A) (xs : List A) → contains a xs ≡ false → discard a (add a xs) ≡ xs
  unfolding add
  discard-add a xs h = rw h (discard-last a xs h)
