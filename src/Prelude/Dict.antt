-- ===== src/Prelude/Dict.antt =====
-- Python's `dict` and `OrderedDict`: an association list in insertion order. Assigning to a key
-- that is there keeps its place; a new key goes to the end.
use Prim.Native.Nat.{suc}
use mathlib.Core.Path.{◌≡◌, refl}
use mathlib.Core.Bool.{Bool, true, false}
use mathlib.Core.Option.{Option, none, some}
use mathlib.Core.List.{List, [], ◌∷◌, ◌++◌}
use native.Mathlib.Omega.{arith}
use one_m2m_dds_ipe.Prelude.Tests.{if◌then◌else◌}
use one_m2m_dds_ipe.Prelude.Lists.{length, keep}
use one_m2m_dds_ipe.Prelude.Eq.{Equality, ◌==◌}

abbrev pub Dict {ℓ κ} : Type ℓ → Type κ → Type (ℓ ⊔ κ)
Dict K V = List (K × V)

module _ {ℓ κ} {K : Type ℓ} {V : Type κ} where
  abbrev pub keys : Dict K V → List K
  keys [] = []
  keys ((k, v) ∷ d) = k ∷ keys d

  abbrev pub values : Dict K V → List V
  values [] = []
  values ((k, v) ∷ d) = v ∷ values d

-- Selecting entries by their value.
abbrev pub kept_if {κ} : {V : Type κ} → (V → Bool) → Option V → Option V
kept_if p none = none
kept_if p (some v) = if p v then some v else none

module _ {ℓ κ} {K : Type ℓ} {V : Type κ} ⦃e : Equality K⦄ where
  -- `d.get(k)`
  unfoldable pub lookup : K → Dict K V → Option V
  lookup k [] = none
  lookup k ((j, v) ∷ d) = if k == j then some v else lookup k d

  -- `k in d`
  unfoldable pub member : K → Dict K V → Bool
  member k [] = false
  member k ((j, v) ∷ d) = if k == j then true else member k d

  -- `d[k] = v`
  unfoldable pub insert : K → V → Dict K V → Dict K V
  insert k v [] = (k, v) ∷ []
  insert k v ((j, w) ∷ d) = if k == j then (j, v) ∷ d else (j, w) ∷ insert k v d

  -- `d.pop(k, None)`; a dict has at most one entry of a key
  unfoldable pub erase : K → Dict K V → Dict K V
  erase k [] = []
  erase k ((j, w) ∷ d) = if k == j then d else (j, w) ∷ erase k d

  -- What makes such a list a dict: no key stands twice.
  abbrev pub NodupKeys : Dict K V → Type 0
  NodupKeys [] = Unit
  NodupKeys ((k, v) ∷ d) = (member k d ≡ false) × NodupKeys d

  pub lookup-insert :
      (j k : K) (v : V) (d : Dict K V)
      → lookup j (insert k v d) ≡ (if j == k then some v else lookup j d)
  unfolding lookup insert
  lookup-insert j k v [] = refl
  lookup-insert j k v ((i, w) ∷ d) =
      ground (arith, lookup-insert j k v d, e.equals_iff j k, e.equals_iff k i, e.equals_iff j i)

  pub member-insert :
      (j k : K) (v : V) (d : Dict K V)
      → member j (insert k v d) ≡ (if j == k then true else member j d)
  unfolding member insert
  member-insert j k v [] = refl
  member-insert j k v ((i, w) ∷ d) =
      ground (arith, member-insert j k v d, e.equals_iff j k, e.equals_iff k i, e.equals_iff j i)

  pub member-eq-false : (k : K) (d : Dict K V) → member k d ≡ false → lookup k d ≡ none
  unfolding member lookup
  member-eq-false k [] h = refl
  member-eq-false k ((j, v) ∷ d) h = ground (arith, member-eq-false k d)

  pub lookup-eq-none : (k : K) (d : Dict K V) → lookup k d ≡ none → member k d ≡ false
  unfolding member lookup
  lookup-eq-none k [] h = refl
  lookup-eq-none k ((j, v) ∷ d) h = ground (arith, lookup-eq-none k d)

  pub member-erase_ne : (j k : K) (d : Dict K V) → member j d ≡ false → member j (erase k d) ≡ false
  unfolding member erase
  member-erase_ne j k [] h = refl
  member-erase_ne j k ((i, w) ∷ d) h = ground (arith, member-erase_ne j k d)

  pub lookup-erase :
      (j k : K) (d : Dict K V)
      → NodupKeys d
      → lookup j (erase k d) ≡ (if j == k then none else lookup j d)
  unfolding lookup erase
  lookup-erase j k [] u = ground arith
  lookup-erase j k ((i, w) ∷ d) u = ground (
    arith,
    lookup-erase j k d u.1,
    e.equals_iff j k,
    e.equals_iff k i,
    e.equals_iff j i,
    member-eq-false i d u.0,
  )

  pub insert-NodupKeys : (k : K) (v : V) (d : Dict K V) → NodupKeys d → NodupKeys (insert k v d)
  unfolding insert member
  insert-NodupKeys k v [] u = (refl, tt)
  insert-NodupKeys k v ((j, w) ∷ d) u =
      ground (
        arith,
        insert-NodupKeys k v d u.1,
        member-insert j k v d,
        e.equals_iff k j,
        e.equals_iff j k,
      )

  pub erase-NodupKeys : (k : K) (d : Dict K V) → NodupKeys d → NodupKeys (erase k d)
  unfolding erase
  erase-NodupKeys k [] u = tt
  erase-NodupKeys k ((j, w) ∷ d) u = ground (arith, erase-NodupKeys k d u.1, member-erase_ne j k d)

  pub length-insert :
      (k : K) (v : V) (d : Dict K V)
      → length (insert k v d) ≡ (if member k d then length d else suc (length d))
  unfolding insert member
  length-insert k v [] = refl
  length-insert k v ((j, w) ∷ d) = ground (arith, length-insert k v d)

  -- Where a key stands is settled by its first insertion.
  pub keys-insert :
      (k : K) (v : V) (d : Dict K V)
      → keys (insert k v d) ≡ (if member k d then keys d else keys d ++ (k ∷ []))
  unfolding insert member
  keys-insert k v [] = refl
  keys-insert k v ((j, w) ∷ d) = ground (arith, keys-insert k v d)

  pub member-keep :
      (k : K) (p : V → Bool) (d : Dict K V)
      → member k d ≡ false
      → member k (keep (λ (j, v). p v) d) ≡ false
  unfolding member
  member-keep k p [] h = refl
  member-keep k p ((j, v) ∷ d) h = ground (arith, member-keep k p d)

  pub keep-NodupKeys :
      (p : V → Bool) (d : Dict K V) → NodupKeys d → NodupKeys (keep (λ (j, v). p v) d)
  keep-NodupKeys p [] u = tt
  keep-NodupKeys p ((j, v) ∷ d) u = ground (arith, keep-NodupKeys p d u.1, member-keep j p d u.0)

  pub lookup-keep :
      (k : K) (p : V → Bool) (d : Dict K V)
      → NodupKeys d
      → lookup k (keep (λ (j, v). p v) d) ≡ kept_if p (lookup k d)
  unfolding lookup
  lookup-keep k p [] u = refl
  lookup-keep k p ((j, v) ∷ d) u =
      ground (arith, lookup-keep k p d u.1, e.equals_iff k j, member-eq-false j d u.0)
