-- ===== src/Qos/Shared/Kinds.antt =====
-- What a policy name asks for and offers, and the pool of ranked names `choose_kind` picks from.
pub mod Choice
use one_m2m_dds_ipe.Prelude.{
  ℕ, suc, ◌≤◌, String, ◌≡◌, refl, ap, sym, ◌∙◌, subst, Bool, true, false, ◌&&◌, Option, none, some,
  List, [], ◌∷◌, ◌++◌, leb, if◌then◌else◌, arith, string_equality, Bool-cases, Option-cases, inl,
  inr, leb→le, le→leb,
}
use mathlib.Core.List.{append-nil}
use one_m2m_dds_ipe.Prelude.Dict.{lookup}
use one_m2m_dds_ipe.Prelude.Result.{Result, ok, err, ◌>>=◌}
use one_m2m_dds_ipe.Qos.Profile.{PolicyValue}
use one_m2m_dds_ipe.Qos.Shared.{
  policy_name, Strengths, Ranked, ranked, ranked_lt, min_ranked, max_ranked, at_least,
  explicit_entry, pick, choose_kind,
}

abbrev pub all {ℓ} : {A : Type ℓ} → (A → Bool) → List A → Bool
all p [] = true
all p (x ∷ xs) = p x && all p xs

-- The strength of a peer's policy, where it has a name that is ranked.
abbrev pub rank_of : Strengths → Result String → Option ℕ
rank_of strengths (ok name) = lookup name strengths
rank_of strengths (err e) = none

abbrev pub at_most : Option ℕ → Option ℕ → Bool
at_most chosen none = true
at_most none (some s) = false
at_most (some r) (some s) = leb r s

-- DDS matches a request and an offer if the request is not the stronger one; peers whose policy
-- is not ranked (UNKNOWN, SYSTEM_DEFAULT) are left out, as in the code.
abbrev pub kind_accepts : Strengths → String → PolicyValue → Bool
kind_accepts strengths requested offered =
    at_most (lookup requested strengths) (rank_of strengths (policy_name offered))

abbrev pub kind_serves : Strengths → String → PolicyValue → Bool
kind_serves strengths offered requested = elim (rank_of strengths (policy_name requested)) [
  | none ↦ true
  | some s ↦ at_least (lookup offered strengths) s
]

ranked_lt-le : (a b : Ranked) → ranked_lt a b ≡ true → a.0 ≤ b.0
unfolding ranked_lt
ranked_lt-le a b h = ground arith

ranked_lt-ge : (a b : Ranked) → ranked_lt a b ≡ false → b.0 ≤ a.0
unfolding ranked_lt
ranked_lt-ge a b h = ground arith

module _ (strengths : Strengths) where
  -- An entry of the pool is ranked by its own name.
  abbrev pub Consistent : List Ranked → Type 0
  Consistent [] = Unit
  Consistent ((s, name) ∷ pool) = (lookup name strengths ≡ some s) × Consistent pool

  abbrev pub all_from : ℕ → List Ranked → Bool
  all_from m pool = all (λ (s, name). leb m s) pool

  abbrev pub all_to : ℕ → List Ranked → Bool
  all_to m pool = all (λ (s, name). leb s m) pool

  abbrev pub peer_from : ℕ → PolicyValue → Bool
  peer_from m v = elim (rank_of strengths (policy_name v)) [ none ↦ true | some s ↦ leb m s ]

  abbrev pub peer_to : ℕ → PolicyValue → Bool
  peer_to m v = elim (rank_of strengths (policy_name v)) [ none ↦ true | some s ↦ leb s m ]

  abbrev pub FromPool : Result (List Ranked) → List PolicyValue → Type 0
  FromPool (err e) values = Unit
  FromPool (ok pool) values =
      Consistent pool
      × ((m : ℕ) → all_from m pool ≡ all (peer_from m) values)
      × ((m : ℕ) → all_to m pool ≡ all (peer_to m) values)

  abbrev step : Result String → Result (List Ranked) → Result (List Ranked)
  step n r = n >>= λ name.
      r >>= λ rest. elim (lookup name strengths) [ none ↦ ok rest | some s ↦ ok ((s, name) ∷ rest) ]

  step-none :
      (name : String) (rest : List Ranked)
      → lookup name strengths ≡ none
      → step (ok name) (ok rest) ≡ ok rest
  step-none name rest o = ground arith

  step-some :
      (name : String) (rest : List Ranked) (s : ℕ)
      → lookup name strengths ≡ some s
      → step (ok name) (ok rest) ≡ ok ((s, name) ∷ rest)
  step-some name rest s o = ground arith

  step-FromPool :
      (n : Result String) (r : Result (List Ranked)) (v : PolicyValue) (values : List PolicyValue)
      → policy_name v ≡ n
      → FromPool r values
      → FromPool (step n r) (v ∷ values)
  step-FromPool (err e) r v values h f = tt
  step-FromPool (ok name) (err e) v values h f = tt
  step-FromPool (ok name) (ok rest) v values h f = elim (Option-cases (lookup name strengths)) [
    | inl o ↦
        subst (λ (r : Result (List Ranked)). FromPool r (v ∷ values)) (sym (step-none name rest o))
          (f.0, λ m. ground (arith, f.1 m), λ m. ground (arith, f.2 m))
    | inr (s, o) ↦
        subst (λ (r : Result (List Ranked)). FromPool r (v ∷ values))
          (sym (step-some name rest s o))
          ((o, f.0), λ m. ground (arith, f.1 m), λ m. ground (arith, f.2 m))
  ]

  pub ranked-FromPool : (values : List PolicyValue) → FromPool (ranked strengths values) values
  unfolding ranked
  ranked-FromPool [] = (tt, λ m. refl, λ m. refl)
  ranked-FromPool (v ∷ values) =
      step-FromPool (policy_name v) (ranked strengths values) v values refl (ranked-FromPool values)

  -- The least entry is below all, and one of them.
  pub min_ranked-least :
      (best : Ranked) (pool : List Ranked) (m : ℕ)
      → m ≤ (min_ranked best pool).0
      → Consistent (best ∷ pool)
      → (leb m best.0 ≡ true)
        × (all_from m pool ≡ true)
        × (lookup (min_ranked best pool).1 strengths ≡ some (min_ranked best pool).0)
  unfolding min_ranked
  min_ranked-least best [] m h c = ground arith
  min_ranked-least best (x ∷ pool) m h c = elim (Bool-cases (ranked_lt x best)) [
    | inl e ↦
        let r =
          min_ranked-least x pool m
            (subst (λ b. m ≤ (min_ranked (if b then x else best) pool).0) e h) (c.1.0, c.1.1) in
        (
          le→leb m best.0 (omega (arith, leb→le m x.0 r.0, ranked_lt-le x best e)),
          rw r.0 r.1,
          subst RankedMin (sym e) r.2,
        )
    | inr e ↦
        let r =
          min_ranked-least best pool m
            (subst (λ b. m ≤ (min_ranked (if b then x else best) pool).0) e h) (c.0, c.1.1) in
        (
          r.0,
          rw (le→leb m x.0 (omega (arith, leb→le m best.0 r.0, ranked_lt-ge x best e))) r.1,
          subst RankedMin (sym e) r.2,
        )
  ]
    where
      RankedMin : Bool → Type 0
      RankedMin b =
          let found = min_ranked (if b then x else best) pool in
          lookup found.1 strengths ≡ some found.0

  pub max_ranked-greatest :
      (best : Ranked) (pool : List Ranked) (m : ℕ)
      → (max_ranked best pool).0 ≤ m
      → Consistent (best ∷ pool)
      → (leb best.0 m ≡ true)
        × (all_to m pool ≡ true)
        × (lookup (max_ranked best pool).1 strengths ≡ some (max_ranked best pool).0)
  unfolding max_ranked
  max_ranked-greatest best [] m h c = ground arith
  max_ranked-greatest best (x ∷ pool) m h c = elim (Bool-cases (ranked_lt best x)) [
    | inl e ↦
        let r =
          max_ranked-greatest x pool m
            (subst (λ b. (max_ranked (if b then x else best) pool).0 ≤ m) e h) (c.1.0, c.1.1) in
        (
          le→leb best.0 m (omega (arith, leb→le x.0 m r.0, ranked_lt-le best x e)),
          rw r.0 r.1,
          subst RankedMax (sym e) r.2,
        )
    | inr e ↦
        let r =
          max_ranked-greatest best pool m
            (subst (λ b. (max_ranked (if b then x else best) pool).0 ≤ m) e h) (c.0, c.1.1) in
        (
          r.0,
          rw (le→leb x.0 m (omega (arith, leb→le best.0 m r.0, ranked_lt-ge best x e))) r.1,
          subst RankedMax (sym e) r.2,
        )
  ]
    where
      RankedMax : Bool → Type 0
      RankedMax b =
          let found = max_ranked (if b then x else best) pool in
          lookup found.1 strengths ≡ some found.0
