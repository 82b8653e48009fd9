-- ===== src/Qos/Shared/Guards.antt =====
-- `guard_kind`: the guard of an ordered policy moves a request down only where it has to.
use one_m2m_dds_ipe.Prelude.{
  ℕ, ◌≤◌, String, ◌≡◌, refl, ap, sym, ◌∙◌, subst, Bool, true, not, some, List, [], ◌∷◌, ◌++◌, leb,
  ltb, if◌then◌else◌, arith, string_equality, Bool-cases, inl, inr, leb→le,
}
use mathlib.Core.List.{append-nil}
use one_m2m_dds_ipe.Prelude.Dict.{lookup}
use one_m2m_dds_ipe.Prelude.Result.{Result, ok, err, ◌>>=◌}
use one_m2m_dds_ipe.Qos.Profile.{PolicyValue}
use one_m2m_dds_ipe.Qos.Shared.{
  Strengths, Ranked, ranked, ranked_lt, min_ranked, pick, choose_kind, guard_by, guard_kind,
}
use one_m2m_dds_ipe.Qos.Shared.Kinds.{
  all, kind_accepts, all_from, peer_from, FromPool, ranked-FromPool, min_ranked-least,
}
use one_m2m_dds_ipe.Qos.Shared.Kinds.Choice.{accepts-peer_from}

module _ (strengths : Strengths) where
  min_ranked-bound :
      (best : Ranked) (pool : List Ranked) (m : ℕ)
      → leb m best.0 ≡ true
      → all_from strengths m pool ≡ true
      → m ≤ (min_ranked best pool).0
  unfolding min_ranked
  min_ranked-bound best [] m h f = ground arith
  min_ranked-bound best (x ∷ pool) m h f = elim (Bool-cases (ranked_lt x best)) [
    | inl e ↦ rw (min_ranked, e) (min_ranked-bound x pool m (ground arith) (ground arith))
    | inr e ↦ rw (min_ranked, e) (min_ranked-bound best pool m h (ground arith))
  ]

  -- What the guard knows of the weakest choice: its strength, that it is accepted, and that
  -- nothing stronger is.
  abbrev pub Weakest : List PolicyValue → String → ℕ → String → Type 0
  Weakest values configured c name =
      (w : ℕ) × (lookup name strengths ≡ some w)
      × (all (kind_accepts strengths name) values ≡ true)
      × (all (kind_accepts strengths configured) values ≡ leb c w)

  accepts_below :
      (m : ℕ) (values : List PolicyValue) (c : ℕ)
      → c ≤ m
      → all (peer_from strengths m) values ≡ true
      → all (peer_from strengths c) values ≡ true
  accepts_below m [] c h a = refl
  accepts_below m (v ∷ values) c h a = ground (arith, accepts_below m values c)

  pub pick-Weakest :
      (values : List PolicyValue) (configured : String) (c : ℕ) (pool : List Ranked)
      → lookup configured strengths ≡ some c
      → FromPool strengths (ok pool) values
      → Weakest values configured c (pick strengths configured true pool)
  pick-Weakest values configured c [] h f =
      let all_accepted = accepts-peer_from strengths configured c values h ∙ sym (f.1 c) in
      (c, h, all_accepted, all_accepted ∙ ground arith)
  pick-Weakest values configured c (x ∷ rest) h f =
      let w = (min_ranked x rest).0 in
      let (first, others, ranked_at) = min_ranked-least strengths x rest w (omega arith) f.0 in
      let from_w : all (peer_from strengths w) values ≡ true = sym (f.1 w) ∙ rw first others in
      (
        w,
        ranked_at,
        accepts-peer_from strengths (min_ranked x rest).1 w values ranked_at ∙ from_w,
        accepts-peer_from strengths configured c values h ∙ elim (Bool-cases (leb c w)) [
          | inl e ↦ accepts_below w values c (leb→le c w e) from_w ∙ sym e
          | inr e ↦ sym (f.1 c) ∙ elim (Bool-cases (all_from strengths c (x ∷ rest))) [
            | inl t ↦
                absurd (ground (arith, min_ranked-bound x rest c (ground arith) (ground arith)))
            | inr t ↦ t ∙ sym e
          ]
        ],
      )

  abbrev GuardOk : List PolicyValue → String → String → Bool → Type 0
  GuardOk values configured selected strict =
      (all (kind_accepts strengths selected) values ≡ true)
      × (strict ≡ not (all (kind_accepts strengths configured) values))
      × ((if strict then selected else configured) ≡ selected)

  abbrev pub selection : String → String → ℕ → ℕ → String × Bool
  selection configured name c w = (if ltb w c then name else configured, ltb w c)

  pub guard_by-found :
      (configured name : String) (c w : ℕ)
      → lookup configured strengths ≡ some c
      → lookup name strengths ≡ some w
      → guard_by strengths configured name ≡ ok (selection configured name c w)
  guard_by-found configured name c w h k = ground arith

  selection-GuardOk :
      (values : List PolicyValue) (configured name : String) (c w : ℕ)
      → all (kind_accepts strengths name) values ≡ true
      → all (kind_accepts strengths configured) values ≡ leb c w
      → GuardOk values configured (selection configured name c w).0 (ltb w c)
  selection-GuardOk values configured name c w accepted exact = elim (Bool-cases (ltb w c)) [
    | inl e ↦ rw e (accepted, rw exact (ground arith), refl)
    | inr e ↦ rw e (exact ∙ ground arith, rw exact (ground arith), refl)
  ]

  abbrev GuardHolds : List PolicyValue → String → Result (String × Bool) → Type 0
  GuardHolds values configured (err e) = Unit
  GuardHolds values configured (ok p) = GuardOk values configured p.0 p.1

  guard-from :
      (values : List PolicyValue) (configured : String) (c : ℕ) (r : Result (List Ranked))
      → lookup configured strengths ≡ some c
      → FromPool strengths r values
      → GuardHolds values configured (
          (r >>= λ pool. ok (pick strengths configured true (pool ++ [])))
          >>= guard_by strengths configured)
  guard-from values configured c (err e) h f = tt
  guard-from values configured c (ok pool) h f =
      let (w, found, accepted, exact) = pick-Weakest values configured c pool h f in
      let name = pick strengths configured true pool in
      subst (λ (r : Result (String × Bool)). GuardHolds values configured r)
        (sym (guard_by-found configured name c w h found)
          ∙ ap (λ l. guard_by strengths configured (pick strengths configured true l))
              (sym (append-nil pool)))
        (selection-GuardOk values configured name c w accepted exact)

  -- For a configured kind that is ranked, the guard's selection asks for no more than any ranked
  -- peer offers; it is strict exactly if the configured kind asks for more, and otherwise the
  -- configured kind is kept.
  pub guard_kind-exact :
      (values : List PolicyValue) (configured : String) (c : ℕ) (selected : String) (strict : Bool)
      → lookup configured strengths ≡ some c
      → guard_kind values configured strengths ≡ ok (selected, strict)
      → (all (kind_accepts strengths selected) values ≡ true)
        × (strict ≡ not (all (kind_accepts strengths configured) values))
        × ((if strict then selected else configured) ≡ selected)
  unfolding guard_kind choose_kind
  guard_kind-exact values configured c selected strict h g =
      subst (λ (r : Result (String × Bool)). GuardHolds values configured r) g
        (guard-from values configured c (ranked strengths values) h
          (ranked-FromPool strengths values))
