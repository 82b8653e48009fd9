-- ===== src/Qos/Shared/Kinds/Choice.antt =====
-- `choose_kind`: the weakest choice asks for no more than any peer offers, the other one offers
-- no less than any peer asks for.
use one_m2m_dds_ipe.Prelude.{
  ℕ, suc, ◌≤◌, String, ◌≡◌, refl, ap, sym, ◌∙◌, subst, Bool, true, false, ◌&&◌, Option, none, some,
  List, [], ◌∷◌, ◌++◌, leb, arith, string_equality, Bool-cases, Option-cases, inl, inr, leb→le,
}
use mathlib.Core.List.{append-nil}
use one_m2m_dds_ipe.Prelude.Dict.{lookup}
use one_m2m_dds_ipe.Prelude.Result.{Result, ok, err, ◌>>=◌}
use one_m2m_dds_ipe.Qos.Profile.{PolicyValue}
use one_m2m_dds_ipe.Qos.Shared.{
  policy_name, Strengths, Ranked, ranked, min_ranked, max_ranked, at_least, explicit_entry, pick,
  choose_kind,
}
use one_m2m_dds_ipe.Qos.Shared.Kinds.{
  all, rank_of, kind_accepts, kind_serves, Consistent, all_from, all_to, peer_from, peer_to,
  FromPool, ranked-FromPool, min_ranked-least, max_ranked-greatest,
}

module _ (strengths : Strengths) where
  all-append : (p : Ranked → Bool) (xs ys : List Ranked) → all p (xs ++ ys) ≡ (all p xs && all p ys)
  all-append p [] ys = refl
  all-append p (x ∷ xs) ys = ground (arith, all-append p xs ys)

  Consistent-append :
      (xs ys : List Ranked)
      → Consistent strengths xs
      → Consistent strengths ys
      → Consistent strengths (xs ++ ys)
  Consistent-append [] ys p q = q
  Consistent-append ((s, name) ∷ xs) ys p q = (p.0, Consistent-append xs ys p.1 q)

  explicit-Consistent :
      (configured : String) (explicit : Bool)
      → Consistent strengths (explicit_entry strengths configured explicit)
  explicit-Consistent configured false = tt
  explicit-Consistent configured true = elim (Option-cases (lookup configured strengths)) [
    | inl h ↦ ground arith
    | inr (s, h) ↦ ground arith
  ]

  pub accepts-peer_from :
      (name : String) (m : ℕ) (values : List PolicyValue)
      → lookup name strengths ≡ some m
      → all (kind_accepts strengths name) values ≡ all (peer_from strengths m) values
  accepts-peer_from name m [] h = refl
  accepts-peer_from name m (v ∷ values) h = ground (arith, accepts-peer_from name m values h)

  serves-peer_to :
      (name : String) (m : ℕ) (values : List PolicyValue)
      → lookup name strengths ≡ some m
      → all (kind_serves strengths name) values ≡ all (peer_to strengths m) values
  serves-peer_to name m [] h = refl
  serves-peer_to name m (v ∷ values) h = ground (arith, serves-peer_to name m values h)

  -- With an empty pool no peer is ranked.
  unranked :
      (name : String) (values : List PolicyValue)
      → ((m : ℕ) → true ≡ all (peer_from strengths m) values)
      → (all (kind_accepts strengths name) values ≡ true)
        × (all (kind_serves strengths name) values ≡ true)
  unranked name [] h = (refl, refl)
  unranked name (v ∷ values) h = elim (Option-cases (rank_of strengths (policy_name v))) [
    | inl e ↦ let rest = unranked name values (λ m. ground (arith, h m)) in ground arith
    | inr (s, e) ↦ absurd (ground (arith, h (suc s)))
  ]

  abbrev WeakestOk : List PolicyValue → String → Result String → Type 0
  WeakestOk values configured (err e) = Unit
  WeakestOk values configured (ok name) = all (kind_accepts strengths name) values ≡ true

  weakest-pick :
      (values : List PolicyValue) (configured : String) (extra : List Ranked)
      (pool all_pool : List Ranked)
      → all_pool ≡ pool ++ extra
      → Consistent strengths all_pool
      → ((m : ℕ) → all_from strengths m pool ≡ all (peer_from strengths m) values)
      → all (kind_accepts strengths (pick strengths configured true all_pool)) values ≡ true
  weakest-pick values configured extra [] [] e c f = (unranked configured values f).0
  weakest-pick values configured extra (y ∷ pool) [] e c f = absurd (ground arith)
  weakest-pick values configured extra pool (x ∷ rest) e c f =
      let m = (min_ranked x rest).0 in
      let (first, others, ranked_at) = min_ranked-least strengths x rest m (omega arith) c in
      let whole : all_from strengths m (pool ++ extra) ≡ true =
        subst (λ l. all_from strengths m l ≡ true) e (rw first others) in
      let part : all_from strengths m pool ≡ true =
        ground (arith, whole, all-append (λ (s, name). leb m s) pool extra) in
      accepts-peer_from (min_ranked x rest).1 m values ranked_at ∙ sym (f m) ∙ part

  -- No weaker than what was configured, if that is ranked.
  abbrev pub keeps_up : String → String → Bool
  keeps_up configured name = elim (lookup configured strengths) [
    | none ↦ true
    | some c ↦ at_least (lookup name strengths) c
  ]

  keeps_up-chosen :
      (configured name : String) (m : ℕ)
      → lookup name strengths ≡ some m
      → at_least (lookup configured strengths) m ≡ false
      → keeps_up configured name ≡ true
  keeps_up-chosen configured name m h e = elim (Option-cases (lookup configured strengths)) [
    | inl n ↦ ground arith
    | inr (c, n) ↦ ground arith
  ]

  keeps_up_self : (configured : String) → keeps_up configured configured ≡ true
  keeps_up_self configured = elim (Option-cases (lookup configured strengths)) [
    | inl n ↦ ground arith
    | inr (c, n) ↦ ground arith
  ]

  at_least-rank : (o : Option ℕ) (m : ℕ) → at_least o m ≡ true → (c : ℕ) × (o ≡ some c) × (m ≤ c)
  at_least-rank none m h = absurd (ground arith)
  at_least-rank (some c) m h = (c, refl, leb→le m c h)

  strongest-pick :
      (values : List PolicyValue) (configured : String) (pool : List Ranked)
      → Consistent strengths pool
      → ((m : ℕ) → all_to strengths m pool ≡ all (peer_to strengths m) values)
      → ((m : ℕ) → all_from strengths m pool ≡ all (peer_from strengths m) values)
      → (all (kind_serves strengths (pick strengths configured false pool)) values ≡ true)
        × (keeps_up configured (pick strengths configured false pool) ≡ true)
  strongest-pick values configured [] c f g =
      ((unranked configured values g).1, keeps_up_self configured)
  strongest-pick values configured (x ∷ rest) c f g =
      elim (Bool-cases (at_least (lookup configured strengths) (max_ranked x rest).0)) [
        | inl e ↦
            let (m, found, le) =
              at_least-rank (lookup configured strengths) (max_ranked x rest).0 e in
            let (first, others, _) = max_ranked-greatest strengths x rest m le c in
            rw e (
              serves-peer_to configured m values found ∙ sym (f m) ∙ rw first others,
              keeps_up_self configured,
            )
        | inr e ↦
            let m = (max_ranked x rest).0 in
            let (first, others, found) = max_ranked-greatest strengths x rest m (omega arith) c in
            rw e (
              serves-peer_to (max_ranked x rest).1 m values found ∙ sym (f m) ∙ rw first others,
              keeps_up-chosen configured (max_ranked x rest).1 m found e,
            )
      ]

  pub ok-injective : (a b : String) → ok a ≡ ok b → a ≡ b
  ok-injective a b h = cc

  weakest-from :
      (values : List PolicyValue) (configured : String) (explicit : Bool) (r : Result (List Ranked))
      (name : String)
      → FromPool strengths r values
      → (r >>= λ pool.
          ok
            (pick strengths configured true (pool ++ explicit_entry strengths configured explicit)))
        ≡ ok name
      → all (kind_accepts strengths name) values ≡ true
  weakest-from values configured explicit (err e) name f h = cc
  weakest-from values configured explicit (ok pool) name f h =
      let extra = explicit_entry strengths configured explicit in
      subst (λ n. all (kind_accepts strengths n) values ≡ true) (ok-injective _ name h)
        (weakest-pick values configured extra pool (pool ++ extra) refl
          (Consistent-append pool extra f.0 (explicit-Consistent configured explicit)) f.1)

  -- The weakest choice, made for a subscriber, asks for no more than any ranked publisher offers.
  pub choose_kind-weakest :
      (values : List PolicyValue) (configured : String) (explicit : Bool) (name : String)
      → choose_kind values configured strengths true explicit ≡ ok name
      → all (kind_accepts strengths name) values ≡ true
  unfolding choose_kind
  choose_kind-weakest values configured explicit name h =
      weakest-from values configured explicit (ranked strengths values) name
        (ranked-FromPool strengths values) h

  strongest-from :
      (values : List PolicyValue) (configured : String) (r : Result (List Ranked)) (name : String)
      → FromPool strengths r values
      → (r >>= λ pool. ok (pick strengths configured false (pool ++ []))) ≡ ok name
      → (all (kind_serves strengths name) values ≡ true) × (keeps_up configured name ≡ true)
  strongest-from values configured (err e) name f h = cc
  strongest-from values configured (ok pool) name f h =
      subst (λ n. (all (kind_serves strengths n) values ≡ true) × (keeps_up configured n ≡ true))
        (ap (pick strengths configured false) (sym (append-nil pool)) ∙ ok-injective _ name h)
        (strongest-pick values configured pool f.0 f.2 f.1)

  -- The other choice, made for a publisher, offers no less than any ranked subscriber asks for,
  -- and no less than what was configured.
  pub choose_kind-strongest :
      (values : List PolicyValue) (configured name : String)
      → choose_kind values configured strengths false false ≡ ok name
      → (all (kind_serves strengths name) values ≡ true) × (keeps_up configured name ≡ true)
  unfolding choose_kind
  choose_kind-strongest values configured name h =
      strongest-from values configured (ranked strengths values) name
        (ranked-FromPool strengths values) h
