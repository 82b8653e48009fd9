-- ===== src/Qos/Engine/Returns.antt =====
-- The engine's three entry points raise nothing for peers whose policies have names.
use one_m2m_dds_ipe.Prelude.{
  ℕ, String, subst, ◌≡◌, refl, ap, ◌∙◌, Bool, true, false, Option, some, List, [], ◌∷◌, ◌++◌, arith,
  Option-cases, inl, inr, string_equality,
}
use mathlib.Core.List.{append-nil}
use one_m2m_dds_ipe.Prelude.Dict.{lookup}
use one_m2m_dds_ipe.Prelude.Result.{Result, ok, err, ◌>>=◌}
use one_m2m_dds_ipe.Qos.Profile.{
  PolicyValue, string_value, enum_member, other_value, QosSpec, Endpoint,
}
use one_m2m_dds_ipe.Qos.Shared.{
  policy_name, Strengths, Ranked, ranked, pick, choose_kind, guard_by, guard_kind,
}
use one_m2m_dds_ipe.Qos.Shared.Kinds.{all, FromPool, ranked-FromPool}
use one_m2m_dds_ipe.Qos.Shared.Guards.{pick-Weakest, selection, guard_by-found}
use one_m2m_dds_ipe.Qos.Policies.{
  Policy, rlb, drb, liv, policies, values, observe, command, guard, get_field,
}
use one_m2m_dds_ipe.Qos.Engine.{
  Decision, reconcile_observe, upgrade, upgrade_all, reconcile_command, demote, demote_all,
  demote_offered, strictness_guard,
}
use one_m2m_dds_ipe.Qos.Engine.Turns.{AllRanked}

abbrev pub Returns {ℓ} : {A : Type ℓ} → Result A → Type ℓ
Returns {A} r = (a : A) × (r ≡ ok a)

bind-Returns {ℓ κ} :
    {A : Type ℓ} {B : Type κ} (m : Result A) (f : A → Result B)
    → Returns m
    → ((a : A) → Returns (f a))
    → Returns (m >>= f)
bind-Returns (ok a) f r k = k a
bind-Returns (err e) f (a, h) k = cc

-- A string or a member of an enumeration, which is all that rclpy's profiles hold.
abbrev pub is_named : PolicyValue → Bool
is_named (string_value s) = true
is_named (enum_member name) = true
is_named other_value = false

abbrev pub AllNamed : List Endpoint → Type 0
AllNamed peers = (policy : Policy) → all is_named (values policy peers) ≡ true

policy_name-Returns : (v : PolicyValue) → is_named v ≡ true → Returns (policy_name v)
unfolding policy_name
policy_name-Returns (string_value s) h = (_, refl)
policy_name-Returns (enum_member name) h = (_, refl)
policy_name-Returns other_value h = cc

ranked-Returns :
    (strengths : Strengths) (vs : List PolicyValue)
    → all is_named vs ≡ true
    → Returns (ranked strengths vs)
unfolding ranked
ranked-Returns strengths [] h = ([], refl)
ranked-Returns strengths (v ∷ vs) h =
    bind-Returns (policy_name v) _ (policy_name-Returns v (ground arith)) (λ name.
      bind-Returns (ranked strengths vs) _ (ranked-Returns strengths vs (ground arith)) (λ rest.
        elim (Option-cases (lookup name strengths)) [
          | inl e ↦ rw e (rest, refl)
          | inr (s, e) ↦ rw e ((s, name) ∷ rest, refl)
        ]))

choose_kind-Returns :
    (strengths : Strengths) (vs : List PolicyValue) (configured : String) (weakest explicit : Bool)
    → all is_named vs ≡ true
    → Returns (choose_kind vs configured strengths weakest explicit)
unfolding choose_kind
choose_kind-Returns strengths vs configured weakest explicit h =
    bind-Returns (ranked strengths vs) _ (ranked-Returns strengths vs h) (λ pool. (_, refl))

guard_kind-Returns :
    (strengths : Strengths) (vs : List PolicyValue) (configured : String) (c : ℕ)
    → lookup configured strengths ≡ some c
    → all is_named vs ≡ true
    → Returns (guard_kind vs configured strengths)
unfolding guard_kind choose_kind
guard_kind-Returns strengths vs configured c found h =
    let (pool, e) = ranked-Returns strengths vs h in
    let from_pool : FromPool strengths (ok pool) vs =
      subst (λ (r : Result (List Ranked)). FromPool strengths r vs) e
        (ranked-FromPool strengths vs) in
    let (w, found_w, _, _) = pick-Weakest strengths vs configured c pool found from_pool in
    (
      selection strengths configured (pick strengths configured true pool) c w,
      ap
            (λ (r : Result (List Ranked)).
              (r >>= λ pool. ok (pick strengths configured true (pool ++ [])))
              >>= guard_by strengths configured)
            e
          ∙ ap (λ l. guard_by strengths configured (pick strengths configured true l))
              (append-nil pool)
          ∙ guard_by-found strengths configured (pick strengths configured true pool) c w found
              found_w,
    )

observe-Returns :
    (policy : Policy) (offered : List Endpoint) (configured : String) (e : Bool)
    → AllNamed offered
    → Returns (observe policy offered configured e)
observe-Returns rlb offered configured e h = choose_kind-Returns _ _ configured true e (h rlb)
observe-Returns drb offered configured e h = choose_kind-Returns _ _ configured true e (h drb)
observe-Returns liv offered configured e h = choose_kind-Returns _ _ configured true e (h liv)

command-Returns :
    (policy : Policy) (requested : List Endpoint) (configured : String)
    → AllNamed requested
    → Returns (command policy requested configured)
command-Returns rlb requested configured h = choose_kind-Returns _ _ configured false false (h rlb)
command-Returns drb requested configured h = choose_kind-Returns _ _ configured false false (h drb)
command-Returns liv requested configured h = choose_kind-Returns _ _ configured false false (h liv)

guard-Returns :
    (policy : Policy) (offered : List Endpoint) (spec : QosSpec)
    → AllRanked spec
    → AllNamed offered
    → Returns (guard policy offered (get_field policy spec))
guard-Returns rlb offered spec r h = guard_kind-Returns _ _ _ (r rlb).0 (r rlb).1 (h rlb)
guard-Returns drb offered spec r h = guard_kind-Returns _ _ _ (r drb).0 (r drb).1 (h drb)
guard-Returns liv offered spec r h = guard_kind-Returns _ _ _ (r liv).0 (r liv).1 (h liv)

observe_request-Returns :
    (offered : List Endpoint) (configured : QosSpec) (e : Bool) (fields : Option (List String))
    → AllNamed offered
    → Returns (reconcile_observe offered configured e fields)
unfolding reconcile_observe
observe_request-Returns [] configured e fields h = (_, refl)
observe_request-Returns (peer ∷ peers) configured e fields h =
    bind-Returns _ _ (observe-Returns rlb (peer ∷ peers) configured.reliability _ h) (λ r.
      bind-Returns _ _ (observe-Returns drb (peer ∷ peers) configured.durability _ h) (λ d.
        bind-Returns _ _ (observe-Returns liv (peer ∷ peers) configured.liveliness _ h)
          (λ l. (_, refl))))

upgrade_all-Returns :
    (requested : List Endpoint) (ps : List Policy) (decision : Decision)
    → AllNamed requested
    → Returns (upgrade_all requested ps decision)
unfolding upgrade_all upgrade
upgrade_all-Returns requested [] decision h = (decision, refl)
upgrade_all-Returns requested (policy ∷ rest) decision h =
    bind-Returns (upgrade requested policy decision) _
      (bind-Returns (command policy requested (get_field policy decision.0)) _
        (command-Returns policy requested _ h) (λ selected. (_, refl)))
      (λ next. upgrade_all-Returns requested rest next h)

command_offer-Returns :
    (requested : List Endpoint) (configured : QosSpec)
    → AllNamed requested
    → Returns (reconcile_command requested configured)
unfolding reconcile_command
command_offer-Returns [] configured h = (_, refl)
command_offer-Returns (peer ∷ peers) configured h =
    bind-Returns _ _ (upgrade_all-Returns (peer ∷ peers) policies (configured, []) h)
      (λ d. (_, refl))

demote_all-Returns :
    (spec : QosSpec) (offered : List Endpoint) (ps : List Policy) (decision : Decision)
    → AllRanked spec
    → AllNamed offered
    → Returns (demote_all spec offered ps decision)
unfolding demote_all demote
demote_all-Returns spec offered [] decision r h = (decision, refl)
demote_all-Returns spec offered (policy ∷ rest) decision r h =
    bind-Returns (demote spec offered policy decision) _
      (bind-Returns _ _ (guard-Returns policy offered spec r h) (λ p. (_, refl)))
      (λ next. demote_all-Returns spec offered rest next r h)

demote_offered-Returns :
    (spec : QosSpec) (offered : List Endpoint)
    → AllRanked spec
    → AllNamed offered
    → Returns (demote_offered spec offered)
unfolding demote_offered
demote_offered-Returns spec [] r h = (_, refl)
demote_offered-Returns spec (peer ∷ peers) r h =
    bind-Returns _ _ (demote_all-Returns spec (peer ∷ peers) policies (spec, []) r h)
      (λ d. (_, refl))

demote_mode-Returns :
    (spec : QosSpec) (offered : List Endpoint)
    → AllRanked spec
    → AllNamed offered
    → Returns (strictness_guard spec offered "demote")
unfolding strictness_guard
demote_mode-Returns spec offered r h =
    bind-Returns _ _ (demote_offered-Returns spec offered r h) (λ d. (_, refl))

-- For peers whose policies are strings or enumeration members, the two reconciliations return a
-- decision, and the guard in mode "demote" does so if the profile's kinds are ranked as well.
pub engine-Returns :
    (peers : List Endpoint) (spec : QosSpec) (has_explicit : Bool) (fields : Option (List String))
    → AllNamed peers
    → AllRanked spec
    → Returns (reconcile_observe peers spec has_explicit fields)
      × Returns (reconcile_command peers spec)
      × Returns (strictness_guard spec peers "demote")
engine-Returns peers spec has_explicit fields named all_ranked = (
  observe_request-Returns peers spec has_explicit fields named,
  command_offer-Returns peers spec named,
  demote_mode-Returns spec peers all_ranked named,
)
