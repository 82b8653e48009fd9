-- ===== src/Qos/Engine/Turns.antt =====
-- The single steps of `strictness_guard`: each puts in the guard's selection, and is silent
-- exactly if what was given is accepted.
use one_m2m_dds_ipe.Prelude.{
  ℕ, String, ◌≡◌, refl, ap, sym, ◌∙◌, Bool, true, false, not, ◌&&◌, Option, none, some, List, [],
  ◌∷◌, ◌++◌, arith, Bool-cases, inl, inr, if◌then◌else◌, string_equality,
}
use one_m2m_dds_ipe.Prelude.Dict.{lookup}
use one_m2m_dds_ipe.Prelude.Result.{ok}
use one_m2m_dds_ipe.Qos.Profile.{QosSpec, Endpoint, Duration}
use one_m2m_dds_ipe.Qos.Shared.{guard_duration}
use one_m2m_dds_ipe.Qos.Shared.Kinds.{all, kind_accepts}
use one_m2m_dds_ipe.Qos.Shared.Guards.{guard_kind-exact}
use one_m2m_dds_ipe.Qos.Shared.Durations.{duration_accepts, guard_duration-accepts}
use one_m2m_dds_ipe.Qos.Policies.{
  Policy, rlb, drb, liv, strength, values, guard, get_field, replace, strict_event,
}
use one_m2m_dds_ipe.Qos.Policies.Deadline
use one_m2m_dds_ipe.Qos.Policies.Reliability
use one_m2m_dds_ipe.Qos.Policies.Durability
use one_m2m_dds_ipe.Qos.Policies.Liveliness
use one_m2m_dds_ipe.Qos.Engine.{Decision, demote, demote_deadline, demote_lease}
use one_m2m_dds_ipe.Qos.Engine.Commanded.{chained, replace-same}

-- Each ordered policy of the profile has a kind that its module ranks.
abbrev pub AllRanked : QosSpec → Type 0
AllRanked spec =
    (policy : Policy) → (c : ℕ) × (lookup (get_field policy spec) (strength policy) ≡ some c)

abbrev pub accepted : Policy → List Endpoint → QosSpec → Bool
accepted policy offered spec =
    all (kind_accepts (strength policy) (get_field policy spec)) (values policy offered)

guard-exact :
    (policy : Policy) (offered : List Endpoint) (configured : String) (c : ℕ) (selected : String)
    (strict : Bool)
    → lookup configured (strength policy) ≡ some c
    → guard policy offered configured ≡ ok (selected, strict)
    → (all (kind_accepts (strength policy) selected) (values policy offered) ≡ true)
      × (strict ≡ not (all (kind_accepts (strength policy) configured) (values policy offered)))
      × ((if strict then selected else configured) ≡ selected)
guard-exact rlb offered configured c selected strict h g =
    guard_kind-exact Reliability.strength (Reliability.values offered) configured c selected strict
      h g
guard-exact drb offered configured c selected strict h g =
    guard_kind-exact Durability.strength (Durability.values offered) configured c selected strict h
      g
guard-exact liv offered configured c selected strict h g =
    guard_kind-exact Liveliness.strength (Liveliness.values offered) configured c selected strict h
      g

abbrev pub no_events : List String → Bool
no_events [] = true
no_events (e ∷ events) = false

no_events-append : (xs : List String) (x : String) → no_events (xs ++ (x ∷ [])) ≡ false
no_events-append [] x = refl
no_events-append (y ∷ xs) x = refl

abbrev demoted_by : Policy → Decision → String → Bool → Decision
demoted_by policy (demoted, events) selected strict =
    if strict
    then (replace policy selected demoted, events ++ (strict_event policy ∷ []))
    else (demoted, events)

demoted_by-replaces :
    (policy : Policy) (configured : String) (decision : Decision) (selected : String)
    (strict : Bool)
    → get_field policy decision.0 ≡ configured
    → (if strict then selected else configured) ≡ selected
    → ((demoted_by policy decision selected strict).0 ≡ replace policy selected decision.0)
      × (no_events (demoted_by policy decision selected strict).1
          ≡ (no_events decision.1 && not strict))
demoted_by-replaces policy configured (demoted, events) selected true h k =
    (refl, no_events-append events (strict_event policy) ∙ ground arith)
demoted_by-replaces policy configured (demoted, events) selected false h k =
    (sym (replace-same policy demoted) ∙ ap (λ v. replace policy v demoted) (h ∙ k), ground arith)

pub ok_eq : (d d' : Decision) → ok d ≡ ok d' → d ≡ d'
ok_eq d d' h = cc

and_not-not : (a b : Bool) → (a && not (not b)) ≡ (a && b)
and_not-not a b = ground arith

-- One turn of the guard's loop.
pub demote-replaces :
    (spec : QosSpec) (offered : List Endpoint) (policy : Policy) (decision next : Decision)
    → AllRanked spec
    → get_field policy decision.0 ≡ get_field policy spec
    → demote spec offered policy decision ≡ ok next
    → (selected : String) × (next.0 ≡ replace policy selected decision.0)
      × (all (kind_accepts (strength policy) selected) (values policy offered) ≡ true)
      × (no_events next.1 ≡ (no_events decision.1 && accepted policy offered spec))
unfolding demote
demote-replaces spec offered policy decision next r k h =
    let (c, found) = r policy in
    let (p, chosen, rest) = chained (guard policy offered (get_field policy spec)) _ next h in
    let (ok_selected, exact, kept) =
      guard-exact policy offered (get_field policy spec) c p.0 p.1 found chosen in
    let (same, quiet) =
      demoted_by-replaces policy (get_field policy spec) decision p.0 p.1 k kept in
    let e : demoted_by policy decision p.0 p.1 ≡ next = ok_eq _ next rest in
    (
      p.0,
      ap (λ (d : Decision). d.0) (sym e) ∙ same,
      ok_selected,
      ap (λ (d : Decision). no_events d.1) (sym e)
          ∙ quiet
          ∙ ap (λ b. no_events decision.1 && not b) exact
          ∙ and_not-not (no_events decision.1) _,
    )

guarded_value :
    (ds : List Duration) (configured : Option ℕ)
    → (guard_duration ds configured).1 ≡ false
    → (guard_duration ds configured).0 ≡ configured
unfolding guard_duration
guarded_value ds none h = refl
guarded_value ds (some c) h = rw h refl

abbrev pub deadline_accepted : List Endpoint → Option ℕ → Bool
deadline_accepted offered d = all (duration_accepts d) (Deadline.deadlines offered)

abbrev pub lease_accepted : List Endpoint → Option ℕ → Bool
lease_accepted offered d = all (duration_accepts d) (Liveliness.leases offered)

strict_heard : (q a s : Bool) → s ≡ not a → s ≡ true → false ≡ (q && a)
strict_heard q a s h e = ground arith

quiet_kept : (q a s : Bool) → s ≡ not a → s ≡ false → q ≡ (q && a)
quiet_kept q a s h e = ground arith

pub demote_deadline-accepted :
    (spec : QosSpec) (offered : List Endpoint) (decision : Decision)
    → decision.0.deadline_ms ≡ spec.deadline_ms
    → ((demote_deadline spec offered decision).0
        ≡ record decision.0 { deadline_ms = (Deadline.guard offered spec.deadline_ms).0 })
      × (no_events (demote_deadline spec offered decision).1
          ≡ (no_events decision.1 && deadline_accepted offered spec.deadline_ms))
unfolding demote_deadline
demote_deadline-accepted spec offered (demoted, events) k =
    let exact = (guard_duration-accepts (Deadline.deadlines offered) spec.deadline_ms).1 in
    elim (Bool-cases (Deadline.guard offered spec.deadline_ms).1) [
      | inl e ↦ rw e (
        refl,
        no_events-append events "strictDeadline" ∙ strict_heard (no_events events) _ _ exact e,
      )
      | inr e ↦ rw e (
        ap (λ d. record demoted { deadline_ms = d }) (k ∙ sym (guarded_value _ spec.deadline_ms e)),
        quiet_kept (no_events events) _ _ exact e,
      )
    ]

pub demote_lease-accepted :
    (spec : QosSpec) (offered : List Endpoint) (decision : Decision)
    → decision.0.liveliness_lease_duration_ms ≡ spec.liveliness_lease_duration_ms
    → ((demote_lease spec offered decision).0 ≡ record decision.0 {
      liveliness_lease_duration_ms =
          (Liveliness.guard_lease offered spec.liveliness_lease_duration_ms).0;
    })
      × (no_events (demote_lease spec offered decision).1
          ≡ (no_events decision.1 && lease_accepted offered spec.liveliness_lease_duration_ms))
unfolding demote_lease
demote_lease-accepted spec offered (demoted, events) k =
    let exact =
      (guard_duration-accepts (Liveliness.leases offered) spec.liveliness_lease_duration_ms).1 in
    elim (Bool-cases (Liveliness.guard_lease offered spec.liveliness_lease_duration_ms).1) [
      | inl e ↦ rw e (
        refl,
        no_events-append events "strictLease" ∙ strict_heard (no_events events) _ _ exact e,
      )
      | inr e ↦ rw e (
        ap (λ d. record demoted { liveliness_lease_duration_ms = d })
            (k ∙ sym (guarded_value _ spec.liveliness_lease_duration_ms e)),
        quiet_kept (no_events events) _ _ exact e,
      )
    ]
