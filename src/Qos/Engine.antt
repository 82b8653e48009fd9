-- ===== src/Qos/Engine.antt =====
-- src/ipe/qos/engine.py: the decisions of the single policies, composed.
pub mod Observed
pub mod Commanded
pub mod Turns
pub mod Guarded
pub mod Returns
use one_m2m_dds_ipe.Prelude.{
  ℕ, String, Bool, true, false, ◌&&◌, ◌||◌, not, Option, none, some, List, [], ◌∷◌, ◌++◌, ◌==◌,
  contains, if◌then◌else◌, nat_eq, string_equality,
}
use one_m2m_dds_ipe.Prelude.Result.{Result, ok, err, value_error, ◌>>=◌}
use one_m2m_dds_ipe.Qos.Profile.{QosSpec, Endpoint}
use one_m2m_dds_ipe.Qos.Shared.{dedupe}
use one_m2m_dds_ipe.Qos.Policies.{
  Policy, rlb, drb, liv, policies, observe, command, guard, get_field, replace, strict_event,
}
use one_m2m_dds_ipe.Qos.Policies.Deadline
use one_m2m_dds_ipe.Qos.Policies.Liveliness.{observe_lease, command_lease, guard_lease}

abbrev pub Decision : Type 0
Decision = QosSpec × List String

-- `explicit(field)`: a set of fields, where there is one, decides in place of the flag.
abbrev pub explicit : Bool → Option (List String) → String → Bool
explicit has_explicit none field = has_explicit
explicit has_explicit (some fields) field = contains field fields

-- `field in (explicit_fields or frozenset())`
abbrev pub explicit_duration : Option (List String) → String → Bool
explicit_duration none field = false
explicit_duration (some fields) field = contains field fields

abbrev pub downgraded : QosSpec → String → List String
downgraded configured durability =
    if configured.durability == "TRANSIENT_LOCAL" && durability == "VOLATILE"
    then "latchedDowngraded" ∷ []
    else []

unfoldable pub reconcile_observe :
    List Endpoint → QosSpec → Bool → Option (List String) → Result Decision
reconcile_observe [] configured has_explicit fields = ok (configured, "noPublisherFallback" ∷ [])
reconcile_observe (peer ∷ peers) configured has_explicit fields =
    let offered = peer ∷ peers in
    let asked = explicit has_explicit fields in
    observe rlb offered configured.reliability (asked "reliability") >>= λ reliability.
    observe drb offered configured.durability (asked "durability") >>= λ durability.
    observe liv offered configured.liveliness (asked "liveliness") >>= λ liveliness. ok (
      record configured {
        reliability = reliability;
        durability = durability;
        liveliness = liveliness;
        deadline_ms =
            Deadline.observe offered configured.deadline_ms
              (explicit_duration fields "deadline_ms");
        liveliness_lease_duration_ms =
            observe_lease offered configured.liveliness_lease_duration_ms
              (explicit_duration fields "liveliness_lease_duration_ms");
      },
      dedupe (downgraded configured durability),
    )

-- One turn of the loop over the policies, on the profile and the events so far.
unfoldable pub upgrade : List Endpoint → Policy → Decision → Result Decision
upgrade requested policy (spec, events) =
    command policy requested (get_field policy spec) >>= λ selected. ok (
      if get_field policy spec == selected
      then (spec, events)
      else (replace policy selected spec, events ++ ("qosUpgraded" ∷ [])))

unfoldable pub upgrade_all : List Endpoint → List Policy → Decision → Result Decision
upgrade_all requested [] decision = ok decision
upgrade_all requested (policy ∷ rest) decision =
    upgrade requested policy decision >>= λ next. upgrade_all requested rest next

abbrev pub same_duration : Option ℕ → Option ℕ → Bool
same_duration none none = true
same_duration (some a) (some b) = nat_eq a b
same_duration none (some b) = false
same_duration (some a) none = false

abbrev pub require_lifespan : QosSpec → List String
require_lifespan spec =
    if spec.durability == "TRANSIENT_LOCAL" && same_duration spec.lifespan_ms none
    then "transientLocalLifespanRequired" ∷ []
    else []

unfoldable pub upgrade_deadline : List Endpoint → Decision → Decision
upgrade_deadline requested (spec, events) =
    let deadline_ms = Deadline.command requested spec.deadline_ms in
    if same_duration deadline_ms spec.deadline_ms
    then (spec, events)
    else (record spec { deadline_ms = deadline_ms }, events ++ ("qosUpgraded" ∷ []))

unfoldable pub upgrade_lease : List Endpoint → Decision → Decision
upgrade_lease requested (spec, events) =
    let lease_ms = command_lease requested spec.liveliness_lease_duration_ms in
    if same_duration lease_ms spec.liveliness_lease_duration_ms
    then (spec, events)
    else (record spec { liveliness_lease_duration_ms = lease_ms }, events ++ ("qosUpgraded" ∷ []))

unfoldable pub reconcile_command : List Endpoint → QosSpec → Result Decision
reconcile_command [] configured = ok (configured, "noSubscriberFallback" ∷ [])
reconcile_command (peer ∷ peers) configured =
    let requested = peer ∷ peers in
    upgrade_all requested policies (configured, []) >>= λ (spec, events).
    let (final, all_events) =
      upgrade_lease requested
        (upgrade_deadline requested (spec, events ++ require_lifespan spec)) in
    ok (final, dedupe all_events)

-- One turn of the guard's loop: `spec` is the profile that was given, `demoted` the one so far.
unfoldable pub demote : QosSpec → List Endpoint → Policy → Decision → Result Decision
demote spec offered policy (demoted, events) =
    guard policy offered (get_field policy spec) >>= λ (selected, strict). ok (
      if strict
      then (replace policy selected demoted, events ++ (strict_event policy ∷ []))
      else (demoted, events))

unfoldable pub demote_all : QosSpec → List Endpoint → List Policy → Decision → Result Decision
demote_all spec offered [] decision = ok decision
demote_all spec offered (policy ∷ rest) decision =
    demote spec offered policy decision >>= λ next. demote_all spec offered rest next

unfoldable pub demote_deadline : QosSpec → List Endpoint → Decision → Decision
demote_deadline spec offered (demoted, events) =
    let (value, strict) = Deadline.guard offered spec.deadline_ms in
    if strict
    then (record demoted { deadline_ms = value }, events ++ ("strictDeadline" ∷ []))
    else (demoted, events)

unfoldable pub demote_lease : QosSpec → List Endpoint → Decision → Decision
demote_lease spec offered (demoted, events) =
    let (value, strict) = guard_lease offered spec.liveliness_lease_duration_ms in
    if strict
    then (record demoted { liveliness_lease_duration_ms = value }, events ++ ("strictLease" ∷ []))
    else (demoted, events)

-- The guard's body behind the check of the mode.
unfoldable pub demote_offered : QosSpec → List Endpoint → Result Decision
demote_offered spec [] = ok (spec, [])
demote_offered spec (peer ∷ peers) =
    let offered = peer ∷ peers in
    demote_all spec offered policies (spec, []) >>= λ decision.
    ok (demote_lease spec offered (demote_deadline spec offered decision))

unfoldable pub strictness_guard : QosSpec → List Endpoint → String → Result Decision
strictness_guard spec offered mode =
    let guarded = demote_offered spec offered in
    if not (mode == "reject" || mode == "demote")
    then err value_error
    else (guarded >>= λ (demoted, events). ok (if mode == "demote" then demoted else spec, events))
