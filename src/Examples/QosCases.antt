-- ===== src/Examples/QosCases.antt =====
-- Quality of service: a reliable and a best-effort peer.
use one_m2m_dds_ipe.Prelude.{
  ℕ, ◌≤◌, ◌<◌, ◌*◌, ◌/◌, String, ◌≡◌, refl, Bool, true, false, not, Option, none, some, List, [],
  ◌∷◌, arith, string_equality,
}
use one_m2m_dds_ipe.Prelude.Dict.{lookup}
use one_m2m_dds_ipe.Qos.Profile.{
  QosSpec, default_spec, string_value, enum_member, unset, nanoseconds, Endpoint,
}
use one_m2m_dds_ipe.Qos.Shared.{choose_kind, requested_duration}
use one_m2m_dds_ipe.Qos.Shared.Kinds.{all, kind_serves}
use one_m2m_dds_ipe.Qos.Shared.Kinds.Choice.{keeps_up}
use one_m2m_dds_ipe.Qos.Shared.Durations.{duration_serves, lasts, requested_duration-rounds_down}
use one_m2m_dds_ipe.Qos.Policies.{rlb, drb, liv, strength, values}
use one_m2m_dds_ipe.Qos.Policies.Deadline
use one_m2m_dds_ipe.Qos.Policies.Liveliness
use one_m2m_dds_ipe.Qos.Engine.{
  explicit_duration, reconcile_observe, reconcile_command, strictness_guard,
}
use one_m2m_dds_ipe.Qos.Engine.Commanded.{reconcile_command-serves}
use one_m2m_dds_ipe.Qos.Engine.Turns.{AllRanked}
use one_m2m_dds_ipe.Qos.Engine.Returns.{Returns, AllNamed, engine-Returns}

abbrev best_effort_peer : Endpoint
best_effort_peer = record {
  reliability = enum_member "BEST_EFFORT";
  durability = enum_member "TRANSIENT_LOCAL";
  liveliness = enum_member "AUTOMATIC";
  deadline = nanoseconds 100000000;
  liveliness_lease_duration = unset;
  lifespan = unset;
}

abbrev reliable_peer : Endpoint
reliable_peer = record best_effort_peer {
  reliability = string_value "reliable";
  deadline = nanoseconds 50000000;
}

abbrev mixed_peers : List Endpoint
mixed_peers = best_effort_peer ∷ reliable_peer ∷ []

requested_duration-rounds_down_example :
    (m : ℕ) × (requested_duration (nanoseconds 1500000 ∷ []) none false ≡ some m)
    × (m * 1000000 < 1500000)
requested_duration-rounds_down_example =
    requested_duration-rounds_down 1500000 none (omega arith) (omega arith)

abbrev observed_spec : QosSpec
observed_spec = record default_spec {
  reliability = "BEST_EFFORT";
  durability = "TRANSIENT_LOCAL";
  deadline_ms = some 100;
}

abbrev commanded_spec : QosSpec
commanded_spec = record default_spec { durability = "TRANSIENT_LOCAL"; deadline_ms = some 50 }

reconcile_command-serves_example :
    (all (kind_serves (strength drb) "TRANSIENT_LOCAL") (values drb mixed_peers) ≡ true)
    × (keeps_up (strength drb) "VOLATILE" "TRANSIENT_LOCAL" ≡ true)
    × (all (duration_serves (some 50)) (Deadline.deadlines mixed_peers) ≡ true)
    × (lasts (some 50) none ≡ true)
    × (all (duration_serves none) (Liveliness.leases mixed_peers) ≡ true)
    × (lasts none none ≡ true)
unfolding reconcile_command one_m2m_dds_ipe.Qos.Engine.upgrade_all
    one_m2m_dds_ipe.Qos.Engine.upgrade choose_kind one_m2m_dds_ipe.Qos.Shared.ranked
    one_m2m_dds_ipe.Qos.Shared.policy_name lookup one_m2m_dds_ipe.Prelude.Text.upper
    one_m2m_dds_ipe.Qos.Engine.upgrade_lease one_m2m_dds_ipe.Qos.Shared.dedupe
    one_m2m_dds_ipe.Qos.Shared.offered_duration one_m2m_dds_ipe.Qos.Shared.min_finite
    one_m2m_dds_ipe.Qos.Shared.duration_ms one_m2m_dds_ipe.Qos.Engine.upgrade_deadline
    one_m2m_dds_ipe.Qos.Shared.max_ranked one_m2m_dds_ipe.Qos.Shared.ranked_lt
reconcile_command-serves_example =
    reconcile_command-serves drb best_effort_peer (reliable_peer ∷ []) default_spec commanded_spec
      ("qosUpgraded" ∷ "transientLocalLifespanRequired" ∷ []) refl

default_spec-AllRanked : AllRanked default_spec
unfolding lookup
default_spec-AllRanked rlb = (1, refl)
default_spec-AllRanked drb = (0, refl)
default_spec-AllRanked liv = (0, refl)

mixed_peers-AllNamed : AllNamed mixed_peers
mixed_peers-AllNamed rlb = refl
mixed_peers-AllNamed drb = refl
mixed_peers-AllNamed liv = refl

engine-Returns_example :
    Returns (reconcile_observe mixed_peers default_spec false none)
    × Returns (reconcile_command mixed_peers default_spec)
    × Returns (strictness_guard default_spec mixed_peers "demote")
engine-Returns_example =
    engine-Returns mixed_peers default_spec false none mixed_peers-AllNamed default_spec-AllRanked
