-- ===== src/Qos/Engine/Guarded.antt =====
-- `strictness_guard`: the check of a profile against the publishers that are there.
use one_m2m_dds_ipe.Prelude.{String, ◌≡◌, Bool, true, ◌&&◌, List, string_equality}
use one_m2m_dds_ipe.Prelude.Result.{Result, ok}
use one_m2m_dds_ipe.Qos.Profile.{QosSpec, Endpoint}
use one_m2m_dds_ipe.Qos.Shared.Kinds.{all, kind_accepts}
use one_m2m_dds_ipe.Qos.Shared.Durations.{duration_accepts}
use one_m2m_dds_ipe.Qos.Policies.{rlb, drb, liv, strength, values}
use one_m2m_dds_ipe.Qos.Policies.Deadline
use one_m2m_dds_ipe.Qos.Policies.Liveliness
use one_m2m_dds_ipe.Qos.Engine.{Decision}
use one_m2m_dds_ipe.Qos.Engine.Turns.{accepted, no_events}

abbrev demoted_spec : QosSpec → String → String → String → List Endpoint → QosSpec
demoted_spec spec r d l offered = record spec {
  reliability = r;
  durability = d;
  liveliness = l;
  deadline_ms = (Deadline.guard offered spec.deadline_ms).0;
  liveliness_lease_duration_ms =
      (Liveliness.guard_lease offered spec.liveliness_lease_duration_ms).0;
}

abbrev KindsAccepted : List Endpoint → String → String → String → Type 0
KindsAccepted offered r d l =
    (all (kind_accepts (strength rlb) r) (values rlb offered) ≡ true)
    × (all (kind_accepts (strength drb) d) (values drb offered) ≡ true)
    × (all (kind_accepts (strength liv) l) (values liv offered) ≡ true)

abbrev pub compatible : List Endpoint → QosSpec → Bool
compatible offered spec =
    (((accepted rlb offered spec && accepted drb offered spec) && accepted liv offered spec)
      && all (duration_accepts spec.deadline_ms) (Deadline.deadlines offered))
    && all (duration_accepts spec.liveliness_lease_duration_ms) (Liveliness.leases offered)

abbrev Guarded : List Endpoint → QosSpec → Decision → Type 0
Guarded offered spec decision =
    (compatible offered decision.0 ≡ true) × (no_events decision.1 ≡ compatible offered spec)

abbrev rejected : QosSpec → Decision → Result Decision
rejected spec decision = ok (spec, decision.1)
