-- ===== src/Qos/Engine/Observed.antt =====
-- `reconcile_observe`: the request that the adapter makes for a subscriber.
use one_m2m_dds_ipe.Prelude.{String, ◌≡◌, true, ◌||◌, Option, List}
use one_m2m_dds_ipe.Prelude.Result.{Result, ok, err}
use one_m2m_dds_ipe.Qos.Profile.{QosSpec, Endpoint}
use one_m2m_dds_ipe.Qos.Shared.{dedupe}
use one_m2m_dds_ipe.Qos.Shared.Kinds.{all, kind_accepts}
use one_m2m_dds_ipe.Qos.Shared.Durations.{duration_accepts}
use one_m2m_dds_ipe.Qos.Policies.{Policy, strength, values, observe, get_field}
use one_m2m_dds_ipe.Qos.Policies.Deadline
use one_m2m_dds_ipe.Qos.Policies.Reliability
use one_m2m_dds_ipe.Qos.Policies.Durability
use one_m2m_dds_ipe.Qos.Policies.Liveliness
use one_m2m_dds_ipe.Qos.Engine.{explicit_duration, Decision, downgraded}

-- A result of which `P` holds, if there is one.
abbrev Holds {ℓ} : {A : Type ℓ} → (A → Type 0) → Result A → Type 0
Holds P (ok a) = P a
Holds P (err e) = Unit

abbrev KindAccepted : Policy → List Endpoint → String → Type 0
KindAccepted policy offered name =
    all (kind_accepts (strength policy) name) (values policy offered) ≡ true

abbrev Compatible : Policy → List Endpoint → Option (List String) → QosSpec → Type 0
Compatible policy offered fields spec =
    (all (kind_accepts (strength policy) (get_field policy spec)) (values policy offered) ≡ true)
    × ((explicit_duration fields "deadline_ms"
          || all (duration_accepts spec.deadline_ms) (Deadline.deadlines offered))
        ≡ true)
    × ((explicit_duration fields "liveliness_lease_duration_ms"
          || all (duration_accepts spec.liveliness_lease_duration_ms) (Liveliness.leases offered))
        ≡ true)

module _ (policy : Policy) (offered : List Endpoint) (configured : QosSpec)
    (fields : Option (List String)) where
  abbrev reconciled : String → String → String → QosSpec
  reconciled r d l = record configured {
    reliability = r;
    durability = d;
    liveliness = l;
    deadline_ms =
        Deadline.observe offered configured.deadline_ms (explicit_duration fields "deadline_ms");
    liveliness_lease_duration_ms =
        Liveliness.observe_lease offered configured.liveliness_lease_duration_ms
          (explicit_duration fields "liveliness_lease_duration_ms");
  }

  abbrev decided : String → String → String → Result Decision
  decided r d l = ok (reconciled r d l, dedupe (downgraded configured d))
