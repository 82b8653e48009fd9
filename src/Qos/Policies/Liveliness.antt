-- ===== src/Qos/Policies/Liveliness.antt =====
-- src/ipe/qos/liveliness.py
use one_m2m_dds_ipe.Prelude.{String, Bool, true, false, ℕ, Option, List, [], ◌∷◌}
use one_m2m_dds_ipe.Prelude.Result.{Result}
use one_m2m_dds_ipe.Qos.Profile.{PolicyValue, Duration, Endpoint}
use one_m2m_dds_ipe.Qos.Shared.{
  Strengths, choose_kind, guard_kind, requested_duration, offered_duration, guard_duration,
}

abbrev pub strength : Strengths
strength = ("AUTOMATIC", 0) ∷ ("MANUAL_BY_TOPIC", 1) ∷ []

-- `getattr(peer, FIELD)` of every peer
abbrev pub values : List Endpoint → List PolicyValue
values [] = []
values (peer ∷ peers) = peer.liveliness ∷ values peers

abbrev pub observe : List Endpoint → String → Bool → Result String
observe peers configured explicit = choose_kind (values peers) configured strength true explicit

abbrev pub command : List Endpoint → String → Result String
command peers configured = choose_kind (values peers) configured strength false false

abbrev pub guard : List Endpoint → String → Result (String × Bool)
guard peers configured = guard_kind (values peers) configured strength

-- `peer.liveliness_lease_duration` of every peer
abbrev pub leases : List Endpoint → List Duration
leases [] = []
leases (peer ∷ peers) = peer.liveliness_lease_duration ∷ leases peers

abbrev pub observe_lease : List Endpoint → Option ℕ → Bool → Option ℕ
observe_lease peers configured explicit = requested_duration (leases peers) configured explicit

abbrev pub command_lease : List Endpoint → Option ℕ → Option ℕ
command_lease peers configured = offered_duration (leases peers) configured

abbrev pub guard_lease : List Endpoint → Option ℕ → Option ℕ × Bool
guard_lease peers configured = guard_duration (leases peers) configured
