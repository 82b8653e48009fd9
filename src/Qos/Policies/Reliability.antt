-- ===== src/Qos/Policies/Reliability.antt =====
-- src/ipe/qos/reliability.py
use one_m2m_dds_ipe.Prelude.{String, Bool, true, false, List, [], ◌∷◌}
use one_m2m_dds_ipe.Prelude.Result.{Result}
use one_m2m_dds_ipe.Qos.Profile.{PolicyValue, Endpoint}
use one_m2m_dds_ipe.Qos.Shared.{Strengths, choose_kind, guard_kind}

abbrev pub strength : Strengths
strength = ("BEST_EFFORT", 0) ∷ ("RELIABLE", 1) ∷ []

-- `getattr(peer, FIELD)` of every peer
abbrev pub values : List Endpoint → List PolicyValue
values [] = []
values (peer ∷ peers) = peer.reliability ∷ values peers

abbrev pub observe : List Endpoint → String → Bool → Result String
observe peers configured explicit = choose_kind (values peers) configured strength true explicit

abbrev pub command : List Endpoint → String → Result String
command peers configured = choose_kind (values peers) configured strength false false

abbrev pub guard : List Endpoint → String → Result (String × Bool)
guard peers configured = guard_kind (values peers) configured strength
