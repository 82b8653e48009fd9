-- ===== src/Qos/Policies/Deadline.antt =====
-- src/ipe/qos/deadline.py
use one_m2m_dds_ipe.Prelude.{Bool, ℕ, Option, List, [], ◌∷◌}
use one_m2m_dds_ipe.Qos.Profile.{Duration, Endpoint}
use one_m2m_dds_ipe.Qos.Shared.{requested_duration, offered_duration, guard_duration}

-- `peer.deadline` of every peer
abbrev pub deadlines : List Endpoint → List Duration
deadlines [] = []
deadlines (peer ∷ peers) = peer.deadline ∷ deadlines peers

abbrev pub observe : List Endpoint → Option ℕ → Bool → Option ℕ
observe peers configured explicit = requested_duration (deadlines peers) configured explicit

abbrev pub command : List Endpoint → Option ℕ → Option ℕ
command peers configured = offered_duration (deadlines peers) configured

abbrev pub guard : List Endpoint → Option ℕ → Option ℕ × Bool
guard peers configured = guard_duration (deadlines peers) configured
