-- ===== src/Qos/Policies.antt =====
-- The policy modules of src/ipe/qos, as the engine's loops `for policy in (rlb, drb, liv)` use
-- them: `Policy` stands for the module, its functions for the module's attributes.
pub mod Reliability
pub mod Durability
pub mod Liveliness
pub mod Deadline
use one_m2m_dds_ipe.Prelude.{String, Bool, List, [], ◌∷◌}
use one_m2m_dds_ipe.Prelude.Result.{Result}
use one_m2m_dds_ipe.Qos.Profile.{PolicyValue, Endpoint, QosSpec}
use one_m2m_dds_ipe.Qos.Shared.{Strengths}

pub data Policy : Type 0 where
  rlb : Policy
  drb : Policy
  liv : Policy

abbrev pub policies : List Policy
policies = rlb ∷ drb ∷ liv ∷ []

abbrev pub strength : Policy → Strengths
strength rlb = Reliability.strength
strength drb = Durability.strength
strength liv = Liveliness.strength

abbrev pub values : Policy → List Endpoint → List PolicyValue
values rlb peers = Reliability.values peers
values drb peers = Durability.values peers
values liv peers = Liveliness.values peers

abbrev pub observe : Policy → List Endpoint → String → Bool → Result String
observe rlb peers configured explicit = Reliability.observe peers configured explicit
observe drb peers configured explicit = Durability.observe peers configured explicit
observe liv peers configured explicit = Liveliness.observe peers configured explicit

abbrev pub command : Policy → List Endpoint → String → Result String
command rlb peers configured = Reliability.command peers configured
command drb peers configured = Durability.command peers configured
command liv peers configured = Liveliness.command peers configured

abbrev pub guard : Policy → List Endpoint → String → Result (String × Bool)
guard rlb peers configured = Reliability.guard peers configured
guard drb peers configured = Durability.guard peers configured
guard liv peers configured = Liveliness.guard peers configured

-- `getattr(spec, policy.FIELD)`
abbrev pub get_field : Policy → QosSpec → String
get_field rlb spec = spec.reliability
get_field drb spec = spec.durability
get_field liv spec = spec.liveliness

-- `replace(spec, **{policy.FIELD: selected})`
abbrev pub replace : Policy → String → QosSpec → QosSpec
replace rlb selected spec = record spec { reliability = selected }
replace drb selected spec = record spec { durability = selected }
replace liv selected spec = record spec { liveliness = selected }

-- `"strict" + policy.FIELD.title()`
abbrev pub strict_event : Policy → String
strict_event rlb = "strictReliability"
strict_event drb = "strictDurability"
strict_event liv = "strictLiveliness"
