-- ===== src/Qos/Mappings/Representation.antt =====
-- Which resources the plans of an observed topic name.
use one_m2m_dds_ipe.Prelude.{
  ℕ, String, ◌≡◌, none, some, ◌++◌, ◌==◌, if◌then◌else◌, string_equality, arith, Option-cases, inl,
  inr,
}
use one_m2m_dds_ipe.Prelude.Dict.{Dict, lookup}
use one_m2m_dds_ipe.Qos.Profile.{QosSpec}
use one_m2m_dds_ipe.Qos.Mappings.{
  Plan, plain, path_of, container_mni, history_mapping, lifespan_mapping, topic_mapping,
  listed_path,
}

-- The plan of a policy in the map of a topic.
abbrev pub plan_of : String → Dict String Plan → Plan
plan_of name plans = elim (lookup name plans) [ none ↦ plain "" | some p ↦ p ]

-- For an observed topic: a plan for HISTORY that sets a retention exists exactly if the topic has
-- a history container, and its value is the depth of KEEP_LAST or the limit for any other kind;
-- and with a finite lifespan, the resources that carry an expiration are the topic's history and
-- latest containers, in this order, as far as it has them.
pub topic_mapping-represented :
    (spec : QosSpec) (paths : Dict String String) (limit d : ℕ)
    → spec.lifespan_ms ≡ some d
    → ((plan_of "HISTORY" (topic_mapping spec "observe" paths limit)).value
        ≡ elim (path_of "history" paths) [
          | none ↦ none
          | some p ↦ some (if spec.history == "KEEP_LAST" then spec.depth else limit)
        ])
      × ((plan_of "LIFESPAN" (topic_mapping spec "observe" paths limit)).resources
          ≡ listed_path (path_of "history" paths) ++ listed_path (path_of "latest" paths))
unfolding topic_mapping history_mapping lifespan_mapping container_mni lookup
topic_mapping-represented spec paths limit d h = elim (Option-cases (path_of "history" paths)) [
  | inl e ↦ elim (Option-cases (path_of "latest" paths)) [
    | inl k ↦ ground arith
    | inr (l, k) ↦ elim (Option-cases (path_of "fcnt" paths)) [
      | inl f ↦ ground arith
      | inr (c, f) ↦ ground arith
    ]
  ]
  | inr (p, e) ↦ elim (Option-cases (path_of "fcnt" paths)) [
    | inl f ↦ ground arith
    | inr (c, f) ↦ ground arith
  ]
]
