-- ===== src/Examples/RequestCases.antt =====
-- QoS change requests, the registry and the mapping plans on small inputs.
use one_m2m_dds_ipe.Prelude.{
  ℕ, String, ◌≡◌, refl, Bool, false, not, ◌&&◌, Option, none, some, List, [], ◌∷◌, ◌++◌, ◌==◌,
  contains, if◌then◌else◌, arith, string_equality,
}
use one_m2m_dds_ipe.Prelude.Int.{pos}
use one_m2m_dds_ipe.Prelude.Dict.{Dict, lookup, member}
use one_m2m_dds_ipe.Prelude.Result.{ok}
use one_m2m_dds_ipe.Qos.Profile.{QosSpec, default_spec}
use one_m2m_dds_ipe.Qos.Requests.{
  Scalar, string_scalar, int_scalar, candidate, parse_cf_update, requires_lease,
}
use one_m2m_dds_ipe.Qos.Requests.Domain.{IsInDomain, parse_cf_update-IsInDomain}
use one_m2m_dds_ipe.Qos.Requests.Changes.{Change, scalar_change, object_change, translated}
use one_m2m_dds_ipe.Qos.Registry.Definitions.{PolicyDefinition, dds_qos_policies}
use one_m2m_dds_ipe.Qos.Registry.Compact.{Groups, compact_policy_groups}
use one_m2m_dds_ipe.Qos.Registry.Places.{
  listed, is_a, is_b, is_c, is_hidden, compact_policy_groups-places,
}

abbrev an_update : Dict String Scalar
an_update =
    ("cfLiv", string_scalar "manual_by_topic")
    ∷ ("cfLse", string_scalar "250")
    ∷ ("cfDpt", int_scalar (pos 3))
    ∷ []

abbrev updated_spec : QosSpec
updated_spec = record default_spec {
  liveliness = "MANUAL_BY_TOPIC";
  liveliness_lease_duration_ms = some 250;
  depth = 3;
}

parse_cf_update_example : IsInDomain updated_spec × (requires_lease updated_spec ≡ false)
unfolding parse_cf_update one_m2m_dds_ipe.Qos.Requests.parse_enums
    one_m2m_dds_ipe.Qos.Requests.parse_enum lookup one_m2m_dds_ipe.Prelude.Text.upper
    one_m2m_dds_ipe.Qos.Requests.str one_m2m_dds_ipe.Qos.Requests.parse_cf_depth
    one_m2m_dds_ipe.Qos.Requests.parse_depth one_m2m_dds_ipe.Qos.Requests.parse_durations
    one_m2m_dds_ipe.Qos.Requests.parse_cf_duration one_m2m_dds_ipe.Qos.Requests.parse_duration
    one_m2m_dds_ipe.Qos.Requests.decimal requires_lease
parse_cf_update_example =
    parse_cf_update-IsInDomain (λ n. "0") an_update default_spec updated_spec
      (refl, refl, refl, refl, omega arith) refl

abbrev some_changes : Dict String Change
some_changes =
    (
      "history",
      object_change (("kind", string_scalar "KEEP_LAST") ∷ ("depth", int_scalar (pos 5)) ∷ []),
    )
    ∷ ("DEADLINE", object_change (("durationMs", int_scalar (pos 100)) ∷ []))
    ∷ []

abbrev translated_changes : Dict String Scalar
translated_changes =
    ("cfHst", string_scalar "KEEP_LAST")
    ∷ ("cfDpt", int_scalar (pos 5))
    ∷ ("cfDdl", int_scalar (pos 100))
    ∷ []

abbrev hidden_policy : PolicyDefinition → Bool
hidden_policy = is_hidden (some default_spec) (some default_spec) "ROS2_RMW" none none

compact_policy_groups_example :
    (g : Groups) × (compact_policy_groups
        (some default_spec)
        (some default_spec)
        "ROS2_RMW"
        none
        none
      ≡ ok g)
    × ((n : String)
        → (member n g.resource_mappings
            ≡ listed (λ d. not (hidden_policy d) && is_a d.category) n dds_qos_policies)
          × (member n g.behavior_status
              ≡ listed (λ d. not (hidden_policy d) && is_b d.category) n dds_qos_policies)
          × (member n g.metadata
              ≡ listed (λ d. not (hidden_policy d) && is_c d.category) n dds_qos_policies)
          × (contains n g.unavailable ≡ listed hidden_policy n dds_qos_policies))
compact_policy_groups_example =
    compact_policy_groups-places (some default_spec) (some default_spec) "ROS2_RMW" none none

abbrev bounded_spec : QosSpec
bounded_spec = record default_spec { lifespan_ms = some 500 }

abbrev two_paths : Dict String String
two_paths = ("history", "cse/r1/odom/history") ∷ ("fcnt", "cse/r1/odom/fcnt") ∷ []
