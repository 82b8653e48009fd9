-- ===== src/Qos/Mappings.antt =====
-- The oneM2M side of the policies: src/ipe/qos/history.py, lifespan.py, the `mapping` functions of
-- the other policy modules, and `topic_mapping` of engine.py. Times are in milliseconds.
pub mod Representation
use one_m2m_dds_ipe.Prelude.{
  ℕ, ◌+◌, String, Bool, true, false, not, Option, none, some, List, [], ◌∷◌, ◌++◌, ◌==◌,
  if◌then◌else◌, string_equality,
}
use one_m2m_dds_ipe.Prelude.Dict.{Dict, lookup}
use one_m2m_dds_ipe.Qos.Profile.{QosSpec}

-- The fields of a mapping plan; a plan lacks those that are `none`. `resource` is `some none`
-- where the plan names no resource (None).
pub record Plan : Type 0 where
  pub result : String
  pub handler : Option String
  pub reason : Option String
  pub resource : Option (Option String)
  pub resources : List String
  pub unsupported_resources : List String
  pub attribute : Option String
  pub value : Option ℕ

abbrev pub plain : String → Plan
plain result = record {
  result = result;
  handler = none;
  reason = none;
  resource = none;
  resources = [];
  unsupported_resources = [];
  attribute = none;
  value = none;
}

abbrev handled : String → String → Plan
handled handler result = record (plain result) { handler = some handler }

abbrev pub reliability_mapping : Plan
reliability_mapping = handled "ros2EndpointAndOneM2MRetry" "APPROXIMATED"

abbrev pub durability_mapping : Plan
durability_mapping = handled "ros2EndpointAndCseRetention" "APPROXIMATED"

abbrev pub deadline_mapping : Plan
deadline_mapping = handled "ros2EndpointEvent" "APPLIED_AT_ROS2_ENDPOINT"

abbrev pub liveliness_mapping : Plan
liveliness_mapping = handled "ros2EndpointEvent" "APPLIED_AT_ROS2_ENDPOINT"

-- `paths.get(view)`, where an empty path counts as none
unfoldable pub path_of : String → Dict String String → Option String
path_of view paths = elim (lookup view paths) [
  | none ↦ none
  | some p ↦ if p == "" then none else some p
]

-- `container_attrs(spec, keep_all_limit)["mni"]`
unfoldable pub container_mni : QosSpec → ℕ → ℕ
container_mni spec keep_all_limit =
    if spec.history == "KEEP_LAST" then spec.depth else keep_all_limit

abbrev first_of : Option String → Option String → Option String
first_of none b = b
first_of (some a) b = some a

-- The plan for a topic with a history container, or without one.
abbrev history_plan : Option String → QosSpec → Dict String String → ℕ → Plan
history_plan (some path) spec paths keep_all_limit = record (plain "APPROXIMATED") {
  resource = some (some path);
  attribute = some "mni";
  value = some (container_mni spec keep_all_limit);
  reason =
      if spec.history == "KEEP_ALL"
      then some "KEEP_ALL remains bounded by the configured CSE retention limit"
      else none;
}
history_plan none spec paths keep_all_limit = record (plain "CONSTRAINED_BY_REPRESENTATION") {
  resource = some (first_of (path_of "latest" paths) (lookup "fcnt" paths));
  reason = some "the interface exposes only the latest value";
}

unfoldable pub history_mapping : QosSpec → String → Dict String String → ℕ → Plan
history_mapping spec direction paths keep_all_limit =
    if not (direction == "observe")
    then record (plain "PRESERVED") {
      reason = some "DDS writer cache depth does not control command retention";
    }
    else history_plan (path_of "history" paths) spec paths keep_all_limit

unfoldable pub expires_at : QosSpec → ℕ → Option ℕ
expires_at spec ingest_ts = elim spec.lifespan_ms [ none ↦ none | some d ↦ some (ingest_ts + d) ]

abbrev pub listed_path : Option String → List String
listed_path none = []
listed_path (some p) = p ∷ []

-- The plan for a finite lifespan, by the resources that carry samples and the flexContainer.
abbrev lifespan_plan : List String → Option String → Dict String String → Plan
lifespan_plan [] fcnt paths = record (plain "UNSUPPORTED") {
  resource = some (lookup "fcnt" paths);
  reason = some "a mutable data flexContainer has no per-sample expirationTime";
}
lifespan_plan (r ∷ rs) none paths = record (plain "APPROXIMATED") {
  resources = r ∷ rs;
  attribute = some "contentInstance.et";
}
lifespan_plan (r ∷ rs) (some fcnt) paths = record (plain "PARTIALLY_APPLIED") {
  resources = r ∷ rs;
  attribute = some "contentInstance.et";
  unsupported_resources = fcnt ∷ [];
  reason = some "the mutable data flexContainer has no per-sample expirationTime";
}

abbrev finite_lifespan : Option ℕ → Dict String String → Plan
finite_lifespan none paths = plain "NOT_CONFIGURED"
finite_lifespan (some d) paths =
    lifespan_plan (listed_path (path_of "history" paths) ++ listed_path (path_of "latest" paths))
      (path_of "fcnt" paths) paths

unfoldable pub lifespan_mapping : QosSpec → String → Dict String String → Plan
lifespan_mapping spec direction paths =
    if not (direction == "observe")
    then record (plain "PRESERVED") {
      reason = some "command freshness is enforced by the command safety gate";
    }
    else finite_lifespan spec.lifespan_ms paths

unfoldable pub topic_mapping : QosSpec → String → Dict String String → ℕ → Dict String Plan
topic_mapping spec direction paths keep_all_limit =
    ("RELIABILITY", reliability_mapping)
    ∷ ("DURABILITY", durability_mapping)
    ∷ ("DEADLINE", deadline_mapping)
    ∷ ("LIVELINESS", liveliness_mapping)
    ∷ ("HISTORY", history_mapping spec direction paths keep_all_limit)
    ∷ ("LIFESPAN", lifespan_mapping spec direction paths)
    ∷ []
