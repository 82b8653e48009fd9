-- ===== src/Qos/Registry.antt =====
-- src/ipe/qos/registry.py: the record of every DDS policy, and the compact groups of records.
pub mod Definitions
pub mod Compact
pub mod Places
use one_m2m_dds_ipe.Prelude.{
  ℕ, String, Bool, true, false, not, ◌&&◌, ◌||◌, Option, none, some, List, [], ◌∷◌, ◌++◌, ◌==◌,
  contains, nat_eq, if◌then◌else◌, string_equality, option_equality, nat_equality, Equality,
}
use one_m2m_dds_ipe.Prelude.Dict.{Dict, lookup, insert, erase}
use one_m2m_dds_ipe.Prelude.Text.{upper}
use one_m2m_dds_ipe.Qos.Profile.{QosSpec}
use one_m2m_dds_ipe.Qos.Registry.Definitions.{
  MapValue, one, several, Mapping, Category, category_a, category_b, category_c, PolicyDefinition,
  dds_qos_policies,
}

-- What `value(spec)` of a policy module gives, or a native value, by its text.
pub data Shown : Type 0 where
  kind_value : String → Shown
  kind_depth : String → ℕ → Shown
  duration_value : Option ℕ → Shown
  kind_lease : String → Option ℕ → Shown
  native : String → Shown

unfoldable pub shown_eq : Shown → Shown → Bool
shown_eq (kind_value a) (kind_value b) = a == b
shown_eq (kind_depth a m) (kind_depth b n) = a == b && nat_eq m n
shown_eq (duration_value a) (duration_value b) = a == b
shown_eq (kind_lease a m) (kind_lease b n) = a == b && m == n
shown_eq (native a) (native b) = a == b
shown_eq _ _ = false

-- The `value` of each of the six active policy modules, under its `NAME`.
unfoldable pub rmw_policy_values : Option QosSpec → Dict String Shown
rmw_policy_values none = []
rmw_policy_values (some spec) =
    ("RELIABILITY", kind_value spec.reliability)
    ∷ ("DURABILITY", kind_value spec.durability)
    ∷ ("HISTORY", kind_depth spec.history spec.depth)
    ∷ ("DEADLINE", duration_value spec.deadline_ms)
    ∷ ("LIFESPAN", duration_value spec.lifespan_ms)
    ∷ ("LIVELINESS", kind_lease spec.liveliness spec.liveliness_lease_duration_ms)
    ∷ []

unfoldable pub default_result : String → Option Shown → String
default_result name none = "UNAVAILABLE"
default_result name (some applied) =
    if contains name ("LIFESPAN" ∷ "HISTORY" ∷ "RELIABILITY" ∷ "DURABILITY" ∷ [])
    then "APPROXIMATED"
    else "ENFORCED"

pub record PolicyRecord : Type 0 where
  pub category : Category
  pub scope : List String
  pub source : String
  pub requested : Option Shown
  pub applied : Option Shown
  pub mapping : Mapping
  pub result : String
  pub reason : Option String

-- `{str(k).upper(): v for k, v in (native_policies or {}).items()}`
unfoldable pub native_values : Dict String Shown → Dict String Shown → Dict String Shown
native_values done [] = done
native_values done ((k, v) ∷ rest) = native_values (insert (upper k) v done) rest

-- `dict(default)` and then `mapping.update(override)`
unfoldable pub update : Mapping → Mapping → Mapping
update mapping [] = mapping
update mapping ((k, v) ∷ rest) = update (insert k v mapping) rest

abbrev pub or_empty {ℓ} : {V : Type ℓ} → Option (Dict String V) → Dict String V
or_empty none = []
or_empty (some d) = d

-- `str(mapping.pop("result"))`, if it is there; the result of a list is not used anywhere.
abbrev text_of : MapValue → String
text_of (one s) = s
text_of (several l) = ""

abbrev popped : Mapping → String → String
popped mapping result = elim (lookup "result" mapping) [ none ↦ result | some v ↦ text_of v ]

-- The variables `source`, `effective` and `result` once the native value has been looked at.
pub record Reading : Type 0 where
  pub source : String
  pub applied : Option Shown
  pub result : String

abbrev preserved : Category → String → String
preserved category_c result = "PRESERVED"
preserved category_a result = result
preserved category_b result = result

unfoldable pub read_values : PolicyDefinition → String → Option Shown → Option Shown → Reading
read_values d source effective none = record {
  source = elim effective [ none ↦ "UNAVAILABLE" | some v ↦ source ];
  applied = effective;
  result = default_result d.name effective;
}
read_values d source effective (some observed) = record {
  source = "NATIVE_DDS";
  applied = elim effective [ none ↦ some observed | some v ↦ some v ];
  result = preserved d.category (default_result d.name effective);
}

module _ (configured applied : Option QosSpec) (source : String)
    (native_policies : Option (Dict String Shown))
    (mapping_overrides : Option (Dict String Mapping)) where
  unfoldable pub build_record : PolicyDefinition → PolicyRecord
  build_record d =
      let reading =
        read_values d source (lookup d.name (rmw_policy_values applied))
          (lookup d.name (native_values [] (or_empty native_policies))) in
      let mapping =
        update d.default_mapping (or_empty (lookup d.name (or_empty mapping_overrides))) in
      record {
        category = d.category;
        scope = d.scopes;
        source = reading.source;
        requested = lookup d.name (rmw_policy_values configured);
        applied = reading.applied;
        mapping = erase "result" mapping;
        result = popped mapping reading.result;
        reason =
            if reading.source == "UNAVAILABLE"
            then some "not exposed by the active ROS 2/DDS adapter"
            else none;
      }

  unfoldable pub build_records : List PolicyDefinition → Dict String PolicyRecord
  build_records [] = []
  build_records (d ∷ ds) = (d.name, build_record d) ∷ build_records ds

  unfoldable pub build_policy_records : Dict String PolicyRecord
  build_policy_records = build_records dds_qos_policies
