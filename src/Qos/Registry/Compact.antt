-- ===== src/Qos/Registry/Compact.antt =====
-- `compact_policy_groups` of src/ipe/qos/registry.py.
use one_m2m_dds_ipe.Prelude.{
  String, Bool, true, false, Option, none, some, List, [], ◌∷◌, ◌++◌, ◌==◌, if◌then◌else◌,
  string_equality,
}
use one_m2m_dds_ipe.Prelude.Dict.{Dict, lookup, insert}
use one_m2m_dds_ipe.Prelude.Result.{Result, ok, err, key_error}
use one_m2m_dds_ipe.Qos.Profile.{QosSpec}
use one_m2m_dds_ipe.Qos.Registry.{Shown, shown_eq, PolicyRecord, build_policy_records}
use one_m2m_dds_ipe.Qos.Registry.Definitions.{
  MapValue, one, several, Mapping, Category, category_a, category_b, category_c, PolicyDefinition,
  dds_qos_policies,
}

-- An entry of the groups: the applied value and the result, the requested value where it differs
-- from the applied one, and the whole mapping (category A) or its handler (category B).
pub record Entry : Type 0 where
  pub applied : Option Shown
  pub result : String
  pub requested : Option (Option Shown)
  pub mapping : Mapping

pub record MetadataEntry : Type 0 where
  pub value : Option Shown
  pub source : String

pub record Groups : Type 0 where
  pub resource_mappings : Dict String Entry
  pub behavior_status : Dict String Entry
  pub metadata : Dict String MetadataEntry
  pub unavailable : List String

abbrev pub no_groups : Groups
no_groups = record { resource_mappings = []; behavior_status = []; metadata = []; unavailable = [] }

abbrev same_shown : Option Shown → Option Shown → Bool
same_shown none none = true
same_shown (some a) (some b) = shown_eq a b
same_shown none (some b) = false
same_shown (some a) none = false

abbrev differing : PolicyRecord → Option (Option Shown)
differing r = if same_shown r.requested r.applied then none else some r.requested

abbrev is_falsy : MapValue → Bool
is_falsy (one s) = s == ""
is_falsy (several []) = true
is_falsy (several (x ∷ l)) = false

-- `if mapping.get("handler"): entry["handler"] = mapping["handler"]`
abbrev handler_of : Mapping → Mapping
handler_of mapping = elim (lookup "handler" mapping) [
  | none ↦ []
  | some h ↦ if is_falsy h then [] else ("handler", h) ∷ []
]

abbrev entry_of : PolicyRecord → Mapping → Entry
entry_of r mapping = record {
  applied = r.applied;
  result = r.result;
  requested = differing r;
  mapping = mapping;
}

abbrev pub by_category : Category → String → PolicyRecord → Groups → Groups
by_category category_a name r g = record g {
  resource_mappings = insert name (entry_of r r.mapping) g.resource_mappings;
}
by_category category_b name r g = record g {
  behavior_status = insert name (entry_of r (handler_of r.mapping)) g.behavior_status;
}
by_category category_c name r g = record g {
  metadata = insert name (record { value = r.applied; source = r.source }) g.metadata;
}

abbrev pub put_record : PolicyDefinition → PolicyRecord → Groups → Groups
put_record d r g =
    if r.source == "UNAVAILABLE"
    then record g { unavailable = g.unavailable ++ (d.name ∷ []) }
    else by_category d.category d.name r g

-- The loop over the definitions; `policies[name]` raises KeyError for a missing name.
unfoldable pub group_all : Dict String PolicyRecord → List PolicyDefinition → Groups → Result Groups
group_all policies [] g = ok g
group_all policies (d ∷ ds) g = elim (lookup d.name policies) [
  | none ↦ err key_error
  | some r ↦ group_all policies ds (put_record d r g)
]

unfoldable pub compact_policy_groups :
    Option QosSpec
    → Option QosSpec
    → String
    → Option (Dict String Shown)
    → Option (Dict String Mapping)
    → Result Groups
compact_policy_groups configured applied source native_policies mapping_overrides =
    group_all (build_policy_records configured applied source native_policies mapping_overrides)
      dds_qos_policies no_groups
