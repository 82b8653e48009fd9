-- ===== src/Qos/Registry/Definitions.antt =====
-- The table of the DDS QoS policies of src/ipe/qos/registry.py, with the `DEFAULT_MAPPING` of the
-- policy modules.
use one_m2m_dds_ipe.Prelude.{String, List, [], ◌∷◌, map}
use one_m2m_dds_ipe.Prelude.Dict.{Dict}

pub data MapValue : Type 0 where
  one : String → MapValue
  several : List String → MapValue

abbrev pub Mapping : Type 0
Mapping = Dict String MapValue

pub data Category : Type 0 where
  category_a category_b category_c : Category

pub record PolicyDefinition : Type 0 where
  pub name : String
  pub category : Category
  pub scopes : List String
  pub default_mapping : Mapping

abbrev define : String → Category → List String → Mapping → PolicyDefinition
define name category scopes mapping = record {
  name = name;
  category = category;
  scopes = scopes;
  default_mapping = mapping;
}

abbrev pub lifespan_mapping : Mapping
lifespan_mapping =
    ("kind", one "RESOURCE")
    ∷ ("resourceType", one "contentInstance")
    ∷ ("attribute", one "expirationTime")
    ∷ []

abbrev pub history_mapping : Mapping
history_mapping =
    ("kind", one "RESOURCE")
    ∷ ("resourceType", one "container")
    ∷ ("attribute", one "maxNrOfInstances")
    ∷ []

abbrev pub reliability_mapping : Mapping
reliability_mapping = ("kind", one "BEHAVIOR") ∷ ("handler", one "deliveryRetry") ∷ []

abbrev pub deadline_mapping : Mapping
deadline_mapping = ("kind", one "BEHAVIOR") ∷ ("handler", one "deadlineMonitor") ∷ []

abbrev pub liveliness_mapping : Mapping
liveliness_mapping = ("kind", one "BEHAVIOR") ∷ ("handler", one "livelinessMonitor") ∷ []

abbrev pub durability_mapping : Mapping
durability_mapping = ("kind", one "BEHAVIOR") ∷ ("handler", one "retentionReplay") ∷ []

abbrev pub metadata_mapping : Mapping
metadata_mapping = ("kind", one "METADATA") ∷ ("attribute", one "ddsQoSProperties") ∷ []

abbrev pub dds_qos_policies : List PolicyDefinition
dds_qos_policies =
    define "LIFESPAN" category_a ("DATAWRITER" ∷ "TOPIC" ∷ []) lifespan_mapping
    ∷ define "HISTORY" category_a ("DATAWRITER" ∷ "DATAREADER" ∷ "TOPIC" ∷ []) history_mapping
    ∷ define "RESOURCE_LIMITS" category_a ("DATAWRITER" ∷ "DATAREADER" ∷ "TOPIC" ∷ []) (
        ("kind", one "RESOURCE_PARTIAL")
        ∷ ("resourceType", one "container")
        ∷ ("attributes", several ("maxNrOfInstances" ∷ "maxByteSize" ∷ []))
        ∷ [])
    ∷ define "RELIABILITY" category_b ("DATAWRITER" ∷ "DATAREADER" ∷ "TOPIC" ∷ [])
        reliability_mapping
    ∷ define "DEADLINE" category_b ("DATAWRITER" ∷ "DATAREADER" ∷ "TOPIC" ∷ []) deadline_mapping
    ∷ define "LIVELINESS" category_b ("DATAWRITER" ∷ "DATAREADER" ∷ "TOPIC" ∷ []) liveliness_mapping
    ∷ define "OWNERSHIP" category_b ("DATAWRITER" ∷ "DATAREADER" ∷ "TOPIC" ∷ [])
        (("kind", one "BEHAVIOR") ∷ ("handler", one "writerArbitration") ∷ [])
    ∷ define "OWNERSHIP_STRENGTH" category_b ("DATAWRITER" ∷ [])
        (("kind", one "BEHAVIOR") ∷ ("handler", one "writerArbitration") ∷ [])
    ∷ define "DURABILITY" category_b ("DATAWRITER" ∷ "DATAREADER" ∷ "TOPIC" ∷ []) durability_mapping
    ∷ define "TIME_BASED_FILTER" category_b ("DATAREADER" ∷ [])
        (("kind", one "BEHAVIOR") ∷ ("handler", one "sampleSuppression") ∷ [])
    ∷ define "WRITER_DATA_LIFECYCLE" category_b ("DATAWRITER" ∷ [])
        (("kind", one "BEHAVIOR") ∷ ("handler", one "writerLifecycle") ∷ [])
    ∷ define "READER_DATA_LIFECYCLE" category_b ("DATAREADER" ∷ [])
        (("kind", one "BEHAVIOR") ∷ ("handler", one "readerLifecycle") ∷ [])
    ∷ define "DESTINATION_ORDER" category_c ("DATAWRITER" ∷ "DATAREADER" ∷ "TOPIC" ∷ [])
        metadata_mapping
    ∷ define "DURABILITY_SERVICE" category_c ("TOPIC" ∷ []) metadata_mapping
    ∷ define "PRESENTATION" category_c ("PUBLISHER" ∷ "SUBSCRIBER" ∷ []) metadata_mapping
    ∷ define "PARTITION" category_c ("PUBLISHER" ∷ "SUBSCRIBER" ∷ []) metadata_mapping
    ∷ define "LATENCY_BUDGET" category_c ("DATAWRITER" ∷ "DATAREADER" ∷ "TOPIC" ∷ [])
        metadata_mapping
    ∷ define "TRANSPORT_PRIORITY" category_c ("DATAWRITER" ∷ "TOPIC" ∷ []) metadata_mapping
    ∷ define "GROUP_DATA" category_c ("PUBLISHER" ∷ "SUBSCRIBER" ∷ []) metadata_mapping
    ∷ define "TOPIC_DATA" category_c ("TOPIC" ∷ []) metadata_mapping
    ∷ define "USER_DATA" category_c ("DOMAINPARTICIPANT" ∷ "DATAWRITER" ∷ "DATAREADER" ∷ [])
        metadata_mapping
    ∷ define "ENTITY_FACTORY" category_c ("DOMAINPARTICIPANT" ∷ "PUBLISHER" ∷ "SUBSCRIBER" ∷ [])
        metadata_mapping
    ∷ []

abbrev pub dds_qos_policy_names : List String
dds_qos_policy_names = map (λ (d : PolicyDefinition). d.name) dds_qos_policies
