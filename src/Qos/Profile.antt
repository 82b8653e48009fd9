-- ===== src/Qos/Profile.antt =====
-- The data of src/ipe/qos/models.py, and the profile of a remote DDS endpoint as rclpy gives it.
use one_m2m_dds_ipe.Prelude.{ℕ, String, Option, none}

pub record QosSpec : Type 0 where
  pub reliability : String
  pub durability : String
  pub history : String
  pub depth : ℕ
  pub deadline_ms : Option ℕ
  pub lifespan_ms : Option ℕ
  pub liveliness : String
  pub liveliness_lease_duration_ms : Option ℕ
  pub profile : Option String

-- The defaults of the dataclass.
abbrev pub default_spec : QosSpec
default_spec = record {
  reliability = "RELIABLE";
  durability = "VOLATILE";
  history = "KEEP_LAST";
  depth = 10;
  deadline_ms = none;
  lifespan_ms = none;
  liveliness = "AUTOMATIC";
  liveliness_lease_duration_ms = none;
  profile = none;
}

-- A policy as a string, as a member of an enumeration with its name, or as any other value.
pub data PolicyValue : Type 0 where
  string_value : String → PolicyValue
  enum_member : String → PolicyValue
  other_value : PolicyValue

-- A duration that is not set, or a number of nanoseconds (an integer, or rclpy's `Duration`).
pub data Duration : Type 0 where
  unset : Duration
  nanoseconds : ℕ → Duration

-- rclpy's `QoSProfile` of a remote endpoint.
pub record Endpoint : Type 0 where
  pub reliability : PolicyValue
  pub durability : PolicyValue
  pub liveliness : PolicyValue
  pub deadline : Duration
  pub liveliness_lease_duration : Duration
  pub lifespan : Duration
