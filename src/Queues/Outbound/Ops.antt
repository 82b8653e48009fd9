-- ===== src/Queues/Outbound/Ops.antt =====
-- Outbound operations and the keys that `queues.py` derives from them. An operation is a dict or
-- an object; both are read as a map from attribute names to values that may be None.
use one_m2m_dds_ipe.Prelude.{
  ℕ, String, ◌≡◌, refl, ◌↔◌, Bool, true, false, ◌&&◌, Option, none, some, arith, Equality, ◌==◌,
  string_equality, option_equality,
}
use one_m2m_dds_ipe.Prelude.Dict.{Dict, lookup}
use one_m2m_dds_ipe.Core.Common.{Fields, Value}
use one_m2m_dds_ipe.Vocab.{OutboundClass}

-- The fields of the dataclass `Op` (src/ipe/core/pipeline.py) that the queue does not look into. The
-- dynamic ones are any JSON value; a time is in milliseconds.
pub record Body : Type 0 where
  pub kind : String
  pub path : String
  pub content : Fields
  pub queue_class : OutboundClass
  pub oversized : Value
  pub rn : Value
  pub anomalous : Value
  pub et : Value
  pub expires_at : Option ℕ

pub record Op : Type 0 where
  pub attributes : Dict String (Option String)
  pub body : Body

-- What serialises operations: an interface of a robot, or `("__global__",)`.
pub data OrderKey : Type 0 where
  global_key : OrderKey
  interface_key : String → String → OrderKey

-- What OBSERVE_LATEST merges by: the triple of a view, or a key that the caller gives.
pub data CoalesceKey : Type 0 where
  view_key : String → String → Option String → CoalesceKey
  given_key : String → CoalesceKey

-- `op.get(name, default)`
unfoldable pub attribute : Op → String → Option String → Option String
unfolding lookup
attribute op name default = elim (lookup name op.attributes) [ none ↦ default | some v ↦ v ]

unfoldable pub derive_latest_key : Op → Option CoalesceKey
unfolding attribute
derive_latest_key op =
    let robot = attribute op "robot_id" (attribute op "robot" none) in
    let interface = attribute op "interface" none in
    let view = attribute op "view" none in
    elim robot [
      | none ↦ none
      | some r ↦ elim interface [ none ↦ none | some i ↦ some (view_key r i view) ]
    ]

unfoldable pub derive_order_key : Op → OrderKey
unfolding attribute
derive_order_key op =
    let robot = attribute op "robot_id" (attribute op "robot" none) in
    let interface = attribute op "interface" none in
    elim robot [
      | none ↦ global_key
      | some r ↦ elim interface [ none ↦ global_key | some i ↦ interface_key r i ]
    ]

abbrev pub order_key_eq : OrderKey → OrderKey → Bool
order_key_eq global_key global_key = true
order_key_eq (interface_key r i) (interface_key s j) = (r == s) && (i == j)
order_key_eq _ _ = false

pub order_key_eq_iff : (a b : OrderKey) → (order_key_eq a b ≡ true) ↔ (a ≡ b)
order_key_eq_iff global_key global_key = (λ _. refl, λ _. refl)
order_key_eq_iff global_key (interface_key s j) = (λ h. cc, λ h. cc)
order_key_eq_iff (interface_key r i) global_key = (λ h. cc, λ h. cc)
order_key_eq_iff (interface_key r i) (interface_key s j) =
    ground (arith, string_equality.equals_iff r s, string_equality.equals_iff i j)

instance abbrev pub order_key_equality : Equality OrderKey
order_key_equality = record { equals = order_key_eq; equals_iff = order_key_eq_iff }

abbrev pub coalesce_key_eq : CoalesceKey → CoalesceKey → Bool
coalesce_key_eq (view_key r i v) (view_key s j w) = (r == s) && ((i == j) && (v == w))
coalesce_key_eq (given_key a) (given_key b) = a == b
coalesce_key_eq _ _ = false

pub coalesce_key_eq_iff : (a b : CoalesceKey) → (coalesce_key_eq a b ≡ true) ↔ (a ≡ b)
coalesce_key_eq_iff (view_key r i v) (given_key b) = (λ h. cc, λ h. cc)
coalesce_key_eq_iff (given_key a) (view_key s j w) = (λ h. cc, λ h. cc)
coalesce_key_eq_iff (given_key a) (given_key b) = ground (arith, string_equality.equals_iff a b)
coalesce_key_eq_iff (view_key r i none) (view_key s j none) =
    ground (arith, string_equality.equals_iff r s, string_equality.equals_iff i j)
coalesce_key_eq_iff (view_key r i (some v)) (view_key s j (some w)) = ground (
  arith,
  string_equality.equals_iff r s,
  string_equality.equals_iff i j,
  string_equality.equals_iff v w,
)
coalesce_key_eq_iff (view_key r i v) (view_key s j w) = ground arith

instance abbrev pub coalesce_key_equality : Equality CoalesceKey
coalesce_key_equality = record { equals = coalesce_key_eq; equals_iff = coalesce_key_eq_iff }
