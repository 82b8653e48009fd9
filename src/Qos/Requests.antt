-- ===== src/Qos/Requests.antt =====
-- src/ipe/qos/requests.py: QoS change requests. The reason of a rejection is a constructor in
-- place of its text, and `updates`, which holds distinct fields, is put in the profile at once.
pub mod Domain
pub mod Changes
use Prim.Native.Char.{Char, code}
use one_m2m_dds_ipe.Prelude.{
  ℕ, suc, ◌+◌, ◌-◌, ◌*◌, String, Bool, true, false, not, ◌&&◌, ◌||◌, Option, none, some, List, [],
  ◌∷◌, ◌++◌, ltb, leb, ◌==◌, if◌then◌else◌, contains, string_equality,
}
use one_m2m_dds_ipe.Prelude.Int.{ℤ, pos, negsuc}
use one_m2m_dds_ipe.Prelude.Text.{upper}
use one_m2m_dds_ipe.Prelude.Dict.{Dict, lookup, member}
use one_m2m_dds_ipe.Qos.Profile.{QosSpec}

-- A JSON value; those of a kind that the code does not look at are given by their `str`.
pub data Scalar : Type 0 where
  string_scalar : String → Scalar
  int_scalar : ℤ → Scalar
  bool_scalar : Bool → Scalar
  null_scalar : Scalar
  rendered : String → Scalar

pub data EnumField : Type 0 where
  reliability_field durability_field history_field liveliness_field : EnumField

pub data DurationField : Type 0 where
  deadline_field lifespan_field lease_field : DurationField

-- `_QOS_CF_ENUMS` and `_QOS_CF_DURS`
abbrev pub allowed : EnumField → List String
allowed reliability_field = "RELIABLE" ∷ "BEST_EFFORT" ∷ []
allowed durability_field = "VOLATILE" ∷ "TRANSIENT_LOCAL" ∷ []
allowed history_field = "KEEP_LAST" ∷ "KEEP_ALL" ∷ []
allowed liveliness_field = "AUTOMATIC" ∷ "MANUAL_BY_TOPIC" ∷ []

abbrev pub qos_cf_enums : Dict String EnumField
qos_cf_enums =
    ("cfRlb", reliability_field)
    ∷ ("cfDrb", durability_field)
    ∷ ("cfHst", history_field)
    ∷ ("cfLiv", liveliness_field)
    ∷ []

abbrev pub qos_cf_durs : Dict String DurationField
qos_cf_durs = ("cfDdl", deadline_field) ∷ ("cfLsp", lifespan_field) ∷ ("cfLse", lease_field) ∷ []

abbrev pub set_enum : EnumField → String → QosSpec → QosSpec
set_enum reliability_field v spec = record spec { reliability = v }
set_enum durability_field v spec = record spec { durability = v }
set_enum history_field v spec = record spec { history = v }
set_enum liveliness_field v spec = record spec { liveliness = v }

abbrev pub set_duration : DurationField → Option ℕ → QosSpec → QosSpec
set_duration deadline_field v spec = record spec { deadline_ms = v }
set_duration lifespan_field v spec = record spec { lifespan_ms = v }
set_duration lease_field v spec = record spec { liveliness_lease_duration_ms = v }

pub data Rejection : Type 0 where
  not_allowed : String → Rejection
  bad_depth : Rejection
  bad_duration : String → Rejection
  lease_required : Rejection

pub data Parsed : Type 0 where
  rejected : Rejection → Parsed
  candidate : QosSpec → Parsed

abbrev pub and_then : Parsed → (QosSpec → Parsed) → Parsed
and_then (rejected r) f = rejected r
and_then (candidate spec) f = f spec

-- `v.isdigit()` and then `int(v)`, on the ASCII digits
digits_from : ℕ → String → Option ℕ
digits_from n String.[] = some n
digits_from n (String.◌∷◌ c s) =
    let rest = digits_from (n * 10 + (code c - b'0')) s in
    if leb b'0' (code c) && leb (code c) b'9' then rest else none

unfoldable pub decimal : String → Option ℕ
unfolding digits_from
decimal s = if s == "" then none else digits_from 0 s

-- The test of one duration: the new value, or nothing if it is not one.
unfoldable pub parse_duration : Scalar → Option (Option ℕ)
parse_duration (string_scalar s) =
    if upper s == "INF"
    then some none
    else elim (decimal s) [ none ↦ none | some n ↦ some (some n) ]
parse_duration (int_scalar (pos n)) = some (some n)
parse_duration (int_scalar (negsuc n)) = none
parse_duration (bool_scalar b) = none
parse_duration null_scalar = none
parse_duration (rendered s) = none

unfoldable pub parse_depth : Scalar → Option ℕ
parse_depth (int_scalar (pos (suc n))) = some (suc n)
parse_depth _ = none

unfoldable pub parse_cf_depth : Dict String Scalar → QosSpec → Parsed
parse_cf_depth payload spec = elim (lookup "cfDpt" payload) [
  | none ↦ candidate spec
  | some value ↦ elim (parse_depth value) [
    | none ↦ rejected bad_depth
    | some d ↦ candidate (record spec { depth = d })
  ]
]

unfoldable pub parse_cf_duration : Dict String Scalar → String → DurationField → QosSpec → Parsed
parse_cf_duration payload sn fld spec = elim (lookup sn payload) [
  | none ↦ candidate spec
  | some value ↦ elim (parse_duration value) [
    | none ↦ rejected (bad_duration sn)
    | some d ↦ candidate (set_duration fld d spec)
  ]
]

unfoldable pub parse_durations : Dict String Scalar → Dict String DurationField → QosSpec → Parsed
parse_durations payload [] spec = candidate spec
parse_durations payload ((sn, fld) ∷ rest) spec =
    and_then (parse_cf_duration payload sn fld spec) (λ s. parse_durations payload rest s)

unfoldable pub requires_lease : QosSpec → Bool
requires_lease spec =
    spec.liveliness == "MANUAL_BY_TOPIC"
    && (elim spec.liveliness_lease_duration_ms [ none ↦ true | some d ↦ false ])

-- `str_int` is Python's `str` of an integer.
module _ (str_int : ℤ → String) where
  unfoldable pub str : Scalar → String
  str (string_scalar s) = s
  str (int_scalar n) = str_int n
  str (bool_scalar true) = "True"
  str (bool_scalar false) = "False"
  str null_scalar = "None"
  str (rendered s) = s

  unfoldable pub parse_enum : Dict String Scalar → String → EnumField → QosSpec → Parsed
  parse_enum payload sn fld spec = elim (lookup sn payload) [
    | none ↦ candidate spec
    | some value ↦
        let v = upper (str value) in
        if contains v (allowed fld)
        then candidate (set_enum fld v spec)
        else rejected (not_allowed sn)
  ]

  unfoldable pub parse_enums : Dict String Scalar → Dict String EnumField → QosSpec → Parsed
  parse_enums payload [] spec = candidate spec
  parse_enums payload ((sn, fld) ∷ rest) spec =
      and_then (parse_enum payload sn fld spec) (λ s. parse_enums payload rest s)

  unfoldable pub parse_cf_update : Dict String Scalar → QosSpec → Parsed
  parse_cf_update payload base = and_then (parse_enums payload qos_cf_enums base) (λ s1.
      and_then (parse_cf_depth payload s1) (λ s2.
        and_then (parse_durations payload qos_cf_durs s2)
          (λ cand. if requires_lease cand then rejected lease_required else candidate cand)))
