-- ===== src/Qos/Requests/Changes.antt =====
-- `policy_changes_to_cf` and `fields_in_update` of src/ipe/qos/requests.py.
pub mod Readable
use one_m2m_dds_ipe.Prelude.{
  String, Bool, true, false, not, ◌&&◌, ◌||◌, Option, none, some, List, [], ◌∷◌, ◌++◌, ◌==◌,
  if◌then◌else◌, contains, string_equality,
}
use one_m2m_dds_ipe.Prelude.Text.{upper}
use one_m2m_dds_ipe.Prelude.Dict.{Dict, lookup, member, insert}
use one_m2m_dds_ipe.Qos.Requests.{
  Scalar, string_scalar, int_scalar, bool_scalar, null_scalar, rendered,
}
use one_m2m_dds_ipe.Qos.Registry.Definitions.{dds_qos_policy_names}

-- The value of a change: a JSON object, or any other value.
pub data Change : Type 0 where
  scalar_change : Scalar → Change
  object_change : Dict String Scalar → Change

pub data Refusal : Type 0 where
  unknown_policy : String → Refusal
  history_shape liveliness_shape : Refusal
  not_changeable : String → Refusal
  no_changes : Refusal
  history_kind_required liveliness_kind_required : Refusal

pub data Translated : Type 0 where
  refused : Refusal → Translated
  translated : Dict String Scalar → Translated

abbrev pub aliases : Dict String String
aliases =
    ("RELIABILITY", "cfRlb")
    ∷ ("DURABILITY", "cfDrb")
    ∷ ("DEADLINE", "cfDdl")
    ∷ ("LIFESPAN", "cfLsp")
    ∷ []

-- `d.get(k, default)`
abbrev get_or : String → Scalar → Dict String Scalar → Scalar
get_or k default d = elim (lookup k d) [ none ↦ default | some v ↦ v ]

unfoldable pub alias_value : Change → Scalar
alias_value (scalar_change v) = v
alias_value (object_change d) = get_or "durationMs" (get_or "value" null_scalar d) d

-- `if k in value: translated[sn] = value[k]`, for `value.get(k)`
abbrev pub copy_value : Option Scalar → String → Dict String Scalar → Dict String Scalar
copy_value none sn acc = acc
copy_value (some v) sn acc = insert sn v acc

-- HISTORY and LIVELINESS: a kind, or an object with a kind and an optional second key.
unfoldable pub put_kind :
    String → String → String → Refusal → Change → Dict String Scalar → Translated
put_kind kind_sn extra extra_sn refusal (object_change d) acc =
    translated
      (copy_value (lookup extra d) extra_sn (insert kind_sn (get_or "kind" null_scalar d) acc))
put_kind kind_sn extra extra_sn refusal (scalar_change (string_scalar s)) acc =
    translated (insert kind_sn (string_scalar s) acc)
put_kind kind_sn extra extra_sn refusal (scalar_change v) acc = refused refusal

-- The change of one known policy, with its entry in `aliases`.
unfoldable pub put_named : Option String → String → Change → Dict String Scalar → Translated
put_named (some sn) name value acc = translated (insert sn (alias_value value) acc)
put_named none name value acc =
    if name == "HISTORY"
    then put_kind "cfHst" "depth" "cfDpt" history_shape value acc
    else if name == "LIVELINESS"
    then put_kind "cfLiv" "leaseDurationMs" "cfLse" liveliness_shape value acc
    else refused (not_changeable name)

unfoldable pub put_change : String → Change → Dict String Scalar → Translated
put_change raw_name value acc =
    let name = upper raw_name in
    if not (contains name dds_qos_policy_names)
    then refused (unknown_policy raw_name)
    else put_named (lookup name aliases) name value acc

abbrev pub and_then : Translated → (Dict String Scalar → Translated) → Translated
and_then (refused r) f = refused r
and_then (translated m) f = f m

unfoldable pub put_changes : Dict String Change → Dict String Scalar → Translated
put_changes [] acc = translated acc
put_changes ((raw_name, value) ∷ rest) acc =
    and_then (put_change raw_name value acc) (λ m. put_changes rest m)

abbrev is_null : Scalar → Bool
is_null null_scalar = true
is_null (string_scalar s) = false
is_null (int_scalar n) = false
is_null (bool_scalar b) = false
is_null (rendered s) = false

-- `k in translated and translated[k] is None`
abbrev pub is_null_at : String → Dict String Scalar → Bool
is_null_at k m = elim (lookup k m) [ none ↦ false | some v ↦ is_null v ]

abbrev pub check_kinds : Dict String Scalar → Translated
check_kinds m =
    if is_null_at "cfHst" m
    then refused history_kind_required
    else if is_null_at "cfLiv" m
    then refused liveliness_kind_required
    else translated m

abbrev pub check_translated : Dict String Scalar → Translated
check_translated [] = refused no_changes
check_translated (x ∷ m) = check_kinds (x ∷ m)

unfoldable pub policy_changes_to_cf : Dict String Change → Translated
policy_changes_to_cf changes = and_then (put_changes changes []) check_translated

abbrev named : String → String → Dict String Scalar → List String
named short field payload = if member short payload then field ∷ [] else []

unfoldable pub fields_in_update : Dict String Scalar → List String
fields_in_update payload =
    named "cfRlb" "reliability" payload
    ++ (named "cfDrb" "durability" payload
        ++ (named "cfHst" "history" payload
            ++ (named "cfLiv" "liveliness" payload
                ++ (named "cfDdl" "deadline_ms" payload
                    ++ (named "cfLsp" "lifespan_ms" payload
                        ++ (named "cfLse" "liveliness_lease_duration_ms" payload
                            ++ named "cfDpt" "depth" payload))))))
