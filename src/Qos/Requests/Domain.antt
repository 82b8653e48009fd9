-- ===== src/Qos/Requests/Domain.antt =====
-- What `parse_cf_update` accepts.
use one_m2m_dds_ipe.Prelude.{
  ℕ, zero, suc, ◌<◌, String, ◌≡◌, subst, true, false, Option, none, some, [], ◌∷◌, if◌then◌else◌,
  contains, string_equality, arith, Bool-cases, Option-cases, inl, inr,
}
use one_m2m_dds_ipe.Prelude.Int.{ℤ, pos, negsuc}
use one_m2m_dds_ipe.Prelude.Text.{upper}
use one_m2m_dds_ipe.Prelude.Dict.{Dict, lookup}
use one_m2m_dds_ipe.Qos.Profile.{QosSpec}
use one_m2m_dds_ipe.Qos.Requests.{
  Scalar, string_scalar, int_scalar, bool_scalar, null_scalar, rendered, EnumField,
  reliability_field, durability_field, history_field, liveliness_field, DurationField,
  deadline_field, lifespan_field, lease_field, allowed, qos_cf_enums, qos_cf_durs, set_enum,
  set_duration, Parsed, rejected, not_allowed, bad_depth, lease_required, candidate, and_then,
  parse_depth, str, parse_duration, parse_enum, parse_enums, parse_cf_depth, parse_cf_duration,
  parse_durations, requires_lease, parse_cf_update,
}

-- A profile within the vocabulary of the four enumerations and with a depth.
abbrev pub IsInDomain : QosSpec → Type 0
IsInDomain spec =
    (contains spec.reliability (allowed reliability_field) ≡ true)
    × (contains spec.durability (allowed durability_field) ≡ true)
    × (contains spec.history (allowed history_field) ≡ true)
    × (contains spec.liveliness (allowed liveliness_field) ≡ true)
    × (0 < spec.depth)

abbrev Kept : Parsed → Type 0
Kept (rejected r) = Unit
Kept (candidate spec) = IsInDomain spec

Kept-and_then :
    (p : Parsed) (f : QosSpec → Parsed)
    → Kept p
    → ((s : QosSpec) → IsInDomain s → Kept (f s))
    → Kept (and_then p f)
Kept-and_then (rejected r) f k h = tt
Kept-and_then (candidate spec) f k h = h spec k

set_enum-IsInDomain :
    (fld : EnumField) (v : String) (spec : QosSpec)
    → contains v (allowed fld) ≡ true
    → IsInDomain spec
    → IsInDomain (set_enum fld v spec)
set_enum-IsInDomain reliability_field v spec h (r, d, s, l, n) = (h, d, s, l, n)
set_enum-IsInDomain durability_field v spec h (r, d, s, l, n) = (r, h, s, l, n)
set_enum-IsInDomain history_field v spec h (r, d, s, l, n) = (r, d, h, l, n)
set_enum-IsInDomain liveliness_field v spec h (r, d, s, l, n) = (r, d, s, h, n)

set_duration-IsInDomain :
    (fld : DurationField) (v : Option ℕ) (spec : QosSpec)
    → IsInDomain spec
    → IsInDomain (set_duration fld v spec)
set_duration-IsInDomain deadline_field v spec k = k
set_duration-IsInDomain lifespan_field v spec k = k
set_duration-IsInDomain lease_field v spec k = k

module _ (str_int : ℤ → String) (payload : Dict String Scalar) where
  parse_enum-Kept :
      (sn : String) (fld : EnumField) (spec : QosSpec)
      → IsInDomain spec
      → Kept (parse_enum str_int payload sn fld spec)
  unfolding parse_enum
  parse_enum-Kept sn fld spec k = elim (Option-cases (lookup sn payload)) [
    | inl e ↦ rw (Kept, e) k
    | inr (value, e) ↦ rw (Kept, e) (test value)
  ]
    where
      test :
          (value : Scalar)
          → Kept (
              if contains (upper (str str_int value)) (allowed fld)
              then candidate (set_enum fld (upper (str str_int value)) spec)
              else rejected (not_allowed sn))
      test value = elim (Bool-cases (contains (upper (str str_int value)) (allowed fld))) [
        | inl h ↦ rw h (set_enum-IsInDomain fld _ spec h k)
        | inr h ↦ rw h tt
      ]

  parse_enums-Kept :
      (enums : Dict String EnumField) (spec : QosSpec)
      → IsInDomain spec
      → Kept (parse_enums str_int payload enums spec)
  unfolding parse_enums
  parse_enums-Kept [] spec k = k
  parse_enums-Kept ((sn, fld) ∷ rest) spec k =
      Kept-and_then (parse_enum str_int payload sn fld spec) _ (parse_enum-Kept sn fld spec k)
        (λ s h. parse_enums-Kept rest s h)

  depth-Kept :
      (value : Scalar) (spec : QosSpec)
      → IsInDomain spec
      → Kept (elim (parse_depth value) [
        | none ↦ rejected bad_depth
        | some d ↦ candidate (record spec { depth = d })
      ])
  unfolding parse_depth
  depth-Kept (string_scalar s) spec k = tt
  depth-Kept (int_scalar (pos zero)) spec k = tt
  depth-Kept (int_scalar (pos (suc n))) spec (r, d, s, l, m) = (r, d, s, l, omega arith)
  depth-Kept (int_scalar (negsuc n)) spec k = tt
  depth-Kept (bool_scalar b) spec k = tt
  depth-Kept null_scalar spec k = tt
  depth-Kept (rendered s) spec k = tt

  parse_cf_depth-Kept : (spec : QosSpec) → IsInDomain spec → Kept (parse_cf_depth payload spec)
  unfolding parse_cf_depth
  parse_cf_depth-Kept spec k = elim (Option-cases (lookup "cfDpt" payload)) [
    | inl e ↦ rw (Kept, e) k
    | inr (value, e) ↦ rw (Kept, e) (depth-Kept value spec k)
  ]

  parse_cf_duration-Kept :
      (sn : String) (fld : DurationField) (spec : QosSpec)
      → IsInDomain spec
      → Kept (parse_cf_duration payload sn fld spec)
  unfolding parse_cf_duration
  parse_cf_duration-Kept sn fld spec k = elim (Option-cases (lookup sn payload)) [
    | inl e ↦ rw (Kept, e) k
    | inr (value, e) ↦ elim (Option-cases (parse_duration value)) [
      | inl p ↦ rw (Kept, e) rw p tt
      | inr (d, p) ↦ rw (Kept, e) rw p (set_duration-IsInDomain fld d spec k)
    ]
  ]

  parse_durations-Kept :
      (durs : Dict String DurationField) (spec : QosSpec)
      → IsInDomain spec
      → Kept (parse_durations payload durs spec)
  unfolding parse_durations
  parse_durations-Kept [] spec k = k
  parse_durations-Kept ((sn, fld) ∷ rest) spec k =
      Kept-and_then (parse_cf_duration payload sn fld spec) _ (parse_cf_duration-Kept sn fld spec k)
        (λ s h. parse_durations-Kept rest s h)

  abbrev Accepted : Parsed → Type 0
  Accepted (rejected r) = Unit
  Accepted (candidate spec) = IsInDomain spec × (requires_lease spec ≡ false)

  Accepted-and_then :
      (p : Parsed) (f : QosSpec → Parsed)
      → Kept p
      → ((s : QosSpec) → IsInDomain s → Accepted (f s))
      → Accepted (and_then p f)
  Accepted-and_then (rejected r) f k h = tt
  Accepted-and_then (candidate spec) f k h = h spec k

  leased-Accepted :
      (cand : QosSpec)
      → IsInDomain cand
      → Accepted (if requires_lease cand then rejected lease_required else candidate cand)
  leased-Accepted cand k = elim (Bool-cases (requires_lease cand)) [
    | inl e ↦ rw e tt
    | inr e ↦ rw e (k, e)
  ]

  -- From a profile within the domain, a candidate that `parse_cf_update` accepts is within it as
  -- well, and has a lease where its liveliness is MANUAL_BY_TOPIC.
  pub parse_cf_update-IsInDomain :
      (base cand : QosSpec)
      → IsInDomain base
      → parse_cf_update str_int payload base ≡ candidate cand
      → IsInDomain cand × (requires_lease cand ≡ false)
  unfolding parse_cf_update
  parse_cf_update-IsInDomain base cand k h =
      subst (λ (p : Parsed). Accepted p) h
        (Accepted-and_then (parse_enums str_int payload qos_cf_enums base) _
          (parse_enums-Kept qos_cf_enums base k)
          (λ s1 k1.
            Accepted-and_then (parse_cf_depth payload s1) _ (parse_cf_depth-Kept s1 k1) (λ s2 k2.
              Accepted-and_then (parse_durations payload qos_cf_durs s2) _
                (parse_durations-Kept qos_cf_durs s2 k2) leased-Accepted)))
