-- ===== src/Qos/Shared.antt =====
-- src/ipe/qos/_shared.py: durations and ordered policy kinds. The functions take the values of one
-- field of the peers, `[getattr(peer, field) for peer in peers]`.
pub mod Durations
pub mod Guards
pub mod Kinds
use Prim.Native.Nat.{◌^◌}
use Prim.Native.String.{compare}
use text.Mathlib.Text.{is_lt}
use one_m2m_dds_ipe.Prelude.{
  ℕ, ◌-◌, ◌/◌, String, Bool, true, false, not, ◌&&◌, ◌||◌, Option, none, some, List, [], ◌∷◌, ◌++◌,
  leb, ltb, nat_eq, max, min, if◌then◌else◌, contains, string_equality,
}
use one_m2m_dds_ipe.Prelude.Dict.{Dict, lookup, member}
use one_m2m_dds_ipe.Prelude.Result.{Result, ok, err, type_error, key_error, ◌>>=◌}
use one_m2m_dds_ipe.Prelude.Text.{upper}
use one_m2m_dds_ipe.Qos.Profile.{
  PolicyValue, string_value, enum_member, other_value, Duration, unset, nanoseconds,
}

abbrev pub int64_max : ℕ
int64_max = 2 ^ 63 - 1

unfoldable pub is_infinite : Duration → Bool
is_infinite unset = true
is_infinite (nanoseconds ns) = leb int64_max ns

unfoldable pub duration_ms : Duration → Option ℕ
duration_ms unset = none
duration_ms (nanoseconds ns) = if nat_eq ns 0 || leb int64_max ns then none else some (ns / 1000000)

unfoldable pub policy_name : PolicyValue → Result String
policy_name (string_value s) = ok (upper s)
policy_name (enum_member name) = ok name
policy_name other_value = err type_error

-- `max(finite)`; None where one is None or there is none
unfoldable pub max_or_none : List (Option ℕ) → Option ℕ
max_or_none [] = none
max_or_none (none ∷ values) = none
max_or_none (some v ∷ []) = some v
max_or_none (some v ∷ (w ∷ values)) = elim (max_or_none (w ∷ values)) [
  | none ↦ none
  | some m ↦ some (max v m)
]

unfoldable pub min_finite : List (Option ℕ) → Option ℕ
min_finite [] = none
min_finite (none ∷ values) = min_finite values
min_finite (some v ∷ values) = elim (min_finite values) [ none ↦ some v | some m ↦ some (min v m) ]

-- `list(dict.fromkeys(events))`, with the events that have been seen
dedupe_from : List String → List String → List String
dedupe_from seen [] = []
dedupe_from seen (e ∷ events) =
    let skip = dedupe_from seen events in
    let take_it = e ∷ dedupe_from (e ∷ seen) events in if contains e seen then skip else take_it

unfoldable pub dedupe : List String → List String
unfolding dedupe_from
dedupe events = dedupe_from [] events

abbrev pub Strengths : Type 0
Strengths = Dict String ℕ

abbrev pub Ranked : Type 0
Ranked = ℕ × String

-- The comprehension that builds the pool.
unfoldable pub ranked : Strengths → List PolicyValue → Result (List Ranked)
ranked strengths [] = ok []
ranked strengths (v ∷ values) = policy_name v >>= λ name. ranked strengths values >>= λ rest.
    elim (lookup name strengths) [ none ↦ ok rest | some s ↦ ok ((s, name) ∷ rest) ]

-- Python compares tuples from the left.
unfoldable pub ranked_lt : Ranked → Ranked → Bool
ranked_lt (a, s) (b, t) = ltb a b || (nat_eq a b && is_lt (compare s t))

unfoldable pub min_ranked : Ranked → List Ranked → Ranked
min_ranked best [] = best
min_ranked best (x ∷ pool) = min_ranked (if ranked_lt x best then x else best) pool

unfoldable pub max_ranked : Ranked → List Ranked → Ranked
max_ranked best [] = best
max_ranked best (x ∷ pool) = max_ranked (if ranked_lt best x then x else best) pool

-- `strengths.get(configured, -1) >= bound`
abbrev pub at_least : Option ℕ → ℕ → Bool
at_least none bound = false
at_least (some s) bound = leb bound s

abbrev pub explicit_entry : Strengths → String → Bool → List Ranked
explicit_entry strengths configured false = []
explicit_entry strengths configured true = elim (lookup configured strengths) [
  | none ↦ []
  | some s ↦ (s, configured) ∷ []
]

abbrev pub pick : Strengths → String → Bool → List Ranked → String
pick strengths configured weakest [] = configured
pick strengths configured true (x ∷ pool) = (min_ranked x pool).1
pick strengths configured false (x ∷ pool) =
    let chosen = max_ranked x pool in
    if at_least (lookup configured strengths) chosen.0 then configured else chosen.1

unfoldable pub choose_kind : List PolicyValue → String → Strengths → Bool → Bool → Result String
choose_kind values configured strengths weakest explicit = ranked strengths values >>= λ pool.
    ok (pick strengths configured weakest (pool ++ explicit_entry strengths configured explicit))

-- `STRENGTH[name]`
abbrev pub strength_of : Strengths → String → Result ℕ
strength_of strengths name = elim (lookup name strengths) [ none ↦ err key_error | some s ↦ ok s ]

-- `strict` and the selection, for the weakest offer.
abbrev pub guard_by : Strengths → String → String → Result (String × Bool)
guard_by strengths configured weakest = elim (lookup configured strengths) [
  | none ↦ ok (configured, false)
  | some c ↦
      strength_of strengths weakest >>= λ w. ok (if ltb w c then weakest else configured, ltb w c)
]

-- The `guard` of the three policy modules, which differ only in their field and `STRENGTH`.
unfoldable pub guard_kind : List PolicyValue → String → Strengths → Result (String × Bool)
guard_kind values configured strengths =
    choose_kind values configured strengths true false >>= λ weakest.
    guard_by strengths configured weakest

abbrev pub durations : List Duration → List (Option ℕ)
durations [] = []
durations (d ∷ ds) = duration_ms d ∷ durations ds

unfoldable pub requested_duration : List Duration → Option ℕ → Bool → Option ℕ
requested_duration offered configured explicit =
    if explicit then configured else max_or_none (durations offered)

-- `needed is not None and (configured is None or configured > needed)`
abbrev pub tightens : Option ℕ → Option ℕ → Bool
tightens none configured = false
tightens (some n) none = true
tightens (some n) (some c) = ltb n c

unfoldable pub offered_duration : List Duration → Option ℕ → Option ℕ
offered_duration requested configured =
    let needed = min_finite (durations requested) in
    if tightens needed configured then needed else configured

abbrev pub exceeds : ℕ → Option ℕ → Bool
exceeds c none = true
exceeds c (some v) = ltb c v

abbrev pub any_exceeds : ℕ → List (Option ℕ) → Bool
any_exceeds c [] = false
any_exceeds c (v ∷ values) = exceeds c v || any_exceeds c values

abbrev pub is_strict : Option ℕ → List (Option ℕ) → Bool
is_strict none values = false
is_strict (some c) values = any_exceeds c values

unfoldable pub guard_duration : List Duration → Option ℕ → Option ℕ × Bool
guard_duration offered configured =
    let values = durations offered in
    let strict = is_strict configured values in
    (if strict then max_or_none values else configured, strict)
