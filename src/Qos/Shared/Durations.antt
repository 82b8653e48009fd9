-- ===== src/Qos/Shared/Durations.antt =====
-- Durations: None is infinite. An offer matches a request if it is not longer.
use one_m2m_dds_ipe.Prelude.{
  ℕ, ◌<◌, ◌*◌, ◌/◌, ◌≡◌, refl, ap, sym, ◌∙◌, Bool, true, false, not, Option, none, some, List, [],
  ◌∷◌, leb, ltb, max, min, if◌then◌else◌, arith, Bool-cases, inl, inr,
}
use Prim.Native.Nat.{◌%◌}
use one_m2m_dds_ipe.Qos.Profile.{Duration, nanoseconds}
use one_m2m_dds_ipe.Qos.Shared.{
  int64_max, duration_ms, max_or_none, min_finite, durations, requested_duration, offered_duration,
  any_exceeds, is_strict, guard_duration, tightens,
}
use one_m2m_dds_ipe.Qos.Shared.Kinds.{all}

abbrev pub lasts : Option ℕ → Option ℕ → Bool
lasts offered none = true
lasts none (some r) = false
lasts (some o) (some r) = leb o r

-- `duration_accepts requested offered`: the offer is within the request, in milliseconds.
abbrev pub duration_accepts : Option ℕ → Duration → Bool
duration_accepts requested offered = lasts (duration_ms offered) requested

abbrev pub duration_serves : Option ℕ → Duration → Bool
duration_serves offered requested = lasts offered (duration_ms requested)

abbrev all_within : Option ℕ → List (Option ℕ) → Bool
all_within r vs = all (λ v. lasts v r) vs

lasts_trans : (a b c : Option ℕ) → lasts a b ≡ true → lasts b c ≡ true → lasts a c ≡ true
lasts_trans a b none h k = ground arith
lasts_trans none none (some c) h k = cc
lasts_trans none (some b) (some c) h k = cc
lasts_trans (some a) none (some c) h k = cc
lasts_trans (some a) (some b) (some c) h k = ground arith

all_within_mono :
    (r s : Option ℕ) (vs : List (Option ℕ))
    → lasts r s ≡ true
    → all_within r vs ≡ true
    → all_within s vs ≡ true
all_within_mono r s [] h a = refl
all_within_mono r s (v ∷ vs) h a = ground (arith, lasts_trans v r s, all_within_mono r s vs)

all_within-none : (vs : List (Option ℕ)) → all_within none vs ≡ true
all_within-none [] = refl
all_within-none (v ∷ vs) = all_within-none vs

within_both :
    (v : ℕ) (vs : List (Option ℕ)) (m : Option ℕ)
    → all_within m vs ≡ true
    → all_within (elim m [ none ↦ none | some n ↦ some (max v n) ]) (some v ∷ vs) ≡ true
within_both v vs none h = all_within-none vs
within_both v vs (some n) h =
    ground (arith, all_within_mono (some n) (some (max v n)) vs (ground arith) h)

all_served_mono :
    (o p : Option ℕ) (vs : List (Option ℕ))
    → lasts p o ≡ true
    → all (λ v. lasts o v) vs ≡ true
    → all (λ v. lasts p v) vs ≡ true
all_served_mono o p [] h a = refl
all_served_mono o p (v ∷ vs) h a = ground (arith, lasts_trans p o v, all_served_mono o p vs)

serves_both :
    (v : ℕ) (vs : List (Option ℕ)) (m : Option ℕ)
    → all (λ w. lasts m w) vs ≡ true
    → all (λ w. lasts (elim m [ none ↦ some v | some n ↦ some (min v n) ]) w) (some v ∷ vs) ≡ true
serves_both v vs none h = ground (arith, all_served_mono none (some v) vs refl h)
serves_both v vs (some n) h =
    ground (arith, all_served_mono (some n) (some (min v n)) vs (ground arith) h)

tightened :
    (vs : List (Option ℕ)) (needed configured : Option ℕ)
    → all (λ v. lasts needed v) vs ≡ true
    → (all (λ v. lasts (if tightens needed configured then needed else configured) v) vs ≡ true)
      × (lasts (if tightens needed configured then needed else configured) configured ≡ true)
tightened vs none none h = (h, refl)
tightened vs none (some c) h = (all_served_mono none (some c) vs refl h, ground arith)
tightened vs (some n) none h = (h, refl)
tightened vs (some n) (some c) h = elim (Bool-cases (ltb n c)) [
  | inl e ↦ rw e (h, ground arith)
  | inr e ↦ rw e (all_served_mono (some n) (some c) vs (ground arith) h, ground arith)
]

any_exceeds-within :
    (c : ℕ) (vs : List (Option ℕ)) → any_exceeds c vs ≡ not (all_within (some c) vs)
any_exceeds-within c [] = refl
any_exceeds-within c (none ∷ vs) = refl
any_exceeds-within c (some v ∷ vs) = ground (arith, any_exceeds-within c vs)

max_or_none-within : (vs : List (Option ℕ)) → all_within (max_or_none vs) vs ≡ true
unfolding max_or_none
max_or_none-within [] = refl
max_or_none-within (none ∷ vs) = all_within-none vs
max_or_none-within (some v ∷ []) = ground arith
max_or_none-within (some v ∷ (w ∷ vs)) =
    within_both v (w ∷ vs) (max_or_none (w ∷ vs)) (max_or_none-within (w ∷ vs))

guarded :
    (vs : List (Option ℕ)) (configured : Option ℕ)
    → (all_within (if is_strict configured vs then max_or_none vs else configured) vs ≡ true)
      × (is_strict configured vs ≡ not (all_within configured vs))
guarded vs none = (all_within-none vs, rw (all_within-none vs))
guarded vs (some c) = ground (arith, any_exceeds-within c vs, max_or_none-within vs)

min_finite-within : (vs : List (Option ℕ)) → all (λ v. lasts (min_finite vs) v) vs ≡ true
unfolding min_finite
min_finite-within [] = refl
min_finite-within (none ∷ vs) = min_finite-within vs
min_finite-within (some v ∷ vs) = serves_both v vs (min_finite vs) (min_finite-within vs)

-- The peers' durations, read through `duration_ms`.
accepts-within :
    (r : Option ℕ) (ds : List Duration) → all (duration_accepts r) ds ≡ all_within r (durations ds)
accepts-within r [] = refl
accepts-within r (d ∷ ds) = ground (arith, accepts-within r ds)

serves-within :
    (o : Option ℕ) (ds : List Duration)
    → all (duration_serves o) ds ≡ all (λ v. lasts o v) (durations ds)
serves-within o [] = refl
serves-within o (d ∷ ds) = ground (arith, serves-within o ds)

-- What is requested, unless it was set explicitly, is met by every offer.
pub requested_duration-accepts :
    (offered : List Duration) (configured : Option ℕ)
    → all (duration_accepts (requested_duration offered configured false)) offered ≡ true
unfolding requested_duration
requested_duration-accepts offered configured =
    accepts-within (max_or_none (durations offered)) offered
    ∙ max_or_none-within (durations offered)

-- What is offered meets every request, and is never longer than what was configured.
pub offered_duration-serves :
    (requested : List Duration) (configured : Option ℕ)
    → (all (duration_serves (offered_duration requested configured)) requested ≡ true)
      × (lasts (offered_duration requested configured) configured ≡ true)
unfolding offered_duration
offered_duration-serves requested configured =
    let (meets, shorter) =
      tightened (durations requested) (min_finite (durations requested)) configured
        (min_finite-within (durations requested)) in
    (serves-within _ requested ∙ meets, shorter)

-- A guarded duration is met by every offer; it is the configured one exactly if that is met.
pub guard_duration-accepts :
    (offered : List Duration) (configured : Option ℕ)
    → (all (duration_accepts (guard_duration offered configured).0) offered ≡ true)
      × ((guard_duration offered configured).1 ≡ not (all (duration_accepts configured) offered))
unfolding guard_duration
guard_duration-accepts offered configured =
    let (meets, exact) = guarded (durations offered) configured in
    (accepts-within _ offered ∙ meets, exact ∙ ap not (sym (accepts-within configured offered)))

-- A single publisher whose finite duration is not a whole number of milliseconds is asked for
-- less than it offers: the request, in milliseconds, is below the offer in nanoseconds.
pub requested_duration-rounds_down :
    (ns : ℕ) (configured : Option ℕ)
    → ns < int64_max
    → 0 < ns % 1000000
    → (m : ℕ) × (requested_duration (nanoseconds ns ∷ []) configured false ≡ some m)
      × (m * 1000000 < ns)
unfolding requested_duration duration_ms max_or_none
requested_duration-rounds_down ns configured finite part = (ns / 1000000, ground arith, omega arith)
