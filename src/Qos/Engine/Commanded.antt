-- ===== src/Qos/Engine/Commanded.antt =====
-- `reconcile_command`: the offer that the adapter makes for a publisher.
use one_m2m_dds_ipe.Prelude.{
  ℕ, String, ◌≡◌, refl, ap, sym, subst, ◌∙◌, true, ◌==◌, Option, none, some, List, [], ◌∷◌, ◌++◌,
  arith, Bool-cases, inl, inr, if◌then◌else◌, string_equality, ==_cases,
}
use one_m2m_dds_ipe.Prelude.Result.{Result, ok, err, ◌>>=◌}
use one_m2m_dds_ipe.Qos.Profile.{QosSpec, Endpoint}
use one_m2m_dds_ipe.Qos.Shared.Kinds.{all, kind_serves}
use one_m2m_dds_ipe.Qos.Shared.Kinds.Choice.{keeps_up, choose_kind-strongest}
use one_m2m_dds_ipe.Qos.Shared.Durations.{lasts, duration_serves, offered_duration-serves}
use one_m2m_dds_ipe.Qos.Policies.{
  Policy, rlb, drb, liv, policies, strength, values, command, get_field, replace,
}
use one_m2m_dds_ipe.Qos.Policies.Deadline
use one_m2m_dds_ipe.Qos.Policies.Reliability
use one_m2m_dds_ipe.Qos.Policies.Durability
use one_m2m_dds_ipe.Qos.Policies.Liveliness
use one_m2m_dds_ipe.Qos.Engine.{
  Decision, upgrade, upgrade_all, same_duration, require_lifespan, upgrade_deadline, upgrade_lease,
  reconcile_command,
}

command-serves :
    (policy : Policy) (requested : List Endpoint) (configured name : String)
    → command policy requested configured ≡ ok name
    → (all (kind_serves (strength policy) name) (values policy requested) ≡ true)
      × (keeps_up (strength policy) configured name ≡ true)
command-serves rlb requested configured name h =
    choose_kind-strongest Reliability.strength (Reliability.values requested) configured name h
command-serves drb requested configured name h =
    choose_kind-strongest Durability.strength (Durability.values requested) configured name h
command-serves liv requested configured name h =
    choose_kind-strongest Liveliness.strength (Liveliness.values requested) configured name h

pub chained {ℓ κ} :
    {A : Type ℓ} {B : Type κ} (r : Result A) (f : A → Result B) (b : B)
    → (r >>= f) ≡ ok b
    → (a : A) × (r ≡ ok a) × (f a ≡ ok b)
chained (ok a) f b h = (a, refl, h)
chained (err e) f b h = cc

pub fst_ok : (p q : Decision) → ok p ≡ ok q → p.0 ≡ q.0
fst_ok p q h = cc

pub replace-same :
    (policy : Policy) (spec : QosSpec) → replace policy (get_field policy spec) spec ≡ spec
replace-same rlb spec = refl
replace-same drb spec = refl
replace-same liv spec = refl

abbrev turned : Policy → QosSpec → List String → String → Decision
turned policy spec events selected =
    if get_field policy spec == selected
    then (spec, events)
    else (replace policy selected spec, events ++ ("qosUpgraded" ∷ []))

turn :
    (policy : Policy) (spec : QosSpec) (events : List String) (selected : String)
    → (turned policy spec events selected).0 ≡ replace policy selected spec
turn policy spec events selected = elim (==_cases (get_field policy spec) selected) [
  | inl (e, q) ↦ rw e (sym (replace-same policy spec) ∙ ap (λ v. replace policy v spec) q)
  | inr (e, _) ↦ rw e refl
]

-- One turn of the loop puts in the policy's choice.
upgrade-replaces :
    (requested : List Endpoint) (policy : Policy) (decision next : Decision)
    → upgrade requested policy decision ≡ ok next
    → (selected : String) × (command policy requested (get_field policy decision.0) ≡ ok selected)
      × (next.0 ≡ replace policy selected decision.0)
unfolding upgrade
upgrade-replaces requested policy (spec, events) next h =
    let (selected, chosen, rest) =
      chained (command policy requested (get_field policy spec)) _ next h in
    (selected, chosen, sym (fst_ok _ next rest) ∙ turn policy spec events selected)

same_duration-eq : (a b : Option ℕ) → same_duration a b ≡ true → a ≡ b
same_duration-eq none none h = refl
same_duration-eq none (some b) h = cc
same_duration-eq (some a) none h = cc
same_duration-eq (some a) (some b) h = ground arith

abbrev with_deadline : List Endpoint → QosSpec → QosSpec
with_deadline requested spec = record spec {
  deadline_ms = Deadline.command requested spec.deadline_ms;
}

abbrev with_lease : List Endpoint → QosSpec → QosSpec
with_lease requested spec = record spec {
  liveliness_lease_duration_ms =
      Liveliness.command_lease requested spec.liveliness_lease_duration_ms;
}

upgrade_deadline-replaces :
    (requested : List Endpoint) (decision : Decision)
    → (upgrade_deadline requested decision).0 ≡ with_deadline requested decision.0
unfolding upgrade_deadline
upgrade_deadline-replaces requested (spec, events) =
    elim (Bool-cases
      (same_duration (Deadline.command requested spec.deadline_ms) spec.deadline_ms)) [
        | inl e ↦ rw e (ap (λ d. record spec { deadline_ms = d }) (sym (same_duration-eq _ _ e)))
        | inr e ↦ rw e refl
      ]

upgrade_lease-replaces :
    (requested : List Endpoint) (decision : Decision)
    → (upgrade_lease requested decision).0 ≡ with_lease requested decision.0
unfolding upgrade_lease
upgrade_lease-replaces requested (spec, events) =
    elim (Bool-cases (
      same_duration (Liveliness.command_lease requested spec.liveliness_lease_duration_ms)
        spec.liveliness_lease_duration_ms)) [
          | inl e ↦ rw e (
              ap (λ d. record spec { liveliness_lease_duration_ms = d })
                (sym (same_duration-eq _ _ e)))
          | inr e ↦ rw e refl
        ]

abbrev commanded : List Endpoint → QosSpec → String → String → String → QosSpec
commanded requested configured r d l = record configured {
  reliability = r;
  durability = d;
  liveliness = l;
  deadline_ms = Deadline.command requested configured.deadline_ms;
  liveliness_lease_duration_ms =
      Liveliness.command_lease requested configured.liveliness_lease_duration_ms;
}

-- The five choices that `reconcile_command` makes, each from the profile as configured.
reconcile_command-chosen :
    (peer : Endpoint) (peers : List Endpoint) (configured : QosSpec) (decision : Decision)
    → reconcile_command (peer ∷ peers) configured ≡ ok decision
    → (r d l : String) × (command rlb (peer ∷ peers) configured.reliability ≡ ok r)
      × (command drb (peer ∷ peers) configured.durability ≡ ok d)
      × (command liv (peer ∷ peers) configured.liveliness ≡ ok l)
      × (decision.0 ≡ commanded (peer ∷ peers) configured r d l)
unfolding reconcile_command upgrade_all
reconcile_command-chosen peer peers configured decision h =
    let requested = peer ∷ peers in
    let (s1, h1, rest1) = chained (upgrade_all requested policies (configured, [])) _ decision h in
    let (s2, h2, rest2) = chained (upgrade requested rlb (configured, [])) _ s1 h1 in
    let (s3, h3, rest3) = chained (upgrade requested drb s2) _ s1 rest2 in
    let (s4, h4, rest4) = chained (upgrade requested liv s3) _ s1 rest3 in
    let (r, cr, er) = upgrade-replaces requested rlb (configured, []) s2 h2 in
    let (d, cd, ed) = upgrade-replaces requested drb s2 s3 h3 in
    let (l, cl, el) = upgrade-replaces requested liv s3 s4 h4 in
    let e3 : s3.0 ≡ replace drb d (replace rlb r configured) = ed ∙ ap (replace drb d) er in
    let e4 : s1.0 ≡ replace liv l (replace drb d (replace rlb r configured)) =
      sym (fst_ok s4 s1 rest4) ∙ el ∙ ap (replace liv l) e3 in
    (
      r,
      d,
      l,
      cr,
      subst (λ s. command drb requested (get_field drb s) ≡ ok d) er cd,
      subst (λ s. command liv requested (get_field liv s) ≡ ok l) e3 cl,
      sym (fst_ok _ decision rest1)
          ∙ upgrade_lease-replaces requested _
          ∙ ap (with_lease requested) (
              upgrade_deadline-replaces requested (s1.0, s1.1 ++ require_lifespan s1.0)
              ∙ ap (with_deadline requested) e4),
    )

abbrev Serving : Policy → List Endpoint → QosSpec → QosSpec → Type 0
Serving policy requested configured spec =
    (all (kind_serves (strength policy) (get_field policy spec)) (values policy requested) ≡ true)
    × (keeps_up (strength policy) (get_field policy configured) (get_field policy spec) ≡ true)
    × (all (duration_serves spec.deadline_ms) (Deadline.deadlines requested) ≡ true)
    × (lasts spec.deadline_ms configured.deadline_ms ≡ true)
    × (all (duration_serves spec.liveliness_lease_duration_ms) (Liveliness.leases requested) ≡ true)
    × (lasts spec.liveliness_lease_duration_ms configured.liveliness_lease_duration_ms ≡ true)

commanded-Serving :
    (policy : Policy) (requested : List Endpoint) (configured : QosSpec) (r d l : String)
    → command rlb requested configured.reliability ≡ ok r
    → command drb requested configured.durability ≡ ok d
    → command liv requested configured.liveliness ≡ ok l
    → Serving policy requested configured (commanded requested configured r d l)
commanded-Serving policy requested configured r d l hr hd hl =
    let kind = chosen policy in
    let deadline = offered_duration-serves (Deadline.deadlines requested) configured.deadline_ms in
    let lease =
      offered_duration-serves (Liveliness.leases requested)
        configured.liveliness_lease_duration_ms in
    (kind.0, kind.1, deadline.0, deadline.1, lease.0, lease.1)
  where
    chosen :
        (policy : Policy)
        → (all
              (kind_serves
                (strength policy)
                (get_field policy (commanded requested configured r d l)))
              (values policy requested)
            ≡ true)
          × (keeps_up
                (strength policy)
                (get_field policy configured)
                (get_field policy (commanded requested configured r d l))
              ≡ true)
    chosen rlb = command-serves rlb requested configured.reliability r hr
    chosen drb = command-serves drb requested configured.durability d hd
    chosen liv = command-serves liv requested configured.liveliness l hl

-- What `reconcile_command` offers serves every subscriber that is there: each of the three
-- ordered policies is no weaker than a ranked request and than what was configured, and the
-- deadline and the lease are no longer (in milliseconds) than any request and than configured.
pub reconcile_command-serves :
    (policy : Policy) (peer : Endpoint) (peers : List Endpoint) (configured spec : QosSpec)
    (events : List String)
    → reconcile_command (peer ∷ peers) configured ≡ ok (spec, events)
    → (all (kind_serves (strength policy) (get_field policy spec)) (values policy (peer ∷ peers))
        ≡ true)
      × (keeps_up (strength policy) (get_field policy configured) (get_field policy spec) ≡ true)
      × (all (duration_serves spec.deadline_ms) (Deadline.deadlines (peer ∷ peers)) ≡ true)
      × (lasts spec.deadline_ms configured.deadline_ms ≡ true)
      × (all (duration_serves spec.liveliness_lease_duration_ms) (Liveliness.leases (peer ∷ peers))
          ≡ true)
      × (lasts spec.liveliness_lease_duration_ms configured.liveliness_lease_duration_ms ≡ true)
reconcile_command-serves policy peer peers configured spec events h =
    let (r, d, l, hr, hd, hl, e) =
      reconcile_command-chosen peer peers configured (spec, events) h in
    subst (λ s. Serving policy (peer ∷ peers) configured s) (sym e)
      (commanded-Serving policy (peer ∷ peers) configured r d l hr hd hl)
