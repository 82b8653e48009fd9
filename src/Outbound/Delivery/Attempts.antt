-- ===== src/Outbound/Delivery/Attempts.antt =====
-- How one attempt of `_deliver` can end, where its answer can be classified.
use one_m2m_dds_ipe.Prelude.{
  ℕ, String, ◌≡◌, refl, sym, ap, ◌∙◌, subst, ◌⊎◌, inl, inr, Bool, true, false, Option, none, some,
  Bool-cases, Option-cases, arith, if◌then◌else◌, ◌==◌, string_equality,
}
use one_m2m_dds_ipe.Prelude.Result.{Result, ok}
use one_m2m_dds_ipe.Core.Common.{Fields}
use one_m2m_dds_ipe.Onem2m.Client.{
  Failure, Classification, recoverable, non_recoverable, policy_dependent, classify,
}
use one_m2m_dds_ipe.Queues.Outbound.Ops.{Op}
use one_m2m_dds_ipe.Outbound.{
  OutboundProcessor, Method, ◌>>=◌, return, shown, emit_event, mark_cse_available,
  mark_cse_unavailable, request_recovery,
}
use one_m2m_dds_ipe.Outbound.Events.{emit_event-returns}
use one_m2m_dds_ipe.Outbound.Delivery.{
  Attempt, send_operation, is_expired, report_dropped_op, failed, classified, sent, attempt,
  dropped_payload,
}

-- The attempt ends in an answer that can be dealt with: a success, or a failure that has a class.
abbrev pub Answered : Op → Attempt → Type 0
Answered op a =
    (outcome : Option Failure) × (send_operation op a.reply ≡ ok outcome)
    × (elim outcome as (λ x. Type 0) [
      | none ↦ Unit
      | some failure ↦ (class : Classification) × (classify failure ≡ ok class)
    ])

-- The attempt consumes the operation: it has expired, or is sent, or is rejected for good.
abbrev pub Consumes : Op → Attempt → Type 0
Consumes op a =
    (is_expired op a.now ≡ true)
    ⊎ (send_operation op a.reply ≡ ok none)
    ⊎ ((failure : Failure) × (send_operation op a.reply ≡ ok (some failure))
        × (classify failure ≡ ok non_recoverable))

-- What `_deliver` does with an operation: it is consumed, or is to be retained and the spool is as
-- it was.
abbrev pub Retained : OutboundProcessor → Result Bool × OutboundProcessor → Type 0
Retained p r = (r.0 ≡ ok false) × (r.1.spool ≡ p.spool) × (r.1.limits ≡ p.limits)

pub some-injective : {A : Type 0} (a b : A) → some a ≡ some b → a ≡ b
some-injective a b h = cc

pub bind-ok :
    {A B : Type 0} (m : Method A) (f : A → Method B) (p : OutboundProcessor) (a : A)
    → (m p).0 ≡ ok a
    → (m >>= f) p ≡ f a (m p).1
bind-ok m f p a h = ground arith

module _ (encode : Op → String) where
  pub report-cases :
      (now : ℕ) (op : Op) (p : OutboundProcessor)
      → (report_dropped_op encode now op p ≡ (ok tt, p))
        ⊎ ((payload : Fields) × (report_dropped_op encode now op p
              ≡ emit_event encode now "ipeHealth" "error" payload p))
  unfolding report_dropped_op
  report-cases now op p = elim (Bool-cases (shown op "view" == "ipeHealth")) [
    | inl e ↦ inl (
        ap
          (λ b.
            (if b
                then return tt
                else emit_event encode now "ipeHealth" "error" (dropped_payload op))
              p)
          e)
    | inr e ↦ inr (
      dropped_payload op,
      ap
          (λ b.
            (if b
                then return tt
                else emit_event encode now "ipeHealth" "error" (dropped_payload op))
              p)
          e,
    )
  ]

  report-returns :
      (now : ℕ) (op : Op) (p : OutboundProcessor) → (report_dropped_op encode now op p).0 ≡ ok tt
  report-returns now op p = elim (report-cases now op p) [
    | inl e ↦ ap (λ r. r.0) e
    | inr (payload, e) ↦
        ap (λ r. r.0) e ∙ emit_event-returns encode now "ipeHealth" "error" payload p
  ]

  module _ (op : Op) (a : Attempt) (again : Option (Method Bool)) (p : OutboundProcessor) where
    failed-recoverable :
        (failure : Failure)
        → Retained p (failed encode op a again failure recoverable p)
          ⊎ ((next : Method Bool) × (again ≡ some next)
              × (failed encode op a again failure recoverable p ≡ next p))
    unfolding failed mark_cse_unavailable
    failed-recoverable failure = elim (Option-cases again) [
      | inl e ↦ rw e (inl (refl, refl, refl))
      | inr (next, e) ↦ elim (Bool-cases a.stopped_in_wait) [
        | inl s ↦ rw (e, s) (inl (refl, refl, refl))
        | inr s ↦ rw (e, s) (inr (next, refl, refl))
      ]
    ]

    failed-policy :
        (failure : Failure) → Retained p (failed encode op a again failure policy_dependent p)
    unfolding failed mark_cse_available request_recovery
    failed-policy failure = elim (Bool-cases p.cse_transport_down) [
      | inl e ↦ rw e (refl, refl, refl)
      | inr e ↦ rw e (refl, refl, refl)
    ]

    failed-rejected :
        (failure : Failure) → (failed encode op a again failure non_recoverable p).0 ≡ ok true
    unfolding failed mark_cse_available
    failed-rejected failure =
        ground (arith, report-returns a.now op p, report-returns a.now op (mark_cse_available p).1)

    abbrev pub AttemptCases : Result Bool × OutboundProcessor → Type 0
    AttemptCases r =
        ((r.0 ≡ ok true) × Consumes op a)
        ⊎ Retained p r
        ⊎ ((next : Method Bool) × (again ≡ some next) × (r ≡ next p))

    classified-cases :
        (failure : Failure) (class : Classification)
        → send_operation op a.reply ≡ ok (some failure)
        → classify failure ≡ ok class
        → AttemptCases (classified encode op a again failure (ok class) p)
    unfolding classified
    classified-cases failure recoverable s c = elim (failed-recoverable failure) [
      | inl kept ↦ inr (inl kept)
      | inr next ↦ inr (inr next)
    ]
    classified-cases failure policy_dependent s c = inr (inl (failed-policy failure))
    classified-cases failure non_recoverable s c =
        inl (failed-rejected failure, inr (inr (failure, s, c)))

    sent-cases :
        (outcome : Option Failure)
        → send_operation op a.reply ≡ ok outcome
        → (elim outcome as (λ x. Type 0) [
          | none ↦ Unit
          | some failure ↦ (class : Classification) × (classify failure ≡ ok class)
        ])
        → AttemptCases (sent encode op a again (ok outcome) p)
    unfolding sent mark_cse_available
    sent-cases none s c = inl (ground arith, inr (inl s))
    sent-cases (some failure) s (class, c) =
        subst (λ r. AttemptCases (classified encode op a again failure r p)) (sym c)
          (classified-cases failure class s c)

    -- The round by its two tests.
    abbrev round : Bool → Bool → Result Bool × OutboundProcessor
    round stops expires =
        (if stops
            then return false
            else if expires
            then return true
            else sent encode op a again (send_operation op a.reply))
          p

    pub attempt-cases : Answered op a → AttemptCases (attempt encode op a again p)
    unfolding attempt
    attempt-cases (outcome, s, c) = elim (Bool-cases a.stopping) [
      | inl stop ↦
          subst (λ b. AttemptCases (round b (is_expired op a.now))) (sym stop)
            (inr (inl (refl, refl, refl)))
      | inr goes_on ↦
          subst (λ b. AttemptCases (round b (is_expired op a.now))) (sym goes_on)
            (elim (Bool-cases (is_expired op a.now)) [
              | inl expired ↦
                  subst (λ b. AttemptCases (round false b)) (sym expired) (inl (refl, inl expired))
              | inr timely ↦
                  subst (λ b. AttemptCases (round false b)) (sym timely)
                    (subst (λ r. AttemptCases (sent encode op a again r p)) (sym s)
                      (sent-cases outcome s c))
            ])
    ]
