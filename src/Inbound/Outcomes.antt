-- ===== src/Inbound/Outcomes.antt =====
-- What admission does with a notification: the cases of `_admit`.
use one_m2m_dds_ipe.Prelude.{
  ℕ, String, ◌≡◌, refl, ◌⊎◌, inl, inr, Option, none, some, Bool-cases, arith,
}
use one_m2m_dds_ipe.Prelude.Result.{Result, Error, ok, err, Result-cases}
use one_m2m_dds_ipe.Core.Common.{Value, Fields}
use one_m2m_dds_ipe.State.Admission
use one_m2m_dds_ipe.State.Admission.{Processed, Admitted, newly_queued, reaccepted, known_duplicate}
use one_m2m_dds_ipe.Dispatch.Routes.{Notification, route}
use one_m2m_dds_ipe.Onem2m.CatchUp.{Verdict, duplicate, invalid, denied}
use one_m2m_dds_ipe.Outbound
use one_m2m_dds_ipe.Outbound.{OutboundProcessor}
use one_m2m_dds_ipe.Outbound.Codec.{encode_operation}
use one_m2m_dds_ipe.Outbound.Events.{emit_event-returns}
use one_m2m_dds_ipe.Inbound.{
  Environment, Event, InboundProcessor, status_category, duplicate_payload, dedup_key, key_of,
  first_of, emit_event, enqueue, admit_event, unknown_route, unrouted, is_own, admit,
}

module _ (env : Environment) (now : ℕ) where
  -- An event changes the outbound processor only, and does not raise.
  pub emit_event-frame :
      (category severity : String) (payload : Fields) (p : InboundProcessor)
      → (outbound : OutboundProcessor) × (emit_event env now category severity payload p
          ≡ (ok tt, record p { outbound = outbound }))
  unfolding emit_event
  emit_event-frame category severity payload p =
      let sent =
        Outbound.emit_event (encode_operation env.dumps) now category severity payload p.outbound in
      let returns =
        emit_event-returns (encode_operation env.dumps) now category severity payload p.outbound in
      (sent.1, ground arith)

  -- What the table says of an event, and the table afterwards.
  abbrev pub looked_up : Event → InboundProcessor → Processed × Admitted
  looked_up ev p =
      Admission.admit (key_of ev (dedup_key env ev)) (first_of ev.event_id none) now p.processed

  abbrev pub EventCases :
      String → Event → InboundProcessor → Result Verdict × InboundProcessor → Type 0
  EventCases path_key ev p r =
      (((looked_up ev p).1 ≡ known_duplicate)
        × ((outbound : OutboundProcessor) × (r
              ≡ (ok duplicate, record p { outbound = outbound; processed = (looked_up ev p).0 }))))
      ⊎ (((((looked_up ev p).1 ≡ newly_queued) ⊎ ((looked_up ev p).1 ≡ reaccepted)))
          × (r
              ≡ enqueue env now path_key ev (dedup_key env ev)
                  (record p { processed = (looked_up ev p).0 })))

  Admitted-cases : (a : Admitted) → (a ≡ known_duplicate) ⊎ (a ≡ newly_queued) ⊎ (a ≡ reaccepted)
  Admitted-cases known_duplicate = inl refl
  Admitted-cases newly_queued = inr (inl refl)
  Admitted-cases reaccepted = inr (inr refl)

  pub admit_event-cases :
      (path_key : String) (ev : Event) (p : InboundProcessor)
      → EventCases path_key ev p (admit_event env now path_key ev p)
  unfolding admit_event
  admit_event-cases path_key ev p =
      let corr = dedup_key env ev in
      let next : InboundProcessor = record p { processed = (looked_up ev p).0 } in
      elim (Admitted-cases (looked_up ev p).1) [
        | inl e ↦
            let (outbound, sent) =
              emit_event-frame (status_category ev.kind) "info" (duplicate_payload env ev corr)
                next in
            inl (e, (outbound, rw (e, admit_event, sent) refl))
        | inr (inl e) ↦ inr (inl e, rw (e, admit_event) refl)
        | inr (inr e) ↦ inr (inr e, rw (e, admit_event) refl)
      ]

  unrouted-cases :
      (path_key : String) (p : InboundProcessor)
      → (v : Verdict) × (outbound : OutboundProcessor) × ((v ≡ denied) ⊎ (v ≡ invalid))
        × (unrouted env now path_key p ≡ (ok v, record p { outbound = outbound }))
  unrouted-cases path_key p = elim (Bool-cases p.routes_staging) [
    | inl e ↦ (denied, p.outbound, inl refl, unfold unrouted in ground arith)
    | inr e ↦
        let (outbound, sent) =
          emit_event-frame "ipeHealth" "warning" (unknown_route env path_key) p in
        (invalid, outbound, inr refl, unfold unrouted in ground (arith, sent))
  ]

  abbrev pub AdmitCases :
      String → Notification Value → InboundProcessor → Result Verdict × InboundProcessor → Type 0
  AdmitCases path_key n p r =
      ((e : Error) × (r ≡ (err e, p)))
      ⊎ ((v : Verdict) × (outbound : OutboundProcessor) × ((v ≡ denied) ⊎ (v ≡ invalid))
          × (r ≡ (ok v, record p { outbound = outbound })))
      ⊎ ((ev : Event) × (route env.str path_key n p.routes ≡ ok (some ev))
          × (r ≡ admit_event env now path_key ev p))

  pub admit-cases :
      (cr : Option String) (path_key : String) (n : Notification Value) (p : InboundProcessor)
      → AdmitCases path_key n p (admit env now cr path_key n p)
  unfolding admit
  admit-cases cr path_key n p = elim (Result-cases (route env.str path_key n p.routes)) [
    | inl (e, h) ↦ inl (e, rw (h, admit) refl)
    | inr (none, h) ↦
        let (v, outbound, u, e) = unrouted-cases path_key p in
        inr (inl (v, outbound, u, rw (h, admit) e))
    | inr (some ev, h) ↦ elim (Bool-cases (is_own env cr p)) [
      | inl own ↦ inr (inl (denied, p.outbound, inl refl, rw (h, own, admit) refl))
      | inr other ↦ inr (inr (ev, h, rw (h, other, admit) refl))
    ]
  ]
