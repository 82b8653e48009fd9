-- ===== src/Inbound/Pending/Dispatches.antt =====
-- A dispatch, whatever its handler raises, settles the row of its event.
use one_m2m_dds_ipe.Prelude.{
  ℕ, String, ◌≡◌, refl, ◌⊎◌, inl, inr, Bool, true, false, not, ◌&&◌, ◌==◌, string_equality,
  if◌then◌else◌, Bool-cases, arith,
}
use one_m2m_dds_ipe.Prelude.Effect.{◌>>◌, return}
use one_m2m_dds_ipe.Prelude.Result.{ok, Result-cases}
use one_m2m_dds_ipe.Vocab.{rejected, failed}
use one_m2m_dds_ipe.State.Admission.{ProcessedKey, processed_key_equality, Processed, cas_dispatch}
use one_m2m_dds_ipe.Inbound.{
  Environment, Event, Waiting, InboundProcessor, Method, key_of, finish, emit_event,
  status_category,
}
use one_m2m_dds_ipe.Inbound.Dispatch.{
  Handling, is_internal, unhandled, dispatch_kind, dispatch_one, corr_of, error_payload,
  dispatch_or_fail,
}
use one_m2m_dds_ipe.Inbound.Pending.{queued_at, Frame, IsFramed}
use one_m2m_dds_ipe.Inbound.Pending.Tables.{cas_dispatch-queued}
use one_m2m_dds_ipe.Inbound.Pending.Services.{dispatch_service-IsFramed, dispatch_cancel-IsFramed}
use one_m2m_dds_ipe.Inbound.Pending.Frames.{
  Frame-trans, bind-IsFramed, if-IsFramed, return-IsFramed, emit_event-IsFramed, finish-IsFramed,
}

-- The handlers that have no model make no row queued and take no event out.
pub record IsSafe (env : Environment) (h : Handling) : Type 0 where
  pub command : (ev : Event) (corr : String) → IsFramed env (h.dispatch_command ev corr)
  pub goal : (ev : Event) (corr : String) → IsFramed env (h.dispatch_goal ev corr)
  pub decision : (ev : Event) (corr : String) → IsFramed env (h.dispatch_decision ev corr)
  pub qos_update : (ev : Event) (corr : String) → IsFramed env (h.dispatch_qos_update ev corr)
  pub qos_policy : (ev : Event) (corr : String) → IsFramed env (h.dispatch_qos_policy ev corr)
  pub internal : (ev : Event) → IsFramed env (h.handle_internal ev)

module _ (env : Environment) where
  unhandled-IsFramed :
      (now : ℕ) (ev : Event) (corr : String) → IsFramed env (unhandled env now ev corr)
  unfolding unhandled
  unhandled-IsFramed now ev corr =
      let end : Method Bool = finish ev.robot_id ev.interface corr rejected now in
      bind-IsFramed env (emit_event env now "ipeHealth" "warning" _) (λ u. end >> return tt)
        (emit_event-IsFramed env now "ipeHealth" "warning" _)
        (λ u.
          bind-IsFramed env end (λ b. return tt)
            (finish-IsFramed env ev.robot_id ev.interface corr rejected now)
            (λ b. return-IsFramed env tt))

  dispatch_kind-IsFramed :
      (h : Handling) (ev : Event) (corr : String)
      → IsSafe env h
      → IsFramed env (dispatch_kind env h ev corr)
  unfolding dispatch_kind
  dispatch_kind-IsFramed h ev corr s =
      if-IsFramed env (ev.kind == "command") _ _ (s.command ev corr) (
        if-IsFramed env (ev.kind == "service") _ _
          (dispatch_service-IsFramed env h.now h.later h.adapter ev corr)
          (if-IsFramed env (ev.kind == "action_goal") _ _ (s.goal ev corr) (
            if-IsFramed env (ev.kind == "cancel") _ _
              (dispatch_cancel-IsFramed env h.now h.adapter ev corr)
              (if-IsFramed env (ev.kind == "decision") _ _ (s.decision ev corr) (
                if-IsFramed env (ev.kind == "qos_update") _ _ (s.qos_update ev corr) (
                  if-IsFramed env (ev.kind == "qos_policy") _ _ (s.qos_policy ev corr)
                    (unhandled-IsFramed h.now ev corr)))))))

  -- The dispatch of a key that was queued leaves it queued no more.
  unfoldable pub Settles : Event → String → InboundProcessor → InboundProcessor → Type 0
  Settles ev corr p p' =
      Frame env p p'
      × ((k : ProcessedKey)
          → queued_at k p'.processed ≡ true
          → (not (is_internal ev.kind) && (k == key_of ev corr)) ≡ false)

  dispatch_one-Settles :
      (h : Handling) (ev : Event) (corr : String) (p : InboundProcessor)
      → IsSafe env h
      → Settles ev corr p (dispatch_one env h ev corr p).1
  unfolding Settles dispatch_one
  dispatch_one-Settles h ev corr p s = elim (Bool-cases (is_internal ev.kind)) [
    | inl e ↦ rw e (s.internal ev p, λ k q. refl)
    | inr e ↦ rw e (dispatched (Bool-cases (cas_dispatch (key_of ev corr) h.now p.processed).1))
  ]
    where
      t : Processed
      t = (cas_dispatch (key_of ev corr) h.now p.processed).0

      claimed : Frame env p (record p { processed = t })
      claimed = record {
        rows = λ k q. ground (arith, cas_dispatch-queued k (key_of ev corr) h.now p.processed);
        events = λ k q. q;
        routes = refl;
      }

      settled : (k : ProcessedKey) → queued_at k t ≡ true → (k == key_of ev corr) ≡ false
      settled k q = ground (arith, cas_dispatch-queued k (key_of ev corr) h.now p.processed)

      handled :
          Frame env
            (record p { processed = t })
            (dispatch_kind env h ev corr (record p { processed = t })).1
      handled = dispatch_kind-IsFramed h ev corr s (record p { processed = t })

      dispatched :
          ((cas_dispatch (key_of ev corr) h.now p.processed).1 ≡ true)
            ⊎ ((cas_dispatch (key_of ev corr) h.now p.processed).1 ≡ false)
          → Frame env p
              (if (cas_dispatch (key_of ev corr) h.now p.processed).1
                then dispatch_kind env h ev corr (record p { processed = t })
                else (ok tt, record p { processed = t })).1
            × ((k : ProcessedKey)
                → queued_at k
                    (if (cas_dispatch (key_of ev corr) h.now p.processed).1
                      then dispatch_kind env h ev corr (record p { processed = t })
                      else (ok tt, record p { processed = t })).1.processed
                  ≡ true
                → (true && (k == key_of ev corr)) ≡ false)
      dispatched (inl e) =
          rw e (Frame-trans env claimed handled, λ k q. settled k (handled.rows k q))
      dispatched (inr e) = rw e (claimed, settled)

  pub dispatch_or_fail-Settles :
      (h : Handling) (item : Waiting) (p : InboundProcessor)
      → IsSafe env h
      → Settles item.event (corr_of env item) p (dispatch_or_fail env h item p).1
  unfolding Settles dispatch_or_fail
  dispatch_or_fail-Settles h item p s =
      let ev = item.event in
      let corr = corr_of env item in
      let (frame, settles) = dispatch_one-Settles h ev corr p s in
      let p' = (dispatch_one env h ev corr p).1 in
      elim (Result-cases (dispatch_one env h ev corr p).0) [
        | inl (e, failure) ↦
            let end : Method Bool = finish ev.robot_id ev.interface corr failed h.now in
            let reports : Method (Unit {0}) =
              emit_event env h.now (status_category ev.kind) "error"
                (error_payload env ev corr e) in
            let ends =
              bind-IsFramed env reports (λ u. end >> return tt)
                (emit_event-IsFramed env h.now (status_category ev.kind) "error"
                  (error_payload env ev corr e))
                (λ u.
                  bind-IsFramed env end (λ b. return tt)
                    (finish-IsFramed env ev.robot_id ev.interface corr failed h.now)
                    (λ b. return-IsFramed env tt))
                p' in
            rw (failure, dispatch_or_fail)
              (Frame-trans env frame ends, λ k q. settles k (ends.rows k q))
        | inr (u, success) ↦ rw (success, dispatch_or_fail) (frame, settles)
      ]
