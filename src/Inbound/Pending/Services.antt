-- ===== src/Inbound/Pending/Services.antt =====
-- Services and cancels, as methods that run between admission and dispatch.
use one_m2m_dds_ipe.Prelude.{
  ℕ, String, refl, inl, inr, Bool, true, false, not, Option, some, ◌==◌, string_equality,
  pair_equality, if◌then◌else◌, Option-cases,
}
use one_m2m_dds_ipe.Prelude.Int.{pos}
use one_m2m_dds_ipe.Prelude.Dict.{lookup}
use one_m2m_dds_ipe.Prelude.Effect.{◌>>◌, return}
use one_m2m_dds_ipe.Prelude.Result.{Result, ok, err, Result-cases}
use one_m2m_dds_ipe.Core.Common.{Fields, field, no_field, text}
use one_m2m_dds_ipe.Vocab.{ProcessedState, rejected, access_denied, failed, succeeded, TxState}
use one_m2m_dds_ipe.State.Transactions.{Transactions}
use one_m2m_dds_ipe.State.Managers.{begin_service, set_service_state, set_action_state}
use one_m2m_dds_ipe.Inbound.{
  Environment, Event, InboundProcessor, CallSpec, Method, emit_event, finish,
}
use one_m2m_dds_ipe.Inbound.Service.{
  Adapter, Response, answered, failed_with, moved, set_service, set_action, is_duplicate, remember,
  request_of, path_at, published, service_event, ended, publish, action_event, done, called, begun,
  allowed, dispatch_service, goal_of, dispatch_cancel,
}
use one_m2m_dds_ipe.Inbound.Pending.{Frame, IsFramed}
use one_m2m_dds_ipe.Inbound.Pending.Frames.{
  Frame-of, Frame-trans, bind-IsFramed, if-IsFramed, if-Frame, return-IsFramed, finish-IsFramed,
}

module _ (env : Environment) where
  moved-Frame :
      (r : Result (Transactions × Bool)) (p : InboundProcessor) → Frame env p (moved r p).1
  moved-Frame (err e) p = Frame-of env p p refl refl refl
  moved-Frame (ok (t, b)) p = Frame-of env p (record p { transactions = t }) refl refl refl

  set_service-IsFramed :
      (corr : String) (s : TxState) (now : ℕ) → IsFramed env (set_service corr s now)
  unfolding set_service
  set_service-IsFramed corr s now p = moved-Frame (set_service_state corr s now p.transactions) p

  set_action-IsFramed :
      (goal : String) (s : TxState) (now : ℕ) → IsFramed env (set_action goal s now)
  unfolding set_action
  set_action-IsFramed goal s now p = moved-Frame (set_action_state goal s now p.transactions) p

  service_event-IsFramed :
      (now : ℕ) (ev : Event) (corr status detail : String)
      → IsFramed env (service_event env now ev corr status detail)
  unfolding service_event emit_event
  service_event-IsFramed now ev corr status detail p =
      Frame-of env p (service_event env now ev corr status detail p).1 refl refl refl

  ended-IsFramed :
      (now : ℕ) (ev : Event) (corr status detail : String) (s : ProcessedState)
      → IsFramed env (ended env now ev corr status detail s)
  ended-IsFramed now ev corr status detail s =
      let end : Method Bool = finish ev.robot_id ev.interface corr s now in
      bind-IsFramed env (service_event env now ev corr status detail) (λ u. end >> return tt)
        (service_event-IsFramed now ev corr status detail)
        (λ u.
          bind-IsFramed env end (λ b. return tt)
            (finish-IsFramed env ev.robot_id ev.interface corr s now) (λ b. return-IsFramed env tt))

  publish-IsFramed :
      (now : ℕ) (ev : Event) (view : String) (content : Fields)
      → IsFramed env (publish env now ev view content)
  unfolding publish
  publish-IsFramed now ev view content p = elim (Option-cases (path_at ev view p)) [
    | inl e ↦
        Frame-of env p (publish env now ev view content p).1 (rw (e, publish) refl)
          (rw (e, publish) refl) (rw (e, publish) refl)
    | inr (path, e) ↦
        Frame-of env p (publish env now ev view content p).1 (rw (e, publish) refl)
          (rw (e, publish) refl) (rw (e, publish) refl)
  ]

  action_event-IsFramed :
      (now : ℕ) (ev : Event) (goal_id : String) (status : ℕ) (reason : Option String)
      (detail : String)
      → IsFramed env (action_event env now ev goal_id status reason detail)
  unfolding action_event
  action_event-IsFramed now ev goal_id status reason detail =
      publish-IsFramed now ev "actionStatus" _

  pub done-IsFramed :
      (now : ℕ) (spec : CallSpec) (ev : Event) (corr : String) (response : Response)
      → IsFramed env (done env now spec ev corr response)
  unfolding done
  done-IsFramed now spec ev corr (failed_with error) =
      bind-IsFramed env (set_service corr TxState.failed now)
        (λ moved. if moved then ended env now ev corr "failed" error failed else return tt)
        (set_service-IsFramed corr TxState.failed now)
        (λ moved.
          if-IsFramed env moved (ended env now ev corr "failed" error failed) (return tt)
            (ended-IsFramed now ev corr "failed" error failed) (return-IsFramed env tt))
  done-IsFramed now spec ev corr (answered resp) =
      let content =
        field "requestId" (text corr) (field "response" (published spec resp) no_field) in
      let ends : Method (Unit {0}) = ended env now ev corr "responded" "" succeeded in
      let answers : Method (Unit {0}) = publish env now ev "response" content >> ends in
      bind-IsFramed env (set_service corr TxState.responded now)
        (λ moved. if moved then answers else return tt)
        (set_service-IsFramed corr TxState.responded now)
        (λ moved.
          if-IsFramed env moved answers (return tt)
            (bind-IsFramed env (publish env now ev "response" content) (λ u. ends)
              (publish-IsFramed now ev "response" content)
              (λ u. ended-IsFramed now ev corr "responded" "" succeeded))
            (return-IsFramed env tt))

  called-IsFramed :
      (now : ℕ) (ev : Event) (corr : String) (outcome : Result Bool)
      → IsFramed env (called env now ev corr outcome)
  unfolding called
  called-IsFramed now ev corr (ok true) =
      bind-IsFramed env (set_service corr TxState.invoked now) (λ b. return tt)
        (set_service-IsFramed corr TxState.invoked now) (λ b. return-IsFramed env tt)
  called-IsFramed now ev corr (ok false) =
      bind-IsFramed env (set_service corr TxState.rejected now)
        (λ b. ended env now ev corr "rejected" "callFailed" rejected)
        (set_service-IsFramed corr TxState.rejected now)
        (λ b. ended-IsFramed now ev corr "rejected" "callFailed" rejected)
  called-IsFramed now ev corr (err e) =
      bind-IsFramed env (set_service corr TxState.rejected now)
        (λ b. ended env now ev corr "rejected" (env.show e) rejected)
        (set_service-IsFramed corr TxState.rejected now)
        (λ b. ended-IsFramed now ev corr "rejected" (env.show e) rejected)

  begun-IsFramed :
      (now later : ℕ) (adapter : Adapter) (spec : CallSpec) (ev : Event) (corr : String)
      → IsFramed env (begun env now later adapter spec ev corr)
  unfolding begun
  begun-IsFramed now later adapter spec ev corr =
      let failing : Method (Unit {0}) = ended env now ev corr "failed" "serverUnavailable" failed in
      let calling : Method (Unit {0}) =
        called env later ev corr (adapter.call_service (request_of spec ev)) in
      if-IsFramed env (not adapter.server_available)
        (set_service corr TxState.failed now >> failing)
        (set_service corr TxState.accepted now >> calling)
        (bind-IsFramed env (set_service corr TxState.failed now) (λ b. failing)
          (set_service-IsFramed corr TxState.failed now)
          (λ b. ended-IsFramed now ev corr "failed" "serverUnavailable" failed))
        (bind-IsFramed env (set_service corr TxState.accepted now) (λ b. calling)
          (set_service-IsFramed corr TxState.accepted now)
          (λ b. called-IsFramed later ev corr (adapter.call_service (request_of spec ev))))

  allowed-IsFramed :
      (now later : ℕ) (adapter : Adapter) (spec : CallSpec) (ev : Event) (corr : String)
      → IsFramed env (allowed env now later adapter spec ev corr)
  unfolding allowed remember
  allowed-IsFramed now later adapter spec ev corr p =
      elim (Result-cases
        (begin_service (pos 5000) corr now (some spec.timeout_ms) p.transactions)) [
          | inl (e, h) ↦ rw (h, allowed) (Frame-of env p p refl refl refl)
          | inr ((t, state), h) ↦
              let started : InboundProcessor = record p { transactions = t } in
              let known : InboundProcessor = remember (ev.robot_id, ev.interface) corr started in
              rw (h, allowed)
                (if-Frame env (is_duplicate state) p
                  (service_event env now ev corr "duplicate" "" started)
                  (begun env now later adapter spec ev corr known)
                  (Frame-trans env (Frame-of env p started refl refl refl)
                    (service_event-IsFramed now ev corr "duplicate" "" started))
                  (Frame-trans env (Frame-of env p known refl refl refl)
                    (begun-IsFramed now later adapter spec ev corr known)))
        ]

  pub dispatch_service-IsFramed :
      (now later : ℕ) (adapter : Adapter) (ev : Event) (corr : String)
      → IsFramed env (dispatch_service env now later adapter ev corr)
  unfolding dispatch_service
  dispatch_service-IsFramed now later adapter ev corr p =
      elim (Option-cases (lookup (ev.robot_id, ev.interface) p.services)) [
        | inl e ↦
            rw (e, dispatch_service) (ended-IsFramed now ev corr "rejected" "notBound" rejected p)
        | inr (spec, e) ↦
            let calls = allowed env now later adapter spec ev corr p in
            let unconfirmed = ended env now ev corr "rejected" "pendingConfirmation" rejected p in
            rw (e, dispatch_service)
              (if-Frame env (not spec.access_enabled) p
                (ended env now ev corr "rejected" "accessDenied" access_denied p)
                (if spec.confirm == "required" then unconfirmed else calls)
                (ended-IsFramed now ev corr "rejected" "accessDenied" access_denied p)
                (if-Frame env (spec.confirm == "required") p unconfirmed calls
                  (ended-IsFramed now ev corr "rejected" "pendingConfirmation" rejected p)
                  (allowed-IsFramed now later adapter spec ev corr p)))
      ]

  pub dispatch_cancel-IsFramed :
      (now : ℕ) (adapter : Adapter) (ev : Event) (corr : String)
      → IsFramed env (dispatch_cancel env now adapter ev corr)
  unfolding dispatch_cancel
  dispatch_cancel-IsFramed now adapter ev corr p =
      let goal_id = goal_of env ev corr in
      let refuses =
        λ (why : String). action_event env now ev goal_id 0 (some "cancelRejected") why in
      let denied : Method (Unit {0}) = refuses "accessDenied" >> ends access_denied in
      let unknown : Method (Unit {0}) = refuses "unknownGoal" >> ends succeeded in
      let cancels : Method (Unit {0}) =
        set_action goal_id TxState.canceling now >> ends succeeded in
      elim (Option-cases (lookup (ev.robot_id, ev.interface) p.actions)) [
        | inl e ↦ rw (e, dispatch_cancel) (ends-IsFramed rejected p)
        | inr (spec, e) ↦
            rw (e, dispatch_cancel)
              (if-Frame env (not spec.access_enabled) p (denied p)
                (if adapter.cancel_goal goal_id == "unknown" then unknown p else cancels p)
                (bind-IsFramed env (refuses "accessDenied") (λ u. ends access_denied)
                  (action_event-IsFramed now ev goal_id 0 (some "cancelRejected") "accessDenied")
                  (λ u. ends-IsFramed access_denied) p)
                (if-Frame env (adapter.cancel_goal goal_id == "unknown") p (unknown p) (cancels p)
                  (bind-IsFramed env (refuses "unknownGoal") (λ u. ends succeeded)
                    (action_event-IsFramed now ev goal_id 0 (some "cancelRejected") "unknownGoal")
                    (λ u. ends-IsFramed succeeded) p)
                  (bind-IsFramed env (set_action goal_id TxState.canceling now)
                    (λ b. ends succeeded) (set_action-IsFramed goal_id TxState.canceling now)
                    (λ b. ends-IsFramed succeeded) p)))
      ]
    where
      ends : ProcessedState → Method (Unit {0})
      ends s = finish ev.robot_id ev.interface corr s now >> return tt

      ends-IsFramed : (s : ProcessedState) → IsFramed env (ends s)
      ends-IsFramed s =
          bind-IsFramed env (finish ev.robot_id ev.interface corr s now) (λ b. return tt)
            (finish-IsFramed env ev.robot_id ev.interface corr s now) (λ b. return-IsFramed env tt)
