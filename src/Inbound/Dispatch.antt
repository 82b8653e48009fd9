-- ===== src/Inbound/Dispatch.antt =====
-- The drain of the inbound queue, src/ipe/runtime/inbound.py. What is done with the kinds of events
-- that have no model here is an argument.
use one_m2m_dds_ipe.Prelude.{
  ℕ, String, Bool, false, not, some, List, [], ◌∷◌, if◌then◌else◌, ◌==◌, string_equality,
}
use one_m2m_dds_ipe.Prelude.Effect.{◌>>◌, return}
use one_m2m_dds_ipe.Prelude.Result.{Error, ok, err}
use one_m2m_dds_ipe.Core.Common.{text, Fields, field, no_field}
use one_m2m_dds_ipe.Vocab.{rejected, failed}
use one_m2m_dds_ipe.Queues.Inbound.{get_batch, empty}
use one_m2m_dds_ipe.State.Admission.{cas_dispatch}
use one_m2m_dds_ipe.Inbound.{
  Environment, Event, Waiting, InboundProcessor, Method, about, emit_event, finish, first_of, wake,
  status_category, key_of, correlation_text,
}
use one_m2m_dds_ipe.Inbound.Service.{Adapter, dispatch_service, dispatch_cancel}

-- What one dispatch meets: the time, the adapter, and the handlers of the other kinds.
pub record Handling : Type 0 where
  pub now : ℕ
  pub later : ℕ
  pub adapter : Adapter
  pub dispatch_command : Event → String → Method (Unit {0})
  pub dispatch_goal : Event → String → Method (Unit {0})
  pub dispatch_decision : Event → String → Method (Unit {0})
  pub dispatch_qos_update : Event → String → Method (Unit {0})
  pub dispatch_qos_policy : Event → String → Method (Unit {0})
  pub handle_internal : Event → Method (Unit {0})

-- `kind.startswith("_")`
unfoldable pub is_internal : String → Bool
is_internal String.[] = false
is_internal (String.◌∷◌ c s) = String.◌∷◌ c String.[] == "_"

module _ (env : Environment) where
  unfoldable pub unhandled : ℕ → Event → String → Method (Unit {0})
  unhandled now ev corr =
      emit_event env now "ipeHealth" "warning"
        (field "event" (text "unhandledKind") (field "kind" (text ev.kind) no_field))
      >> (finish ev.robot_id ev.interface corr rejected now >> return tt)

  unfoldable pub dispatch_kind : Handling → Event → String → Method (Unit {0})
  dispatch_kind h ev corr =
      if ev.kind == "command"
      then h.dispatch_command ev corr
      else if ev.kind == "service"
      then dispatch_service env h.now h.later h.adapter ev corr
      else if ev.kind == "action_goal"
      then h.dispatch_goal ev corr
      else if ev.kind == "cancel"
      then dispatch_cancel env h.now h.adapter ev corr
      else if ev.kind == "decision"
      then h.dispatch_decision ev corr
      else if ev.kind == "qos_update"
      then h.dispatch_qos_update ev corr
      else if ev.kind == "qos_policy"
      then h.dispatch_qos_policy ev corr
      else unhandled h.now ev corr

  unfoldable pub dispatch_one : Handling → Event → String → Method (Unit {0})
  dispatch_one h ev corr p =
      if is_internal ev.kind
      then h.handle_internal ev p
      else (let (processed, won) = cas_dispatch (key_of ev corr) h.now p.processed in
          let p' : InboundProcessor = record p { processed = processed } in
          if won then dispatch_kind h ev corr p' else (ok tt, p'))

  -- `ev.dedup_corr or ev.correlation_id or ev.event_id or ""`
  unfoldable pub corr_of : Waiting → String
  corr_of w =
      first_of w.dedup_corr (some (first_of (correlation_text env w.event) w.event.event_id))

  unfoldable pub error_payload : Event → String → Error → Fields
  error_payload ev corr e =
      field "event" (text "dispatchError")
        (about ev (field "error" (text (env.show e)) (field "correlationId" (text corr) no_field)))

  -- The round of the loop of `drain`, with its `except`.
  unfoldable pub dispatch_or_fail : Handling → Waiting → Method (Unit {0})
  dispatch_or_fail h w p =
      let ev = w.event in
      let corr = corr_of w in
      let (outcome, p') = dispatch_one h ev corr p in
      elim outcome [
        | ok done ↦ (ok done, p')
        | err e ↦
            (emit_event env h.now (status_category ev.kind) "error" (error_payload ev corr e)
                >> (finish ev.robot_id ev.interface corr failed h.now >> return tt))
              p'
      ]

  unfoldable pub drain_loop : (Waiting → Handling) → List Waiting → Method (Unit {0})
  drain_loop world [] = return tt
  drain_loop world (w ∷ batch) = dispatch_or_fail (world w) w >> drain_loop world batch

  unfoldable pub wake_unless_empty : Method (Unit {0})
  wake_unless_empty p = if not (empty p.queue) then (ok tt, wake p) else (ok tt, p)

  unfoldable pub drain : ℕ → (Waiting → Handling) → Method (Unit {0})
  drain budget world p =
      let (queue, batch) = get_batch budget p.queue in
      (drain_loop world batch >> wake_unless_empty) (record p { queue = queue })
