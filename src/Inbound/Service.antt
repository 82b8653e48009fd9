-- ===== src/Inbound/Service.antt =====
-- The requests of services of src/ipe/runtime/inbound.py, and the cancelling of goals. What the
-- adapter answers is an argument.
use one_m2m_dds_ipe.Prelude.{
  ℕ, String, Bool, true, false, not, ◌||◌, Option, none, some, [], ◌∷◌, is_empty, if◌then◌else◌,
  ◌==◌, string_equality, pair_equality,
}
use one_m2m_dds_ipe.Prelude.Int.{pos}
use one_m2m_dds_ipe.Prelude.Dict.{Dict, lookup, insert, erase}
use one_m2m_dds_ipe.Prelude.Sets.{add}
use one_m2m_dds_ipe.Prelude.Effect.{◌>>=◌, ◌>>◌, return}
use one_m2m_dds_ipe.Prelude.Result.{Result, ok, err}
use one_m2m_dds_ipe.Core.Common.{
  Value, none_value, number, text, dict, Fields, field, no_field, deep_merge, project_top_level,
}
use one_m2m_dds_ipe.Vocab.{
  ProcessedState, rejected, access_denied, failed, succeeded, TxState, terminal,
}
use one_m2m_dds_ipe.State.Transactions.{Transactions}
use one_m2m_dds_ipe.State.Managers.{begin_service, set_service_state, set_action_state}
use one_m2m_dds_ipe.Outbound
use one_m2m_dds_ipe.Outbound.{make_op}
use one_m2m_dds_ipe.Outbound.Codec.{encode_operation}
use one_m2m_dds_ipe.Inbound.{
  Environment, Event, InboundProcessor, CallSpec, Method, outbound_do, about, emit_event, finish,
}

-- What the adapter does with a request for a service, and with one to cancel a goal.
pub record Adapter : Type 0 where
  pub server_available : Bool
  pub call_service : Fields → Result Bool
  pub cancel_goal : String → String

-- What a service gives in the end: its answer, or the text of an error.
pub data Response : Type 0 where
  answered : Option Fields → Response
  failed_with : String → Response

unfoldable pub fields_of : Dict String Value → Fields
fields_of [] = no_field
fields_of ((k, v) ∷ d) = field k v (fields_of d)

unfoldable pub is_no_field : Fields → Bool
is_no_field no_field = true
is_no_field (field k v d) = false

unfoldable pub is_duplicate : TxState → Bool
is_duplicate TxState.duplicate = true
is_duplicate s = false

-- `self.svc_tx.set_state` and `self.act_tx.set_state`
abbrev pub moved : Result (Transactions × Bool) → Method Bool
moved (err e) p = (err e, p)
moved (ok (t, done)) p = (ok done, record p { transactions = t })

unfoldable pub set_service : String → TxState → ℕ → Method Bool
set_service corr state now p = moved (set_service_state corr state now p.transactions) p

unfoldable pub set_action : String → TxState → ℕ → Method Bool
set_action goal_id state now p = moved (set_action_state goal_id state now p.transactions) p

-- `self._inflight.setdefault(key, set()).add(corr)`
unfoldable pub remember : String × String → String → InboundProcessor → InboundProcessor
remember key corr p = record p {
  inflight =
      insert key (add corr (elim (lookup key p.inflight) [ none ↦ [] | some rs ↦ rs ])) p.inflight;
}

-- The request: the payload without its identifier, over the template if there is one.
unfoldable pub request_of : CallSpec → Event → Fields
request_of spec ev =
    let payload = fields_of (erase "requestId" (elim ev.payload [ none ↦ [] | some p ↦ p ])) in
    if is_no_field spec.template then payload else deep_merge spec.template payload

unfoldable pub is_warning : String → Bool
is_warning status = (status == "timeout") || ((status == "rejected") || (status == "failed"))

-- `resp`, as it is published.
unfoldable pub published : CallSpec → Option Fields → Value
published spec resp =
    if is_empty spec.response_fields
    then elim resp [ none ↦ none_value | some d ↦ dict d ]
    else dict (project_top_level (elim resp [ none ↦ no_field | some d ↦ d ]) spec.response_fields)

-- `path_map.get(…)`, unless it is empty.
unfoldable pub path_at : Event → String → InboundProcessor → Option String
path_at ev view p = elim (lookup (ev.robot_id, (ev.interface, view)) p.path_map) [
  | none ↦ none
  | some path ↦ if path == "" then none else some path
]

module _ (env : Environment) where
  unfoldable pub service_event : ℕ → Event → String → String → String → Method (Unit {0})
  service_event now ev corr status detail =
      emit_event env now "serviceStatus" (if is_warning status then "warning" else "info") (
        field "event" (text status)
          (about ev (field "requestId" (text corr) (field "detail" (text detail) no_field))))

  -- An event, and the end of the request.
  abbrev pub ended : ℕ → Event → String → String → String → ProcessedState → Method (Unit {0})
  ended now ev corr status detail terminal_state =
      service_event now ev corr status detail
      >> (finish ev.robot_id ev.interface corr terminal_state now >> return tt)

  -- What a path of the table gets as a TERMINAL operation, if there is such a path.
  unfoldable pub publish : ℕ → Event → String → Fields → Method (Unit {0})
  publish now ev view content p = elim (path_at ev view p) [
    | none ↦ (ok tt, p)
    | some path ↦
        outbound_do
          (Outbound.put_terminal (encode_operation env.dumps) now
            (make_op "create_cin" path content ev.robot_id ev.interface view terminal))
          p
  ]

  unfoldable pub action_event : ℕ → Event → String → ℕ → Option String → String → Method (Unit {0})
  action_event now ev goal_id status reason detail = publish now ev "actionStatus" (
      field "goalId" (text goal_id) (
        field "goalStatus" (number (pos status)) (
          field "terminationReason" (elim reason [ none ↦ none_value | some r ↦ text r ])
            (field "detail" (text detail) no_field))))

  -- `done`, the callback of a call of a service
  unfoldable pub done : ℕ → CallSpec → Event → String → Response → Method (Unit {0})
  done now spec ev corr (failed_with error) = set_service corr TxState.failed now >>= λ moved.
      if moved then ended now ev corr "failed" error failed else return tt
  done now spec ev corr (answered resp) = set_service corr TxState.responded now >>= λ moved.
      if moved
      then publish now ev "response"
          (field "requestId" (text corr) (field "response" (published spec resp) no_field))
        >> ended now ev corr "responded" "" succeeded
      else return tt

  -- `_dispatch_service`, from the call on; `called` is what the adapter makes of it.
  unfoldable pub called : ℕ → Event → String → Result Bool → Method (Unit {0})
  called now ev corr (ok true) = set_service corr TxState.invoked now >> return tt
  called now ev corr (ok false) =
      set_service corr TxState.rejected now >> ended now ev corr "rejected" "callFailed" rejected
  called now ev corr (err e) =
      set_service corr TxState.rejected now >> ended now ev corr "rejected" (env.show e) rejected

  -- `_dispatch_service`, from where the transaction has begun
  unfoldable pub begun : ℕ → ℕ → Adapter → CallSpec → Event → String → Method (Unit {0})
  begun now later adapter spec ev corr =
      if not adapter.server_available
      then set_service corr TxState.failed now
        >> ended now ev corr "failed" "serverUnavailable" failed
      else (set_service corr TxState.accepted now
          >> called later ev corr (adapter.call_service (request_of spec ev)))

  -- `_dispatch_service`, from where the request is allowed
  unfoldable pub allowed : ℕ → ℕ → Adapter → CallSpec → Event → String → Method (Unit {0})
  allowed now later adapter spec ev corr p =
      elim (begin_service (pos 5000) corr now (some spec.timeout_ms) p.transactions) [
        | err e ↦ (err e, p)
        | ok (t, state) ↦
            let p' : InboundProcessor = record p { transactions = t } in
            if is_duplicate state
            then service_event now ev corr "duplicate" "" p'
            else begun now later adapter spec ev corr (remember (ev.robot_id, ev.interface) corr p')
      ]

  unfoldable pub dispatch_service : ℕ → ℕ → Adapter → Event → String → Method (Unit {0})
  dispatch_service now later adapter ev corr p =
      elim (lookup (ev.robot_id, ev.interface) p.services) [
        | none ↦ ended now ev corr "rejected" "notBound" rejected p
        | some spec ↦
            if not spec.access_enabled
            then ended now ev corr "rejected" "accessDenied" access_denied p
            else if spec.confirm == "required"
            then ended now ev corr "rejected" "pendingConfirmation" rejected p
            else allowed now later adapter spec ev corr p
      ]

  -- `(ev.payload or {}).get("goalId") or corr`
  unfoldable pub goal_of : Event → String → String
  goal_of ev corr = elim ev.payload [
    | none ↦ corr
    | some d ↦ elim (lookup "goalId" d) [
      | none ↦ corr
      | some v ↦ elim (env.id_of v) [ none ↦ corr | some s ↦ s ]
    ]
  ]

  unfoldable pub dispatch_cancel : ℕ → Adapter → Event → String → Method (Unit {0})
  dispatch_cancel now adapter ev corr p =
      let goal_id = goal_of ev corr in
      let end = λ (s : ProcessedState). finish ev.robot_id ev.interface corr s now in
      elim (lookup (ev.robot_id, ev.interface) p.actions) [
        | none ↦ (end rejected >> return tt) p
        | some spec ↦
            if not spec.access_enabled
            then (action_event now ev goal_id 0 (some "cancelRejected") "accessDenied"
                  >> (end access_denied >> return tt))
                p
            else if adapter.cancel_goal goal_id == "unknown"
            then (action_event now ev goal_id 0 (some "cancelRejected") "unknownGoal"
                  >> (end succeeded >> return tt))
                p
            else (set_action goal_id TxState.canceling now >> (end succeeded >> return tt)) p
      ]
