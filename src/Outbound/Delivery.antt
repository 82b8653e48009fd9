-- ===== src/Outbound/Delivery.antt =====
-- Sending an operation with retries, replaying the spool, and what the workers do with both. What
-- the environment does at each attempt, the CSE's answer included, is an argument.
pub mod Attempts
pub mod Terminal
pub mod Release
pub mod Draining
pub mod Persisted
pub mod Unclassified
use one_m2m_dds_ipe.Prelude.{
  ℕ, zero, suc, String, Bool, true, false, not, ◌&&◌, ◌||◌, Option, none, some, List, [], ◌∷◌, leb,
  if◌then◌else◌, ◌==◌, string_equality,
}
use one_m2m_dds_ipe.Prelude.Result.{Result, Error, ok, err, value_error, type_error, key_error}
use one_m2m_dds_ipe.Core.Common.{Value, items, none_value, text, Fields, field, no_field, find}
use one_m2m_dds_ipe.Vocab.{OutboundClass, terminal}
use one_m2m_dds_ipe.Onem2m.Client.{
  OneM2MResponse, CinResult, Failure, response, oversize_error, transport_error, exception,
  Classification, recoverable, non_recoverable, policy_dependent, is_ok, classify, cin_result,
  may_update_cnt,
}
use one_m2m_dds_ipe.Queues.Outbound
use one_m2m_dds_ipe.Queues.Outbound.{returned, raised_empty, waiting}
use one_m2m_dds_ipe.Queues.Outbound.Ops.{Op}
use one_m2m_dds_ipe.State.Spool.{SpoolRow, spool_list, spool_delete}
use one_m2m_dds_ipe.Outbound.{
  OutboundProcessor, Method, ◌>>=◌, ◌>>◌, return, ensure, raised, shown, spool_op, emit_event,
  mark_cse_available, mark_cse_unavailable, request_recovery,
}

-- What the client gives for one request.
pub data Reply : Type 0 where
  answers : OneM2MResponse → Reply
  fails_in_transport : Bool → Reply
  is_oversize : Reply
  raises : Error → Reply

-- One attempt, as the worker meets it.
pub record Attempt : Type 0 where
  pub stopping : Bool  -- `self._stop.is_set()`
  pub now : ℕ  -- `time.time()`
  pub reply : Reply
  pub stopped_in_wait : Bool  -- what `self._stop.wait(delay)` returns

-- The exceptions that `send_operation` catches.
unfoldable pub is_caught : Error → Bool
is_caught value_error = true
is_caught type_error = true
is_caught key_error = true
is_caught _ = false

-- `except (TransportError, OversizeError, ValueError, TypeError, KeyError)`
unfoldable pub received : (OneM2MResponse → Option Failure) → Reply → Result (Option Failure)
received f (answers r) = ok (f r)
received f (fails_in_transport may_recover) = ok (some (transport_error may_recover))
received f is_oversize = ok (some oversize_error)
received f (raises e) = if is_caught e then ok (some (exception e)) else err e

-- `None if response.ok else response`
unfoldable pub unless_ok : OneM2MResponse → Option Failure
unless_ok r = if is_ok r then none else some (response r)

unfoldable pub is_given : Value → Bool
is_given none_value = false
is_given v = true

unfoldable pub unless_created : Bool → OneM2MResponse → Option Failure
unless_created named r =
    let result = cin_result named r in
    if result.created || result.duplicate then none else some (response result.response)

-- None for a success, otherwise the response or exception to classify.
unfoldable pub send_operation : Op → Reply → Result (Option Failure)
send_operation op reply =
    if op.body.kind == "update_fcnt"
    then received unless_ok reply
    else if op.body.kind == "update_cnt"
    then (if may_update_cnt op.body.content
        then received unless_ok reply
        else ok (some (exception value_error)))
    else if op.body.kind == "update_lbl"
    then elim (find "labels" op.body.content) [
      | none ↦ ok (some (exception key_error))
      | some labels ↦ received unless_ok reply
    ]
    else if op.body.kind == "create_cin"
    then received (unless_created (is_given op.body.rn)) reply
    else ok (some (exception value_error))

unfoldable pub is_response : Failure → Bool
is_response (response r) = true
is_response failure = false

unfoldable pub is_expired : Op → ℕ → Bool
is_expired op now = elim op.body.expires_at [ none ↦ false | some t ↦ leb t now ]

unfoldable pub is_terminal : OutboundClass → Bool
is_terminal terminal = true
is_terminal c = false

unfoldable pub dropped_payload : Op → Fields
dropped_payload op = field "event" (text "opFailed") (
    field "path" (text op.body.path) (
      field "interface" (text (shown op "interface"))
        (field "robot" (text (shown op "robot_id")) (field "kind" (text op.body.kind) no_field))))

module _ (encode : Op → String) where
  -- A rejected health event must not generate another one.
  unfoldable pub report_dropped_op : ℕ → Op → Method (Unit {0})
  report_dropped_op now op =
      if shown op "view" == "ipeHealth"
      then return tt
      else emit_event encode now "ipeHealth" "error" (dropped_payload op)

  -- What an attempt that failed does: `again` is the rest of the loop, none after the last round.
  unfoldable pub failed :
      Op → Attempt → Option (Method Bool) → Failure → Classification → Method Bool
  failed op a again failure non_recoverable =
      (if is_response failure then mark_cse_available else return true)
      >> (report_dropped_op a.now op >> return true)
  failed op a again failure policy_dependent = mark_cse_available >>= λ recovered.
      (if recovered then return tt else request_recovery "reconcile") >> return false
  failed op a none failure recoverable = mark_cse_unavailable >> return false
  failed op a (some again) failure recoverable = if a.stopped_in_wait then return false else again

  unfoldable pub classified :
      Op → Attempt → Option (Method Bool) → Failure → Result Classification → Method Bool
  classified op a again failure (err e) = raised e
  classified op a again failure (ok class) = failed op a again failure class

  -- What an attempt does once the request has been made.
  unfoldable pub sent : Op → Attempt → Option (Method Bool) → Result (Option Failure) → Method Bool
  sent op a again (err e) = raised e
  sent op a again (ok none) = mark_cse_available >> return true
  sent op a again (ok (some failure)) = classified op a again failure (classify failure)

  -- One round of the loop of `_deliver`.
  unfoldable pub attempt : Op → Attempt → Option (Method Bool) → Method Bool
  attempt op a again =
      if a.stopping
      then return false
      else if is_expired op a.now
      then return true
      else sent op a again (send_operation op a.reply)

  -- True means consumed (sent, expired or rejected), false means retain. The rounds left, and the
  -- number of the round.
  unfoldable pub deliver : Op → (ℕ → Attempt) → ℕ → ℕ → Method Bool
  deliver op world zero k = attempt op (world k) none
  deliver op world (suc retries) k = attempt op (world k) (some (deliver op world retries (suc k)))

  unfoldable pub send_with_retry : Op → (ℕ → Attempt) → ℕ → ℕ → Method (Unit {0})
  send_with_retry op world retries now = deliver op world retries 0 >>= λ consumed.
      if not consumed && is_terminal op.body.queue_class then spool_op encode now op else return tt

  abbrev pub release_op : Op → OutboundProcessor → OutboundProcessor
  release_op op p = record p { queue = Outbound.release op p.queue }

  -- The part of a worker's round that claims and sends; the loop logs what is raised.
  unfoldable pub work_once : (ℕ → Attempt) → ℕ → ℕ → Method (Unit {0})
  work_once world retries now p = elim (Outbound.claim_now p.queue) [
    | none ↦ (ok tt, p)
    | some (op, queue) ↦
        ensure (release_op op) (send_with_retry op world retries now) (record p { queue = queue })
  ]

  abbrev pub delete_row : SpoolRow → Method (Unit {0})
  delete_row row p = (ok tt, record p { spool = (spool_delete (row.id ∷ []) p.spool).0 })

  abbrev try_claim : Op → Method Bool
  try_claim op p =
      let (queue, claimed) = Outbound.try_claim op p.queue in
      (ok claimed, record p { queue = queue })

  -- The exceptions that the replay of a row lets pass: none for a row that cannot be decoded.
  abbrev pub is_invalid : Error → Bool
  is_invalid value_error = true
  is_invalid type_error = true
  is_invalid e = false

  -- One row: whether to go on with the next one.
  unfoldable pub replay_row : (SpoolRow → Result Op) → Attempt → SpoolRow → Method Bool
  replay_row decode a row = elim (decode row) [
    | err e ↦ if is_invalid e then delete_row row >> return true else raised e
    | ok op ↦ try_claim op >>= λ claimed.
        if claimed
        then ensure (release_op op) (
            deliver op (λ _. a) 0 0 >>= λ consumed.
            if consumed then delete_row row >> return true else return false)
        else return false
  ]

  -- `stops` says whether the flag is set when a row's turn comes.
  unfoldable pub replay :
      (SpoolRow → Result Op)
      → (SpoolRow → Bool)
      → (SpoolRow → Attempt)
      → List SpoolRow
      → Method (Unit {0})
  replay decode stops world [] = return tt
  replay decode stops world (row ∷ rows) =
      let rest = replay decode stops world rows in
      if stops row
      then return tt
      else replay_row decode (world row) row >>= λ go_on. if go_on then rest else return tt

  -- `finally`: the wake-up is preserved if a row is left.
  unfoldable pub rearm : OutboundProcessor → OutboundProcessor
  rearm p = elim (spool_list 1 none p.spool) [
    | [] ↦ p
    | row ∷ rows ↦ record p { spool_pending = true }
  ]

  unfoldable pub drain_spool :
      (SpoolRow → Result Op) → (SpoolRow → Bool) → (SpoolRow → Attempt) → Method (Unit {0})
  drain_spool decode stops world p =
      ensure rearm (replay decode stops world (spool_list 20 none p.spool))
        (record p { spool_pending = false })

  -- The loop of `persist_pending`, on as many rounds as there are operations.
  unfoldable pub persist_loop : ℕ → ℕ → Method (Unit {0})
  persist_loop zero now p = (ok tt, p)
  persist_loop (suc fuel) now p = elim (Outbound.pop p.queue) [
    | none ↦ (ok tt, p)
    | some (op, queue) ↦
        ((if is_terminal op.body.queue_class then spool_op encode now op else return tt)
            >> persist_loop fuel now)
          (record p { queue = queue })
  ]
