-- ===== src/Examples/OutboundCases.antt =====
-- Outbound delivery on small inputs.
use one_m2m_dds_ipe.Prelude.{
  ℕ, String, ◌≡◌, refl, ◌⊎◌, true, false, Option, none, some, [], ◌∷◌, arith,
}
use one_m2m_dds_ipe.Prelude.Int.{pos}
use one_m2m_dds_ipe.Prelude.Result.{Result, ok, err, value_error, runtime_error}
use one_m2m_dds_ipe.Core.Common.{
  Value, text, none_value, truth, number, dict, Fields, field, no_field,
}
use one_m2m_dds_ipe.Vocab.{terminal}
use one_m2m_dds_ipe.Queues.Outbound
use one_m2m_dds_ipe.Queues.Outbound.{OutboundQueue}
use one_m2m_dds_ipe.Queues.Outbound.Ops.{Op, Body}
use one_m2m_dds_ipe.Queues.Outbound.Claims.{pending}
use one_m2m_dds_ipe.State.Spool
use one_m2m_dds_ipe.State.Spool.{Spool, SpoolRow}
use one_m2m_dds_ipe.Onem2m.Client.{classify, transport_error, recoverable}
use one_m2m_dds_ipe.Outbound.{OutboundProcessor, spool_key}
use one_m2m_dds_ipe.Outbound.Delivery
use one_m2m_dds_ipe.Outbound.Delivery.{
  Attempt, answers, fails_in_transport, raises, send_with_retry, work_once, drain_spool,
  persist_loop,
}
use one_m2m_dds_ipe.Outbound.Delivery.Attempts.{Answered}
use one_m2m_dds_ipe.Outbound.Delivery.Terminal.{Consumed, IsLastRow, send_with_retry-terminal}
use one_m2m_dds_ipe.Outbound.Delivery.Release.{work_once-releases}
use one_m2m_dds_ipe.Outbound.Delivery.Draining.{drain_spool-resumes}
use one_m2m_dds_ipe.Outbound.Delivery.Persisted.{put_all, persist_loop-put_all}
use one_m2m_dds_ipe.Outbound.Delivery.Unclassified.{from_mqtt}
use one_m2m_dds_ipe.Outbound.Codec.{as_fields, encode_operation, decode_operation, decode_data}
use one_m2m_dds_ipe.Outbound.Codec.RoundTrip.{op_of, decode_operation-encode_operation}
use one_m2m_dds_ipe.Outbound.Codec.Legacy.{decode_data-spool_key}

abbrev pub state_body : Body
state_body = record {
  kind = "create_cin";
  path = "cse/r1/odom";
  content = field "x" (number (pos 1)) no_field;
  queue_class = terminal;
  oversized = truth false;
  rn = none_value;
  anomalous = truth false;
  et = none_value;
  expires_at = some 9000;
}

abbrev pub odom_op : Op
odom_op = op_of "r1" "odom" "history" state_body

abbrev pub update_op : Op
update_op = op_of "r1" "odom" "fcnt" (record state_body { kind = "update_fcnt" })

abbrev pub some_queue : OutboundQueue
some_queue = record {
  terminal_maxsize = 2;
  bulk_maxsize = 1;
  latest_maxsize = 2;
  terminal_ops = odom_op ∷ update_op ∷ [];
  latest_ops = [];
  bulk_ops = [];
  dropped_bulk = 0;
  dropped_latest = 0;
  active_keys = [];
}

abbrev a_row : SpoolRow
a_row = record {
  id = 3;
  class_ = terminal;
  key = some "r1:odom:history";
  payload = "{}";
  nbytes = 2;
  ts = 5;
}

abbrev pub processor : OutboundProcessor
processor = record {
  queue = some_queue;
  spool = record { rows = []; next_id = 1 };
  limits = record { max_spool_entries = 10; max_spool_bytes = 1000 };
  spool_pending = false;
  cse_transport_down = false;
  recovery_requests = [];
  status_paths = [];
  status_severity_min = "info";
}

abbrev as_text : Op → String
as_text op = op.body.path

-- The CSE does not answer.
abbrev silent : ℕ → Attempt
silent k = record {
  stopping = false;
  now = 100;
  reply = fails_in_transport true;
  stopped_in_wait = false;
}

silent-Answered : (k : ℕ) → Answered odom_op (silent k)
unfolding Delivery.send_operation Delivery.received classify
silent-Answered k = (some (transport_error true), refl, (recoverable, refl))

send_with_retry-terminal_example :
    let sent = send_with_retry as_text odom_op silent 3 200 processor in
    (sent.0 ≡ ok tt)
    × (Consumed as_text odom_op silent 3 0 ⊎ IsLastRow as_text 200 odom_op processor.spool sent.1)
send_with_retry-terminal_example =
    send_with_retry-terminal as_text odom_op silent 3 200 processor silent-Answered refl
      (omega arith) (record { positive = tt; ascending = tt; fresh = tt })

-- The client raises what nothing catches.
abbrev failing : ℕ → Attempt
failing k = record {
  stopping = false;
  now = 100;
  reply = raises runtime_error;
  stopped_in_wait = false;
}

work_once-releases_example : (work_once as_text failing 3 200 processor).1.queue.active_keys ≡ []
work_once-releases_example = work_once-releases as_text failing 3 200 processor

abbrev with_row : OutboundProcessor
with_row = record processor { spool = record { rows = a_row ∷ []; next_id = 4 } }

drain_spool-resumes_example :
    let p' =
      (drain_spool as_text (λ row. ok odom_op) (λ row. false) (λ row. silent 0) with_row).1 in
    (p'.queue.active_keys ≡ []) × ((p'.spool.rows ≡ []) ⊎ (p'.spool_pending ≡ true))
drain_spool-resumes_example =
    drain_spool-resumes as_text (λ row. ok odom_op) (λ row. false) (λ row. silent 0) with_row

persist_loop-put_all_example :
    let r = persist_loop as_text 2 200 processor in
    (r.0 ≡ ok tt)
    × (pending r.1.queue ≡ [])
    × (r.1.spool ≡ put_all as_text processor.limits 200 (odom_op ∷ update_op ∷ []) processor.spool)
unfolding Spool.spool_put Delivery.is_terminal
persist_loop-put_all_example = persist_loop-put_all as_text 2 200 processor (omega arith)

-- A code for a request that the CSE has accepted and will answer later.
abbrev accepts_later : ℕ → Attempt
accepts_later k = record {
  stopping = false;
  now = 100;
  reply = answers (from_mqtt 1000);
  stopped_in_wait = false;
}

-- `float` on a whole number, and the two directions of JSON on one tree.
abbrev to_float : Value → Result (Option ℕ)
to_float (number (pos t)) = ok (some t)
to_float v = err value_error

abbrev repr : Value → String
repr v = "None"

decode_operation-encode_operation_example :
    decode_operation to_float repr
      (λ s. ok (dict (as_fields odom_op)))
      (encode_operation (λ v. "json") odom_op)
      terminal
      (some "r1:odom:history")
    ≡ ok odom_op
unfolding one_m2m_dds_ipe.Outbound.Codec.get
decode_operation-encode_operation_example =
    decode_operation-encode_operation to_float repr (λ t. refl) (λ v. "json")
      (λ s. ok (dict (as_fields odom_op))) "r1" "odom" "history" state_body (some "r1:odom:history")
      refl (λ h. cc)

-- A row as an older version wrote it.
abbrev old_fields : Fields
old_fields = field "path" (text "cse/r1/odom") (field "content" (dict no_field) no_field)

abbrev decoded_old : Op
decoded_old =
    op_of "r1" "odom" "history" (record state_body { content = no_field; expires_at = none })

decode_data-spool_key_example :
    decoded_old.attributes
    ≡ ("robot_id", some "r1") ∷ ("interface", some "odom") ∷ ("view", some "history") ∷ []
unfolding one_m2m_dds_ipe.Core.Common.find one_m2m_dds_ipe.Queues.Outbound.Ops.attribute decode_data
    one_m2m_dds_ipe.Outbound.Codec.as_text one_m2m_dds_ipe.Outbound.Codec.get
    one_m2m_dds_ipe.Outbound.Codec.as_dict one_m2m_dds_ipe.Outbound.Codec.time_of
    one_m2m_dds_ipe.Outbound.Codec.str one_m2m_dds_ipe.Outbound.Codec.identity
    one_m2m_dds_ipe.Outbound.Codec.split_colons spool_key
decode_data-spool_key_example =
    decode_data-spool_key to_float repr old_fields terminal odom_op decoded_old "r1" "odom"
      "history" (refl, refl, refl) refl refl refl refl refl refl
