-- ===== src/Examples/InboundCases.antt =====
-- Admission, dispatch and the callback of a service call on small inputs.
use one_m2m_dds_ipe.Prelude.{
  ℕ, String, ◌≡◌, refl, inl, inr, Bool, true, false, Option, none, some, List, [], ◌∷◌,
  if◌then◌else◌, string_equality,
}
use one_m2m_dds_ipe.Prelude.Int.{pos}
use one_m2m_dds_ipe.Prelude.Effect.{raised}
use one_m2m_dds_ipe.Prelude.Dict.{Dict, lookup}
use one_m2m_dds_ipe.Prelude.Result.{ok, runtime_error}
use one_m2m_dds_ipe.Core.Common.{Value, text, no_field}
use one_m2m_dds_ipe.Vocab.{TxState}
use one_m2m_dds_ipe.Queues.Inbound
use one_m2m_dds_ipe.State.Admission.{ProcessedKey}
use one_m2m_dds_ipe.State.Transactions.{Transaction, service, is_active}
use one_m2m_dds_ipe.Dispatch.Routes.{Notification}
use one_m2m_dds_ipe.Onem2m.CatchUp.Marker.{marker_of}
use one_m2m_dds_ipe.Inbound.{
  Environment, Event, Waiting, InboundProcessor, CallSpec, admit_event, admission,
}
use one_m2m_dds_ipe.Inbound.Service.{answered, failed_with, done}
use one_m2m_dds_ipe.Inbound.Dispatch.{Handling}
use one_m2m_dds_ipe.Inbound.Recovery.{admission-KeepsMarkers}
use one_m2m_dds_ipe.Inbound.Once.{answer_state, done-once}
use one_m2m_dds_ipe.Inbound.Pending.Steps.{World, Reach, admitting, is_pending, Reach-pending}
use one_m2m_dds_ipe.Examples.OutboundCases.{processor}

abbrev environment : Environment
environment = record {
  dumps = λ v. "json";
  str = λ n. "0";
  show = λ e. "error";
  id_of = λ v. elim v [ text s ↦ some s | other ↦ none ];
}

abbrev call_event : Event
call_event = record {
  kind = "service";
  robot_id = "r1";
  interface = "reset";
  correlation_id = some (text "q1");
  event_id = some "cin1";
  payload = some (("requestId", text "q1") ∷ []);
  ct = some "20260101T000001";
  meta = none;
}

abbrev service_spec : CallSpec
service_spec = record {
  timeout_ms = pos 5000;
  access_enabled = true;
  confirm = "auto";
  template = no_field;
  response_fields = [];
}

abbrev row : Transaction
row = record {
  kind = service;
  state = TxState.invoked;
  seq = 0;
  timeout_ms = 5000;
  started = 10;
  updated = 10;
}

abbrev inbound : InboundProcessor
inbound = record {
  outbound = processor;
  processed = [];
  transactions = ("q0", row) ∷ [];
  kv = [];
  routes = record {
    routes =
        ("p", record { kind = "service"; robot_id = "r1"; interface = "reset"; meta = [] }) ∷ [];
    by_sur = [];
  };
  routes_staging = false;
  aei = "Cipe";
  queue = record { maxsize = 1; control_maxsize = 1; normal = []; control = [] };
  inflight = (("r1", "reset"), "q0" ∷ []) ∷ [];
  services = (("r1", "reset"), service_spec) ∷ [];
  actions = [];
  path_map = [];
  wakes = 0;
}

abbrev call_notification : Notification Value
call_notification = record {
  sur = none;
  con = some (("requestId", text "q1") ∷ []);
  cin_ri = some "cin1";
  cin_ct = some "20260101T000001";
  fcnt = none;
  st = none;
}

admission-KeepsMarkers_example :
    marker_of "p"
      (admission environment 20 "p"
        (some "cin1")
        call_notification.con
        (some "20260101T000001")
        ([], inbound)).1.0
    ≡ none
unfolding one_m2m_dds_ipe.State.KeyValue.get_kv lookup
admission-KeepsMarkers_example =
    admission-KeepsMarkers environment 20 "p" "p" (some "cin1") call_notification.con
      (some "20260101T000001") [] inbound

-- Handlers that raise.
abbrev failing : Waiting → Handling
failing w = record {
  now = 30;
  later = 31;
  adapter = record {
    server_available = true;
    call_service = λ request. ok false;
    cancel_goal = λ goal. "unknown";
  };
  dispatch_command = λ ev corr. raised runtime_error;
  dispatch_goal = λ ev corr. raised runtime_error;
  dispatch_decision = λ ev corr. raised runtime_error;
  dispatch_qos_update = λ ev corr. raised runtime_error;
  dispatch_qos_policy = λ ev corr. raised runtime_error;
  handle_internal = λ ev. raised runtime_error;
}

abbrev command_waits : InboundProcessor
command_waits = record inbound {
  queue = record inbound.queue {
    normal = record { event = record call_event { kind = "command" }; dedup_corr = some "q1" } ∷ [];
  };
}

done-once_example :
    let p' = (done environment 40 service_spec call_event "q0" (failed_with "lost") inbound).1 in
    (lookup "q0" p'.transactions
      ≡ some (
          if is_active row
          then record row { state = answer_state (failed_with "lost"); updated = 40 }
          else row))
    × (is_active row ≡ false → p' ≡ inbound)
    × (done environment 41 service_spec call_event "q0" (answered none) p' ≡ (ok tt, p'))
unfolding lookup
done-once_example =
    done-once environment 40 41 service_spec call_event "q0" (failed_with "lost") (answered none)
      inbound row refl refl

abbrev key : ProcessedKey
key = record { robot_id = "r1"; interface = "reset"; corr_id = "q1" }

-- The request is admitted.
abbrev start : World
start = record { processor = inbound; batch = [] }

abbrev after : World
after = record start {
  processor = (one_m2m_dds_ipe.Inbound.admit environment 20 none "p" call_notification inbound).1;
}

Reach-pending_example : is_pending environment key after ≡ true
unfolding lookup one_m2m_dds_ipe.Dispatch.Routes.all_known one_m2m_dds_ipe.Prelude.Dict.member
    one_m2m_dds_ipe.Prelude.Dict.insert one_m2m_dds_ipe.Dispatch.Routes.route
    one_m2m_dds_ipe.Dispatch.Routes.content_event one_m2m_dds_ipe.Dispatch.Routes.correlation
    one_m2m_dds_ipe.Inbound.admit one_m2m_dds_ipe.Inbound.is_own admit_event
    one_m2m_dds_ipe.Inbound.enqueue one_m2m_dds_ipe.Inbound.wake one_m2m_dds_ipe.Inbound.dedup_key
    one_m2m_dds_ipe.Inbound.first_of one_m2m_dds_ipe.Inbound.correlation_text
    one_m2m_dds_ipe.State.Admission.admit one_m2m_dds_ipe.State.Admission.processed_key_eq
    one_m2m_dds_ipe.State.Admission.is_queued Inbound.put_normal
Reach-pending_example =
    Reach-pending environment inbound after (λ k. refl) refl
      (Reach.next Reach.here (admitting 20 none "p" call_notification)) key refl
