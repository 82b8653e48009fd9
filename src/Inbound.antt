-- ===== src/Inbound.antt =====
-- `InboundProcessor` of src/ipe/runtime/inbound.py: its state, the admission of notifications, and
-- the end of a request. The locks make a method one step.
pub mod Service
pub mod Dispatch
pub mod Outcomes
pub mod Pending
pub mod Recovery
pub mod Isolation
pub mod Once
pub mod Verdicts
use Prim.Native.String.{◌++◌ as ◌^◌}
use one_m2m_dds_ipe.Prelude.{
  ℕ, suc, String, Bool, true, false, not, ◌&&◌, ◌||◌, Option, none, some, List, [], ◌∷◌, is_empty,
  if◌then◌else◌, ◌==◌, string_equality, pair_equality,
}
use one_m2m_dds_ipe.Prelude.Dict.{Dict, lookup, insert, erase}
use one_m2m_dds_ipe.Prelude.Sets.{add, discard}
use one_m2m_dds_ipe.Prelude.Int.{ℤ}
use one_m2m_dds_ipe.Prelude.Effect.{Effect, ◌>>=◌, ◌>>◌, return, raised}
use one_m2m_dds_ipe.Prelude.Result.{Result, Error, ok, err}
use one_m2m_dds_ipe.Core.Common.{Value, text, Fields, field, no_field}
use one_m2m_dds_ipe.Vocab.{ProcessedState}
use one_m2m_dds_ipe.Queues.Inbound.{InboundQueue, put_normal, put_control}
use one_m2m_dds_ipe.State.Admission
use one_m2m_dds_ipe.State.Admission.{
  ProcessedKey, Processed, Admitted, newly_queued, reaccepted, known_duplicate,
}
use one_m2m_dds_ipe.State.Transactions.{Transactions}
use one_m2m_dds_ipe.Dispatch.Routes.{Notification, InboundEvent, RouteTable, route}
use one_m2m_dds_ipe.Onem2m.CatchUp.{
  Verdict, admitted, duplicate, overflow, invalid, denied, Markers, Admission, mark_processed,
  or_empty,
}
use one_m2m_dds_ipe.Outbound
use one_m2m_dds_ipe.Outbound.{OutboundProcessor}
use one_m2m_dds_ipe.Outbound.Codec.{encode_operation}

abbrev pub Event : Type 0
Event = InboundEvent Value

-- An event in the queue, with the attribute that admission sets.
pub record Waiting : Type 0 where
  pub event : Event
  pub dedup_corr : Option String

-- What the code gets from elsewhere: `json.dumps`, `str` of an integer and of an exception, and the
-- text that a value of a payload has as an identifier, none if the value is not true.
pub record Environment : Type 0 where
  pub dumps : Value → String
  pub str : ℕ → String
  pub show : Error → String
  pub id_of : Value → Option String

-- The fields of `ServiceSpec` and `ActionSpec` (src/ipe/core/models.py) that are read here. An empty
-- list of response fields stands for None too.
pub record CallSpec : Type 0 where
  pub timeout_ms : ℤ
  pub access_enabled : Bool
  pub confirm : String
  pub template : Fields
  pub response_fields : List String

-- `registry.specs_by_key` is a field for each kind. `registry.routes`, `registry.routes_staging` and `registry.aei` are fields here; the state store
-- is its tables. `wakes` counts the calls of `self._wake`.
pub record InboundProcessor : Type 0 where
  pub outbound : OutboundProcessor
  pub processed : Processed
  pub transactions : Transactions
  pub kv : Markers
  pub routes : RouteTable Value
  pub routes_staging : Bool
  pub aei : String
  pub queue : InboundQueue Waiting
  pub inflight : Dict (String × String) (List String)
  pub services : Dict (String × String) CallSpec
  pub actions : Dict (String × String) CallSpec
  pub path_map : Dict (String × (String × String)) String
  pub wakes : ℕ

abbrev pub Method : Type 0 → Type 0
Method A = Effect InboundProcessor A

-- A method of the outbound processor.
abbrev pub outbound_do : {A : Type 0} → Outbound.Method A → Method A
outbound_do m p = let (a, outbound) = m p.outbound in (a, record p { outbound = outbound })

unfoldable pub status_categories : Dict String String
status_categories =
    ("command", "commandStatus")
    ∷ ("service", "serviceStatus")
    ∷ ("action_goal", "actionStatus")
    ∷ ("cancel", "actionStatus")
    ∷ ("decision", "provisioningStatus")
    ∷ ("qos_update", "qosStatus")
    ∷ ("qos_policy", "qosStatus")
    ∷ []

unfoldable pub status_category : String → String
status_category kind = elim (lookup kind status_categories) [ none ↦ "ipeHealth" | some c ↦ c ]

-- `a or b or ""`
unfoldable pub first_of : Option String → Option String → String
first_of (some a) b = if a == "" then or_empty b else a
first_of none b = or_empty b

abbrev pub key_of : Event → String → ProcessedKey
key_of ev corr = record { robot_id = ev.robot_id; interface = ev.interface; corr_id = corr }

abbrev pub about : Event → Fields → Fields
about ev rest = field "interface" (text ev.interface) (field "robot" (text ev.robot_id) rest)

unfoldable pub wake : InboundProcessor → InboundProcessor
wake p = record p { wakes = suc p.wakes }

unfoldable pub enqueue_internal : Event → Method Bool
enqueue_internal ev p =
    let (queue, taken) = put_control (record { event = ev; dedup_corr = none }) p.queue in
    if taken then (ok true, wake (record p { queue = queue })) else (ok false, p)

-- What `_finish` does to `_inflight`.
unfoldable pub forget :
    String × String
    → String
    → Dict (String × String) (List String)
    → Dict (String × String) (List String)
forget key corr inflight = elim (lookup key inflight) [
  | none ↦ inflight
  | some requests ↦
      let rest = discard corr requests in
      if is_empty rest then erase key inflight else insert key rest inflight
]

-- `_finish`
unfoldable pub finish : String → String → String → ProcessedState → ℕ → Method Bool
finish robot iface corr terminal ts p =
    let p' : InboundProcessor = record p { inflight = forget (robot, iface) corr p.inflight } in
    let key : ProcessedKey = record { robot_id = robot; interface = iface; corr_id = corr } in
    elim (Admission.finish key terminal ts p.processed) [
      | err e ↦ (err e, p')
      | ok (processed, done) ↦ (ok done, record p' { processed = processed })
    ]

module _ (env : Environment) where
  unfoldable pub emit_event : ℕ → String → String → Fields → Method (Unit {0})
  emit_event now category severity payload =
      outbound_do (Outbound.emit_event (encode_operation env.dumps) now category severity payload)

  -- The identifier that a payload gives.
  unfoldable pub correlation_text : Event → Option String
  correlation_text ev = elim ev.correlation_id [ none ↦ none | some v ↦ env.id_of v ]

  unfoldable pub dedup_key : Event → String
  dedup_key ev =
      if ev.kind == "decision"
      then first_of ev.event_id (correlation_text ev)
      else if ev.kind == "cancel"
      then "cancel:" ^ first_of ev.event_id (correlation_text ev)
      else first_of (correlation_text ev) ev.event_id

  -- `_admit`, from where the event is known to be new.
  unfoldable pub enqueue : ℕ → String → Event → String → Method Verdict
  enqueue now path_key ev corr p =
      let item : Waiting = record { event = ev; dedup_corr = some corr } in
      let (queue, taken) =
        if ev.kind == "cancel" then put_control item p.queue else put_normal item p.queue in
      if taken
      then (ok admitted, wake (record p { queue = queue; kv = mark_processed path_key ev.ct p.kv }))
      else (
        ok overflow,
        record p { processed = (Admission.mark_overflow (key_of ev corr) now p.processed).0 },
      )

  unfoldable pub duplicate_payload : Event → String → Fields
  duplicate_payload ev corr =
      field "event" (text "duplicate") (about ev (field "correlationId" (text corr) no_field))

  -- `_admit`, from where the event is known.
  unfoldable pub admit_event : ℕ → String → Event → Method Verdict
  admit_event now path_key ev p =
      let corr = dedup_key ev in
      let (processed, reply) =
        Admission.admit (key_of ev corr) (first_of ev.event_id none) now p.processed in
      let p' : InboundProcessor = record p { processed = processed } in
      elim reply [
        | known_duplicate ↦
            (emit_event now (status_category ev.kind) "info" (duplicate_payload ev corr)
                >> return duplicate)
              p'
        | newly_queued ↦ enqueue now path_key ev corr p'
        | reaccepted ↦ enqueue now path_key ev corr p'
      ]

  -- `notif.cr is not None and notif.cr == self.registry.aei`
  unfoldable pub is_own : Option String → InboundProcessor → Bool
  is_own none p = false
  is_own (some cr) p = cr == p.aei

  unfoldable pub unknown_route : String → Fields
  unknown_route path_key =
      field "event" (text "unknownRoute") (field "path_key" (text path_key) no_field)

  unfoldable pub unrouted : ℕ → String → Method Verdict
  unrouted now path_key p =
      if p.routes_staging
      then (ok denied, p)
      else (emit_event now "ipeHealth" "warning" (unknown_route path_key) >> return invalid) p

  -- `_admit`; `cr` is the creator that the notification names.
  unfoldable pub admit : ℕ → Option String → String → Notification Value → Method Verdict
  admit now cr path_key notif p = elim (route env.str path_key notif p.routes) [
    | err e ↦ (err e, p)
    | ok none ↦ unrouted now path_key p
    | ok (some ev) ↦ if is_own cr p then (ok denied, p) else admit_event now path_key ev p
  ]

  abbrev pub on_notify : ℕ → Option String → String → Notification Value → Method Verdict
  on_notify = admit

  unfoldable pub catchup_admit :
      ℕ → String → Option String → Option (Dict String Value) → Option String → Method Verdict
  catchup_admit now path_key cin_ri con ct =
      admit now none path_key
        (record { sur = none; con = con; cin_ri = cin_ri; cin_ct = ct; fcnt = none; st = none })

  -- The admission function of the sweeper, which shares the key-value table.
  unfoldable pub admission : ℕ → Admission (Dict String Value) InboundProcessor
  admission now path_key cin_ri con ct (kv, p) =
      let (answer, p') = catchup_admit now path_key cin_ri con ct (record p { kv = kv }) in
      (answer, (p'.kv, p'))
