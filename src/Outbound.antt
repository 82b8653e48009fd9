-- ===== src/Outbound.antt =====
-- `OutboundProcessor` of src/ipe/runtime/outbound.py: its state, its events, and what it does to
-- the queue and to the spool. `encode` is `encode_operation` (Outbound/Codec).
pub mod Events
pub mod Codec
pub mod Delivery
use Prim.Native.String.{◌++◌ as ◌^◌}
use one_m2m_dds_ipe.Prelude.{
  ℕ, String, Bool, true, false, not, ◌&&◌, Option, none, some, List, [], ◌∷◌, ◌++◌, leb, ltb,
  if◌then◌else◌, ◌==◌, string_equality,
}
use one_m2m_dds_ipe.Prelude.Dict.{Dict, lookup}
pub use one_m2m_dds_ipe.Prelude.Effect.{◌>>=◌, ◌>>◌, return, ensure, raised}
use one_m2m_dds_ipe.Prelude.Effect.{Effect}
use one_m2m_dds_ipe.Prelude.Result.{Result, Error, ok, err}
use one_m2m_dds_ipe.Core.Common.{
  Value, text, none_value, truth, number, Fields, field, no_field, find, put,
}
use one_m2m_dds_ipe.Prelude.Int.{pos}
use one_m2m_dds_ipe.Vocab.{OutboundClass, terminal, observe_latest, observe_bulk}
use one_m2m_dds_ipe.Queues.Outbound
use one_m2m_dds_ipe.Queues.Outbound.{OutboundQueue}
use one_m2m_dds_ipe.Queues.Outbound.Ops.{Op, Body, attribute}
use one_m2m_dds_ipe.State.Spool.{Spool, SpoolLimits, spool_put}

pub record OutboundProcessor : Type 0 where
  pub queue : OutboundQueue
  pub spool : Spool
  pub limits : SpoolLimits
  pub spool_pending : Bool
  pub cse_transport_down : Bool
  pub recovery_requests : List String
  pub status_paths : Dict String String
  pub status_severity_min : String

abbrev pub Method : Type 0 → Type 0
Method A = Effect OutboundProcessor A

unfoldable pub mark_cse_unavailable : Method (Unit {0})
mark_cse_unavailable p = (ok tt, record p { cse_transport_down = true })

unfoldable pub request_recovery : String → Method (Unit {0})
request_recovery job p = (ok tt, record p { recovery_requests = p.recovery_requests ++ (job ∷ []) })

unfoldable pub mark_cse_available : Method Bool
mark_cse_available p =
    if p.cse_transport_down
    then (
      ok true,
      record p {
        cse_transport_down = false;
        recovery_requests = p.recovery_requests ++ ("recover" ∷ []);
      },
    )
    else (ok false, p)

-- The string of a queue class.
unfoldable pub class_text : OutboundClass → String
class_text terminal = "TERMINAL"
class_text observe_latest = "OBSERVE_LATEST"
class_text observe_bulk = "OBSERVE_BULK"
class_text (OutboundClass.unlisted s) = s

-- An attribute of an operation in an f-string.
abbrev pub shown : Op → String → String
shown op name = elim (attribute op name none) [ none ↦ "None" | some s ↦ s ]

unfoldable pub spool_key : Op → String
spool_key op = shown op "robot_id" ^ (":" ^ (shown op "interface" ^ (":" ^ shown op "view")))

-- `Op(kind, path, content, robot_id, interface, view, queue_class)`
unfoldable pub make_op : String → String → Fields → String → String → String → OutboundClass → Op
make_op kind path content robot_id interface view queue_class = record {
  attributes =
      ("robot_id", some robot_id) ∷ ("interface", some interface) ∷ ("view", some view) ∷ [];
  body = record {
    kind = kind;
    path = path;
    content = content;
    queue_class = queue_class;
    oversized = truth false;
    rn = none_value;
    anomalous = truth false;
    et = none_value;
    expires_at = none;
  };
}

-- `SEVERITY_ORDER.get(severity, 0)`
unfoldable pub severity_order : String → ℕ
severity_order severity = if severity == "error" then 2 else if severity == "warning" then 1 else 0

module _ (encode : Op → String) where
  unfoldable pub spool_op : ℕ → Op → Method (Unit {0})
  spool_op now op p =
      elim (spool_put p.limits op.body.queue_class (some (spool_key op)) (encode op) now p.spool) [
        | err e ↦ (err e, p)
        | ok (spool, dropped) ↦ (ok tt, record p { spool = spool; spool_pending = true })
      ]

  unfoldable pub put_terminal : ℕ → Op → Method (Unit {0})
  put_terminal now op p = elim (Outbound.put op terminal none p.queue) [
    | err e ↦ (err e, p)
    | ok (queue, true) ↦ (ok tt, record p { queue = queue })
    | ok (queue, false) ↦ spool_op now op (record p { queue = queue })
  ]

-- `{**base, **payload}`
unfoldable pub updated_with : Fields → Fields → Fields
updated_with base no_field = base
updated_with base (field k v payload) = updated_with (put k v base) payload

abbrev string_of : Value → String
string_of (text s) = s
string_of v = "-"

-- `payload.get(name, "-")`; the callers give strings.
unfoldable pub named : String → Fields → String
named name payload = elim (find name payload) [ none ↦ "-" | some v ↦ string_of v ]

unfoldable pub event_op : ℕ → String → String → Fields → String → Op
event_op now category severity payload path =
    let body =
      updated_with (field "severity" (text severity) (field "ts" (number (pos now)) no_field))
        payload in
    make_op "create_cin" path body (named "robot" payload) (named "interface" payload) category
      terminal

module _ (encode : Op → String) where
  unfoldable pub emit_event : ℕ → String → String → Fields → Method (Unit {0})
  emit_event now category severity payload p =
      if ltb (severity_order severity) (severity_order p.status_severity_min)
      then (ok tt, p)
      else elim (lookup category p.status_paths) [
        | none ↦ (ok tt, p)
        | some path ↦ put_terminal encode now (event_op now category severity payload path) p
      ]
