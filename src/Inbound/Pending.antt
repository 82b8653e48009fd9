-- ===== src/Inbound/Pending.antt =====
-- The link between the admission table and the inbound queue: which rows are queued, and which
-- events wait.
pub mod Tables
pub mod Frames
pub mod Events
pub mod Services
pub mod Dispatches
pub mod Arrivals
pub mod Steps
use one_m2m_dds_ipe.Prelude.{
  String, ◌≡◌, Bool, true, false, not, ◌&&◌, ◌||◌, List, [], ◌∷◌, none, some, ◌==◌,
}
use one_m2m_dds_ipe.Prelude.Dict.{lookup}
use one_m2m_dds_ipe.Queues.Inbound.{InboundQueue}
use one_m2m_dds_ipe.State.Admission.{ProcessedKey, processed_key_equality, Processed, is_queued}
use one_m2m_dds_ipe.Inbound.{Environment, Waiting, InboundProcessor, Method, key_of}
use one_m2m_dds_ipe.Inbound.Dispatch.{is_internal, corr_of}

-- The row of the key is queued.
abbrev pub queued_at : ProcessedKey → Processed → Bool
queued_at k t = elim (lookup k t) [ none ↦ false | some r ↦ is_queued r.state ]

-- An event of the key waits in the list; internal events have no row.
unfoldable pub waits : Environment → ProcessedKey → List Waiting → Bool
waits env k [] = false
waits env k (w ∷ ws) =
    (not (is_internal w.event.kind) && (k == key_of w.event (corr_of env w))) || waits env k ws

abbrev pub in_queue : Environment → ProcessedKey → InboundQueue Waiting → Bool
in_queue env k q = waits env k q.control || waits env k q.normal

-- What a step may do between admission and dispatch: no row becomes queued, no event is taken out
-- of the queue, and the routes stay.
pub record Frame (env : Environment) (p p' : InboundProcessor) : Type 0 where
  pub rows : (k : ProcessedKey) → queued_at k p'.processed ≡ true → queued_at k p.processed ≡ true
  pub events : (k : ProcessedKey) → in_queue env k p.queue ≡ true → in_queue env k p'.queue ≡ true
  pub routes : p'.routes ≡ p.routes

abbrev pub IsFramed : {A : Type 0} → Environment → Method A → Type 0
IsFramed env m = (p : InboundProcessor) → Frame env p (m p).1
