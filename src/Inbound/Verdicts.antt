-- ===== src/Inbound/Verdicts.antt =====
-- What the verdict on an event says of the table and of the queue.
use one_m2m_dds_ipe.Prelude.{
  ℕ, String, ◌≡◌, Bool, true, false, Option, none, some, ◌==◌, string_equality, if◌then◌else◌,
}
use one_m2m_dds_ipe.Prelude.Dict.{lookup}
use one_m2m_dds_ipe.Vocab.{ProcessedState}
use one_m2m_dds_ipe.Queues.Inbound.{InboundQueue, put_normal, put_control}
use one_m2m_dds_ipe.State.Admission
use one_m2m_dds_ipe.State.Admission.{ProcessedRow, processed_key_equality, is_overflow}
use one_m2m_dds_ipe.Onem2m.CatchUp.{Verdict, admitted, duplicate, overflow}
use one_m2m_dds_ipe.Inbound.{
  Environment, Event, Waiting, InboundProcessor, dedup_key, key_of, first_of,
}

abbrev queued_row : String → ℕ → ProcessedRow
queued_row event_id now = record { event_id = event_id; state = ProcessedState.queued; ts = now }

module _ (env : Environment) (now : ℕ) where
  -- The lane of an event takes it, or is full.
  abbrev pub put_event : Event → InboundQueue Waiting → InboundQueue Waiting × Bool
  put_event ev q =
      let item : Waiting = record { event = ev; dedup_corr = some (dedup_key env ev) } in
      if ev.kind == "cancel" then put_control item q else put_normal item q

  abbrev pub row_of : Event → InboundProcessor → Option ProcessedRow
  row_of ev p = lookup (key_of ev (dedup_key env ev)) p.processed

  -- What each verdict means, for the processor before and after.
  abbrev pub Means : Event → InboundProcessor → InboundProcessor → Verdict → Type 0
  Means ev p p' admitted =
      (row_of ev p' ≡ some (queued_row (first_of ev.event_id none) now))
      × (put_event ev p.queue ≡ (p'.queue, true))
  Means ev p p' overflow =
      (row_of ev p'
        ≡ some (record (queued_row (first_of ev.event_id none) now) {
          state = ProcessedState.overflow;
        }))
      × ((put_event ev p.queue).1 ≡ false)
      × (p'.queue ≡ p.queue)
  Means ev p p' duplicate =
      ((r : ProcessedRow) × (row_of ev p ≡ some r) × (is_overflow r.state ≡ false))
      × (p'.processed ≡ p.processed)
      × (p'.queue ≡ p.queue)
  Means ev p p' v = true ≡ false
