-- ===== src/Outbound/Events.antt =====
-- What an event does to the processor: nothing, or one put of a TERMINAL operation.
use one_m2m_dds_ipe.Prelude.{
  ℕ, String, ◌≡◌, refl, ap, ◌∙◌, ◌⊎◌, inl, inr, true, arith, Bool-cases, Option-cases, ltb,
  string_equality,
}
use one_m2m_dds_ipe.Prelude.Dict.{lookup}
use one_m2m_dds_ipe.Prelude.Result.{ok}
use one_m2m_dds_ipe.Core.Common.{Fields}
use one_m2m_dds_ipe.Vocab.{outbound_classes}
use one_m2m_dds_ipe.Queues.Outbound
use one_m2m_dds_ipe.Queues.Outbound.{put}
use one_m2m_dds_ipe.Queues.Outbound.Ops.{Op}
use one_m2m_dds_ipe.State.Spool.{spool_put}
use one_m2m_dds_ipe.Outbound.{
  OutboundProcessor, make_op, event_op, severity_order, spool_op, put_terminal, emit_event,
}

module _ (encode : Op → String) where
  pub spool_op-returns :
      (now : ℕ) (op : Op) (p : OutboundProcessor)
      → outbound_classes op.body.queue_class ≡ true
      → (spool_op encode now op p).0 ≡ ok tt
  unfolding spool_op spool_put
  spool_op-returns now op p h = ground arith

  pub put_terminal-returns :
      (now : ℕ) (op : Op) (p : OutboundProcessor)
      → outbound_classes op.body.queue_class ≡ true
      → (put_terminal encode now op p).0 ≡ ok tt
  unfolding put_terminal put
  put_terminal-returns now op p h =
      ground
        (arith, spool_op-returns now op (record p { queue = (Outbound.put_terminal op p.queue).0 }))

  pub emit_event-cases :
      (now : ℕ) (category severity : String) (payload : Fields) (p : OutboundProcessor)
      → (emit_event encode now category severity payload p ≡ (ok tt, p))
        ⊎ ((op : Op) × (outbound_classes op.body.queue_class ≡ true)
            × (emit_event encode now category severity payload p ≡ put_terminal encode now op p))
  unfolding emit_event event_op make_op outbound_classes
  emit_event-cases now category severity payload p =
      elim (Bool-cases (ltb (severity_order severity) (severity_order p.status_severity_min))) [
        | inl e ↦ inl (ground arith)
        | inr e ↦ elim (Option-cases (lookup category p.status_paths)) [
          | inl n ↦ inl (ground arith)
          | inr (path, n) ↦ inr (event_op now category severity payload path, refl, ground arith)
        ]
      ]

  pub emit_event-returns :
      (now : ℕ) (category severity : String) (payload : Fields) (p : OutboundProcessor)
      → (emit_event encode now category severity payload p).0 ≡ ok tt
  emit_event-returns now category severity payload p =
      elim (emit_event-cases now category severity payload p) [
        | inl e ↦ ap (λ r. r.0) e
        | inr (op, known, e) ↦ ap (λ r. r.0) e ∙ put_terminal-returns now op p known
      ]
