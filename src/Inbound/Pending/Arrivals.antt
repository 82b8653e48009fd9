-- ===== src/Inbound/Pending/Arrivals.antt =====
-- An event that is put into the queue waits there.
use one_m2m_dds_ipe.Prelude.{
  ℕ, String, ◌≡◌, ◌⊎◌, true, false, ◌||◌, none, some, List, [], ◌∷◌, ◌==◌, string_equality, arith,
}
use one_m2m_dds_ipe.State.Admission.{ProcessedKey, processed_key_equality}
use one_m2m_dds_ipe.Dispatch.Routes.{all_known}
use one_m2m_dds_ipe.Inbound.{
  Environment, Event, Waiting, InboundProcessor, key_of, dedup_key, wake, enqueue_internal, enqueue,
}
use one_m2m_dds_ipe.Inbound.Dispatch.{is_internal}
use one_m2m_dds_ipe.Inbound.Pending.{queued_at, waits, in_queue, IsFramed}
use one_m2m_dds_ipe.Inbound.Pending.Tables.{mark_overflow-queued}
use one_m2m_dds_ipe.Inbound.Pending.Events.{put_control-waits, put_normal-waits, corr_of-dedup_key}

module _ (env : Environment) where
  item_waits :
      (ev : Event) (k : ProcessedKey)
      → is_internal ev.kind ≡ false
      → waits env k (record { event = ev; dedup_corr = some (dedup_key env ev) } ∷ [])
        ≡ (k == key_of ev (dedup_key env ev))
  unfolding waits
  item_waits ev k plain = ground (arith, corr_of-dedup_key env ev)

  pub enqueue-pending :
      (now : ℕ) (path_key : String) (ev : Event) (p : InboundProcessor) (batch : List Waiting)
      → is_internal ev.kind ≡ false
      → ((k : ProcessedKey)
          → queued_at k p.processed ≡ true
          → ((k == key_of ev (dedup_key env ev)) ≡ true)
            ⊎ ((waits env k batch || in_queue env k p.queue) ≡ true))
      → (k : ProcessedKey)
      → queued_at k (enqueue env now path_key ev (dedup_key env ev) p).1.processed ≡ true
      → (waits env k batch
          || in_queue env k (enqueue env now path_key ev (dedup_key env ev) p).1.queue)
        ≡ true
  unfolding enqueue wake
  enqueue-pending now path_key ev p batch plain before k q =
      let item : Waiting = record { event = ev; dedup_corr = some (dedup_key env ev) } in
      ground (
        arith,
        before k,
        item_waits ev k plain,
        put_control-waits env k item p.queue,
        put_normal-waits env k item p.queue,
        mark_overflow-queued k (key_of ev (dedup_key env ev)) now p.processed,
      )

  pub enqueue-known :
      (now : ℕ) (path_key : String) (ev : Event) (p : InboundProcessor)
      → all_known p.routes.routes ≡ true
      → all_known (enqueue env now path_key ev (dedup_key env ev) p).1.routes.routes ≡ true
  unfolding enqueue wake
  enqueue-known now path_key ev p h = ground arith

  pub enqueue_internal-IsFramed : (ev : Event) → IsFramed env (enqueue_internal ev)
  enqueue_internal-IsFramed ev p =
      let item : Waiting = record { event = ev; dedup_corr = none } in
      record {
        rows = λ k q. unfold enqueue_internal wake in ground arith;
        events = λ k q.
            unfold enqueue_internal wake in ground (arith, put_control-waits env k item p.queue);
        routes = unfold enqueue_internal wake in ground arith;
      }
