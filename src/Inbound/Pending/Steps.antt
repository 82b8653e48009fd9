-- ===== src/Inbound/Pending/Steps.antt =====
-- Admissions, batches, dispatches and callbacks in any order keep the queued rows and the waiting
-- events together.
use one_m2m_dds_ipe.Prelude.{
  ℕ, String, ◌≡◌, sym, subst, ◌⊎◌, inl, inr, Bool, true, false, ◌||◌, Option, none, List, [], ◌∷◌,
  ◌==◌, string_equality, arith,
}
use one_m2m_dds_ipe.Core.Common.{Value}
use one_m2m_dds_ipe.Vocab.{ProcessedState}
use one_m2m_dds_ipe.Queues.Inbound.{get_batch}
use one_m2m_dds_ipe.State.Admission.{ProcessedKey, processed_key_equality}
use one_m2m_dds_ipe.Dispatch.Routes.{Notification, RouteTable, all_known}
use one_m2m_dds_ipe.Inbound.{
  Environment, Event, Waiting, InboundProcessor, CallSpec, key_of, first_of, dedup_key,
  enqueue_internal, finish, admit,
}
use one_m2m_dds_ipe.Inbound.Service.{Response, done}
use one_m2m_dds_ipe.Inbound.Dispatch.{Handling, corr_of, dispatch_or_fail}
use one_m2m_dds_ipe.Inbound.Outcomes.{looked_up, admit_event-cases, admit-cases}
use one_m2m_dds_ipe.Inbound.Pending.{queued_at, waits, in_queue, Frame}
use one_m2m_dds_ipe.Inbound.Pending.Tables.{admit-queued, admit-known}
use one_m2m_dds_ipe.Inbound.Pending.Services.{done-IsFramed}
use one_m2m_dds_ipe.Inbound.Pending.Frames.{finish-IsFramed}
use one_m2m_dds_ipe.Inbound.Pending.Events.{get_batch-waits, route-kind}
use one_m2m_dds_ipe.Inbound.Pending.Dispatches.{IsSafe, Settles, dispatch_or_fail-Settles}
use one_m2m_dds_ipe.Inbound.Pending.Arrivals.{
  enqueue-pending, enqueue-known, enqueue_internal-IsFramed,
}

-- The processor, and the events of the batch that are not dispatched yet.
pub record World : Type 0 where
  pub processor : InboundProcessor
  pub batch : List Waiting

pub data Step (env : Environment) (w : World) : World → Type 0 where
  admitting :
      (now : ℕ) (cr : Option String) (path_key : String) (n : Notification Value)
      → Step env w (record w { processor = (admit env now cr path_key n w.processor).1 })
  signalling :
      (ev : Event) → Step env w (record w { processor = (enqueue_internal ev w.processor).1 })
  taking :
      (budget : ℕ)
      → w.batch ≡ []
      → Step env w (record {
        processor = record w.processor { queue = (get_batch budget w.processor.queue).0 };
        batch = (get_batch budget w.processor.queue).1;
      })
  handling :
      (h : Handling) (item : Waiting) (rest : List Waiting)
      → w.batch ≡ item ∷ rest
      → IsSafe env h
      → Step env w
          (record { processor = (dispatch_or_fail env h item w.processor).1; batch = rest })
  answering :
      (now : ℕ) (spec : CallSpec) (ev : Event) (corr : String) (response : Response)
      → Step env w (record w { processor = (done env now spec ev corr response w.processor).1 })
  finishing :
      (robot iface corr : String) (s : ProcessedState) (now : ℕ)
      → Step env w (record w { processor = (finish robot iface corr s now w.processor).1 })
  routing :
      (t : RouteTable Value)
      → all_known t.routes ≡ true
      → Step env w (record w { processor = record w.processor { routes = t } })

pub data Reach (env : Environment) (w : World) : World → Type 0 where
  here : Reach env w w
  next : {u v : World} → Reach env w u → Step env u v → Reach env w v

-- An event of the key waits in the batch or in the queue.
abbrev pub is_pending : Environment → ProcessedKey → World → Bool
is_pending env k w = waits env k w.batch || in_queue env k w.processor.queue

module _ (env : Environment) where
  record IsLinked (w : World) : Type 0 where
    rows : (k : ProcessedKey) → queued_at k w.processor.processed ≡ true → is_pending env k w ≡ true
    known : all_known w.processor.routes.routes ≡ true

  IsLinked-Frame :
      (w : World) (p : InboundProcessor)
      → Frame env w.processor p
      → IsLinked w
      → IsLinked (record w { processor = p })
  IsLinked-Frame w p f l = record {
    rows = λ k h. ground (arith, l.rows k (f.rows k h), f.events k);
    known = subst (λ (t : RouteTable Value). all_known t.routes ≡ true) (sym f.routes) l.known;
  }

  batch-pending :
      (k : ProcessedKey) (budget : ℕ) (w : World)
      → w.batch ≡ []
      → is_pending env k w ≡ true
      → (waits env k (get_batch budget w.processor.queue).1
          || in_queue env k (get_batch budget w.processor.queue).0)
        ≡ true
  unfolding waits
  batch-pending k budget w nothing h =
      get_batch-waits env k budget w.processor.queue (ground (arith, nothing))

  Settles-known :
      (item : Waiting) (corr : String) (p p' : InboundProcessor)
      → Settles env item.event corr p p'
      → all_known p.routes.routes ≡ true
      → all_known p'.routes.routes ≡ true
  unfolding Settles
  Settles-known item corr p p' (frame, settles) h =
      subst (λ (t : RouteTable Value). all_known t.routes ≡ true) (sym frame.routes) h

  rest-pending :
      (k : ProcessedKey) (item : Waiting) (rest : List Waiting) (w : World) (p' : InboundProcessor)
      → w.batch ≡ item ∷ rest
      → Settles env item.event (corr_of env item) w.processor p'
      → IsLinked w
      → queued_at k p'.processed ≡ true
      → (waits env k rest || in_queue env k p'.queue) ≡ true
  unfolding Settles waits
  rest-pending k item rest w p' e (frame, settles) l q =
      let before : (waits env k (item ∷ rest) || in_queue env k w.processor.queue) ≡ true =
        subst (λ b. (waits env k b || in_queue env k w.processor.queue) ≡ true) e
          (l.rows k (frame.rows k q)) in
      ground (arith, before, settles k q, frame.events k)

  -- Admission of a notification, with the events of a batch that wait elsewhere.
  admit-IsLinked :
      (now : ℕ) (cr : Option String) (path_key : String) (n : Notification Value) (w : World)
      → IsLinked w
      → IsLinked (record w { processor = (admit env now cr path_key n w.processor).1 })
  admit-IsLinked now cr path_key n w l =
      let p = w.processor in
      elim (admit-cases env now cr path_key n p) [
        | inl (e, h) ↦ rw h l
        | inr (inl (v, outbound, _, h)) ↦ rw h (record { rows = l.rows; known = l.known })
        | inr (inr (ev, routed, h)) ↦ elim (admit_event-cases env now path_key ev p) [
          | inl (known_row, (outbound, e)) ↦
              rw (h, e)
                (record {
                  rows = λ k q. l.rows k (
                      subst (λ t. queued_at k t ≡ true)
                        (admit-known (key_of ev (dedup_key env ev)) (first_of ev.event_id none) now
                          p.processed known_row)
                        q);
                  known = l.known;
                })
          | inr (_, e) ↦
              let next : InboundProcessor = record p { processed = (looked_up env now ev p).0 } in
              rw (h, e)
                (record {
                  rows =
                      enqueue-pending env now path_key ev next w.batch
                        (route-kind env.str path_key n p.routes ev l.known routed)
                        (λ k q. row_before k ev p l q);
                  known = enqueue-known env now path_key ev next l.known;
                })
        ]
      ]
    where
      row_before :
          (k : ProcessedKey) (ev : Event) (p : InboundProcessor)
          → IsLinked w
          → queued_at k (looked_up env now ev w.processor).0 ≡ true
          → ((k == key_of ev (dedup_key env ev)) ≡ true) ⊎ (is_pending env k w ≡ true)
      row_before k ev p l q =
          elim (admit-queued k (key_of ev (dedup_key env ev)) (first_of ev.event_id none) now
            w.processor.processed q) [ inl same ↦ inl same | inr before ↦ inr (l.rows k before) ]

  IsLinked-Step : {v w : World} → Step env v w → IsLinked v → IsLinked w
  IsLinked-Step {v} (admitting now cr path_key n) l = admit-IsLinked now cr path_key n v l
  IsLinked-Step {v} (signalling ev) l =
      IsLinked-Frame v (enqueue_internal ev v.processor).1
        (enqueue_internal-IsFramed env ev v.processor) l
  IsLinked-Step {v} (taking budget nothing) l = record {
    rows = λ k q. batch-pending k budget v nothing (l.rows k q);
    known = l.known;
  }
  IsLinked-Step {v} (handling h item rest e s) l =
      let p' = (dispatch_or_fail env h item v.processor).1 in
      let settled = dispatch_or_fail-Settles env h item v.processor s in
      record {
        rows = λ k q. rest-pending k item rest v p' e settled l q;
        known = Settles-known item (corr_of env item) v.processor p' settled l.known;
      }
  IsLinked-Step {v} (answering now spec ev corr response) l =
      IsLinked-Frame v (done env now spec ev corr response v.processor).1
        (done-IsFramed env now spec ev corr response v.processor) l
  IsLinked-Step {v} (finishing robot iface corr s now) l =
      IsLinked-Frame v (finish robot iface corr s now v.processor).1
        (finish-IsFramed env robot iface corr s now v.processor) l
  IsLinked-Step {v} (routing t known) l = record { rows = l.rows; known = known }

  IsLinked-Reach : {v w : World} → IsLinked v → Reach env v w → IsLinked w
  IsLinked-Reach l here = l
  IsLinked-Reach l (next r st) = IsLinked-Step st (IsLinked-Reach l r)

  -- No admitted request is forgotten: whatever notifications, catch-up sweeps, internal events,
  -- batches, dispatches (also those that raise), callbacks and changes of the routes follow one
  -- another, starting from a table with no queued row and from routes of known kinds, each row that
  -- is queued has its event in the queue or in the batch that is being dispatched. The handlers of
  -- commands, goals, decisions and changes of QoS, and those of internal events, are only supposed
  -- to make no row queued, take no event out of the queue and leave the routes alone.
  pub Reach-pending :
      (p : InboundProcessor) (w : World)
      → ((k : ProcessedKey) → queued_at k p.processed ≡ false)
      → all_known p.routes.routes ≡ true
      → Reach env (record { processor = p; batch = [] }) w
      → (k : ProcessedKey) → queued_at k w.processor.processed ≡ true
      → is_pending env k w ≡ true
  Reach-pending p w none_queued known r k q =
      let start : World = record { processor = p; batch = [] } in
      let l : IsLinked start = record { rows = λ j h. cc (h, none_queued j); known = known } in
      (IsLinked-Reach l r).rows k q
