-- ===== src/Outbound/Delivery/Release.antt =====
-- Who holds an operation's interface while it is being sent, and that the hold always ends.
use one_m2m_dds_ipe.Prelude.{
  ℕ, zero, suc, String, ◌≡◌, refl, ap, ◌∙◌, inl, inr, Bool, true, false, not, ◌&&◌, Option, none,
  some, List, contains, Option-cases, arith, if◌then◌else◌, string_equality,
}
use one_m2m_dds_ipe.Prelude.Sets.{add, discard, discard-add}
use one_m2m_dds_ipe.Prelude.Result.{Result, ok, err, Result-cases}
use one_m2m_dds_ipe.Core.Common.{Fields}
use one_m2m_dds_ipe.Vocab.{terminal}
use one_m2m_dds_ipe.Queues.Outbound
use one_m2m_dds_ipe.Queues.Outbound.{OutboundQueue, put}
use one_m2m_dds_ipe.Queues.Outbound.Serial.{active_keys-put, claim_now_free}
use one_m2m_dds_ipe.Queues.Outbound.Ops.{Op, OrderKey, derive_order_key, order_key_equality}
use one_m2m_dds_ipe.Onem2m.Client.{
  Failure, Classification, recoverable, non_recoverable, policy_dependent, classify,
}
use one_m2m_dds_ipe.Outbound.{
  OutboundProcessor, Method, ◌>>=◌, ◌>>◌, return, ensure, spool_op, put_terminal, emit_event,
  mark_cse_available, mark_cse_unavailable, request_recovery,
}
use one_m2m_dds_ipe.Outbound.Events.{emit_event-cases}
use one_m2m_dds_ipe.Outbound.Delivery.{
  Attempt, send_operation, is_expired, is_terminal, is_response, report_dropped_op, failed,
  classified, sent, attempt, deliver, send_with_retry, release_op, work_once,
}
use one_m2m_dds_ipe.Outbound.Delivery.Attempts.{report-cases}

abbrev pub keys : OutboundProcessor → List OrderKey
keys p = p.queue.active_keys

-- The method leaves the active interfaces as they were, also if it raises.
abbrev pub Keeps : {A : Type 0} → Method A → Type 0
Keeps m = (p : OutboundProcessor) → keys (m p).1 ≡ keys p

then-Keeps :
    {A B : Type 0} (f : A → Method B) (r : Result A) (p : OutboundProcessor)
    → ((a : A) → Keeps (f a))
    → keys (((λ q. (r, q)) >>= f) p).1 ≡ keys p
then-Keeps f (ok a) p h = h a p
then-Keeps f (err e) p h = refl

pub bind-Keeps :
    {A B : Type 0} (m : Method A) (f : A → Method B)
    → Keeps m
    → ((a : A) → Keeps (f a))
    → Keeps (m >>= f)
bind-Keeps m f h k p = then-Keeps f (m p).0 (m p).1 k ∙ h p

pub if-Keeps :
    {A : Type 0} (b : Bool) (m n : Method A) → Keeps m → Keeps n → Keeps (if b then m else n)
if-Keeps true m n h k p = h p
if-Keeps false m n h k p = k p

module _ (encode : Op → String) where
  spool_op-Keeps : (now : ℕ) (op : Op) → Keeps (spool_op encode now op)
  unfolding spool_op
  spool_op-Keeps now op p = ground arith

  put_terminal-Keeps : (now : ℕ) (op : Op) → Keeps (put_terminal encode now op)
  unfolding put_terminal
  put_terminal-Keeps now op p = elim (Result-cases (put op terminal none p.queue)) [
    | inl (e, h) ↦ rw (h, put_terminal) refl
    | inr ((q, true), h) ↦ rw (h, put_terminal) (active_keys-put op terminal none p.queue q true h)
    | inr ((q, false), h) ↦
        rw (h, put_terminal)
          (spool_op-Keeps now op (record p { queue = q })
            ∙ active_keys-put op terminal none p.queue q false h)
  ]

  emit_event-Keeps :
      (now : ℕ) (category severity : String) (payload : Fields)
      → Keeps (emit_event encode now category severity payload)
  emit_event-Keeps now category severity payload p =
      elim (emit_event-cases encode now category severity payload p) [
        | inl e ↦ ap (λ r. keys r.1) e
        | inr (op, _, e) ↦ ap (λ r. keys r.1) e ∙ put_terminal-Keeps now op p
      ]

  report-Keeps : (now : ℕ) (op : Op) → Keeps (report_dropped_op encode now op)
  report-Keeps now op p = elim (report-cases encode now op p) [
    | inl e ↦ ap (λ r. keys r.1) e
    | inr (payload, e) ↦ ap (λ r. keys r.1) e ∙ emit_event-Keeps now "ipeHealth" "error" payload p
  ]

  available-Keeps : Keeps mark_cse_available
  unfolding mark_cse_available
  available-Keeps p = ground arith

  -- The rest of the loop, where there is one, keeps the interfaces.
  abbrev AgainKeeps : Option (Method Bool) → Type 0
  AgainKeeps none = Unit
  AgainKeeps (some m) = Keeps m

  failed-Keeps :
      (op : Op) (a : Attempt) (again : Option (Method Bool)) (failure : Failure)
      (class : Classification)
      → AgainKeeps again
      → Keeps (failed encode op a again failure class)
  unfolding failed mark_cse_unavailable request_recovery
  failed-Keeps op a again failure non_recoverable h =
      let reports : Method Bool = report_dropped_op encode a.now op >> return true in
      let availability : Method Bool =
        if is_response failure then mark_cse_available else return true in
      bind-Keeps availability (λ b. reports)
        (if-Keeps (is_response failure) mark_cse_available (return true) available-Keeps
          (λ p. refl))
        (λ b.
          bind-Keeps (report_dropped_op encode a.now op) (λ u. return true) (report-Keeps a.now op)
            (λ u p. refl))
  failed-Keeps op a again failure policy_dependent h =
      let requests : Bool → Method (Unit {0}) =
        λ recovered. if recovered then return tt else request_recovery "reconcile" in
      bind-Keeps mark_cse_available (λ recovered. requests recovered >> return false)
        available-Keeps
        (λ recovered.
          bind-Keeps (requests recovered) (λ u. return false)
            (if-Keeps recovered (return tt) (request_recovery "reconcile") (λ p. refl) (λ p. refl))
            (λ u p. refl))
  failed-Keeps op a none failure recoverable h = λ p. refl
  failed-Keeps op a (some m) failure recoverable h =
      if-Keeps a.stopped_in_wait (return false) m (λ p. refl) h

  sent-Keeps :
      (op : Op) (a : Attempt) (again : Option (Method Bool)) (outcome : Result (Option Failure))
      → AgainKeeps again
      → Keeps (sent encode op a again outcome)
  unfolding sent classified
  sent-Keeps op a again (err e) h = λ p. refl
  sent-Keeps op a again (ok none) h =
      bind-Keeps mark_cse_available (λ u. return true) available-Keeps (λ u p. refl)
  sent-Keeps op a again (ok (some failure)) h = classified-Keeps (classify failure)
    where
      classified-Keeps :
          (r : Result Classification) → Keeps (classified encode op a again failure r)
      classified-Keeps (err e) = λ p. refl
      classified-Keeps (ok class) = failed-Keeps op a again failure class h

  attempt-Keeps :
      (op : Op) (a : Attempt) (again : Option (Method Bool))
      → AgainKeeps again
      → Keeps (attempt encode op a again)
  unfolding attempt
  attempt-Keeps op a again h =
      let request : Method Bool = sent encode op a again (send_operation op a.reply) in
      if-Keeps a.stopping (return false) (if is_expired op a.now then return true else request)
        (λ p. refl)
        (if-Keeps (is_expired op a.now) (return true) request (λ p. refl)
          (sent-Keeps op a again (send_operation op a.reply) h))

  pub deliver-Keeps :
      (op : Op) (world : ℕ → Attempt) (retries k : ℕ) → Keeps (deliver encode op world retries k)
  unfolding deliver
  deliver-Keeps op world zero k = attempt-Keeps op (world k) none tt
  deliver-Keeps op world (suc retries) k =
      attempt-Keeps op (world k) (some (deliver encode op world retries (suc k)))
        (deliver-Keeps op world retries (suc k))

  send_with_retry-Keeps :
      (op : Op) (world : ℕ → Attempt) (retries now : ℕ)
      → Keeps (send_with_retry encode op world retries now)
  unfolding send_with_retry
  send_with_retry-Keeps op world retries now =
      let ends : Bool → Method (Unit {0}) = λ consumed.
        if not consumed && is_terminal op.body.queue_class
        then spool_op encode now op
        else return tt in
      bind-Keeps (deliver encode op world retries 0) ends (deliver-Keeps op world retries 0)
        (λ consumed.
          if-Keeps (not consumed && is_terminal op.body.queue_class) (spool_op encode now op)
            (return tt) (spool_op-Keeps now op) (λ p. refl))

  -- An interface that was taken for the time of `m` is free again afterwards.
  pub held-Keeps :
      {A : Type 0} (op : Op) (m : Method A) (p q : OutboundProcessor)
      → Keeps m
      → contains (derive_order_key op) (keys p) ≡ false
      → keys q ≡ add (derive_order_key op) (keys p)
      → keys (ensure (release_op encode op) m q).1 ≡ keys p
  unfolding Outbound.release
  held-Keeps op m p q h free taken =
      ap (discard (derive_order_key op)) (h q ∙ taken)
      ∙ discard-add (derive_order_key op) (keys p) free

  -- Whatever an operation's attempts meet, exceptions included, a worker's round leaves the active
  -- interfaces as they were.
  pub work_once-releases :
      (world : ℕ → Attempt) (retries now : ℕ) (p : OutboundProcessor)
      → (work_once encode world retries now p).1.queue.active_keys ≡ p.queue.active_keys
  unfolding work_once
  work_once-releases world retries now p = elim (Option-cases (Outbound.claim_now p.queue)) [
    | inl e ↦ rw (e, work_once) refl
    | inr ((op, queue), e) ↦
        let (free, taken) = claim_now_free p.queue queue op e in
        rw (e, work_once)
          (held-Keeps op (send_with_retry encode op world retries now) p
            (record p { queue = queue }) (send_with_retry-Keeps op world retries now) free taken)
  ]
