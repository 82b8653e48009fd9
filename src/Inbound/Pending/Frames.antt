-- ===== src/Inbound/Pending/Frames.antt =====
-- The methods that run between admission and dispatch make no row queued and take no event out.
use one_m2m_dds_ipe.Prelude.{
  ℕ, String, ◌≡◌, refl, sym, ◌∙◌, subst, inl, inr, Bool, true, false, string_equality,
  pair_equality, if◌then◌else◌,
}
use one_m2m_dds_ipe.Prelude.Effect.{◌>>=◌, return}
use one_m2m_dds_ipe.Prelude.Result.{Result, ok, err, Result-cases}
use one_m2m_dds_ipe.Core.Common.{Fields}
use one_m2m_dds_ipe.Vocab.{ProcessedState}
use one_m2m_dds_ipe.State.Admission
use one_m2m_dds_ipe.State.Admission.{ProcessedKey, Processed}
use one_m2m_dds_ipe.State.Admission.Machine.{or_unchanged}
use one_m2m_dds_ipe.Inbound.{Environment, InboundProcessor, Method, emit_event, finish}
use one_m2m_dds_ipe.Inbound.Pending.{queued_at, in_queue, Frame, IsFramed}
use one_m2m_dds_ipe.Inbound.Pending.Tables.{finish-queued}

module _ (env : Environment) where
  pub Frame-of :
      (p p' : InboundProcessor)
      → p'.processed ≡ p.processed
      → p'.queue ≡ p.queue
      → p'.routes ≡ p.routes
      → Frame env p p'
  Frame-of p p' t q r = record {
    rows = λ k h. subst (λ t. queued_at k t ≡ true) t h;
    events = λ k h. subst (λ q. in_queue env k q ≡ true) (sym q) h;
    routes = r;
  }

  pub Frame-trans : {p q r : InboundProcessor} → Frame env p q → Frame env q r → Frame env p r
  Frame-trans f g = record {
    rows = λ k h. f.rows k (g.rows k h);
    events = λ k h. g.events k (f.events k h);
    routes = g.routes ∙ f.routes;
  }

  then-Frame :
      {A B : Type 0} (f : A → Method B) (a : Result A) (p : InboundProcessor)
      → ((a : A) → IsFramed env (f a))
      → Frame env p (((λ q. (a, q)) >>= f) p).1
  then-Frame f (ok a) p h = h a p
  then-Frame f (err e) p h = Frame-of p p refl refl refl

  pub bind-IsFramed :
      {A B : Type 0} (m : Method A) (f : A → Method B)
      → IsFramed env m
      → ((a : A) → IsFramed env (f a))
      → IsFramed env (m >>= f)
  bind-IsFramed m f h k p = Frame-trans (h p) (then-Frame f (m p).0 (m p).1 k)

  pub if-IsFramed :
      {A : Type 0} (b : Bool) (m n : Method A)
      → IsFramed env m
      → IsFramed env n
      → IsFramed env (if b then m else n)
  if-IsFramed true m n h k = h
  if-IsFramed false m n h k = k

  pub if-Frame :
      {A : Type 0} (b : Bool) (p : InboundProcessor) (r s : Result A × InboundProcessor)
      → Frame env p r.1
      → Frame env p s.1
      → Frame env p (if b then r else s).1
  if-Frame true p r s h k = h
  if-Frame false p r s h k = k

  pub return-IsFramed : {A : Type 0} (a : A) → IsFramed env (return a)
  return-IsFramed a p = Frame-of p p refl refl refl

  pub emit_event-IsFramed :
      (now : ℕ) (category severity : String) (payload : Fields)
      → IsFramed env (emit_event env now category severity payload)
  unfolding emit_event
  emit_event-IsFramed now category severity payload p =
      Frame-of p (emit_event env now category severity payload p).1 refl refl refl

  finished :
      (p p' : InboundProcessor) (key : ProcessedKey) (s : ProcessedState) (ts : ℕ)
      → p'.processed ≡ or_unchanged p.processed (Admission.finish key s ts p.processed)
      → p'.queue ≡ p.queue
      → p'.routes ≡ p.routes
      → Frame env p p'
  finished p p' key s ts t q r = record {
    rows = λ k h. finish-queued k key s ts p.processed (subst (λ t. queued_at k t ≡ true) t h);
    events = λ k h. subst (λ q. in_queue env k q ≡ true) (sym q) h;
    routes = r;
  }

  pub finish-IsFramed :
      (robot iface corr : String) (s : ProcessedState) (ts : ℕ)
      → IsFramed env (finish robot iface corr s ts)
  unfolding finish
  finish-IsFramed robot iface corr s ts p =
      let key : ProcessedKey = record { robot_id = robot; interface = iface; corr_id = corr } in
      elim (Result-cases (Admission.finish key s ts p.processed)) [
        | inl (e, h) ↦
            finished p (finish robot iface corr s ts p).1 key s ts (rw (h, finish) refl)
              (rw (h, finish) refl) (rw (h, finish) refl)
        | inr ((t, b), h) ↦
            finished p (finish robot iface corr s ts p).1 key s ts (rw (h, finish) refl)
              (rw (h, finish) refl) (rw (h, finish) refl)
      ]
