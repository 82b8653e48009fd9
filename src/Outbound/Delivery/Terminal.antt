-- ===== src/Outbound/Delivery/Terminal.antt =====
-- A TERMINAL operation is never lost: what `_send_with_retry` does not consume is in the spool.
use one_m2m_dds_ipe.Prelude.{
  ℕ, zero, suc, ◌+◌, ◌≤◌, ◌<◌, String, ◌≡◌, refl, sym, ap, ◌∙◌, subst, ◌⊎◌, inl, inr, Bool, true,
  false, not, ◌&&◌, none, some, List, [], ◌∷◌, ◌++◌, arith, if◌then◌else◌, string_equality,
}
use one_m2m_dds_ipe.Prelude.Result.{Result, ok}
use one_m2m_dds_ipe.Vocab.{terminal, outbound_classes}
use one_m2m_dds_ipe.Queues.Outbound.Ops.{Op}
use one_m2m_dds_ipe.State.Spool.{Spool, SpoolRow}
use one_m2m_dds_ipe.State.Spool.Limits.{new_row, IsSpool, spool_put_lem}
use one_m2m_dds_ipe.Outbound.{OutboundProcessor, Method, return, spool_key, spool_op}
use one_m2m_dds_ipe.Outbound.Delivery.{Attempt, is_terminal, attempt, deliver, send_with_retry}
use one_m2m_dds_ipe.Outbound.Delivery.Attempts.{
  Answered, Consumes, Retained, some-injective, bind-ok, attempt-cases,
}

module _ (encode : Op → String) where
  -- Some attempt of those that `retries` allows, from the number `k` on, consumes the operation.
  abbrev pub Consumed : Op → (ℕ → Attempt) → ℕ → ℕ → Type 0
  Consumed op world retries k = (j : ℕ) × (k ≤ j) × (j ≤ k + retries) × Consumes op (world j)

  module _ (op : Op) (world : ℕ → Attempt) (answered : (j : ℕ) → Answered op (world j)) where
    pub deliver-cases :
        (retries k : ℕ) (p : OutboundProcessor)
        → (((deliver encode op world retries k p).0 ≡ ok true) × Consumed op world retries k)
          ⊎ Retained p (deliver encode op world retries k p)
    unfolding deliver
    deliver-cases zero k p = elim (attempt-cases encode op (world k) none p (answered k)) [
      | inl (e, c) ↦ inl (e, (k, omega arith, omega arith, c))
      | inr (inl kept) ↦ inr kept
      | inr (inr (next, e, _)) ↦ absurd (cc e)
    ]
    deliver-cases (suc retries) k p =
        let later = deliver-cases retries (suc k) p in
        elim (attempt-cases encode op (world k) (some (deliver encode op world retries (suc k))) p
          (answered k)) [
            | inl (e, c) ↦ inl (e, (k, omega arith, omega arith, c))
            | inr (inl kept) ↦ inr kept
            | inr (inr (next, e, same)) ↦
                let again : attempt encode op (world k)
                      (some (deliver encode op world retries (suc k))) p
                    ≡ deliver encode op world retries (suc k) p =
                  same ∙ ap (λ (m : Method Bool). m p) (some-injective _ _ (sym e)) in
                elim later [
                  | inl (done, (j, low, high, c)) ↦
                      inl (ap (λ r. r.0) again ∙ done, (j, omega arith, omega arith, c))
                  | inr kept ↦ inr (subst (Retained p) (sym again) kept)
                ]
          ]

  -- The last row of the spool is this operation's.
  abbrev pub IsLastRow : ℕ → Op → Spool → OutboundProcessor → Type 0
  IsLastRow now op s p' =
      (kept : List SpoolRow) × (p'.spool.rows
        ≡ kept ++ (new_row op.body.queue_class (some (spool_key op)) (encode op) now s ∷ []))
      × (p'.spool_pending ≡ true)

  spool_op-IsLastRow :
      (now : ℕ) (op : Op) (p : OutboundProcessor)
      → outbound_classes op.body.queue_class ≡ true
      → 0 < p.spool.next_id
      → IsSpool p.spool.rows p.spool.next_id
      → ((spool_op encode now op p).0 ≡ ok tt)
        × IsLastRow now op p.spool (spool_op encode now op p).1
  unfolding spool_op
  spool_op-IsLastRow now op p known pos sound =
      let (kept, dropped, e, _, _, _) =
        spool_put_lem p.limits op.body.queue_class (some (spool_key op)) (encode op) now p.spool
          known pos sound in
      (ground arith, (kept, ground arith, ground arith))

  known : outbound_classes terminal ≡ true
  unfolding outbound_classes
  known = refl

  spools :
      (now : ℕ) (op : Op) (p : OutboundProcessor)
      → (if true && is_terminal terminal then spool_op encode now op else return tt) p
        ≡ spool_op encode now op p
  unfolding is_terminal
  spools now op p = refl

  -- If every attempt is answered in a way that can be classified, sending a TERMINAL operation
  -- returns, and either an attempt consumes it (it has expired, is sent, or is rejected for good)
  -- or it is the last row of the spool, which is to be replayed.
  pub send_with_retry-terminal :
      (op : Op) (world : ℕ → Attempt) (retries now : ℕ) (p : OutboundProcessor)
      → ((j : ℕ) → Answered op (world j))
      → op.body.queue_class ≡ terminal
      → 0 < p.spool.next_id
      → IsSpool p.spool.rows p.spool.next_id
      → let sent = send_with_retry encode op world retries now p in
        (sent.0 ≡ ok tt) × (Consumed op world retries 0 ⊎ IsLastRow now op p.spool sent.1)
  unfolding send_with_retry
  send_with_retry-terminal op world retries now p answered class pos sound =
      let d = deliver encode op world retries 0 p in
      let ends : Bool → Method (Unit {0}) = λ consumed.
        if not consumed && is_terminal op.body.queue_class
        then spool_op encode now op
        else return tt in
      elim (deliver-cases op world answered retries 0 p) [
        | inl (e, c) ↦
            (ap (λ r. r.0) (bind-ok (deliver encode op world retries 0) ends p true e), inl c)
        | inr (e, spool, limits) ↦
            let kept =
              spool_op-IsLastRow now op d.1
                (subst (λ c. outbound_classes c ≡ true) (sym class) known)
                (subst (λ (s : Spool). 0 < s.next_id) (sym spool) pos)
                (subst (λ (s : Spool). IsSpool s.rows s.next_id) (sym spool) sound) in
            let same =
              bind-ok (deliver encode op world retries 0) ends p false e
              ∙ ap (λ c. (if true && is_terminal c then spool_op encode now op else return tt) d.1)
                  class
              ∙ spools now op d.1 in
            (
              ap (λ r. r.0) same ∙ kept.0,
              inr (
                  subst
                    (λ (r : Result (Unit {0}) × OutboundProcessor). IsLastRow now op p.spool r.1)
                    (sym same)
                    (subst (λ s. IsLastRow now op s (spool_op encode now op d.1).1) spool kept.1)),
            )
      ]
