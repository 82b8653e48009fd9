-- ===== src/Outbound/Delivery/Draining.antt =====
-- The replay of the spool.
use one_m2m_dds_ipe.Prelude.{
  String, ◌≡◌, refl, ◌∙◌, ◌⊎◌, inl, inr, Bool, true, false, none, List, [], ◌∷◌, arith,
  if◌then◌else◌, string_equality,
}
use one_m2m_dds_ipe.Prelude.Result.{Result, Result-cases}
use one_m2m_dds_ipe.Queues.Outbound
use one_m2m_dds_ipe.Queues.Outbound.{OutboundQueue, put}
use one_m2m_dds_ipe.Queues.Outbound.Serial.{try_claim_free}
use one_m2m_dds_ipe.Queues.Outbound.Ops.{Op, order_key_equality}
use one_m2m_dds_ipe.State.Spool.{SpoolRow, spool_list}
use one_m2m_dds_ipe.Outbound.{OutboundProcessor, Method, ◌>>=◌, ◌>>◌, return}
use one_m2m_dds_ipe.Outbound.Delivery.{
  Attempt, deliver, delete_row, is_invalid, raised, replay_row, replay, rearm, drain_spool,
}
use one_m2m_dds_ipe.Outbound.Delivery.Release.{
  keys, Keeps, bind-Keeps, if-Keeps, deliver-Keeps, held-Keeps,
}

pair-cases :
    {A : Type 0} (r : A × Bool) → ((a : A) × (r ≡ (a, true))) ⊎ ((a : A) × (r ≡ (a, false)))
pair-cases (a, true) = inl (a, refl)
pair-cases (a, false) = inr (a, refl)

List-cases : {A : Type 0} (xs : List A) → (xs ≡ []) ⊎ ((x : A) × (rest : List A) × (xs ≡ x ∷ rest))
List-cases [] = inl refl
List-cases (x ∷ rest) = inr (x, rest, refl)

try_claim_busy :
    (q q' : OutboundQueue) (op : Op)
    → Outbound.try_claim op q ≡ (q', false)
    → q'.active_keys ≡ q.active_keys
unfolding Outbound.try_claim
try_claim_busy q q' op h = ground arith

module _ (encode : Op → String) where
  delete_row-Keeps : (row : SpoolRow) → Keeps (delete_row encode row)
  delete_row-Keeps row p = refl

  replayed : (op : Op) → Attempt → SpoolRow → Method Bool
  replayed op a row = deliver encode op (λ _. a) 0 0 >>= λ consumed.
      if consumed then delete_row encode row >> return true else return false

  replayed-Keeps : (op : Op) (a : Attempt) (row : SpoolRow) → Keeps (replayed op a row)
  unfolding replayed
  replayed-Keeps op a row =
      bind-Keeps (deliver encode op (λ _. a) 0 0)
        (λ consumed. if consumed then delete_row encode row >> return true else return false)
        (deliver-Keeps encode op (λ _. a) 0 0)
        (λ consumed.
          if-Keeps consumed (delete_row encode row >> return true) (return false) (λ p. refl)
            (λ p. refl))

  replay_row-Keeps :
      (decode : SpoolRow → Result Op) (a : Attempt) (row : SpoolRow)
      → Keeps (replay_row encode decode a row)
  unfolding replayed replay_row
  replay_row-Keeps decode a row p = elim (Result-cases (decode row)) [
    | inl (e, h) ↦
        rw (h, replay_row)
          (if-Keeps (is_invalid encode e) (delete_row encode row >> return true) (raised e)
            (λ p. refl) (λ p. refl) p)
    | inr (op, h) ↦ elim (pair-cases (Outbound.try_claim op p.queue)) [
      | inl (queue, e) ↦
          let (free, taken) = try_claim_free p.queue queue op e in
          rw (h, replay_row, e)
            (held-Keeps encode op (replayed op a row) p (record p { queue = queue })
              (replayed-Keeps op a row) free taken)
      | inr (queue, e) ↦ rw (h, replay_row, e) (try_claim_busy p.queue queue op e)
    ]
  ]

  replay-Keeps :
      (decode : SpoolRow → Result Op) (stops : SpoolRow → Bool) (world : SpoolRow → Attempt)
      (rows : List SpoolRow)
      → Keeps (replay encode decode stops world rows)
  unfolding replay
  replay-Keeps decode stops world [] = λ p. refl
  replay-Keeps decode stops world (row ∷ rows) =
      let rest = replay encode decode stops world rows in
      let later : Bool → Method (Unit {0}) = λ go_on. if go_on then rest else return tt in
      if-Keeps (stops row) (return tt) (replay_row encode decode (world row) row >>= later)
        (λ p. refl)
        (bind-Keeps (replay_row encode decode (world row) row) later
          (replay_row-Keeps decode (world row) row)
          (λ go_on.
            if-Keeps go_on rest (return tt) (replay-Keeps decode stops world rows) (λ p. refl)))

  rearm-keys : (p : OutboundProcessor) → keys (rearm encode p) ≡ keys p
  unfolding rearm
  rearm-keys p = ground arith

  rearm-pending :
      (p : OutboundProcessor)
      → ((rearm encode p).spool.rows ≡ []) ⊎ ((rearm encode p).spool_pending ≡ true)
  unfolding rearm spool_list
  rearm-pending p = elim (List-cases p.spool.rows) [
    | inl e ↦ inl (ground arith)
    | inr (row, rows, e) ↦ inr (ground arith)
  ]

  -- Whatever the rows hold and their attempts meet, exceptions included, a replay of the spool
  -- leaves the active interfaces as they were; and if rows are left, the wake-up for the next
  -- replay is set.
  pub drain_spool-resumes :
      (decode : SpoolRow → Result Op) (stops : SpoolRow → Bool) (world : SpoolRow → Attempt)
      (p : OutboundProcessor)
      → let p' = (drain_spool encode decode stops world p).1 in
        (p'.queue.active_keys ≡ p.queue.active_keys)
        × ((p'.spool.rows ≡ []) ⊎ (p'.spool_pending ≡ true))
  unfolding drain_spool
  drain_spool-resumes decode stops world p =
      let start : OutboundProcessor = record p { spool_pending = false } in
      let rows = spool_list 20 none p.spool in
      let after = (replay encode decode stops world rows start).1 in
      (rearm-keys after ∙ replay-Keeps decode stops world rows start, rearm-pending after)
