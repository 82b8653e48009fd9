-- ===== src/Outbound/Delivery/Persisted.antt =====
-- What `persist_pending` does to the queue and to the spool.
use one_m2m_dds_ipe.Prelude.{
  ℕ, zero, suc, ◌≤◌, String, ◌≡◌, refl, ◌⊎◌, inl, inr, Bool, true, none, some, List, [], ◌∷◌,
  length, keep, Bool-cases, arith,
}
use one_m2m_dds_ipe.Prelude.Dict.{Dict}
use one_m2m_dds_ipe.Prelude.Result.{Result, ok, err}
use one_m2m_dds_ipe.Vocab.{OutboundClass, outbound_classes}
use one_m2m_dds_ipe.Queues.Outbound.{OutboundQueue, pop}
use one_m2m_dds_ipe.Queues.Outbound.Claims.{pending}
use one_m2m_dds_ipe.Queues.Outbound.Ops.{Op, CoalesceKey}
use one_m2m_dds_ipe.State.Spool.{Spool, SpoolLimits, spool_put}
use one_m2m_dds_ipe.Outbound.{OutboundProcessor, spool_key, spool_op}
use one_m2m_dds_ipe.Outbound.Delivery.{is_terminal, persist_loop}

-- `get_nowait` empties the lanes in the order of `pending`.
pop-pending :
    (q : OutboundQueue)
    → ((pop q ≡ none) × (pending q ≡ []))
      ⊎ ((op : Op) × (q' : OutboundQueue) × (pop q ≡ some (op, q')) × (pending q ≡ op ∷ pending q'))
unfolding pop
pop-pending q = by_lanes q.terminal_ops q.latest_ops q.bulk_ops refl refl refl
  where
    by_lanes :
        (ops : List Op) (latest : Dict CoalesceKey Op) (bulk : List Op)
        → q.terminal_ops ≡ ops
        → q.latest_ops ≡ latest
        → q.bulk_ops ≡ bulk
        → ((pop q ≡ none) × (pending q ≡ []))
          ⊎ ((op : Op) × (q' : OutboundQueue) × (pop q ≡ some (op, q'))
              × (pending q ≡ op ∷ pending q'))
    by_lanes (op ∷ ops) latest bulk t l b =
        inr (op, record q { terminal_ops = ops }, ground arith, ground arith)
    by_lanes [] ((k, op) ∷ latest) bulk t l b =
        inr (op, record q { latest_ops = latest }, ground arith, ground arith)
    by_lanes [] [] (op ∷ bulk) t l b =
        inr (op, record q { bulk_ops = bulk }, ground arith, ground arith)
    by_lanes [] [] [] t l b = inl (ground arith, ground arith)

is_terminal-known : (c : OutboundClass) → is_terminal c ≡ true → outbound_classes c ≡ true
unfolding is_terminal outbound_classes
is_terminal-known c h = ground arith

abbrev pub is_terminal_op : Op → Bool
is_terminal_op op = is_terminal op.body.queue_class

module _ (encode : Op → String) (limits : SpoolLimits) (now : ℕ) where
  -- One operation put into the spool, and a list of them, one after the other.
  abbrev put_one : Op → Spool → Spool
  put_one op s =
      elim (spool_put limits op.body.queue_class (some (spool_key op)) (encode op) now s) [
        | err e ↦ s
        | ok (s', dropped) ↦ s'
      ]

  abbrev pub put_all : List Op → Spool → Spool
  put_all [] s = s
  put_all (op ∷ ops) s = put_all ops (put_one op s)

module _ (encode : Op → String) where
  spool_op-put_one :
      (now : ℕ) (op : Op) (p : OutboundProcessor)
      → outbound_classes op.body.queue_class ≡ true
      → spool_op encode now op p
        ≡ (ok tt, record p { spool = put_one encode p.limits now op p.spool; spool_pending = true })
  unfolding spool_op spool_put
  spool_op-put_one now op p known = ground arith

  -- What the loop leaves, if it ends as it should.
  abbrev Persisted : ℕ → OutboundProcessor → Result (Unit {0}) × OutboundProcessor → Type 0
  Persisted now p r =
      (r.0 ≡ ok tt)
      × (pending r.1.queue ≡ [])
      × (r.1.spool ≡ put_all encode p.limits now (keep is_terminal_op (pending p.queue)) p.spool)

  -- `persist_pending` ends with an empty queue, and the spool is what results from putting the
  -- waiting TERMINAL operations into it one by one, in the order of the lanes; as many rounds as
  -- there are waiting operations are enough.
  pub persist_loop-put_all :
      (fuel now : ℕ) (p : OutboundProcessor)
      → length (pending p.queue) ≤ fuel
      → let r = persist_loop encode fuel now p in
        (r.0 ≡ ok tt)
        × (pending r.1.queue ≡ [])
        × (r.1.spool ≡ put_all encode p.limits now (keep is_terminal_op (pending p.queue)) p.spool)
  unfolding persist_loop
  persist_loop-put_all zero now p enough = elim (pop-pending p.queue) [
    | inl (_, e) ↦ (refl, e, ground arith)
    | inr (op, q', _, e) ↦ absurd (ground arith)
  ]
  persist_loop-put_all (suc fuel) now p enough = elim (pop-pending p.queue) [
    | inl (none_left, e) ↦ ground arith
    | inr (op, q', popped, e) ↦ elim (Bool-cases (is_terminal op.body.queue_class)) [
      | inl spools ↦
          let kept : OutboundProcessor = record p {
            queue = q';
            spool = put_one encode p.limits now op p.spool;
            spool_pending = true;
          } in
          let (done, emptied, same) = persist_loop-put_all fuel now kept (ground arith) in
          let put =
            spool_op-put_one now op (record p { queue = q' })
              (is_terminal-known op.body.queue_class spools) in
          ground (arith, put, done, emptied, same)
      | inr passes ↦
          let (done, emptied, same) =
            persist_loop-put_all fuel now (record p { queue = q' }) (ground arith) in
          ground arith
    ]
  ]
