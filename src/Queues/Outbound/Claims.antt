-- ===== src/Queues/Outbound/Claims.antt =====
-- Which operation `claim` returns: the first one, by lane and by age, whose interface is not
-- being served.
use one_m2m_dds_ipe.Prelude.{
  ◌≡◌, refl, ap, ◌∙◌, true, false, none, some, List, [], ◌∷◌, ◌++◌, contains, arith, Bool-cases,
  inl, inr, ◌⊎◌, ◌==◌, ==_refl,
}
use mathlib.Core.List.{append_assoc}
use one_m2m_dds_ipe.Prelude.Dict.{Dict, values, erase, member, NodupKeys}
use one_m2m_dds_ipe.Prelude.Sets.{add}
use one_m2m_dds_ipe.Queues.Outbound.Ops.{
  Op, OrderKey, CoalesceKey, derive_order_key, order_key_equality, coalesce_key_equality,
}
use one_m2m_dds_ipe.Queues.Outbound.{OutboundQueue, pop_free, find_free, pop_claimable, claim_now}

abbrev pub IsBusy : List OrderKey → Op → Type 0
IsBusy active op = contains (derive_order_key op) active ≡ true

abbrev pub IsFree : List OrderKey → Op → Type 0
IsFree active op = contains (derive_order_key op) active ≡ false

abbrev pub AllBusy : List OrderKey → List Op → Type 0
AllBusy active [] = Unit
AllBusy active (op ∷ ops) = IsBusy active op × AllBusy active ops

-- What waits in the queue, in the order in which `claim` looks.
abbrev pub pending : OutboundQueue → List Op
pending q = q.terminal_ops ++ (values q.latest_ops ++ q.bulk_ops)

-- `op` is the first free operation of `ops`, and `rest` is `ops` without it.
pub record IsFirstFree (active : List OrderKey) (ops : List Op) (op : Op) (rest : List Op)
    : Type 0 where
  pub before : List Op
  pub after : List Op
  pub split : ops ≡ before ++ (op ∷ after)
  pub removed : rest ≡ before ++ after
  pub busy : AllBusy active before
  pub free : IsFree active op

module _ (active : List OrderKey) where
  first_free : (op : Op) (ops : List Op) → IsFree active op → IsFirstFree active (op ∷ ops) op ops
  first_free op ops h = record {
    before = [];
    after = ops;
    split = refl;
    removed = refl;
    busy = tt;
    free = h;
  }

  -- A busy operation in front changes nothing.
  skip_busy :
      (o op : Op) (ops rest : List Op)
      → IsBusy active o
      → IsFirstFree active ops op rest
      → IsFirstFree active (o ∷ ops) op (o ∷ rest)
  skip_busy o op ops rest h f = record {
    before = o ∷ f.before;
    after = f.after;
    split = ap (λ l. o ∷ l) f.split;
    removed = ap (λ l. o ∷ l) f.removed;
    busy = (h, f.busy);
    free = f.free;
  }

  skip_lane :
      (lane : List Op) (op : Op) (ops rest : List Op)
      → AllBusy active lane
      → IsFirstFree active ops op rest
      → IsFirstFree active (lane ++ ops) op (lane ++ rest)
  skip_lane [] op ops rest all f = f
  skip_lane (o ∷ lane) op ops rest all f =
      skip_busy o op (lane ++ ops) (lane ++ rest) all.0 (skip_lane lane op ops rest all.1 f)

  -- Neither does what stands behind.
  extend :
      (op : Op) (ops rest more : List Op)
      → IsFirstFree active ops op rest
      → IsFirstFree active (ops ++ more) op (rest ++ more)
  extend op ops rest more f = record {
    before = f.before;
    after = f.after ++ more;
    split = ap (λ l. l ++ more) f.split ∙ append_assoc f.before (op ∷ f.after) more;
    removed = ap (λ l. l ++ more) f.removed ∙ append_assoc f.before f.after more;
    busy = f.busy;
    free = f.free;
  }

  AllBusy-append :
      (xs ys : List Op) → AllBusy active xs → AllBusy active ys → AllBusy active (xs ++ ys)
  AllBusy-append [] ys p q = q
  AllBusy-append (x ∷ xs) ys p q = (p.0, AllBusy-append xs ys p.1 q)

  pop_free-cases :
      (ops : List Op)
      → (pop_free active ops ≡ none) × AllBusy active ops
        ⊎ ((op : Op) × (rest : List Op) × (pop_free active ops ≡ some (op, rest))
            × IsFirstFree active ops op rest)
  unfolding pop_free
  pop_free-cases [] = inl (refl, tt)
  pop_free-cases (op ∷ ops) = elim (Bool-cases (contains (derive_order_key op) active)) [
    | inr h ↦ inr (op, ops, rw h, first_free op ops h)
    | inl h ↦ elim (pop_free-cases ops) [
      | inl (e, all) ↦ inl (rw (h, e), (h, all))
      | inr (o, rest, e, f) ↦ inr (o, op ∷ rest, rw (h, e), skip_busy op o ops rest h f)
    ]
  ]

  find_free-cases :
      (d : Dict CoalesceKey Op)
      → NodupKeys d
      → (find_free active d ≡ none) × AllBusy active (values d)
        ⊎ ((k : CoalesceKey) × (op : Op) × (find_free active d ≡ some (k, op))
            × (member k d ≡ true)
            × IsFirstFree active (values d) op (values (erase k d)))
  unfolding find_free erase member
  find_free-cases [] u = inl (refl, tt)
  find_free-cases ((k, op) ∷ d) u = elim (Bool-cases (contains (derive_order_key op) active)) [
    | inr h ↦ inr (k, op, rw h, rw (==_refl k), rw (==_refl k) (first_free op (values d) h))
    | inl h ↦ elim (find_free-cases d u.1) [
      | inl (e, all) ↦ inl (rw (h, e), (h, all))
      | inr (j, o, e, m, f) ↦
          let differs : (j == k) ≡ false = ground (arith, coalesce_key_equality.equals_iff j k) in
          inr (
            j,
            o,
            rw (h, e),
            rw (differs, m),
            rw differs (skip_busy op o (values d) (values (erase j d)) h f),
          )
    ]
  ]

-- One try of `claim`, its lanes taken as one list: either every pending operation is of an
-- interface that is being served, and there is none to return; or the operation returned is the
-- first of a free interface, in the order TERMINAL, OBSERVE_LATEST, OBSERVE_BULK and oldest
-- first, it alone has left the queue, and its interface is now active.
pub claim-IsFirstFree :
    (q : OutboundQueue)
    → NodupKeys q.latest_ops
    → (claim_now q ≡ none) × AllBusy q.active_keys (pending q)
      ⊎ ((op : Op) × (q' : OutboundQueue) × (claim_now q ≡ some (op, q'))
          × IsFirstFree q.active_keys (pending q) op (pending q')
          × (q'.active_keys ≡ add (derive_order_key op) q.active_keys))
unfolding claim_now pop_claimable
claim-IsFirstFree q u = elim (pop_free-cases q.active_keys q.terminal_ops) [
  | inr (op, rest, e, f) ↦ inr (
    op,
    record q { terminal_ops = rest; active_keys = add (derive_order_key op) q.active_keys },
    ground arith,
    extend q.active_keys op q.terminal_ops rest (values q.latest_ops ++ q.bulk_ops) f,
    refl,
  )
  | inl (e, all) ↦ elim (find_free-cases q.active_keys q.latest_ops u) [
    | inr (k, op, e2, m, f) ↦ inr (
      op,
      record q {
        latest_ops = erase k q.latest_ops;
        active_keys = add (derive_order_key op) q.active_keys;
      },
      ground arith,
      skip_lane q.active_keys q.terminal_ops op _ _ all (extend q.active_keys op _ _ q.bulk_ops f),
      refl,
    )
    | inl (e2, all2) ↦ elim (pop_free-cases q.active_keys q.bulk_ops) [
      | inr (op, rest, e3, f) ↦ inr (
        op,
        record q { bulk_ops = rest; active_keys = add (derive_order_key op) q.active_keys },
        ground arith,
        skip_lane q.active_keys q.terminal_ops op _ _ all
            (skip_lane q.active_keys (values q.latest_ops) op _ _ all2 f),
        refl,
      )
      | inl (e3, all3) ↦ inl (
        ground arith,
        AllBusy-append q.active_keys _ _ all (AllBusy-append q.active_keys _ _ all2 all3),
      )
    ]
  ]
]
