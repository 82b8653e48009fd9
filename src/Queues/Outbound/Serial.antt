-- ===== src/Queues/Outbound/Serial.antt =====
-- The operations that senders hold between `claim` and `release`.
use one_m2m_dds_ipe.Prelude.{
  ◌≡◌, ap, sym, ◌∙◌, subst, ==_cases, Bool, true, false, Option, none, some, List, [], ◌∷◌, ◌++◌,
  map, contains, arith, inl, inr,
}
use mathlib.Core.List.{map-append}
use one_m2m_dds_ipe.Vocab.{OutboundClass, terminal, observe_latest, observe_bulk}
use one_m2m_dds_ipe.Prelude.Dict.{Dict}
use one_m2m_dds_ipe.Prelude.Result.{ok}
use one_m2m_dds_ipe.Prelude.Sets.{
  add, discard, Distinct, add-Distinct, contains-add, contains-discard_ne, contains-discard_self,
  discard-Distinct, contains-middle, Distinct-middle,
}
use one_m2m_dds_ipe.Queues.Outbound.Ops.{
  Op, OrderKey, CoalesceKey, derive_order_key, order_key_equality, coalesce_key_equality,
}
use one_m2m_dds_ipe.Queues.Outbound.{
  OutboundQueue, put, pop_free, find_free, pop, pop_claimable, claim_now, try_claim, release,
}

-- The queue with the operations that are claimed or reserved and not yet released.
pub record World : Type 0 where
  pub queue : OutboundQueue
  pub held : List Op

pub data Step (w : World) : World → Type 0 where
  putting :
      (op : Op) (c : OutboundClass) (key : Option CoalesceKey) (q : OutboundQueue) (b : Bool)
      → put op c key w.queue ≡ ok (q, b)
      → Step w (record w { queue = q })
  getting :
      (op : Op) (q : OutboundQueue) → pop w.queue ≡ some (op, q) → Step w (record w { queue = q })
  claiming :
      (op : Op) (q : OutboundQueue)
      → claim_now w.queue ≡ some (op, q)
      → Step w (record { queue = q; held = op ∷ w.held })
  reserving :
      (op : Op) (q : OutboundQueue)
      → try_claim op w.queue ≡ (q, true)
      → Step w (record { queue = q; held = op ∷ w.held })
  releasing :
      (op : Op) (before after : List Op)
      → w.held ≡ before ++ (op ∷ after)
      → Step w (record { queue = release op w.queue; held = before ++ after })

pub data Reach (w : World) : World → Type 0 where
  here : Reach w w
  next : {u v : World} → Reach w u → Step u v → Reach w v

abbrev pub held_keys : List Op → List OrderKey
held_keys ops = map derive_order_key ops

pub record IsSerial (w : World) : Type 0 where
  pub keys_distinct : Distinct (held_keys w.held)
  pub active_distinct : Distinct w.queue.active_keys
  pub same : (k : OrderKey) → contains k w.queue.active_keys ≡ contains k (held_keys w.held)

pub active_keys-put :
    (op : Op) (c : OutboundClass) (key : Option CoalesceKey) (q q' : OutboundQueue) (b : Bool)
    → put op c key q ≡ ok (q', b)
    → q'.active_keys ≡ q.active_keys
unfolding put
active_keys-put op terminal key q q' b h = ground arith
active_keys-put op observe_latest key q q' b h = ground arith
active_keys-put op observe_bulk key q q' b h = ground arith
active_keys-put op (OutboundClass.unlisted s) key q q' b h = cc

active_keys-pop :
    (op : Op) (q q' : OutboundQueue) → pop q ≡ some (op, q') → q'.active_keys ≡ q.active_keys
unfolding pop
active_keys-pop op q q' h = ground arith

abbrev PopsFree : List OrderKey → Option (Op × List Op) → Type 0
PopsFree active none = Unit
PopsFree active (some (op, rest)) = contains (derive_order_key op) active ≡ false

abbrev FindsFree : List OrderKey → Option (CoalesceKey × Op) → Type 0
FindsFree active none = Unit
FindsFree active (some (k, op)) = contains (derive_order_key op) active ≡ false

pop_free-PopsFree : (active : List OrderKey) (ops : List Op) → PopsFree active (pop_free active ops)
unfolding pop_free
pop_free-PopsFree active [] = tt
pop_free-PopsFree active (o ∷ ops) = ground (arith, pop_free-PopsFree active ops)

find_free-FindsFree :
    (active : List OrderKey) (d : Dict CoalesceKey Op) → FindsFree active (find_free active d)
unfolding find_free
find_free-FindsFree active [] = tt
find_free-FindsFree active ((j, o) ∷ d) = ground (arith, find_free-FindsFree active d)

pub claim_now_free :
    (q q' : OutboundQueue) (op : Op)
    → claim_now q ≡ some (op, q')
    → (contains (derive_order_key op) q.active_keys ≡ false)
      × (q'.active_keys ≡ add (derive_order_key op) q.active_keys)
unfolding claim_now pop_claimable
claim_now_free q q' op h = ground (
  arith,
  pop_free-PopsFree q.active_keys q.terminal_ops,
  find_free-FindsFree q.active_keys q.latest_ops,
  pop_free-PopsFree q.active_keys q.bulk_ops,
)

pub try_claim_free :
    (q q' : OutboundQueue) (op : Op)
    → try_claim op q ≡ (q', true)
    → (contains (derive_order_key op) q.active_keys ≡ false)
      × (q'.active_keys ≡ add (derive_order_key op) q.active_keys)
unfolding try_claim
try_claim_free q q' op h = ground arith

release_same :
    (j k : OrderKey) (active held left xs ys : List OrderKey)
    → held ≡ xs ++ (k ∷ ys)
    → left ≡ xs ++ ys
    → contains k (xs ++ ys) ≡ false
    → Distinct active
    → contains j active ≡ contains j held
    → contains j (discard k active) ≡ contains j left
release_same j k active held left xs ys e f gone d h = elim (==_cases j k) [
  | inl (same, p) ↦ rw (p, f, contains-discard_self k active d, gone)
  | inr (differs, n) ↦
      rw (contains-discard_ne j k active differs, h, e, f, contains-middle j k xs ys, differs)
]

IsSerial-same :
    (w : World) (q : OutboundQueue)
    → q.active_keys ≡ w.queue.active_keys
    → IsSerial w
    → IsSerial (record w { queue = q })
IsSerial-same w q e s = record {
  keys_distinct = s.keys_distinct;
  active_distinct = rw e s.active_distinct;
  same = λ k. rw e (s.same k);
}

IsSerial-add :
    (w : World) (op : Op) (q : OutboundQueue)
    → contains (derive_order_key op) w.queue.active_keys ≡ false
    → q.active_keys ≡ add (derive_order_key op) w.queue.active_keys
    → IsSerial w
    → IsSerial (record { queue = q; held = op ∷ w.held })
IsSerial-add w op q free e s = record {
  keys_distinct = (sym (s.same (derive_order_key op)) ∙ free, s.keys_distinct);
  active_distinct = rw e (add-Distinct (derive_order_key op) w.queue.active_keys s.active_distinct);
  same = λ k. rw (e, contains-add, s.same k);
}

IsSerial-release :
    (w : World) (op : Op) (before after : List Op)
    → w.held ≡ before ++ (op ∷ after)
    → IsSerial w
    → IsSerial (record { queue = release op w.queue; held = before ++ after })
unfolding release
IsSerial-release w op before after e s =
    let k = derive_order_key op in
    let xs = held_keys before in
    let ys = held_keys after in
    let held : held_keys w.held ≡ xs ++ (k ∷ ys) =
      ap held_keys e ∙ map-append derive_order_key before (op ∷ after) in
    let left : held_keys (before ++ after) ≡ xs ++ ys = map-append derive_order_key before after in
    let (gone, distinct) = Distinct-middle k xs ys (subst Distinct held s.keys_distinct) in
    record {
      keys_distinct = subst Distinct (sym left) distinct;
      active_distinct = discard-Distinct k w.queue.active_keys s.active_distinct;
      same = λ j.
          release_same j k w.queue.active_keys (held_keys w.held) (held_keys (before ++ after)) xs
            ys held left gone s.active_distinct (s.same j);
    }

IsSerial-Step : {v w : World} → Step v w → IsSerial v → IsSerial w
IsSerial-Step {v} (putting op c key q b h) s =
    IsSerial-same v q (active_keys-put op c key v.queue q b h) s
IsSerial-Step {v} (getting op q h) s = IsSerial-same v q (active_keys-pop op v.queue q h) s
IsSerial-Step {v} (claiming op q h) s =
    let (free, e) = claim_now_free v.queue q op h in IsSerial-add v op q free e s
IsSerial-Step {v} (reserving op q h) s =
    let (free, e) = try_claim_free v.queue q op h in IsSerial-add v op q free e s
IsSerial-Step {v} (releasing op before after h) s = IsSerial-release v op before after h s

IsSerial-Reach : {v w : World} → IsSerial v → Reach v w → IsSerial w
IsSerial-Reach s here = s
IsSerial-Reach s (next r st) = IsSerial-Step st (IsSerial-Reach s r)

-- However puts, gets, claims, reservations and releases of several threads follow one another,
-- starting from a queue with no active interface and nothing held, the operations held at one
-- time are of different robot interfaces, and the active set holds the interfaces of exactly
-- those operations.
pub Reach-serial :
    (q : OutboundQueue) (w : World)
    → q.active_keys ≡ []
    → Reach (record { queue = q; held = [] }) w
    → Distinct (held_keys w.held)
      × ((k : OrderKey) → contains k w.queue.active_keys ≡ contains k (held_keys w.held))
Reach-serial q w e r =
    let s =
      IsSerial-Reach (record { keys_distinct = tt; active_distinct = rw e tt; same = λ k. rw e })
        r in
    (s.keys_distinct, s.same)
