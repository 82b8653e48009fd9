-- ===== src/Queues/Outbound.antt =====
-- `OutboundQueue` of src/ipe/runtime/queues.py: three lanes with a policy each, and the set of
-- robot interfaces whose operation is being sent.
pub mod Ops
pub mod Claims
pub mod Serial
pub mod Lanes
use one_m2m_dds_ipe.Prelude.{
  ℕ, suc, String, Bool, true, false, not, ◌&&◌, ◌||◌, Option, none, some, List, [], ◌∷◌, ◌++◌,
  length, is_empty, ltb, leb, if◌then◌else◌, contains,
}
use one_m2m_dds_ipe.Prelude.Dict.{Dict, member, insert, erase}
use one_m2m_dds_ipe.Prelude.Sets.{add, discard}
use one_m2m_dds_ipe.Prelude.Result.{Result, ok, err, value_error}
use one_m2m_dds_ipe.Vocab.{OutboundClass, terminal, observe_latest, observe_bulk, outbound_classes}
use Ops.{
  Op, CoalesceKey, OrderKey, derive_latest_key, derive_order_key, coalesce_key_equality,
  order_key_equality,
}

pub record OutboundQueue : Type 0 where
  pub terminal_maxsize : ℕ
  pub bulk_maxsize : ℕ
  pub latest_maxsize : ℕ
  pub terminal_ops : List Op
  pub latest_ops : Dict CoalesceKey Op
  pub bulk_ops : List Op
  pub dropped_bulk : ℕ
  pub dropped_latest : ℕ
  pub active_keys : List OrderKey

abbrev or_else : Option ℕ → ℕ → ℕ
or_else none d = d
or_else (some n) d = n

unfoldable pub init : ℕ → Option ℕ → Option ℕ → Result OutboundQueue
init maxsize terminal_maxsize bulk_maxsize =
    let terminal_limit = or_else terminal_maxsize maxsize in
    let bulk_limit = or_else bulk_maxsize maxsize in
    if ltb maxsize 1
    then err value_error
    else if ltb terminal_limit 1 || ltb bulk_limit 1
    then err value_error
    else ok (record {
      terminal_maxsize = terminal_limit;
      bulk_maxsize = bulk_limit;
      latest_maxsize = maxsize;
      terminal_ops = [];
      latest_ops = [];
      bulk_ops = [];
      dropped_bulk = 0;
      dropped_latest = 0;
      active_keys = [];
    })

abbrev pub tail {ℓ} : {A : Type ℓ} → List A → List A
tail [] = []
tail (x ∷ xs) = xs

-- The branch of `put` for OBSERVE_LATEST, once the key is known: the oldest entry makes room for
-- a new key, and an entry that is replaced keeps its place.
unfoldable pub put_latest : CoalesceKey → Op → OutboundQueue → OutboundQueue
put_latest key op q =
    if not (member key q.latest_ops) && leb q.latest_maxsize (length q.latest_ops)
    then record q {
      latest_ops = insert key op (tail q.latest_ops);
      dropped_latest = suc q.dropped_latest;
    }
    else record q { latest_ops = insert key op q.latest_ops }

unfoldable pub put_bulk : Op → OutboundQueue → OutboundQueue
put_bulk op q =
    if leb q.bulk_maxsize (length q.bulk_ops)
    then record q { bulk_ops = tail q.bulk_ops ++ (op ∷ []); dropped_bulk = suc q.dropped_bulk }
    else record q { bulk_ops = q.bulk_ops ++ (op ∷ []) }

unfoldable pub put_terminal : Op → OutboundQueue → OutboundQueue × Bool
put_terminal op q =
    if leb q.terminal_maxsize (length q.terminal_ops)
    then (q, false)
    else (record q { terminal_ops = q.terminal_ops ++ (op ∷ []) }, true)

-- An explicit key, or the one that the operation's fields give.
unfoldable pub coalesce_key : Option CoalesceKey → Op → Option CoalesceKey
coalesce_key (some k) op = some k
coalesce_key none op = derive_latest_key op

unfoldable pub put :
    Op → OutboundClass → Option CoalesceKey → OutboundQueue → Result (OutboundQueue × Bool)
unfolding put_terminal put_latest put_bulk coalesce_key outbound_classes
put op terminal key q = ok (put_terminal op q)
put op observe_latest key q = elim (coalesce_key key op) [
  | none ↦ err value_error
  | some k ↦ ok (put_latest k op q, true)
]
put op observe_bulk key q = ok (put_bulk op q, true)
put op (OutboundClass.unlisted s) key q = err value_error

-- The body of the loop of `get`: none while every lane is empty.
pop_latest : Dict CoalesceKey Op → OutboundQueue → Option (Op × OutboundQueue)
pop_latest ((k, op) ∷ rest) q = some (op, record q { latest_ops = rest })
pop_latest [] q = elim q.bulk_ops [
  | [] ↦ none
  | op ∷ rest ↦ some (op, record q { bulk_ops = rest })
]

unfoldable pub pop : OutboundQueue → Option (Op × OutboundQueue)
unfolding pop_latest
pop q = elim q.terminal_ops [
  | [] ↦ pop_latest q.latest_ops q
  | op ∷ rest ↦ some (op, record q { terminal_ops = rest })
]

abbrev put_back : Op → Option (Op × List Op) → Option (Op × List Op)
put_back op none = none
put_back op (some (o, rest)) = some (o, op ∷ rest)

-- The first operation of a lane whose interface is not active, and the lane without it.
unfoldable pub pop_free : List OrderKey → List Op → Option (Op × List Op)
pop_free active [] = none
pop_free active (op ∷ lane) =
    let later = put_back op (pop_free active lane) in
    if contains (derive_order_key op) active then later else some (op, lane)

unfoldable pub find_free : List OrderKey → Dict CoalesceKey Op → Option (CoalesceKey × Op)
find_free active [] = none
find_free active ((k, op) ∷ lane) =
    if contains (derive_order_key op) active then find_free active lane else some (k, op)

unfoldable pub pop_claimable : OutboundQueue → Option (Op × OutboundQueue)
pop_claimable q = elim (pop_free q.active_keys q.terminal_ops) [
  | some (op, rest) ↦ some (op, record q { terminal_ops = rest })
  | none ↦ elim (find_free q.active_keys q.latest_ops) [
    | some (key, op) ↦ some (op, record q { latest_ops = erase key q.latest_ops })
    | none ↦ elim (pop_free q.active_keys q.bulk_ops) [
      | some (op, rest) ↦ some (op, record q { bulk_ops = rest })
      | none ↦ none
    ]
  ]
]

-- One try of `claim`, under the lock.
unfoldable pub claim_now : OutboundQueue → Option (Op × OutboundQueue)
claim_now q = elim (pop_claimable q) [
  | none ↦ none
  | some (op, q') ↦ some (op, record q' { active_keys = add (derive_order_key op) q'.active_keys })
]

-- How a wait on the condition ends, with the queue as the other threads have left it.
pub data Wake : Type 0 where
  notified : OutboundQueue → Wake
  timed_out : OutboundQueue → Wake

pub data Outcome : Type 0 where
  returned : Op → OutboundQueue → Outcome
  raised_empty : OutboundQueue → Outcome
  waiting : OutboundQueue → Outcome

abbrev settle : Option (Op × OutboundQueue) → Outcome → Outcome
settle (some (op, q)) none_left = returned op q
settle none none_left = none_left

-- The loop of `claim`: a wake-up is a fresh try, and the last try comes after the timeout.
unfoldable pub claim : OutboundQueue → List Wake → Outcome
claim q [] = settle (claim_now q) (waiting q)
claim q (notified q' ∷ wakes) = let rest = claim q' wakes in settle (claim_now q) rest
claim q (timed_out q' ∷ wakes) = settle (claim_now q) (settle (claim_now q') (raised_empty q'))

-- The loop of `get`, which goes round again if the timeout finds an operation.
unfoldable pub get : OutboundQueue → List Wake → Outcome
get q [] = settle (pop q) (waiting q)
get q (notified q' ∷ wakes) = let rest = get q' wakes in settle (pop q) rest
get q (timed_out q' ∷ wakes) = settle (pop q) (settle (pop q') (raised_empty q'))

-- `get(timeout=0)`: the deadline has passed at once.
unfoldable pub get_nowait : OutboundQueue → Outcome
get_nowait q = settle (pop q) (raised_empty q)

unfoldable pub try_claim : Op → OutboundQueue → OutboundQueue × Bool
try_claim op q =
    if contains (derive_order_key op) q.active_keys
    then (q, false)
    else (record q { active_keys = add (derive_order_key op) q.active_keys }, true)

unfoldable pub release : Op → OutboundQueue → OutboundQueue
release op q = record q { active_keys = discard (derive_order_key op) q.active_keys }

-- TERMINAL, OBSERVE_LATEST, OBSERVE_BULK
unfoldable pub depths : OutboundQueue → ℕ × ℕ × ℕ
depths q = (length q.terminal_ops, length q.latest_ops, length q.bulk_ops)

-- OBSERVE_BULK, OBSERVE_LATEST
unfoldable pub dropped_counters : OutboundQueue → ℕ × ℕ
dropped_counters q = (q.dropped_bulk, q.dropped_latest)

unfoldable pub empty : OutboundQueue → Bool
empty q =
    not (not (is_empty q.terminal_ops) || not (is_empty q.latest_ops) || not (is_empty q.bulk_ops))

unfoldable pub idle : OutboundQueue → Bool
idle q = not (
    not (is_empty q.terminal_ops)
    || not (is_empty q.latest_ops)
    || not (is_empty q.bulk_ops)
    || not (is_empty q.active_keys))
