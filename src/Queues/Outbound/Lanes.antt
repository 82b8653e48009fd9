-- ===== src/Queues/Outbound/Lanes.antt =====
-- What a put does to each lane: limits, the policy of each class, and the drop counters.
use one_m2m_dds_ipe.Prelude.{
  ℕ, suc, ◌+◌, ◌≤◌, ◌<◌, ◌≡◌, refl, Bool, true, false, not, ◌&&◌, Option, some, List, [], ◌∷◌, ◌++◌,
  length, arith, length-append, if◌then◌else◌, Option-cases, inl, inr, ◌⊎◌,
}
use mathlib.Core.List.{append-nil}
use one_m2m_dds_ipe.Prelude.Dict.{Dict, member, NodupKeys, length-insert, insert-NodupKeys}
use one_m2m_dds_ipe.Prelude.Result.{ok}
use one_m2m_dds_ipe.Vocab.{OutboundClass, terminal, observe_latest, observe_bulk}
use one_m2m_dds_ipe.Queues.Outbound.Ops.{Op, CoalesceKey, coalesce_key_equality}
use one_m2m_dds_ipe.Queues.Outbound.{
  OutboundQueue, tail, coalesce_key, put, put_terminal, put_latest, put_bulk,
}

pub record IsWithin (q : OutboundQueue) : Type 0 where
  pub terminal_pos : 0 < q.terminal_maxsize
  pub bulk_pos : 0 < q.bulk_maxsize
  pub latest_pos : 0 < q.latest_maxsize
  pub terminal_fits : length q.terminal_ops ≤ q.terminal_maxsize
  pub bulk_fits : length q.bulk_ops ≤ q.bulk_maxsize
  pub latest_fits : length q.latest_ops ≤ q.latest_maxsize
  pub latest_distinct : NodupKeys q.latest_ops

length-tail {ℓ} : {A : Type ℓ} (xs : List A) → 0 < length xs → suc (length (tail xs)) ≡ length xs
length-tail [] h = absurd (omega arith)
length-tail (x ∷ xs) h = refl

put_terminal-IsWithin : (op : Op) (q : OutboundQueue) → IsWithin q → IsWithin (put_terminal op q).0
unfolding put_terminal
put_terminal-IsWithin op q w = ground (arith, length-append q.terminal_ops (op ∷ []))

put_bulk-IsWithin : (op : Op) (q : OutboundQueue) → IsWithin q → IsWithin (put_bulk op q)
unfolding put_bulk
put_bulk-IsWithin op q w = ground (
  arith,
  length-append q.bulk_ops (op ∷ []),
  length-append (tail q.bulk_ops) (op ∷ []),
  length-tail q.bulk_ops,
)

member-tail :
    (k : CoalesceKey) (d : Dict CoalesceKey Op) → member k d ≡ false → member k (tail d) ≡ false
unfolding member
member-tail k [] h = refl
member-tail k ((j, v) ∷ d) h = ground arith

tail-NodupKeys : (d : Dict CoalesceKey Op) → NodupKeys d → NodupKeys (tail d)
tail-NodupKeys [] u = tt
tail-NodupKeys ((j, v) ∷ d) u = u.1

put_latest-IsWithin :
    (k : CoalesceKey) (op : Op) (q : OutboundQueue) → IsWithin q → IsWithin (put_latest k op q)
unfolding put_latest
put_latest-IsWithin k op q w = ground (
  arith,
  length-insert k op q.latest_ops,
  length-insert k op (tail q.latest_ops),
  length-tail q.latest_ops,
  member-tail k q.latest_ops,
  insert-NodupKeys k op q.latest_ops,
  insert-NodupKeys k op (tail q.latest_ops),
  tail-NodupKeys q.latest_ops,
)

-- Whatever is put, a queue within its limits stays so, with one entry for each coalesce key.
pub put-IsWithin :
    (op : Op) (c : OutboundClass) (key : Option CoalesceKey) (q q' : OutboundQueue) (b : Bool)
    → IsWithin q
    → put op c key q ≡ ok (q', b)
    → IsWithin q'
unfolding put
put-IsWithin op terminal key q q' b w h = ground (arith, put_terminal-IsWithin op q w)
put-IsWithin op observe_latest key q q' b w h = elim (Option-cases (coalesce_key key op)) [
  | inl e ↦ absurd (ground arith)
  | inr (k, e) ↦ ground (arith, put_latest-IsWithin k op q w)
]
put-IsWithin op observe_bulk key q q' b w h = ground (arith, put_bulk-IsWithin op q w)
put-IsWithin op (OutboundClass.unlisted s) key q q' b w h = cc

-- All that the queue has taken in and not handed out: what waits, and what was dropped.
abbrev pub accounted : OutboundQueue → ℕ
accounted q =
    length q.terminal_ops
    + length q.latest_ops
    + length q.bulk_ops
    + q.dropped_bulk
    + q.dropped_latest

-- Whether a put replaces an operation that waits under the same key.
abbrev pub merges : OutboundClass → Option CoalesceKey → OutboundQueue → Bool
merges observe_latest (some k) q = member k q.latest_ops
merges _ _ q = false

abbrev pub appended : OutboundClass → Bool → Op → List Op
appended terminal true op = op ∷ []
appended _ _ op = []

put_latest-accounted :
    (k : CoalesceKey) (op : Op) (q : OutboundQueue)
    → IsWithin q
    → accounted (put_latest k op q) ≡ accounted q + (if member k q.latest_ops then 0 else 1)
unfolding put_latest
put_latest-accounted k op q w = ground (
  arith,
  length-insert k op q.latest_ops,
  length-insert k op (tail q.latest_ops),
  length-tail q.latest_ops,
  member-tail k q.latest_ops,
)

put_bulk-accounted :
    (op : Op) (q : OutboundQueue) → IsWithin q → accounted (put_bulk op q) ≡ accounted q + 1
unfolding put_bulk
put_bulk-accounted op q w = ground (
  arith,
  length-append q.bulk_ops (op ∷ []),
  length-append (tail q.bulk_ops) (op ∷ []),
  length-tail q.bulk_ops,
)

terminal-put_latest :
    (k : CoalesceKey) (op : Op) (q : OutboundQueue)
    → (put_latest k op q).terminal_ops ≡ q.terminal_ops
unfolding put_latest
terminal-put_latest k op q = ground arith

terminal-put_bulk : (op : Op) (q : OutboundQueue) → (put_bulk op q).terminal_ops ≡ q.terminal_ops
unfolding put_bulk
terminal-put_bulk op q = ground arith

-- A put that answers false leaves the queue as it was, and is of a TERMINAL operation; one that
-- answers true adds one to what waits or was dropped, unless it replaces an operation under the
-- same key. TERMINAL operations are only ever added behind the others, never dropped.
pub put-accounted :
    (op : Op) (c : OutboundClass) (key : Option CoalesceKey) (q q' : OutboundQueue) (b : Bool)
    → IsWithin q
    → put op c key q ≡ ok (q', b)
    → ((b ≡ true) ⊎ (b ≡ false) × (q' ≡ q) × (c ≡ terminal))
      × (accounted q'
          ≡ accounted q + (if b && not (merges c (coalesce_key key op) q) then 1 else 0))
      × (q'.terminal_ops ≡ q.terminal_ops ++ appended c b op)
unfolding put
put-accounted op terminal key q q' b w h =
    unfold put_terminal in
    ground (arith, length-append q.terminal_ops (op ∷ []), append-nil q.terminal_ops)
put-accounted op observe_latest key q q' b w h = elim (Option-cases (coalesce_key key op)) [
  | inl e ↦ absurd (ground arith)
  | inr (k, e) ↦
      ground (
        arith,
        put_latest-accounted k op q w,
        terminal-put_latest k op q,
        append-nil q.terminal_ops,
      )
]
put-accounted op observe_bulk key q q' b w h =
    ground (arith, put_bulk-accounted op q w, terminal-put_bulk op q, append-nil q.terminal_ops)
put-accounted op (OutboundClass.unlisted s) key q q' b w h = cc
