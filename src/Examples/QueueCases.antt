-- ===== src/Examples/QueueCases.antt =====
-- The queues: small lanes, a claim that passes over a busy interface, a reservation.
use one_m2m_dds_ipe.Prelude.{
  ℕ, ◌≤◌, ◌+◌, ◌-◌, String, ◌≡◌, refl, ◌⊎◌, inl, inr, Bool, true, false, not, ◌&&◌, Option, none,
  some, List, [], ◌∷◌, ◌++◌, arith, contains, if◌then◌else◌, length, take, drop, ◌==◌,
  string_equality,
}
use one_m2m_dds_ipe.Prelude.Dict.{Dict, lookup, keys, member, NodupKeys}
use one_m2m_dds_ipe.Prelude.Sets.{add, Distinct}
use one_m2m_dds_ipe.Vocab.{terminal}
use one_m2m_dds_ipe.Core.Common.{no_field, truth, none_value}
use one_m2m_dds_ipe.Queues.Inbound.{InboundQueue}
use one_m2m_dds_ipe.Queues.Provisioning
use one_m2m_dds_ipe.Queues.Provisioning.{Argument, removals, other, qsize}
use one_m2m_dds_ipe.Queues.Provisioning.Pending.{
  Call, put_call, get_call, removals-merged, or_other,
}
use one_m2m_dds_ipe.Queues.Outbound.Ops.{
  Op, OrderKey, derive_order_key, order_key_equality, coalesce_key_equality,
}
use one_m2m_dds_ipe.Queues.Outbound.{OutboundQueue, put, claim_now, coalesce_key, try_claim}
use one_m2m_dds_ipe.Queues.Outbound.Claims.{claim-IsFirstFree, AllBusy, IsFirstFree, pending}
use one_m2m_dds_ipe.Queues.Outbound.Serial.{
  Reach, here, next, putting, claiming, held_keys, Reach-serial,
}
use one_m2m_dds_ipe.Queues.Outbound.Lanes.{
  IsWithin, put-IsWithin, put-accounted, accounted, merges, appended,
}

abbrev two_lanes : InboundQueue ℕ
two_lanes = record { maxsize = 4; control_maxsize = 2; normal = 1 ∷ 2 ∷ []; control = 7 ∷ 8 ∷ [] }

abbrev some_calls : List (Call ℕ)
some_calls =
    put_call "scan" (other 1)
    ∷ put_call "remove_interfaces" (removals (("odom", 1) ∷ []))
    ∷ get_call
    ∷ []

abbrev waiting_removals : Provisioning.ProvisioningQueue ℕ
waiting_removals = ("remove_interfaces", removals (("odom", 1) ∷ [])) ∷ []

abbrev more_removals : Dict String ℕ
more_removals = ("scan", 2) ∷ []

abbrev merged_removals : Provisioning.ProvisioningQueue ℕ
merged_removals = ("remove_interfaces", removals (("odom", 1) ∷ ("scan", 2) ∷ [])) ∷ []

removals-merged_example :
    (m : Dict String ℕ) × (lookup "remove_interfaces" merged_removals ≡ some (removals m))
    × ((j : String) → lookup j m ≡ or_other (lookup j more_removals) (lookup j (("odom", 1) ∷ [])))
unfolding Provisioning.put Provisioning.merge Provisioning.update
    one_m2m_dds_ipe.Prelude.Dict.insert lookup member
removals-merged_example =
    removals-merged (("odom", 1) ∷ []) more_removals waiting_removals merged_removals (refl, tt)
      (refl, tt) refl refl

abbrev op_of : String → String → Op
op_of interface body = record {
  attributes = ("robot_id", some "r1") ∷ ("interface", some interface) ∷ [];
  body = record {
    kind = "create_cin";
    path = body;
    content = no_field;
    queue_class = terminal;
    oversized = truth false;
    rn = none_value;
    anomalous = truth false;
    et = none_value;
    expires_at = none;
  };
}

abbrev odom_1 : Op
odom_1 = op_of "odom" "1"

abbrev odom_2 : Op
odom_2 = op_of "odom" "2"

abbrev scan_1 : Op
scan_1 = op_of "scan" "1"

abbrev empty_queue : OutboundQueue
empty_queue = record {
  terminal_maxsize = 2;
  bulk_maxsize = 1;
  latest_maxsize = 2;
  terminal_ops = [];
  latest_ops = [];
  bulk_ops = [];
  dropped_bulk = 0;
  dropped_latest = 0;
  active_keys = [];
}

-- `odom` is being served, and waits first.
abbrev busy_queue : OutboundQueue
busy_queue = record empty_queue {
  terminal_ops = odom_2 ∷ [];
  bulk_ops = scan_1 ∷ [];
  active_keys = derive_order_key odom_1 ∷ [];
}

claim-IsFirstFree_example :
    (claim_now busy_queue ≡ none) × AllBusy busy_queue.active_keys (pending busy_queue)
    ⊎ ((op : Op) × (q' : OutboundQueue) × (claim_now busy_queue ≡ some (op, q'))
        × IsFirstFree busy_queue.active_keys (pending busy_queue) op (pending q')
        × (q'.active_keys ≡ add (derive_order_key op) busy_queue.active_keys))
claim-IsFirstFree_example = claim-IsFirstFree busy_queue tt

abbrev one_put : OutboundQueue
one_put = record empty_queue { terminal_ops = odom_1 ∷ [] }

abbrev two_put : OutboundQueue
two_put = record empty_queue { terminal_ops = odom_1 ∷ odom_2 ∷ [] }

abbrev after_claim : OutboundQueue
after_claim = record empty_queue {
  terminal_ops = odom_2 ∷ [];
  active_keys = derive_order_key odom_1 ∷ [];
}

-- Two operations of one interface are put, and the first is claimed.
two_puts_one_claim :
    Reach
      (record { queue = empty_queue; held = [] })
      (record { queue = after_claim; held = odom_1 ∷ [] })
unfolding put claim_now one_m2m_dds_ipe.Queues.Outbound.pop_claimable
    one_m2m_dds_ipe.Queues.Outbound.pop_free add
two_puts_one_claim =
    next
      (next (next here (putting odom_1 terminal none one_put true refl))
        (putting odom_2 terminal none two_put true refl))
      (claiming odom_1 after_claim refl)

Reach-serial_example :
    Distinct (held_keys (odom_1 ∷ []))
    × ((k : OrderKey) → contains k after_claim.active_keys ≡ contains k (held_keys (odom_1 ∷ [])))
Reach-serial_example =
    Reach-serial empty_queue (record { queue = after_claim; held = odom_1 ∷ [] }) refl
      two_puts_one_claim

empty_queue-IsWithin : IsWithin empty_queue
empty_queue-IsWithin = record {
  terminal_pos = omega arith;
  bulk_pos = omega arith;
  latest_pos = omega arith;
  terminal_fits = omega arith;
  bulk_fits = omega arith;
  latest_fits = omega arith;
  latest_distinct = tt;
}

put-IsWithin_example : IsWithin one_put
unfolding put
put-IsWithin_example =
    put-IsWithin odom_1 terminal none empty_queue one_put true empty_queue-IsWithin refl

put-accounted_example :
    ((true ≡ true) ⊎ (true ≡ false) × (one_put ≡ empty_queue) × (terminal ≡ terminal))
    × (accounted one_put
        ≡ accounted empty_queue
          + (if true && not (merges terminal (coalesce_key none odom_1) empty_queue) then 1 else 0))
    × (one_put.terminal_ops ≡ empty_queue.terminal_ops ++ appended terminal true odom_1)
unfolding put
put-accounted_example =
    put-accounted odom_1 terminal none empty_queue one_put true empty_queue-IsWithin refl
