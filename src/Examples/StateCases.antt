-- ===== src/Examples/StateCases.antt =====
-- The state store: one key admitted, dispatched and finished; a transaction that times out; a
-- spool that is full.
use one_m2m_dds_ipe.Prelude.{
  ℕ, ◌≤◌, ◌<◌, ◌+◌, String, ◌≡◌, refl, Bool, true, false, Option, none, some, List, [], ◌∷◌, ◌++◌,
  arith, length, if◌then◌else◌, ◌==◌, string_equality,
}
use one_m2m_dds_ipe.Prelude.Dict.{Dict, lookup, NodupKeys}
use one_m2m_dds_ipe.Prelude.Int.{pos}
use one_m2m_dds_ipe.Prelude.Result.{ok}
use one_m2m_dds_ipe.Vocab.{
  ProcessedState, queued, dispatched, succeeded, unknown, OutboundClass, terminal, observe_bulk,
  TxState, pending, executing, goal_pending,
}
use one_m2m_dds_ipe.State.Admission.{
  ProcessedKey, ProcessedRow, Processed, processed_key_equality, is_queued, is_dispatched,
  sweep_boot,
}
use one_m2m_dds_ipe.State.Admission.Machine
use one_m2m_dds_ipe.State.Admission.Machine.{
  Event, admitting, dispatching, finishing, booting, overflowing, row_step,
}
use one_m2m_dds_ipe.State.Admission.Traces
use one_m2m_dds_ipe.State.Admission.Traces.{dispatches, dispatch_once, sweep_boot-settled}
use one_m2m_dds_ipe.State.Transactions.{Transaction, Transactions, service, next_seq}
use one_m2m_dds_ipe.State.Transactions.Calls
use one_m2m_dds_ipe.State.Transactions.Calls.{Call, beginning, updating, sweeping}
use one_m2m_dds_ipe.State.Spool.{
  SpoolRow, Spool, SpoolLimits, over_limits, sum_nbytes, trim_spool, coalesce, spool_put,
}
use one_m2m_dds_ipe.State.Spool.Trim.{trim_spool-reference}
use one_m2m_dds_ipe.State.Spool.Order.{AllAbove, Ascending, trim_reference}
use one_m2m_dds_ipe.State.Spool.Limits.{new_row, IsSpool, spool_put_lem}

abbrev a_key : ProcessedKey
a_key = record { robot_id = "r1"; interface = "drive"; corr_id = "c1" }

abbrev done_row : ProcessedRow
done_row = record { event_id = "e1"; state = succeeded; ts = 3 }

abbrev done_table : Processed
done_table = (a_key, done_row) ∷ []

abbrev running_row : ProcessedRow
running_row = record { event_id = "e1"; state = dispatched; ts = 2 }

abbrev running_table : Processed
running_table = (a_key, running_row) ∷ []

-- A redelivery and a restart between two attempts to dispatch.
abbrev events : List Event
events =
    admitting a_key "e1" 1
    ∷ dispatching a_key 2
    ∷ booting 3
    ∷ admitting a_key "e2" 4
    ∷ dispatching a_key 5
    ∷ []

apply-row_step_example :
    lookup a_key (Machine.apply (dispatching a_key 4) running_table)
    ≡ row_step (dispatching a_key 4) a_key (lookup a_key running_table)
apply-row_step_example = Machine.apply-row_step (dispatching a_key 4) a_key running_table

dispatch_once_example : dispatches a_key events [] ≤ 1
dispatch_once_example = dispatch_once a_key events []

sweep_boot-settled_example :
    (s : ProcessedRow) × (lookup a_key (sweep_boot 9 running_table).0 ≡ some s)
    × (is_queued s.state ≡ false)
    × (is_dispatched s.state ≡ false)
    × (s ≡ record running_row { state = unknown; ts = 9 })
unfolding lookup one_m2m_dds_ipe.State.Admission.processed_key_eq is_queued is_dispatched
sweep_boot-settled_example = sweep_boot-settled a_key 9 running_table running_row refl

abbrev c1 : String
c1 = "c1"

abbrev a_call : Transaction
a_call = record {
  kind = service;
  state = pending;
  seq = 0;
  timeout_ms = 10;
  started = 1;
  updated = 1;
}

abbrev one_call : Transactions
one_call = ("c1", a_call) ∷ []

abbrev timed_out_call : Transaction
timed_out_call = record a_call { state = TxState.timeout; updated = 40 }

abbrev calls : List Call
calls = beginning "c1" service 1 (pos 10) pending ∷ updating "c1" executing 2 ∷ sweeping 40 ∷ []

abbrev spool_row : ℕ → SpoolRow
spool_row id = record {
  id = id;
  class_ = observe_bulk;
  key = none;
  payload = "x";
  nbytes = 1;
  ts = id;
}

abbrev full_rows : List SpoolRow
full_rows = spool_row 1 ∷ spool_row 2 ∷ spool_row 3 ∷ []

abbrev two_rows : SpoolLimits
two_rows = record { max_spool_entries = 2; max_spool_bytes = 100 }

full_rows-AllAbove : AllAbove 0 full_rows
full_rows-AllAbove = (omega arith, (omega arith, (omega arith, tt)))

full_rows-Ascending : Ascending full_rows
full_rows-Ascending = ((omega arith, (omega arith, tt)), ((omega arith, tt), (tt, tt)))

trim_spool-reference_example :
    ((trim_spool two_rows full_rows).0 ≡ trim_reference two_rows full_rows)
    × ((trim_spool two_rows full_rows).1 + length (trim_reference two_rows full_rows) ≡ 3)
trim_spool-reference_example =
    trim_spool-reference two_rows full_rows full_rows-AllAbove full_rows-Ascending

abbrev full_spool : Spool
full_spool = record { rows = full_rows; next_id = 4 }

full_rows-IsSpool : IsSpool full_rows 4
full_rows-IsSpool = record {
  positive = full_rows-AllAbove;
  ascending = full_rows-Ascending;
  fresh = (omega arith, (omega arith, (omega arith, tt)));
}

abbrev put_row : SpoolRow
put_row = new_row terminal none "y" 9 full_spool

spool_put_example :
    (kept : List SpoolRow) × (dropped : ℕ) × (spool_put two_rows terminal none "y" 9 full_spool
      ≡ ok (record { rows = kept ++ (put_row ∷ []); next_id = 5 }, dropped))
    × (over_limits two_rows (length (kept ++ (put_row ∷ []))) (sum_nbytes (kept ++ (put_row ∷ [])))
        ≡ false)
    × (dropped + length kept ≡ length (coalesce terminal none full_rows))
    × IsSpool (kept ++ (put_row ∷ [])) 5
unfolding one_m2m_dds_ipe.Vocab.outbound_classes
spool_put_example =
    spool_put_lem two_rows terminal none "y" 9 full_spool refl (omega arith) full_rows-IsSpool
