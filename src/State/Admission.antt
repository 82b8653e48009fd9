-- ===== src/State/Admission.antt =====
-- The admission state machine of src/ipe/runtime/state.py: the table `processed`.
pub mod Machine
pub mod Traces
use one_m2m_dds_ipe.Prelude.{
  ℕ, ◌+◌, ◌*◌, String, ◌≡◌, refl, ◌↔◌, Bool, true, false, not, ◌&&◌, Option, none, some, List, [],
  ◌∷◌, length, keep, leb, ltb, if◌then◌else◌, Equality, ◌==◌, string_equality, arith,
}
use one_m2m_dds_ipe.Prelude.Dict.{Dict, lookup, member, insert}
use one_m2m_dds_ipe.Prelude.Result.{Result, ok, err, value_error}
use one_m2m_dds_ipe.Vocab.{
  ProcessedState, queued, dispatched, overflow, unknown, processed_active_states,
  processed_terminal_states,
}

-- PRIMARY KEY (robot_id, interface, corr_id)
pub record ProcessedKey : Type 0 where
  pub robot_id : String
  pub interface : String
  pub corr_id : String

unfoldable pub processed_key_eq : ProcessedKey → ProcessedKey → Bool
processed_key_eq a b =
    (a.robot_id == b.robot_id) && ((a.interface == b.interface) && (a.corr_id == b.corr_id))

pub processed_key_eq_iff : (a b : ProcessedKey) → (processed_key_eq a b ≡ true) ↔ (a ≡ b)
unfolding processed_key_eq
processed_key_eq_iff a b = ground (
  arith,
  string_equality.equals_iff a.robot_id b.robot_id,
  string_equality.equals_iff a.interface b.interface,
  string_equality.equals_iff a.corr_id b.corr_id,
)

instance abbrev pub processed_key_equality : Equality ProcessedKey
processed_key_equality = record { equals = processed_key_eq; equals_iff = processed_key_eq_iff }

pub record ProcessedRow : Type 0 where
  pub event_id : String
  pub state : ProcessedState
  pub ts : ℕ

abbrev pub Processed : Type 0
Processed = Dict ProcessedKey ProcessedRow

unfoldable pub is_queued : ProcessedState → Bool
is_queued queued = true
is_queued _ = false

unfoldable pub is_overflow : ProcessedState → Bool
is_overflow overflow = true
is_overflow _ = false

unfoldable pub is_dispatched : ProcessedState → Bool
is_dispatched dispatched = true
is_dispatched _ = false

-- `UPDATE processed SET … WHERE <key> AND <test on state>`, and whether `rowcount == 1`
unfoldable pub update_where :
    ProcessedKey
    → (ProcessedState → Bool)
    → (ProcessedRow → ProcessedRow)
    → Processed
    → Processed × Bool
update_where k test change t = elim (lookup k t) [
  | none ↦ (t, false)
  | some r ↦ if test r.state then (insert k (change r) t, true) else (t, false)
]

pub data Admitted : Type 0 where
  newly_queued reaccepted known_duplicate : Admitted

abbrev pub reply_of : Processed × Bool → Processed × Admitted
reply_of (t, true) = (t, reaccepted)
reply_of (t, false) = (t, known_duplicate)

-- The INSERT fails with an integrity error if the key is there.
unfoldable pub admit : ProcessedKey → String → ℕ → Processed → Processed × Admitted
admit k event_id ts t =
    if member k t
    then reply_of (
        update_where k is_overflow (λ r. record r { event_id = event_id; state = queued; ts = ts })
          t)
    else (insert k (record { event_id = event_id; state = queued; ts = ts }) t, newly_queued)

unfoldable pub mark_overflow : ProcessedKey → ℕ → Processed → Processed × Bool
mark_overflow k ts t = update_where k is_queued (λ r. record r { state = overflow; ts = ts }) t

unfoldable pub cas_dispatch : ProcessedKey → ℕ → Processed → Processed × Bool
cas_dispatch k ts t = update_where k is_queued (λ r. record r { state = dispatched; ts = ts }) t

unfoldable pub finish : ProcessedKey → ProcessedState → ℕ → Processed → Result (Processed × Bool)
finish k terminal_state ts t =
    if not (processed_terminal_states terminal_state)
    then err value_error
    else ok (
        update_where k processed_active_states (λ r. record r { state = terminal_state; ts = ts })
          t)

unfoldable pub get_processed : ProcessedKey → Processed → Option ProcessedRow
get_processed k t = lookup k t

-- `ORDER BY ts`; rows of one time stay in the order of the table
insert_by_ts :
    ProcessedKey × ProcessedRow
    → List (ProcessedKey × ProcessedRow)
    → List (ProcessedKey × ProcessedRow)
insert_by_ts (k, r) [] = (k, r) ∷ []
insert_by_ts (k, r) ((j, s) ∷ rows) =
    if leb r.ts s.ts then (k, r) ∷ ((j, s) ∷ rows) else (j, s) ∷ insert_by_ts (k, r) rows

unfoldable pub order_by_ts : List (ProcessedKey × ProcessedRow) → List (ProcessedKey × ProcessedRow)
unfolding insert_by_ts
order_by_ts [] = []
order_by_ts (row ∷ rows) = insert_by_ts row (order_by_ts rows)

-- `SELECT … WHERE <test on state>`
unfoldable pub select : (ProcessedState → Bool) → Processed → List (ProcessedKey × ProcessedRow)
select test t = keep (λ (k, r). test r.state) t

-- `UPDATE processed SET state=…, ts=… WHERE <test on state>`, on every row
unfoldable pub update_all : (ProcessedState → Bool) → ProcessedState → ℕ → Processed → Processed
update_all test state ts [] = []
update_all test state ts ((k, r) ∷ t) =
    (k, if test r.state then record r { state = state; ts = ts } else r)
    ∷ update_all test state ts t

pub record BootSweep : Type 0 where
  pub queued_rows : List (ProcessedKey × ProcessedRow)
  pub dispatched_rows : List (ProcessedKey × ProcessedRow)

unfoldable pub sweep_boot : ℕ → Processed → Processed × BootSweep
sweep_boot ts t = (
  update_all is_dispatched unknown ts (update_all is_queued overflow ts t),
  record {
    queued_rows = order_by_ts (select is_queued t);
    dispatched_rows = order_by_ts (select is_dispatched t);
  },
)

-- `DELETE FROM processed WHERE state IN (<terminal>) AND ts <= cutoff`, where the cutoff lies
-- `retention_days` before now; and the number of rows that it deletes
unfoldable pub cleanup : ℕ → ℕ → Processed → Processed × ℕ
unfolding processed_terminal_states
cleanup now retention_days t =
    let old = λ (row : ProcessedKey × ProcessedRow).
      processed_terminal_states (row.1).state && leb ((row.1).ts + retention_days * 86400000) now in
    (keep (λ row. not (old row)) t, length (keep old t))
