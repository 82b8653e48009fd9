-- ===== src/State/Transactions.antt =====
-- The transactions of services and actions, src/ipe/runtime/state.py: the table `transactions`.
pub mod Rows
pub mod Sweeps
pub mod Calls
pub mod Closed
use one_m2m_dds_ipe.Prelude.{
  ℕ, suc, ◌+◌, ◌*◌, String, Bool, true, false, not, ◌&&◌, ◌||◌, Option, none, some, List, [], ◌∷◌,
  ◌++◌, length, keep, leb, ltb, if◌then◌else◌, string_equality,
}
use one_m2m_dds_ipe.Prelude.Int.{ℤ, pos, negsuc}
use one_m2m_dds_ipe.Prelude.Dict.{Dict, lookup, member, insert, values}
use one_m2m_dds_ipe.Prelude.Result.{Result, ok, err, value_error, key_error}
use one_m2m_dds_ipe.Vocab.{
  TxState, timeout, service_states, service_terminal, action_states, action_terminal,
}

pub data TxKind : Type 0 where
  service action : TxKind
  unlisted : String → TxKind

unfoldable pub known_kind : TxKind → Bool
known_kind service = true
known_kind action = true
known_kind (unlisted s) = false

-- `TRANSACTION_KINDS[kind]` and `_TX_TERMINAL_BY_KIND[kind]`, for a known kind
unfoldable pub transaction_kinds : TxKind → TxState → Bool
transaction_kinds service s = service_states s
transaction_kinds action s = action_states s
transaction_kinds (unlisted k) s = false

unfoldable pub tx_terminal_by_kind : TxKind → TxState → Bool
tx_terminal_by_kind service s = service_terminal s
tx_terminal_by_kind action s = action_terminal s
tx_terminal_by_kind (unlisted k) s = false

pub record Transaction : Type 0 where
  pub kind : TxKind
  pub state : TxState
  pub seq : ℕ
  pub timeout_ms : ℕ
  pub started : ℕ
  pub updated : ℕ

abbrev pub Transactions : Type 0
Transactions = Dict String Transaction

-- `_ACTIVE_TX_WHERE`: the state is one of the kind's, less its terminal states.
unfoldable pub is_active : Transaction → Bool
is_active tx = transaction_kinds tx.kind tx.state && not (tx_terminal_by_kind tx.kind tx.state)

unfoldable pub begin_transaction :
    String → TxKind → ℕ → ℤ → TxState → Transactions → Result (Transactions × Bool)
begin_transaction corr_id kind ts (negsuc n) initial_state t = err value_error
begin_transaction corr_id kind ts (pos timeout_ms) initial_state t =
    if not (known_kind kind)
    then err value_error
    else if not (transaction_kinds kind initial_state)
    then err value_error
    else if member corr_id t
    then ok (t, false)
    else ok (
      insert corr_id
          (record {
            kind = kind;
            state = initial_state;
            seq = 0;
            timeout_ms = timeout_ms;
            started = ts;
            updated = ts;
          })
          t,
      true,
    )

-- `UPDATE transactions SET state=?, updated=? WHERE corr_id=? AND (<active>)`
unfoldable pub move_active : String → TxState → ℕ → Transactions → Transactions × Bool
move_active corr_id state ts t = elim (lookup corr_id t) [
  | none ↦ (t, false)
  | some tx ↦
      if is_active tx
      then (insert corr_id (record tx { state = state; updated = ts }) t, true)
      else (t, false)
]

unfoldable pub update_transaction :
    String → TxState → ℕ → Transactions → Result (Transactions × Bool)
update_transaction corr_id state ts t = elim (lookup corr_id t) [
  | none ↦ ok (t, false)
  | some tx ↦
      if not (known_kind tx.kind)
      then err key_error
      else if not (transaction_kinds tx.kind state)
      then err value_error
      else ok (move_active corr_id state ts t)
]

unfoldable pub next_seq : String → ℕ → Transactions → Transactions × ℕ
next_seq corr_id ts t = elim (lookup corr_id t) [
  | none ↦ (t, 0)
  | some tx ↦ (insert corr_id (record tx { seq = suc tx.seq; updated = ts }) t, suc tx.seq)
]

unfoldable pub get_transaction : String → Transactions → Option Transaction
get_transaction corr_id t = lookup corr_id t

abbrev pub same_kind : TxKind → TxKind → Bool
same_kind service service = true
same_kind action action = true
same_kind _ _ = false

abbrev pub of_kind : Option TxKind → TxKind → Bool
of_kind none k = true
of_kind (some kind) k = same_kind kind k

unfoldable pub active_transactions : Option TxKind → Transactions → List (String × Transaction)
active_transactions kind t = keep (λ (c, tx). is_active tx && of_kind kind tx.kind) t

-- `timeout_ms > 0 AND (<active>) AND (now - started) * 1000.0 >= timeout_ms`, in milliseconds
unfoldable pub is_expired : ℕ → Transaction → Bool
is_expired now tx = ltb 0 tx.timeout_ms && (is_active tx && leb (tx.started + tx.timeout_ms) now)

-- The loop over the selected rows: each is moved if it is still active, and reported.
unfoldable pub sweep_rows :
    ℕ
    → List (String × Transaction)
    → Transactions
    → List (String × Transaction)
    → Transactions × List (String × Transaction)
sweep_rows now [] t swept = (t, swept)
sweep_rows now ((corr_id, tx) ∷ rows) t swept =
    let (t', moved) = move_active corr_id timeout now t in
    sweep_rows now rows t' (
      if moved
      then swept ++ ((corr_id, record tx { state = timeout; updated = now }) ∷ [])
      else swept)

unfoldable pub sweep_timeouts : ℕ → Transactions → Transactions × List (String × Transaction)
sweep_timeouts now t = sweep_rows now (keep (λ (c, tx). is_expired now tx) t) t []

-- `DELETE FROM transactions WHERE NOT (<active>) AND updated <= cutoff`, and how many
unfoldable pub cleanup : ℕ → ℕ → Transactions → Transactions × ℕ
cleanup now retention_days t =
    let old = λ (row : String × Transaction).
      not (is_active row.1) && leb ((row.1).updated + retention_days * 86400000) now in
    (keep (λ row. not (old row)) t, length (keep old t))
