-- ===== src/State/Managers.antt =====
-- src/ipe/core/transaction.py: the managers of service and action transactions, clients of the
-- state store. Times are in milliseconds.
pub mod Timeouts
use one_m2m_dds_ipe.Prelude.{
  ℕ, ◌+◌, String, Bool, true, false, not, ◌&&◌, ◌||◌, Option, none, some, List, [], ◌∷◌, ◌++◌, leb,
  ltb, nat_eq, if◌then◌else◌,
}
use one_m2m_dds_ipe.Prelude.Int.{ℤ, pos}
use one_m2m_dds_ipe.Prelude.Result.{Result, ok, err, vocabulary_error, ◌>>=◌}
use one_m2m_dds_ipe.Vocab.{
  TxState, pending, goal_pending, duplicate, timeout, service_states, service_terminal,
  action_states, action_terminal,
}
use one_m2m_dds_ipe.State.Transactions.{
  TxKind, service, action, Transaction, Transactions, begin_transaction, update_transaction,
  next_seq, get_transaction, active_transactions,
}

-- `_check`
unfoldable pub check : TxState → (TxState → Bool) → Result (Unit {0})
check state allowed = if not (allowed state) then err vocabulary_error else ok tt

abbrev timeout_or : ℤ → Option ℤ → ℤ
timeout_or default_timeout_ms none = default_timeout_ms
timeout_or default_timeout_ms (some t) = t

abbrev begun : TxState → Transactions × Bool → Transactions × TxState
begun state (t, fresh) = (t, if fresh then state else TxState.duplicate)

-- `ServiceTransactionManager.begin` and `ActionTransactionManager.begin`
unfoldable pub begin_service :
    ℤ → String → ℕ → Option ℤ → Transactions → Result (Transactions × TxState)
begin_service default_timeout_ms corr_id now timeout_ms t =
    begin_transaction corr_id service now (timeout_or default_timeout_ms timeout_ms) TxState.pending
      t
    >>= λ r. ok (begun TxState.pending r)

unfoldable pub begin_action :
    ℤ → String → ℕ → Option ℤ → Transactions → Result (Transactions × TxState)
begin_action default_timeout_ms goal_id now timeout_ms t =
    begin_transaction goal_id action now (timeout_or default_timeout_ms timeout_ms)
      TxState.goal_pending t
    >>= λ r. ok (begun TxState.goal_pending r)

unfoldable pub set_service_state :
    String → TxState → ℕ → Transactions → Result (Transactions × Bool)
set_service_state corr_id st now t =
    check st service_states >>= λ _. update_transaction corr_id st now t

unfoldable pub set_action_state : String → TxState → ℕ → Transactions → Result (Transactions × Bool)
set_action_state goal_id st now t =
    check st action_states >>= λ _. update_transaction goal_id st now t

unfoldable pub next_feedback_seq : String → ℕ → Transactions → Transactions × ℕ
next_feedback_seq goal_id now t = next_seq goal_id now t

unfoldable pub state_of : String → Transactions → Option TxState
state_of corr_id t = elim (get_transaction corr_id t) [ none ↦ none | some tx ↦ some tx.state ]

-- The conditions of the loop in `_sweep` under which a row is moved. A stored timeout is never
-- None, so the default is not read.
unfoldable pub is_due : (TxState → Bool) → ℕ → Transaction → Bool
is_due terminal now tx =
    not (terminal tx.state)
    && (not (nat_eq tx.timeout_ms 0) && leb (tx.started + tx.timeout_ms) now)

abbrev noted : String → List String → Transactions × Bool → Transactions × List String
noted corr_id timed_out (t, moved) = (t, if moved then timed_out ++ (corr_id ∷ []) else timed_out)

unfoldable pub sweep_loop :
    (TxState → Bool)
    → ℕ
    → List (String × Transaction)
    → Transactions
    → List String
    → Result (Transactions × List String)
sweep_loop terminal now [] t timed_out = ok (t, timed_out)
sweep_loop terminal now ((corr_id, tx) ∷ rows) t timed_out =
    let skip = sweep_loop terminal now rows t timed_out in
    let move = update_transaction corr_id TxState.timeout now t >>= λ r.
    (let (t', noted_ids) = noted corr_id timed_out r in
      sweep_loop terminal now rows t' noted_ids) in
    if is_due terminal now tx then move else skip

unfoldable pub sweep :
    TxKind → (TxState → Bool) → ℕ → Transactions → Result (Transactions × List String)
sweep kind terminal now t = sweep_loop terminal now (active_transactions (some kind) t) t []

unfoldable pub sweep_service : ℕ → Transactions → Result (Transactions × List String)
sweep_service now t = sweep service service_terminal now t

unfoldable pub sweep_action : ℕ → Transactions → Result (Transactions × List String)
sweep_action now t = sweep action action_terminal now t

unfoldable pub termination_violation : ℤ → Option ℕ → Bool
termination_violation (pos timeout_ms) refresh_sec =
    nat_eq timeout_ms 0 && not (elim refresh_sec [ none ↦ false | some s ↦ ltb 0 s ])
termination_violation (ℤ.negsuc n) refresh_sec = false
