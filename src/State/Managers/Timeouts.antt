-- ===== src/State/Managers/Timeouts.antt =====
-- The managers' `_sweep` against the store's own test for expired transactions.
use one_m2m_dds_ipe.Prelude.{
  ℕ, String, ◌≡◌, Bool, ◌&&◌, Option, none, some, List, [], ◌∷◌, ◌++◌, keep, if◌then◌else◌,
  string_equality,
}
use one_m2m_dds_ipe.Prelude.Dict.{keys, lookup}
use one_m2m_dds_ipe.Prelude.Result.{Result, ok}
use one_m2m_dds_ipe.Vocab.{TxState}
use one_m2m_dds_ipe.State.Transactions.{
  TxKind, Transaction, Transactions, is_active, is_expired, same_kind,
}
use one_m2m_dds_ipe.State.Transactions.Sweeps.{timed_out, swept_row}
use one_m2m_dds_ipe.State.Managers.{is_due, sweep_loop}

module _ (terminal : TxState → Bool) (now : ℕ) where
  abbrev due_rows : List (String × Transaction) → List (String × Transaction)
  due_rows rows = keep (λ (c, tx). is_due terminal now tx) rows

  abbrev Swept : List (String × Transaction) → Transactions → List String → Type 0
  Swept rows t ids =
      (t' : Transactions) × (sweep_loop terminal now rows t ids
        ≡ ok (t', ids ++ keys (due_rows rows)))
      × ((j : String) → lookup j t' ≡ swept_row now (lookup j (due_rows rows)) (lookup j t))

  abbrev after_move :
      String
      → List (String × Transaction)
      → List String
      → Transactions × Bool
      → Result (Transactions × List String)
  after_move c rows ids r = sweep_loop terminal now rows r.0 (if r.1 then ids ++ (c ∷ []) else ids)

-- The rows of one kind whose time is up.
abbrev pub expired_of : TxKind → ℕ → Transaction → Bool
expired_of kind now tx = is_expired now tx && same_kind kind tx.kind

abbrev pub on_expired_of : TxKind → ℕ → Option Transaction → Option Transaction
on_expired_of kind now none = none
on_expired_of kind now (some tx) = some (if expired_of kind now tx then timed_out now tx else tx)

abbrev of_active : TxKind → Transaction → Bool
of_active kind tx = is_active tx && same_kind kind tx.kind
