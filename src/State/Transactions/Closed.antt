-- ===== src/State/Transactions/Closed.antt =====
-- The transactions table over any sequence of calls: its vocabulary is closed, and a terminal
-- state is final.
use one_m2m_dds_ipe.Prelude.{
  String, ◌≡◌, refl, sym, subst, true, Option, none, some, List, [], ◌∷◌, arith, string_equality,
}
use one_m2m_dds_ipe.Prelude.Dict.{lookup, NodupKeys}
use one_m2m_dds_ipe.Vocab.{TxState, timeout, service_states, action_states, action_terminal}
use one_m2m_dds_ipe.State.Transactions.{TxKind, Transaction, Transactions, transaction_kinds}
use one_m2m_dds_ipe.State.Transactions.Calls.{
  Call, apply, run, row_step, apply-row_step, apply-NodupKeys, beginning, updating, numbering,
  sweeping,
}

-- The state of a row is a word of its kind's vocabulary.
abbrev InVocabulary : Option Transaction → Type 0
InVocabulary none = Unit
InVocabulary (some tx) = transaction_kinds tx.kind tx.state ≡ true

timeout-listed :
    (k : TxKind) (s : TxState) → transaction_kinds k s ≡ true → transaction_kinds k timeout ≡ true
unfolding transaction_kinds service_states action_states action_terminal
timeout-listed TxKind.service s h = refl
timeout-listed TxKind.action s h = refl
timeout-listed (TxKind.unlisted w) s h = cc

InVocabulary-step :
    (call : Call) (j : String) (o : Option Transaction)
    → InVocabulary o
    → InVocabulary (row_step call j o)
InVocabulary-step (beginning c kind ts tmo s) j none h = ground arith
InVocabulary-step (beginning c kind ts tmo s) j (some tx) h = ground arith
InVocabulary-step (updating c s ts) j none h = ground arith
InVocabulary-step (updating c s ts) j (some tx) h = ground arith
InVocabulary-step (numbering c ts) j none h = ground arith
InVocabulary-step (numbering c ts) j (some tx) h = ground arith
InVocabulary-step (sweeping now) j none h = tt
InVocabulary-step (sweeping now) j (some tx) h = ground (arith, timeout-listed tx.kind tx.state)

run-InVocabulary :
    (calls : List Call) (t : Transactions)
    → NodupKeys t
    → ((j : String) → InVocabulary (lookup j t))
    → (j : String) → InVocabulary (lookup j (run calls t))
unfolding run
run-InVocabulary [] t u h j = h j
run-InVocabulary (c ∷ calls) t u h j =
    run-InVocabulary calls (apply c t) (apply-NodupKeys c t u)
      (λ i.
        subst InVocabulary (sym (apply-row_step c i t u))
          (InVocabulary-step c i (lookup i t) (h i)))
      j

InVocabulary-some :
    (o : Option Transaction) (tx : Transaction)
    → o ≡ some tx
    → InVocabulary o
    → transaction_kinds tx.kind tx.state ≡ true
InVocabulary-some none tx e h = cc
InVocabulary-some (some old) tx e h = ground arith

-- Whatever calls are made, failing ones included, on an empty table: every stored transaction is
-- in a state of its own kind's vocabulary.
pub run-closed :
    (calls : List Call) (j : String) (tx : Transaction)
    → lookup j (run calls []) ≡ some tx
    → transaction_kinds tx.kind tx.state ≡ true
run-closed calls j tx h =
    InVocabulary-some (lookup j (run calls [])) tx h
      (run-InVocabulary calls [] tt (λ i. unfold lookup in tt) j)

-- A row's transaction has ended as `tx` has: its number and its time of change may still move.
pub record HasEnded (o : Option Transaction) (tx : Transaction) : Type 0 where
  pub row : Transaction
  pub found : o ≡ some row
  pub state : row.state ≡ tx.state
  pub kind : row.kind ≡ tx.kind
  pub timeout_ms : row.timeout_ms ≡ tx.timeout_ms
  pub started : row.started ≡ tx.started
