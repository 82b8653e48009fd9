-- ===== src/State/Transactions/Calls.antt =====
-- Any sequence of calls on the transactions table, and what one call does to one row.
use one_m2m_dds_ipe.Prelude.{
  ℕ, suc, String, ◌≡◌, Bool, ◌&&◌, Option, none, some, List, [], ◌∷◌, if◌then◌else◌, ◌==◌, arith,
  Option-cases, inl, inr, string_equality,
}
use one_m2m_dds_ipe.Prelude.Int.{ℤ, pos, negsuc}
use one_m2m_dds_ipe.Prelude.Result.{Result, ok, err}
use one_m2m_dds_ipe.Prelude.Dict.{
  lookup, NodupKeys, lookup-insert, member-eq-false, lookup-eq-none, insert-NodupKeys,
}
use one_m2m_dds_ipe.Vocab.{TxState, timeout}
use one_m2m_dds_ipe.State.Transactions.{
  TxKind, Transaction, Transactions, move_active, sweep_rows, sweep_timeouts, transaction_kinds,
  known_kind, begin_transaction, update_transaction, next_seq,
}
use one_m2m_dds_ipe.State.Transactions.Rows.{moved, lookup-move_active, advanced, next_seq_lem}
use one_m2m_dds_ipe.State.Transactions.Sweeps.{on_expired, sweep_timeouts_lem}

pub data Call : Type 0 where
  beginning : String → TxKind → ℕ → ℤ → TxState → Call
  updating : String → TxState → ℕ → Call
  numbering : String → ℕ → Call
  sweeping : ℕ → Call

-- A call that raises leaves the table as it was.
abbrev pub or_unchanged : Transactions → Result (Transactions × Bool) → Transactions
or_unchanged t (ok (t', done)) = t'
or_unchanged t (err e) = t

unfoldable pub apply : Call → Transactions → Transactions
apply (beginning c kind ts tmo s) t = or_unchanged t (begin_transaction c kind ts tmo s t)
apply (updating c s ts) t = or_unchanged t (update_transaction c s ts t)
apply (numbering c ts) t = (next_seq c ts t).0
apply (sweeping now) t = (sweep_timeouts now t).0

unfoldable pub run : List Call → Transactions → Transactions
run [] t = t
run (c ∷ calls) t = run calls (apply c t)

-- What a call does to one row.
abbrev begun : TxKind → ℕ → ℤ → TxState → Option Transaction → Option Transaction
begun kind ts (negsuc n) s o = o
begun kind ts (pos tmo) s (some tx) = some tx
begun kind ts (pos tmo) s none =
    if known_kind kind && transaction_kinds kind s
    then some
        (record { kind = kind; state = s; seq = 0; timeout_ms = tmo; started = ts; updated = ts })
    else none

abbrev updated_to : TxState → ℕ → Option Transaction → Option Transaction
updated_to s ts none = none
updated_to s ts (some tx) =
    if known_kind tx.kind && transaction_kinds tx.kind s then moved s ts (some tx) else some tx

abbrev pub row_step : Call → String → Option Transaction → Option Transaction
row_step (beginning c kind ts tmo s) j o = if j == c then begun kind ts tmo s o else o
row_step (updating c s ts) j o = if j == c then updated_to s ts o else o
row_step (numbering c ts) j o = if j == c then advanced ts o else o
row_step (sweeping now) j o = on_expired now o

lookup-begin :
    (j c : String) (kind : TxKind) (ts : ℕ) (tmo : ℤ) (s : TxState) (t : Transactions)
    → lookup j (or_unchanged t (begin_transaction c kind ts tmo s t))
      ≡ row_step (beginning c kind ts tmo s) j (lookup j t)
unfolding begin_transaction
lookup-begin j c kind ts (negsuc n) s t = ground arith
lookup-begin j c kind ts (pos tmo) s t =
    let row : Transaction = record {
      kind = kind;
      state = s;
      seq = 0;
      timeout_ms = tmo;
      started = ts;
      updated = ts;
    } in
    elim (Option-cases (lookup c t)) [
      | inl h ↦
          ground
            (arith, string_equality.equals_iff j c, lookup-eq-none c t, lookup-insert j c row t)
      | inr (tx, h) ↦
          ground
            (arith, string_equality.equals_iff j c, member-eq-false c t, lookup-insert j c row t)
    ]

lookup-update :
    (j c : String) (s : TxState) (ts : ℕ) (t : Transactions)
    → lookup j (or_unchanged t (update_transaction c s ts t))
      ≡ row_step (updating c s ts) j (lookup j t)
unfolding update_transaction
lookup-update j c s ts t = elim (Option-cases (lookup c t)) [
  | inl h ↦ ground (arith, string_equality.equals_iff j c)
  | inr (tx, h) ↦ ground (arith, string_equality.equals_iff j c, lookup-move_active j c s ts t)
]

pub apply-row_step :
    (call : Call) (j : String) (t : Transactions)
    → NodupKeys t
    → lookup j (apply call t) ≡ row_step call j (lookup j t)
unfolding apply
apply-row_step (beginning c kind ts tmo s) j t u = lookup-begin j c kind ts tmo s t
apply-row_step (updating c s ts) j t u = lookup-update j c s ts t
apply-row_step (numbering c ts) j t u = (next_seq_lem j c ts t).0
apply-row_step (sweeping now) j t u = (sweep_timeouts_lem now t u).0 j

move_active-NodupKeys :
    (c : String) (s : TxState) (ts : ℕ) (t : Transactions)
    → NodupKeys t
    → NodupKeys (move_active c s ts t).0
unfolding move_active
move_active-NodupKeys c s ts t u = elim (Option-cases (lookup c t)) [
  | inl h ↦ ground arith
  | inr (tx, h) ↦ ground (arith, insert-NodupKeys c (record tx { state = s; updated = ts }) t u)
]

sweep_rows-NodupKeys :
    (now : ℕ) (rows : List (String × Transaction)) (t : Transactions)
    (swept : List (String × Transaction))
    → NodupKeys t
    → NodupKeys (sweep_rows now rows t swept).0
unfolding sweep_rows
sweep_rows-NodupKeys now [] t swept u = u
sweep_rows-NodupKeys now ((c, tx) ∷ rows) t swept u =
    sweep_rows-NodupKeys now rows (move_active c timeout now t).0 _
      (move_active-NodupKeys c timeout now t u)

pub apply-NodupKeys : (call : Call) (t : Transactions) → NodupKeys t → NodupKeys (apply call t)
unfolding apply
apply-NodupKeys (beginning c kind ts (negsuc n) s) t u = unfold begin_transaction in u
apply-NodupKeys (beginning c kind ts (pos tmo) s) t u =
    unfold begin_transaction in
    ground (
      arith,
      insert-NodupKeys c
          (record { kind = kind; state = s; seq = 0; timeout_ms = tmo; started = ts; updated = ts })
          t u,
    )
apply-NodupKeys (updating c s ts) t u =
    unfold update_transaction in ground (arith, move_active-NodupKeys c s ts t u)
apply-NodupKeys (numbering c ts) t u =
    unfold next_seq in
    elim (Option-cases (lookup c t)) [
      | inl h ↦ ground arith
      | inr (tx, h) ↦
          ground (arith, insert-NodupKeys c (record tx { seq = suc tx.seq; updated = ts }) t u)
    ]
apply-NodupKeys (sweeping now) t u = unfold sweep_timeouts in sweep_rows-NodupKeys now _ t [] u

run-NodupKeys : (calls : List Call) (t : Transactions) → NodupKeys t → NodupKeys (run calls t)
unfolding run
run-NodupKeys [] t u = u
run-NodupKeys (c ∷ calls) t u = run-NodupKeys calls (apply c t) (apply-NodupKeys c t u)
