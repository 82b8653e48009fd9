-- ===== src/State/Transactions/Rows.antt =====
-- What each operation does to the row of one transaction.
use one_m2m_dds_ipe.Prelude.{
  ℕ, suc, String, ◌≡◌, Option, none, some, if◌then◌else◌, ◌==◌, arith, Option-cases, inl, inr,
  string_equality,
}
use one_m2m_dds_ipe.Prelude.Dict.{lookup, lookup-insert}
use one_m2m_dds_ipe.Vocab.{TxState}
use one_m2m_dds_ipe.State.Transactions.{Transaction, Transactions, is_active, move_active, next_seq}

abbrev pub moved : TxState → ℕ → Option Transaction → Option Transaction
moved s ts none = none
moved s ts (some tx) =
    if is_active tx then some (record tx { state = s; updated = ts }) else some tx

pub lookup-move_active :
    (j c : String) (s : TxState) (ts : ℕ) (t : Transactions)
    → lookup j (move_active c s ts t).0 ≡ (if j == c then moved s ts (lookup j t) else lookup j t)
unfolding move_active
lookup-move_active j c s ts t = elim (Option-cases (lookup c t)) [
  | inl h ↦ ground (arith, string_equality.equals_iff j c)
  | inr (tx, h) ↦ ground (
    arith,
    string_equality.equals_iff j c,
    lookup-insert j c (record tx { state = s; updated = ts }) t,
  )
]

abbrev pub advanced : ℕ → Option Transaction → Option Transaction
advanced ts none = none
advanced ts (some tx) = some (record tx { seq = suc tx.seq; updated = ts })

abbrev pub number : Option Transaction → ℕ
number none = 0
number (some tx) = tx.seq

-- Feedback is numbered by one more each time, in the transaction's own row, and no other row is
-- touched; the number of an unknown transaction is 0.
pub next_seq_lem :
    (j c : String) (ts : ℕ) (t : Transactions)
    → (lookup j (next_seq c ts t).0 ≡ (if j == c then advanced ts (lookup j t) else lookup j t))
      × ((next_seq c ts t).1 ≡ number (lookup c (next_seq c ts t).0))
      × ((next_seq c ts t).1 ≡ number (advanced ts (lookup c t)))
unfolding next_seq
next_seq_lem j c ts t = elim (Option-cases (lookup c t)) [
  | inl h ↦ ground (arith, string_equality.equals_iff j c)
  | inr (tx, h) ↦
      let new : Transaction = record tx { seq = suc tx.seq; updated = ts } in
      ground (
        arith,
        string_equality.equals_iff j c,
        string_equality.equals_iff c c,
        lookup-insert j c new t,
        lookup-insert c c new t,
      )
]
