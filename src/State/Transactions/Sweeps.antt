-- ===== src/State/Transactions/Sweeps.antt =====
-- `sweep_timeouts` against the set of expired transactions.
use one_m2m_dds_ipe.Prelude.{
  ℕ, String, ◌≡◌, refl, ap, sym, ◌∙◌, Bool, true, false, Option, none, some, List, [], ◌∷◌, ◌++◌,
  map, keep, if◌then◌else◌, arith, Bool-cases, inl, inr, string_equality,
}
use mathlib.Core.List.{append-nil, append_assoc}
use one_m2m_dds_ipe.Prelude.Dict.{
  lookup, member, insert, NodupKeys, lookup-insert, member-eq-false, keep-NodupKeys, kept_if,
  lookup-keep,
}
use one_m2m_dds_ipe.Vocab.{
  timeout, service_states, service_terminal, action_states, action_terminal,
}
use one_m2m_dds_ipe.State.Transactions.{
  Transaction, Transactions, is_active, is_expired, move_active, sweep_rows, sweep_timeouts,
  transaction_kinds, tx_terminal_by_kind,
}

abbrev pub timed_out : ℕ → Transaction → Transaction
timed_out now tx = record tx { state = timeout; updated = now }

abbrev pub timed_out_row : ℕ → String × Transaction → String × Transaction
timed_out_row now (c, tx) = (c, timed_out now tx)

-- The rows are those of the table, and active.
abbrev pub AllIn : Transactions → List (String × Transaction) → Type 0
AllIn t [] = Unit
AllIn t ((c, tx) ∷ rows) = (lookup c t ≡ some tx) × (is_active tx ≡ true) × AllIn t rows

pub AllIn-insert :
    (t : Transactions) (c : String) (tx : Transaction) (rows : List (String × Transaction))
    → member c rows ≡ false
    → AllIn t rows
    → AllIn (insert c tx t) rows
unfolding member
AllIn-insert t c tx [] h all = tt
AllIn-insert t c tx ((j, other) ∷ rows) h all = ground (
  arith,
  AllIn-insert t c tx rows,
  lookup-insert j c tx t,
  string_equality.equals_iff c j,
  string_equality.equals_iff j c,
)

abbrev pub swept_row : ℕ → Option Transaction → Option Transaction → Option Transaction
swept_row now none o = o
swept_row now (some tx) o = some (timed_out now tx)

pub move_active-active :
    (c : String) (now : ℕ) (t : Transactions) (tx : Transaction)
    → lookup c t ≡ some tx
    → is_active tx ≡ true
    → move_active c timeout now t ≡ (insert c (timed_out now tx) t, true)
unfolding move_active
move_active-active c now t tx h a = ground arith

pub swept_row-cons :
    (j c : String) (now : ℕ) (tx : Transaction) (rows : List (String × Transaction))
    (t : Transactions)
    → member c rows ≡ false
    → swept_row now (lookup j rows) (lookup j (insert c (timed_out now tx) t))
      ≡ swept_row now (lookup j ((c, tx) ∷ rows)) (lookup j t)
unfolding lookup
swept_row-cons j c now tx rows t h = ground (
  arith,
  lookup-insert j c (timed_out now tx) t,
  member-eq-false c rows h,
  string_equality.equals_iff j c,
)

sweep_rows-cons :
    (now : ℕ) (c : String) (tx : Transaction) (rows : List (String × Transaction))
    (t : Transactions) (swept : List (String × Transaction))
    → lookup c t ≡ some tx
    → is_active tx ≡ true
    → sweep_rows now ((c, tx) ∷ rows) t swept
      ≡ sweep_rows now rows (insert c (timed_out now tx) t) (swept ++ ((c, timed_out now tx) ∷ []))
unfolding sweep_rows
sweep_rows-cons now c tx rows t swept h a =
    ap
      (λ (p : Transactions × Bool).
        sweep_rows now rows p.0 (if p.1 then swept ++ ((c, timed_out now tx) ∷ []) else swept))
      (move_active-active c now t tx h a)

sweep_rows_lem :
    (now : ℕ) (rows : List (String × Transaction)) (t : Transactions)
    (swept : List (String × Transaction))
    → NodupKeys rows
    → AllIn t rows
    → ((j : String)
        → lookup j (sweep_rows now rows t swept).0 ≡ swept_row now (lookup j rows) (lookup j t))
      × ((sweep_rows now rows t swept).1 ≡ swept ++ map (timed_out_row now) rows)
sweep_rows_lem now [] t swept u all = unfold sweep_rows lookup in (λ j. refl, rw append-nil)
sweep_rows_lem now ((c, tx) ∷ rows) t swept u all =
    let row = timed_out now tx in
    let (looked, listed) =
      sweep_rows_lem now rows (insert c row t) (swept ++ ((c, row) ∷ [])) u.1
        (AllIn-insert t c row rows u.0 all.2) in
    rw (sweep_rows-cons now c tx rows t swept all.0 all.1) (
      λ j. looked j ∙ swept_row-cons j c now tx rows t u.0,
      listed ∙ append_assoc swept ((c, row) ∷ []) (map (timed_out_row now) rows),
    )

head_same :
    (c : String) (tx : Transaction) (rows t : Transactions)
    → (member c ((c, tx) ∷ rows) ≡ true → lookup c t ≡ lookup c ((c, tx) ∷ rows))
    → lookup c t ≡ some tx
unfolding lookup member
head_same c tx rows t h = ground (arith, string_equality.equals_iff c c)

tail_same :
    (j c : String) (tx : Transaction) (rows t : Transactions)
    → (member j ((c, tx) ∷ rows) ≡ true → lookup j t ≡ lookup j ((c, tx) ∷ rows))
    → member c rows ≡ false
    → member j rows ≡ true
    → lookup j t ≡ lookup j rows
unfolding lookup member
tail_same j c tx rows t h u m = ground (arith, string_equality.equals_iff j c)

expired-active : (now : ℕ) (tx : Transaction) → is_expired now tx ≡ true → is_active tx ≡ true
unfolding is_expired
expired-active now tx h = ground arith

-- The rows that an active test selects are in the table, each once, and active.
pub selected-AllIn :
    (test : Transaction → Bool) (t rows : Transactions)
    → ((tx : Transaction) → test tx ≡ true → is_active tx ≡ true)
    → ((j : String) → member j rows ≡ true → lookup j t ≡ lookup j rows)
    → NodupKeys rows
    → AllIn t (keep (λ (c, tx). test tx) rows)
selected-AllIn test t [] active h u = tt
selected-AllIn test t ((c, tx) ∷ rows) active h u =
    let rest : AllIn t (keep (λ (c, tx). test tx) rows) =
      selected-AllIn test t rows active (λ j m. tail_same j c tx rows t (h j) u.0 m) u.1 in
    elim (Bool-cases (test tx)) [
      | inl e ↦ rw e (head_same c tx rows t (h c), active tx e, rest)
      | inr e ↦ rw e rest
    ]

abbrev pub on_expired : ℕ → Option Transaction → Option Transaction
on_expired now none = none
on_expired now (some tx) = some (if is_expired now tx then timed_out now tx else tx)

swept_row-kept :
    (now : ℕ) (o : Option Transaction)
    → swept_row now (kept_if (is_expired now) o) o ≡ on_expired now o
swept_row-kept now o = ground arith

pub sweep_timeouts_lem :
    (now : ℕ) (t : Transactions)
    → NodupKeys t
    → ((j : String) → lookup j (sweep_timeouts now t).0 ≡ on_expired now (lookup j t))
      × ((sweep_timeouts now t).1 ≡ map (timed_out_row now) (keep (λ (c, tx). is_expired now tx) t))
unfolding sweep_timeouts
sweep_timeouts_lem now t u =
    let (looked, listed) =
      sweep_rows_lem now (keep (λ (c, tx). is_expired now tx) t) t []
        (keep-NodupKeys (is_expired now) t u)
        (selected-AllIn (is_expired now) t t (expired-active now) (λ j m. refl) u) in
    (
      λ j.
          looked j
          ∙ ap (λ o. swept_row now o (lookup j t)) (lookup-keep j (is_expired now) t u)
          ∙ swept_row-kept now (lookup j t),
      listed,
    )

timed_out-inactive : (now : ℕ) (tx : Transaction) → is_active (timed_out now tx) ≡ false
unfolding is_active transaction_kinds tx_terminal_by_kind service_states service_terminal
    action_states action_terminal
timed_out-inactive now tx = ground arith

on_expired-done :
    (now : ℕ) (o : Option Transaction) (tx : Transaction)
    → on_expired now o ≡ some tx
    → is_expired now tx ≡ false
on_expired-done now none tx h = cc
on_expired-done now (some old) tx h =
    unfold is_expired in ground (arith, timed_out-inactive now old)

-- After a sweep no transaction of the table is expired at the time of the sweep.
pub sweep_timeouts-done :
    (now : ℕ) (t : Transactions) (j : String) (tx : Transaction)
    → NodupKeys t
    → lookup j (sweep_timeouts now t).0 ≡ some tx
    → is_expired now tx ≡ false
sweep_timeouts-done now t j tx u h =
    on_expired-done now (lookup j t) tx (sym ((sweep_timeouts_lem now t u).0 j) ∙ h)
