-- ===== src/State/Admission/Machine.antt =====
-- The admission table as one small state machine for each key.
use one_m2m_dds_ipe.Prelude.{
  ℕ, String, ◌≡◌, refl, Bool, Option, none, some, [], ◌∷◌, if◌then◌else◌, ◌==◌, arith, Option-cases,
  inl, inr,
}
use one_m2m_dds_ipe.Prelude.Dict.{lookup, lookup-insert, member-eq-false, lookup-eq-none}
use one_m2m_dds_ipe.Prelude.Result.{Result, ok, err}
use one_m2m_dds_ipe.Vocab.{
  ProcessedState, queued, dispatched, overflow, unknown, processed_active_states,
  processed_terminal_states,
}
use one_m2m_dds_ipe.State.Admission.{
  ProcessedKey, processed_key_eq_iff, processed_key_equality, ProcessedRow, Processed, is_queued,
  is_overflow, is_dispatched, update_where, update_all, admit, mark_overflow, cas_dispatch, finish,
  sweep_boot,
}

-- The calls that change rows; `cleanup`, which deletes them, is apart.
pub data Event : Type 0 where
  admitting : ProcessedKey → String → ℕ → Event
  overflowing : ProcessedKey → ℕ → Event
  dispatching : ProcessedKey → ℕ → Event
  finishing : ProcessedKey → ProcessedState → ℕ → Event
  booting : ℕ → Event

-- A call that raises leaves the table as it was.
abbrev pub or_unchanged : Processed → Result (Processed × Bool) → Processed
or_unchanged t (ok (t', done)) = t'
or_unchanged t (err e) = t

unfoldable pub apply : Event → Processed → Processed
apply (admitting k event_id ts) t = (admit k event_id ts t).0
apply (overflowing k ts) t = (mark_overflow k ts t).0
apply (dispatching k ts) t = (cas_dispatch k ts t).0
apply (finishing k s ts) t = or_unchanged t (finish k s ts t)
apply (booting ts) t = (sweep_boot ts t).0

-- What each event does to the row of one key, if the event is of that key.
abbrev pub on_admit : String → ℕ → Option ProcessedRow → Option ProcessedRow
on_admit e ts none = some (record { event_id = e; state = queued; ts = ts })
on_admit e ts (some r) =
    if is_overflow r.state then some (record { event_id = e; state = queued; ts = ts }) else some r

abbrev pub on_change :
    (ProcessedState → Bool)
    → (ProcessedRow → ProcessedRow)
    → Option ProcessedRow
    → Option ProcessedRow
on_change test change none = none
on_change test change (some r) = if test r.state then some (change r) else some r

abbrev pub on_test :
    (ProcessedState → Bool) → ProcessedState → ℕ → Option ProcessedRow → Option ProcessedRow
on_test test s ts o = on_change test (λ r. record r { state = s; ts = ts }) o

unfoldable pub row_step : Event → ProcessedKey → Option ProcessedRow → Option ProcessedRow
row_step (admitting k e ts) j o = if j == k then on_admit e ts o else o
row_step (overflowing k ts) j o = if j == k then on_test is_queued overflow ts o else o
row_step (dispatching k ts) j o = if j == k then on_test is_queued dispatched ts o else o
row_step (finishing k s ts) j o =
    if j == k
    then (if processed_terminal_states s then on_test processed_active_states s ts o else o)
    else o
row_step (booting ts) j o = on_test is_dispatched unknown ts (on_test is_queued overflow ts o)

pub lookup-update_where :
    (j k : ProcessedKey) (test : ProcessedState → Bool) (change : ProcessedRow → ProcessedRow)
    (t : Processed)
    → lookup j (update_where k test change t).0
      ≡ (if j == k then on_change test change (lookup j t) else lookup j t)
unfolding update_where
lookup-update_where j k test change t = elim (Option-cases (lookup k t)) [
  | inl h ↦ ground (arith, processed_key_eq_iff j k)
  | inr (r, h) ↦ ground (arith, processed_key_eq_iff j k, lookup-insert j k (change r) t)
]

lookup-update_all :
    (j : ProcessedKey) (test : ProcessedState → Bool) (s : ProcessedState) (ts : ℕ) (t : Processed)
    → lookup j (update_all test s ts t) ≡ on_test test s ts (lookup j t)
unfolding update_all lookup
lookup-update_all j test s ts [] = refl
lookup-update_all j test s ts ((k, r) ∷ t) = ground (arith, lookup-update_all j test s ts t)

pub lookup-admit :
    (j k : ProcessedKey) (e : String) (ts : ℕ) (t : Processed)
    → lookup j (admit k e ts t).0 ≡ (if j == k then on_admit e ts (lookup j t) else lookup j t)
unfolding admit
lookup-admit j k e ts t =
    let row : ProcessedRow = record { event_id = e; state = queued; ts = ts } in
    elim (Option-cases (lookup k t)) [
      | inl h ↦
          ground (arith, processed_key_eq_iff j k, lookup-eq-none k t, lookup-insert j k row t)
      | inr (r, h) ↦ ground (
        arith,
        processed_key_eq_iff j k,
        member-eq-false k t,
        lookup-update_where j k is_overflow (λ _. row) t,
      )
    ]

pub lookup-finish :
    (j k : ProcessedKey) (s : ProcessedState) (ts : ℕ) (t : Processed)
    → lookup j (or_unchanged t (finish k s ts t)) ≡ row_step (finishing k s ts) j (lookup j t)
unfolding finish row_step
lookup-finish j k s ts t = ground (
  arith,
  lookup-update_where j k processed_active_states (λ r. record r { state = s; ts = ts }) t,
)

-- Each event acts on the rows one by one: what a key's row is after it depends on that row alone,
-- in the way that `row_step` says, and the rows of other keys are not touched.
pub apply-row_step :
    (e : Event) (j : ProcessedKey) (t : Processed)
    → lookup j (apply e t) ≡ row_step e j (lookup j t)
unfolding apply row_step
apply-row_step (admitting k e ts) j t = lookup-admit j k e ts t
apply-row_step (overflowing k ts) j t =
    unfold mark_overflow in lookup-update_where j k is_queued _ t
apply-row_step (dispatching k ts) j t = unfold cas_dispatch in lookup-update_where j k is_queued _ t
apply-row_step (finishing k s ts) j t = lookup-finish j k s ts t
apply-row_step (booting ts) j t = unfold sweep_boot in rw (lookup-update_all, lookup-update_all)
