-- ===== src/Inbound/Pending/Tables.antt =====
-- What the calls on the table do to the queued rows.
use one_m2m_dds_ipe.Prelude.{
  ℕ, String, ◌≡◌, ◌⊎◌, inl, inr, Bool, true, false, none, some, Option, ◌==◌, arith, if◌then◌else◌,
  string_equality, ==_cases,
}
use one_m2m_dds_ipe.Vocab.{ProcessedState, queued, dispatched, overflow, processed_terminal_states}
use one_m2m_dds_ipe.State.Admission.{
  ProcessedKey, ProcessedRow, processed_key_equality, Processed, known_duplicate, is_queued,
  update_where, admit, mark_overflow, cas_dispatch, finish,
}
use one_m2m_dds_ipe.State.Admission.Machine.{
  row_step, or_unchanged, lookup-update_where, lookup-admit, lookup-finish,
}
use one_m2m_dds_ipe.Inbound.Pending.{queued_at}

queued_of : Option ProcessedRow → Bool
queued_of none = false
queued_of (some r) = is_queued r.state

pub cas_dispatch-queued :
    (j k : ProcessedKey) (ts : ℕ) (t : Processed)
    → queued_at j (cas_dispatch k ts t).0 ≡ (if j == k then false else queued_at j t)
unfolding cas_dispatch is_queued
cas_dispatch-queued j k ts t =
    ground
      (arith, lookup-update_where j k is_queued (λ r. record r { state = dispatched; ts = ts }) t)

pub mark_overflow-queued :
    (j k : ProcessedKey) (ts : ℕ) (t : Processed)
    → queued_at j (mark_overflow k ts t).0 ≡ (if j == k then false else queued_at j t)
unfolding mark_overflow is_queued
mark_overflow-queued j k ts t =
    ground
      (arith, lookup-update_where j k is_queued (λ r. record r { state = overflow; ts = ts }) t)

pub admit-queued :
    (j k : ProcessedKey) (e : String) (ts : ℕ) (t : Processed)
    → queued_at j (admit k e ts t).0 ≡ true
    → ((j == k) ≡ true) ⊎ (queued_at j t ≡ true)
admit-queued j k e ts t h = elim (==_cases j k) [
  | inl (same, _) ↦ inl same
  | inr (differs, _) ↦ inr (ground (arith, lookup-admit j k e ts t))
]

pub admit-known :
    (k : ProcessedKey) (e : String) (ts : ℕ) (t : Processed)
    → (admit k e ts t).1 ≡ known_duplicate
    → (admit k e ts t).0 ≡ t
unfolding admit update_where
admit-known k e ts t h = ground arith

terminal-queued : (s : ProcessedState) → processed_terminal_states s ≡ true → is_queued s ≡ false
unfolding processed_terminal_states is_queued
terminal-queued queued h = cc
terminal-queued _ h = ground arith

pub finish-queued :
    (j k : ProcessedKey) (s : ProcessedState) (ts : ℕ) (t : Processed)
    → queued_at j (or_unchanged t (finish k s ts t)) ≡ true
    → queued_at j t ≡ true
unfolding row_step
finish-queued j k s ts t h = ground (arith, lookup-finish j k s ts t, terminal-queued s)
