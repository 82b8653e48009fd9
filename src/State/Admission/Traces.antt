-- ===== src/State/Admission/Traces.antt =====
-- What holds of the admission table over any sequence of calls.
use one_m2m_dds_ipe.Prelude.{
  ℕ, suc, ◌≤◌, ◌≡◌, refl, ap, ◌∙◌, Bool, true, false, ◌&&◌, ◌||◌, Option, none, some, List, [], ◌∷◌,
  if◌then◌else◌, ◌==◌, arith, Option-cases, Bool-cases, inl, inr, ==_cases,
}
use one_m2m_dds_ipe.Prelude.Dict.{lookup}
use one_m2m_dds_ipe.Vocab.{
  ProcessedState, queued, dispatched, overflow, unknown, processed_active_states,
  processed_terminal_states,
}
use one_m2m_dds_ipe.State.Admission.{
  ProcessedKey, processed_key_equality, ProcessedRow, Processed, is_queued, is_overflow,
  is_dispatched, update_where, cas_dispatch, sweep_boot,
}
use one_m2m_dds_ipe.State.Admission.Machine.{
  Event, admitting, overflowing, dispatching, finishing, booting, apply, row_step, apply-row_step,
}

unfoldable pub run : List Event → Processed → Processed
run [] t = t
run (e ∷ es) t = run es (apply e t)

-- Whether the event is a dispatch of the key that wins.
abbrev pub wins : ProcessedKey → Event → Processed → Bool
wins k (dispatching j ts) t = (k == j) && (cas_dispatch j ts t).1
wins k _ t = false

-- How often a dispatch of the key wins along the events.
unfoldable pub dispatches : ProcessedKey → List Event → Processed → ℕ
dispatches k [] t = 0
dispatches k (e ∷ es) t =
    let later = dispatches k es (apply e t) in if wins k e t then suc later else later

-- One dispatch is left to a key that is unknown, queued or waiting for readmission.
abbrev chance : Option ProcessedRow → ℕ
chance none = 1
chance (some r) = if is_queued r.state || is_overflow r.state then 1 else 0

terminal-settled :
    (s : ProcessedState)
    → processed_terminal_states s ≡ true
    → (is_queued s ≡ false)
      × (is_overflow s ≡ false)
      × (processed_active_states s ≡ false)
      × (is_dispatched s ≡ false)
unfolding processed_terminal_states is_queued is_overflow processed_active_states is_dispatched
terminal-settled queued h = cc
terminal-settled overflow h = cc
terminal-settled dispatched h = cc
terminal-settled _ h = ground arith

won-queued :
    (k : ProcessedKey) (ts : ℕ) (t : Processed)
    → (cas_dispatch k ts t).1 ≡ true
    → (r : ProcessedRow) × (lookup k t ≡ some r) × (is_queued r.state ≡ true)
unfolding cas_dispatch update_where
won-queued k ts t h = elim (Option-cases (lookup k t)) [
  | inl e ↦ absurd (ground arith)
  | inr (r, e) ↦ (r, e, ground arith)
]

chance-row_step :
    (k : ProcessedKey) (e : Event) (o : Option ProcessedRow) → chance (row_step e k o) ≤ chance o
unfolding row_step is_queued is_overflow
chance-row_step k (admitting j ev ts) o = ground arith
chance-row_step k (overflowing j ts) o = ground arith
chance-row_step k (dispatching j ts) o = ground arith
chance-row_step k (finishing j s ts) o = ground (arith, terminal-settled s)
chance-row_step k (booting ts) o = unfold is_dispatched in ground arith

-- A dispatch that wins uses the chance up.
chance-won :
    (k : ProcessedKey) (e : Event) (t : Processed)
    → wins k e t ≡ true
    → (chance (lookup k t) ≡ 1) × (chance (row_step e k (lookup k t)) ≡ 0)
unfolding row_step
chance-won k (dispatching j ts) t h = elim (==_cases k j) [
  | inl (e, p) ↦
      let (r, found, q) = won-queued j ts t (ground arith) in
      let here : lookup k t ≡ some r = ap (λ i. lookup i t) p ∙ found in
      rw (here, e, q) (refl, unfold is_queued is_overflow in refl)
  | inr (e, n) ↦ absurd (ground arith)
]
chance-won k (admitting j ev ts) t h = cc
chance-won k (overflowing j ts) t h = cc
chance-won k (finishing j s ts) t h = cc
chance-won k (booting ts) t h = cc

dispatches-le-chance :
    (k : ProcessedKey) (es : List Event) (t : Processed) → dispatches k es t ≤ chance (lookup k t)
unfolding dispatches
dispatches-le-chance k [] t = omega arith
dispatches-le-chance k (e ∷ es) t =
    let later : dispatches k es (apply e t) ≤ chance (row_step e k (lookup k t)) =
      rw (apply-row_step e k t) at (dispatches-le-chance k es (apply e t)) in
    elim (Bool-cases (wins k e t)) [
      | inl h ↦ rw h (omega (arith, later, chance-won k e t h))
      | inr h ↦ rw h (omega (arith, later, chance-row_step k e (lookup k t)))
    ]

chance-le : (o : Option ProcessedRow) → chance o ≤ 1
chance-le o = ground arith

-- However admissions, overflows, dispatches, completions and restarts follow one another, from
-- any table, and whoever calls, at most one dispatch of a key succeeds: no event is executed twice
-- while its row is kept.
pub dispatch_once : (k : ProcessedKey) (es : List Event) (t : Processed) → dispatches k es t ≤ 1
dispatch_once k es t = omega (arith, dispatches-le-chance k es t, chance-le (lookup k t))

abbrev swept : ℕ → ProcessedRow → ProcessedRow
swept ts r =
    if is_queued r.state
    then record r { state = overflow; ts = ts }
    else if is_dispatched r.state
    then record r { state = unknown; ts = ts }
    else r

swept-step :
    (ts : ℕ) (k : ProcessedKey) (r : ProcessedRow)
    → (row_step (booting ts) k (some r) ≡ some (swept ts r))
      × (is_queued (swept ts r).state ≡ false)
      × (is_dispatched (swept ts r).state ≡ false)
unfolding row_step is_queued is_dispatched
swept-step ts k r = ground arith

booted :
    (ts : ℕ) (k : ProcessedKey) (t : Processed)
    → lookup k (sweep_boot ts t).0 ≡ row_step (booting ts) k (lookup k t)
unfolding apply
booted ts k t = apply-row_step (booting ts) k t

-- After a restart no row is queued or being dispatched. A row that was queued is open to
-- readmission, one that was being dispatched has the terminal state `unknown`, and every other row
-- is as it was.
pub sweep_boot-settled :
    (k : ProcessedKey) (ts : ℕ) (t : Processed) (r : ProcessedRow)
    → lookup k t ≡ some r
    → (s : ProcessedRow) × (lookup k (sweep_boot ts t).0 ≡ some s)
      × (is_queued s.state ≡ false)
      × (is_dispatched s.state ≡ false)
      × (s ≡ (
          if is_queued r.state
          then record r { state = overflow; ts = ts }
          else if is_dispatched r.state
          then record r { state = unknown; ts = ts }
          else r))
sweep_boot-settled k ts t r found =
    let (e, not_queued, not_dispatched) = swept-step ts k r in
    (
      swept ts r,
      booted ts k t ∙ ap (row_step (booting ts) k) found ∙ e,
      not_queued,
      not_dispatched,
      refl,
    )
