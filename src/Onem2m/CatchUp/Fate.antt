-- ===== src/Onem2m/CatchUp/Fate.antt =====
-- What becomes of each element of a container in one sweep of it. The admission function is
-- watched: the watched one answers alike and notes what it was asked and what it answered.
use one_m2m_dds_ipe.Prelude.{
  String, ◌≡◌, refl, sym, ap, ◌∙◌, subst, ◌⊎◌, inl, inr, Bool, true, false, not, ◌&&◌, ◌||◌, Option,
  none, some, List, [], ◌∷◌, arith, ◌==◌, string_equality, option_equality, ==_refl,
}
use one_m2m_dds_ipe.Prelude.Order.{text_lt}
use one_m2m_dds_ipe.Prelude.Result.{Result, ok, err}
use one_m2m_dds_ipe.Prelude.Sorting.{All, Ordered}
use one_m2m_dds_ipe.Onem2m.CatchUp.{
  Verdict, Cin, Admission, Scan, is_older, is_newer, is_set, or_empty, cin_lt, refuses,
  completed_with, scan,
}
use one_m2m_dds_ipe.Onem2m.CatchUp.Steps.{scan-nil, handed, advance, scan-cases}

abbrev pub Log : Type 0
Log = List (Option String × Option String × Verdict)

abbrev pub note : Option String → Option String → Result Verdict → Log → Log
note ri ct (ok verdict) log = (ri, ct, verdict) ∷ log
note ri ct (err e) log = log

abbrev pub watched {ℓ κ} : {C : Type ℓ} {S : Type κ} → Admission C S → Admission C (S × Log)
watched admit path_key ri con ct (kv, (s, log)) =
    let (answer, (kv', s')) = admit path_key ri con ct (kv, s) in
    (answer, (kv', (s', note ri ct answer log)))

-- The log has an answer for this element that is no refusal.
abbrev pub accepted : Option String → Option String → Log → Bool
accepted ri ct [] = false
accepted ri ct ((ri', ct', verdict) ∷ log) =
    ((ri == ri') && ((ct == ct') && not (refuses verdict))) || accepted ri ct log

-- Some answer was a refusal.
abbrev pub any_refused : Log → Bool
any_refused [] = false
any_refused ((ri, ct, verdict) ∷ log) = refuses verdict || any_refused log

any_refused-note :
    (ri ct : Option String) (verdict : Verdict) (log : Log)
    → refuses verdict ≡ true
    → any_refused (note ri ct (ok verdict) log) ≡ true
any_refused-note ri ct verdict log h = ground arith

accepted-note :
    (ri ct ri' ct' : Option String) (answer : Result Verdict) (log : Log)
    → accepted ri ct log ≡ true
    → accepted ri ct (note ri' ct' answer log) ≡ true
accepted-note ri ct ri' ct' (ok verdict) log h = ground arith
accepted-note ri ct ri' ct' (err e) log h = h

accepted-note_self :
    (ri ct : Option String) (verdict : Verdict) (log : Log)
    → refuses verdict ≡ false
    → accepted ri ct (note ri ct (ok verdict) log) ≡ true
accepted-note_self ri ct verdict log h = ground (arith, ==_refl ri, ==_refl ct)

older-completed_with :
    (later first completed : Option String)
    → text_lt (or_empty later) (or_empty first) ≡ false
    → is_older later completed ≡ false
    → is_older later (completed_with first completed) ≡ false
unfolding is_older completed_with is_set is_newer or_empty
older-completed_with none first completed o h = refl
older-completed_with (some t) none completed o h = h
older-completed_with (some t) (some f) none o h = ground arith
older-completed_with (some t) (some f) (some c) o h = ground arith

-- The time of a later element is not below the time that a round completes.
is_older-completed_with {ℓ} :
    {C : Type ℓ} (first later : Cin C) (completed : Option String)
    → cin_lt later first ≡ false
    → is_older later.ct completed ≡ false
    → is_older later.ct (completed_with first.ct completed) ≡ false
unfolding cin_lt
is_older-completed_with first later completed ordered h =
    let first_key : text_lt (or_empty later.ct) (or_empty first.ct) ≡ false = ground arith in
    older-completed_with later.ct first.ct completed first_key h

module _ {ℓ κ} {C : Type ℓ} {S : Type κ} (admit : Admission C S) (path_key : String)
    (marker : Option String) where
  abbrev pub run : List (Cin C) → Scan (S × Log) → Result (Unit {0}) × Scan (S × Log)
  run = scan (watched admit) path_key marker

  abbrev pub log_of : Scan (S × Log) → Log
  log_of v = v.state.1.1

  -- An element is left to the next sweep: it will not be passed over as older than the marker.
  abbrev pub IsLeft : Option String → Cin C → Type 0
  IsLeft completed cin = is_older cin.ct completed ≡ false

  abbrev pub Fate : Scan (S × Log) → Cin C → Type 0
  Fate v cin =
      (is_older cin.ct marker ≡ true)
      ⊎ (accepted cin.ri cin.ct (log_of v) ≡ true)
      ⊎ (IsLeft v.completed cin × (any_refused (log_of v) ≡ true))

  -- The log only grows.
  run-accepted :
      (cins : List (Cin C)) (v : Scan (S × Log)) (ri ct : Option String)
      → accepted ri ct (log_of v) ≡ true
      → accepted ri ct (log_of (run cins v).1) ≡ true
  run-accepted [] v ri ct h = rw (scan-nil (watched admit) path_key marker v) h
  run-accepted (cin ∷ cins) v ri ct h =
      let noted =
        accepted-note ri ct cin.ri cin.ct (handed (watched admit) path_key cin v).0 (log_of v) h in
      elim (scan-cases (watched admit) path_key marker cin cins v) [
        | inl c ↦ rw c.goes_on (run-accepted cins v ri ct h)
        | inr (inl c) ↦ rw c.raises noted
        | inr (inr (inl c)) ↦ rw c.stops noted
        | inr (inr (inr c)) ↦
            rw c.goes_on
              (run-accepted cins (advance (watched admit) path_key cin c.verdict v) ri ct noted)
      ]

  abbrev pub IsBounded : Option String → Cin C → Type 0
  IsBounded completed cin = (is_older cin.ct marker ≡ true) ⊎ IsLeft completed cin

  All-Fate :
      (v v' : Scan (S × Log)) (cins : List (Cin C))
      → v'.completed ≡ v.completed
      → any_refused (log_of v') ≡ true
      → All (IsBounded v.completed) cins
      → All (Fate v') cins
  All-Fate v v' [] e r all = tt
  All-Fate v v' (cin ∷ cins) e r (inl older, all) = (inl older, All-Fate v v' cins e r all)
  All-Fate v v' (cin ∷ cins) e r (inr left, all) =
      (inr (inr ((rw e left), r)), All-Fate v v' cins e r all)

  completed-IsBounded :
      (first : Cin C) (completed : Option String) (cins : List (Cin C))
      → All (λ later. cin_lt later first ≡ false) cins
      → All (IsBounded completed) cins
      → All (IsBounded (completed_with first.ct completed)) cins
  completed-IsBounded first completed [] o all = tt
  completed-IsBounded first completed (cin ∷ cins) o (inl older, all) =
      (inl older, completed-IsBounded first completed cins o.1 all)
  completed-IsBounded first completed (cin ∷ cins) o (inr left, all) = (
    inr (is_older-completed_with first cin completed o.0 left),
    completed-IsBounded first completed cins o.1 all,
  )

  pub run-Fate :
      (cins : List (Cin C)) (v v' : Scan (S × Log))
      → Ordered cin_lt cins
      → All (IsBounded v.completed) cins
      → run cins v ≡ (ok tt, v')
      → All (Fate v') cins
  run-Fate [] v v' o all h = tt
  run-Fate (cin ∷ cins) v v' o all h =
      elim (scan-cases (watched admit) path_key marker cin cins v) [
        | inl c ↦ (inl c.older, run-Fate cins v v' o.1 all.1 (sym c.goes_on ∙ h))
        | inr (inl c) ↦ cc (ap (λ r. r.0) (sym c.raises ∙ h))
        | inr (inr (inl c)) ↦
            let refusal =
              subst (λ a. any_refused (note cin.ri cin.ct a (log_of v)) ≡ true) (sym c.answers)
                (any_refused-note cin.ri cin.ct c.verdict (log_of v) c.refused) in
            All-Fate v v' (cin ∷ cins) (ap (λ r. r.1.completed) (sym (sym c.stops ∙ h)))
              (subst (λ r. any_refused (log_of r.1) ≡ true) (sym c.stops ∙ h) refusal) all
        | inr (inr (inr c)) ↦
            let v1 = advance (watched admit) path_key cin c.verdict v in
            let rest = sym c.goes_on ∙ h in
            let noted =
              subst (λ a. accepted cin.ri cin.ct (note cin.ri cin.ct a (log_of v)) ≡ true)
                (sym c.answers) (accepted-note_self cin.ri cin.ct c.verdict (log_of v) c.taken) in
            (
              inr (
                  inl (
                    subst (λ r. accepted cin.ri cin.ct (log_of r.1) ≡ true) rest
                      (run-accepted cins v1 cin.ri cin.ct noted))),
              run-Fate cins v1 v' o.1 (completed-IsBounded cin v.completed cins o.0 all.1) rest,
            )
      ]
