-- ===== src/Onem2m/CatchUp/Steps.antt =====
-- One round of the scan, in its four ways to go.
use one_m2m_dds_ipe.Prelude.{
  ◌+◌, String, ◌≡◌, refl, ◌⊎◌, inl, inr, true, false, Option, List, [], ◌∷◌, Bool-cases, arith,
}
use one_m2m_dds_ipe.Prelude.Result.{Result, Error, ok, err, Result-cases}
use one_m2m_dds_ipe.Onem2m.CatchUp.{
  Verdict, Cin, Admission, Scan, Markers, is_older, refuses, admits, completed_with, mark_processed,
  scan,
}

module _ {ℓ κ} {C : Type ℓ} {S : Type κ} (admit : Admission C S) (path_key : String) where
  abbrev pub handed : Cin C → Scan S → Result Verdict × (Markers × S)
  handed cin v = admit path_key cin.ri cin.con cin.ct v.state

  -- The variables after an element that was not refused.
  abbrev pub advance : Cin C → Verdict → Scan S → Scan S
  advance cin verdict v = record {
    completed = completed_with cin.ct v.completed;
    count = admits verdict + v.count;
    state = (mark_processed path_key cin.ct (handed cin v).1.0, (handed cin v).1.1);
  }

  pub scan-nil :
      (marker : Option String) (v : Scan S) → scan admit path_key marker [] v ≡ (ok tt, v)
  unfolding scan
  scan-nil marker v = refl

  module _ (marker : Option String) (cin : Cin C) (cins : List (Cin C)) (v : Scan S) where
    pub record Skipped : Type (ℓ ⊔ κ) where
      pub older : is_older cin.ct marker ≡ true
      pub goes_on : scan admit path_key marker (cin ∷ cins) v ≡ scan admit path_key marker cins v

    pub record Raised : Type (ℓ ⊔ κ) where
      pub error : Error
      pub raises :
          scan admit path_key marker (cin ∷ cins) v
          ≡ (err error, record v { state = (handed cin v).1 })

    pub record Refused : Type (ℓ ⊔ κ) where
      pub not_older : is_older cin.ct marker ≡ false
      pub verdict : Verdict
      pub answers : (handed cin v).0 ≡ ok verdict
      pub refused : refuses verdict ≡ true
      pub stops :
          scan admit path_key marker (cin ∷ cins) v ≡ (ok tt, record v { state = (handed cin v).1 })

    pub record Taken : Type (ℓ ⊔ κ) where
      pub not_older : is_older cin.ct marker ≡ false
      pub verdict : Verdict
      pub answers : (handed cin v).0 ≡ ok verdict
      pub taken : refuses verdict ≡ false
      pub goes_on :
          scan admit path_key marker (cin ∷ cins) v
          ≡ scan admit path_key marker cins (advance cin verdict v)

    pub scan-cases : Skipped ⊎ Raised ⊎ Refused ⊎ Taken
    unfolding scan
    scan-cases = elim (Bool-cases (is_older cin.ct marker)) [
      | inl e ↦ inl (record { older = e; goes_on = ground arith })
      | inr e ↦ elim (Result-cases (handed cin v).0) [
        | inl (error, a) ↦ inr (inl (record { error = error; raises = ground arith }))
        | inr (verdict, a) ↦ elim (Bool-cases (refuses verdict)) [
          | inl r ↦ inr (
              inr (
                inl (record {
                  not_older = e;
                  verdict = verdict;
                  answers = a;
                  refused = r;
                  stops = ground arith;
                })))
          | inr r ↦ inr (
              inr (
                inr (record {
                  not_older = e;
                  verdict = verdict;
                  answers = a;
                  taken = r;
                  goes_on = ground arith;
                })))
        ]
      ]
    ]
