-- ===== src/Onem2m/CatchUp/Recovery.antt =====
-- No element of a container is lost between one sweep and the next.
use one_m2m_dds_ipe.Prelude.{
  ℕ, String, ◌≡◌, refl, sym, ap, ◌∙◌, subst, ◌⊎◌, inl, inr, true, false, none, List, [], ◌∷◌,
  Bool-cases,
}
use one_m2m_dds_ipe.Prelude.Result.{Result, ok, err}
use one_m2m_dds_ipe.Prelude.Order.{pair_lt-asym, not_pair_lt_trans}
use one_m2m_dds_ipe.Prelude.Sorting.{In, All, All-In, Ordered, sorted, In-sorted, sorted-Ordered}
use one_m2m_dds_ipe.Onem2m.CatchUp.{
  Cin, or_empty, Admission, Scan, Markers, is_older, cin_lt, sweep_one, finish_sweep,
}
use one_m2m_dds_ipe.Onem2m.CatchUp.Marker.{
  marker_of, KeepsMarkers, scan-marker, completed-none, store_marker-marker,
}
use one_m2m_dds_ipe.Onem2m.CatchUp.Fate.{
  Log, watched, accepted, any_refused, Fate, IsBounded, run, run-Fate,
}

module _ {ℓ} {C : Type ℓ} where
  cin_lt-asym : (a b : Cin C) → cin_lt a b ≡ true → cin_lt b a ≡ false
  unfolding cin_lt
  cin_lt-asym a b h = pair_lt-asym (or_empty a.ct) (or_empty a.ri) (or_empty b.ct) (or_empty b.ri) h

  cin_lt_trans : (a b c : Cin C) → cin_lt b a ≡ false → cin_lt c b ≡ false → cin_lt c a ≡ false
  unfolding cin_lt
  cin_lt_trans a b c h k =
      not_pair_lt_trans (or_empty a.ct) (or_empty a.ri) (or_empty b.ct) (or_empty b.ri)
        (or_empty c.ct) (or_empty c.ri) h k

module _ {ℓ κ} {C : Type ℓ} {S : Type κ} (admit : Admission C S) (keeps : KeepsMarkers admit)
    (path_key : String) (kv : Markers) (s : S) where
  abbrev start : Scan (S × Log)
  start = record { completed = marker_of path_key kv; count = 0; state = (kv, (s, [])) }

  abbrev swept : (String → Result (List (Cin C))) → String → Result ℕ × (Markers × (S × Log))
  swept listing cnt_path = sweep_one (watched admit) listing path_key cnt_path (kv, (s, []))

  -- An element is older than the marker was, or was handed over, or is left to the next sweep.
  abbrev pub Accounted : Result ℕ × (Markers × (S × Log)) → Cin C → Type 0
  Accounted r cin =
      (is_older cin.ct (marker_of path_key kv) ≡ true)
      ⊎ (accepted cin.ri cin.ct r.1.1.1 ≡ true)
      ⊎ ((is_older cin.ct (marker_of path_key r.1.0) ≡ false) × (any_refused r.1.1.1 ≡ true))

  Fate-Accounted :
      (v : Scan (S × Log)) (cin : Cin C)
      → marker_of path_key v.state.0 ≡ marker_of path_key kv
      → (v.completed ≡ none → marker_of path_key kv ≡ none)
      → Fate admit path_key (marker_of path_key kv) v cin
      → Accounted (finish_sweep path_key (marker_of path_key kv) (ok tt, v)) cin
  unfolding finish_sweep
  Fate-Accounted v cin kept before (inl older) = inl older
  Fate-Accounted v cin kept before (inr (inl handed)) = inr (inl handed)
  Fate-Accounted v cin kept before (inr (inr (left, refusal))) =
      let stored =
        store_marker-marker path_key (marker_of path_key kv) v.completed v.state.0 kept before in
      inr (inr (subst (λ c. is_older cin.ct c ≡ false) (sym stored) left, refusal))

  finish_sweep-Accounted :
      (r : Result (Unit {0}) × Scan (S × Log)) (n : ℕ) (cins : List (Cin C)) (cin : Cin C)
      → run admit path_key (marker_of path_key kv) cins start ≡ r
      → (finish_sweep path_key (marker_of path_key kv) r).0 ≡ ok n
      → Ordered cin_lt cins
      → In cin cins
      → Accounted (finish_sweep path_key (marker_of path_key kv) r) cin
  unfolding finish_sweep
  finish_sweep-Accounted (err e, v) n cins cin ran h o m = cc
  finish_sweep-Accounted (ok done, v) n cins cin ran h o m =
      let marker = marker_of path_key kv in
      Fate-Accounted v cin
        (ap (λ r. marker_of path_key r.1.state.0) (sym ran)
          ∙ scan-marker (watched admit) watched-KeepsMarkers path_key marker path_key cins start)
        (λ e.
          completed-none (watched admit) path_key marker cins start
            (ap (λ r. r.1.completed) ran ∙ e))
        (All-In (Fate admit path_key marker v) cin cins
          (run-Fate admit path_key marker cins start v o (all_bounded cins) ran) m)
    where
      watched-KeepsMarkers : KeepsMarkers (watched admit)
      watched-KeepsMarkers p q ri con ct (kv, (s, log)) = keeps p q ri con ct (kv, s)

      bounded :
          (cin : Cin C)
          → IsBounded admit path_key (marker_of path_key kv) (marker_of path_key kv) cin
      bounded cin = elim (Bool-cases (is_older cin.ct (marker_of path_key kv))) [
        | inl e ↦ inl e
        | inr e ↦ inr e
      ]

      all_bounded :
          (cins : List (Cin C))
          → All (IsBounded admit path_key (marker_of path_key kv) (marker_of path_key kv)) cins
      all_bounded [] = tt
      all_bounded (c ∷ cins) = (bounded c, all_bounded cins)

  swept-finish :
      (listing : String → Result (List (Cin C))) (cnt_path : String) (cins : List (Cin C))
      → listing cnt_path ≡ ok cins
      → swept listing cnt_path
        ≡ finish_sweep path_key
            (marker_of path_key kv)
            (run admit path_key (marker_of path_key kv) (sorted cin_lt cins) start)
  unfolding sweep_one
  swept-finish listing cnt_path cins l = rw (l, sweep_one) refl

  -- A sweep that returns loses nothing: each element of the listing is older than the marker was,
  -- or was handed over and not refused, or will not be passed over by the next sweep; the last
  -- only where some element was refused.
  pub sweep_one-Accounted :
      (listing : String → Result (List (Cin C))) (cnt_path : String) (cins : List (Cin C)) (n : ℕ)
      → listing cnt_path ≡ ok cins
      → (swept listing cnt_path).0 ≡ ok n
      → (cin : Cin C) → In cin cins
      → Accounted (swept listing cnt_path) cin
  sweep_one-Accounted listing cnt_path cins n l h cin m =
      let scanned = run admit path_key (marker_of path_key kv) (sorted cin_lt cins) start in
      let same = swept-finish listing cnt_path cins l in
      subst (λ r. Accounted r cin) (sym same)
        (finish_sweep-Accounted scanned n (sorted cin_lt cins) cin refl
          (ap (λ r. r.0) (sym same) ∙ h) (sorted-Ordered cin_lt cin_lt-asym cin_lt_trans cins)
          (In-sorted cin_lt cin cins m))

module _ {ℓ κ} {C : Type ℓ} {S : Type κ} (admit : Admission C S) (keeps : KeepsMarkers admit) where
  -- The next sweep of the path, which begins with the table as the first one leaves it.
  abbrev pub sweeps :
      (String → Result (List (Cin C)))
      → String
      → String
      → Markers × S
      → Result ℕ × (Markers × (S × Log))
  sweeps listing path_key cnt_path (kv, s) =
      sweep_one (watched admit) listing path_key cnt_path (kv, (s, []))

  -- Recovery: an element that is listed in two sweeps of a path, one after the other, and was not
  -- older than the marker at first, is handed over and not refused in one of the two, if both
  -- return and the second refuses nothing.
  pub sweep_one-recovers :
      (listing listing' : String → Result (List (Cin C))) (path_key cnt_path : String)
      (cins cins' : List (Cin C)) (kv : Markers) (s s' : S) (n n' : ℕ)
      → let first = sweeps listing path_key cnt_path (kv, s) in
        let second = sweeps listing' path_key cnt_path (first.1.0, s') in
        listing cnt_path ≡ ok cins
        → listing' cnt_path ≡ ok cins'
        → first.0 ≡ ok n
        → second.0 ≡ ok n'
        → any_refused second.1.1.1 ≡ false
        → (cin : Cin C) → In cin cins
        → In cin cins'
        → is_older cin.ct (marker_of path_key kv) ≡ false
        → (accepted cin.ri cin.ct first.1.1.1 ≡ true) ⊎ (accepted cin.ri cin.ct second.1.1.1 ≡ true)
  sweep_one-recovers listing listing' path_key cnt_path cins cins' kv s s' n n' l l' h h' quiet cin
        m m' new =
      let first = sweeps listing path_key cnt_path (kv, s) in
      elim (sweep_one-Accounted admit keeps path_key kv s listing cnt_path cins n l h cin m) [
        | inl older ↦ cc (older, new)
        | inr (inl handed) ↦ inl handed
        | inr (inr (left, _)) ↦
            elim (sweep_one-Accounted admit keeps path_key first.1.0 s' listing' cnt_path cins' n'
              l' h' cin m') [
                | inl older ↦ cc (older, left)
                | inr (inl handed) ↦ inr handed
                | inr (inr (_, refusal)) ↦ cc (refusal, quiet)
              ]
      ]
