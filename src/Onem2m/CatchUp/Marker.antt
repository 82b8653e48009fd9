-- ===== src/Onem2m/CatchUp/Marker.antt =====
-- The recovery marker of a path, which only the end of its own sweep moves.
use Prim.Native.String.append
use Prim.Native.String.{◌++◌ as ◌^◌}
use Prim.Native.Char.{code}
use text.Mathlib.TextLemmas.{append_inj}
use one_m2m_dds_ipe.Prelude.{
  ℕ, String, ◌≡◌, refl, sym, ap, ◌∙◌, ◌≢◌, inl, inr, false, ◌&&◌, Option, none, some, List, [], ◌∷◌,
  Bool-cases, arith, ◌==◌, string_equality, option_equality, ==_refl, ==_cases, if◌then◌else◌,
}
use one_m2m_dds_ipe.Prelude.Dict.{lookup-insert}
use one_m2m_dds_ipe.State.KeyValue.{get_kv, set_kv}
use one_m2m_dds_ipe.Onem2m.CatchUp.{
  Cin, Admission, Scan, Markers, is_newer, is_set, completed_with, mark_processed, scan,
  store_marker, marker_key, notify_key,
}
use one_m2m_dds_ipe.Onem2m.CatchUp.Steps.{scan-nil, handed, advance, scan-cases}

pub get_kv-set_kv {ℓ} :
    {V : Type ℓ} (j k : String) (d v : V) (kv : List (String × V))
    → get_kv j d (set_kv k v kv) ≡ (if j == k then v else get_kv j d kv)
unfolding get_kv set_kv
get_kv-set_kv j k d v kv = ground (arith, lookup-insert j k v kv)

first_code : String → ℕ
first_code String.[] = 0
first_code (String.◌∷◌ c s) = code c

marker_key-ne-notify_key : (p q : String) → marker_key p ≢ notify_key q
unfolding marker_key notify_key first_code
marker_key-ne-notify_key p q e =
    let same : first_code (String.◌∷◌ "c" ("atchup_cin_ct:" ^ p))
        ≡ first_code (String.◌∷◌ "l" ("ast_cin_ct:" ^ q)) =
      ap first_code
        (sym (append.cons "c" "atchup_cin_ct:" p) ∙ e ∙ append.cons "l" "ast_cin_ct:" q) in
    absurd (omega (arith, same))

pub marker_key-injective : (p q : String) → marker_key p ≡ marker_key q → p ≡ q
unfolding marker_key
marker_key-injective p q e = (append_inj {s₁ = "catchup_cin_ct:"} {s₂ = "catchup_cin_ct:"} e refl).1

-- The recovery marker of a path.
abbrev pub marker_of : String → Markers → Option String
marker_of path_key kv = get_kv (marker_key path_key) none kv

keys_differ : (p q : String) → (marker_key p == notify_key q) ≡ false
keys_differ p q = elim (==_cases (marker_key p) (notify_key q)) [
  | inl (_, same) ↦ absurd (marker_key-ne-notify_key p q same)
  | inr (e, _) ↦ e
]

set_marker_self :
    (p : String) (ct : Option String) (kv : Markers)
    → marker_of p (set_kv (marker_key p) ct kv) ≡ ct
set_marker_self p ct kv =
    get_kv-set_kv (marker_key p) (marker_key p) none ct kv
    ∙ ap (λ b. if b then ct else marker_of p kv) (==_refl (marker_key p))

pub mark_processed-marker :
    (p q : String) (ct : Option String) (kv : Markers)
    → marker_of p (mark_processed q ct kv) ≡ marker_of p kv
unfolding mark_processed
mark_processed-marker p q ct kv =
    elim (Bool-cases (is_set ct && is_newer ct (get_kv (notify_key q) none kv))) [
      | inl e ↦ rw e (
          get_kv-set_kv (marker_key p) (notify_key q) none ct kv
          ∙ ap (λ b. if b then ct else marker_of p kv) (keys_differ p q))
      | inr e ↦ rw e refl
    ]

pub store_marker-marker :
    (p : String) (marker completed : Option String) (kv : Markers)
    → marker_of p kv ≡ marker
    → (completed ≡ none → marker ≡ none)
    → marker_of p (store_marker p marker completed kv) ≡ completed
unfolding store_marker
store_marker-marker p marker none kv h none_before = h ∙ none_before refl
store_marker-marker p none (some c) kv h none_before = set_marker_self p (some c) kv
store_marker-marker p (some m) (some c) kv h none_before = elim (==_cases c m) [
  | inl (e, same) ↦ rw e (h ∙ ap some (sym same))
  | inr (e, _) ↦ rw e (set_marker_self p (some c) kv)
]

markers_differ : (p q : String) → (p == q) ≡ false → (marker_key p == marker_key q) ≡ false
markers_differ p q h = elim (==_cases (marker_key p) (marker_key q)) [
  | inl (_, same) ↦ cc (h, (string_equality.equals_iff p q).1 (marker_key-injective p q same))
  | inr (e, _) ↦ e
]

pub store_marker-other :
    (p q : String) (marker completed : Option String) (kv : Markers)
    → (p == q) ≡ false
    → marker_of p (store_marker q marker completed kv) ≡ marker_of p kv
unfolding store_marker
store_marker-other p q marker none kv h = refl
store_marker-other p q marker (some c) kv h = elim (Bool-cases (some c == marker)) [
  | inl e ↦ rw e refl
  | inr e ↦ rw e (
      get_kv-set_kv (marker_key p) (marker_key q) none (some c) kv
      ∙ ap (λ b. if b then some c else marker_of p kv) (markers_differ p q h))
]

completed_with-none :
    (ct completed : Option String) → completed_with ct completed ≡ none → completed ≡ none
unfolding completed_with is_set is_newer
completed_with-none ct none h = refl
completed_with-none none (some c) h = h
completed_with-none (some t) (some c) h = ground arith

module _ {ℓ κ} {C : Type ℓ} {S : Type κ} (admit : Admission C S) where
  -- Admission moves no recovery marker; it may note the times of notifications.
  abbrev pub KeepsMarkers : Type (ℓ ⊔ κ)
  KeepsMarkers =
      (p path_key : String) (ri : Option String) (con : Option C) (ct : Option String)
      (st : Markers × S)
      → marker_of p (admit path_key ri con ct st).1.0 ≡ marker_of p st.0

  module _ (keeps : KeepsMarkers) (path_key : String) (marker : Option String) where
    pub scan-marker :
        (p : String) (cins : List (Cin C)) (v : Scan S)
        → marker_of p (scan admit path_key marker cins v).1.state.0 ≡ marker_of p v.state.0
    scan-marker p [] v = rw (scan-nil admit path_key marker v) refl
    scan-marker p (cin ∷ cins) v =
        let kept = keeps p path_key cin.ri cin.con cin.ct v.state in
        elim (scan-cases admit path_key marker cin cins v) [
          | inl c ↦ rw c.goes_on (scan-marker p cins v)
          | inr (inl c) ↦ rw c.raises kept
          | inr (inr (inl c)) ↦ rw c.stops kept
          | inr (inr (inr c)) ↦ rw c.goes_on (
              scan-marker p cins (advance admit path_key cin c.verdict v)
              ∙ mark_processed-marker p path_key cin.ct (handed admit path_key cin v).1.0
              ∙ kept)
        ]

  -- A time once completed stays one.
  pub completed-none :
      (path_key : String) (marker : Option String) (cins : List (Cin C)) (v : Scan S)
      → (scan admit path_key marker cins v).1.completed ≡ none
      → v.completed ≡ none
  completed-none path_key marker [] v h =
      ap (λ r. r.1.completed) (sym (scan-nil admit path_key marker v)) ∙ h
  completed-none path_key marker (cin ∷ cins) v h =
      elim (scan-cases admit path_key marker cin cins v) [
        | inl c ↦
            completed-none path_key marker cins v (ap (λ r. r.1.completed) (sym c.goes_on) ∙ h)
        | inr (inl c) ↦ ap (λ r. r.1.completed) (sym c.raises) ∙ h
        | inr (inr (inl c)) ↦ ap (λ r. r.1.completed) (sym c.stops) ∙ h
        | inr (inr (inr c)) ↦ completed_with-none cin.ct v.completed (
            completed-none path_key marker cins (advance admit path_key cin c.verdict v)
              (ap (λ r. r.1.completed) (sym c.goes_on) ∙ h))
      ]
