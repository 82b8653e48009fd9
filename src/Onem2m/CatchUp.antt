-- ===== src/Onem2m/CatchUp.antt =====
-- `CatchUpSweeper` of src/ipe/onem2m/catchup.py. `S` is the state of the admission function, which
-- may also read and write the key-value table; a call that raises leaves its changes behind.
pub mod Steps
pub mod Marker
pub mod Fate
pub mod Recovery
use Prim.Native.String.{◌++◌ as ◌^◌}
use one_m2m_dds_ipe.Prelude.{
  ℕ, ◌+◌, String, Bool, true, false, not, ◌&&◌, ◌||◌, Option, none, some, List, [], ◌∷◌,
  if◌then◌else◌, ◌==◌, string_equality, option_equality,
}
use one_m2m_dds_ipe.Prelude.Dict.{Dict, lookup, member, insert}
use one_m2m_dds_ipe.Prelude.Order.{text_lt}
use one_m2m_dds_ipe.Prelude.Result.{Result, ok, err}
use one_m2m_dds_ipe.Prelude.Sorting.{sorted}
use one_m2m_dds_ipe.State.KeyValue.{get_kv, set_kv}

-- What the admission function answers.
pub data Verdict : Type 0 where
  admitted duplicate overflow invalid denied : Verdict

-- An element of `list_child_cins`; `ri` is the value of `cin.get("ri", "")`, none for a null.
pub record Cin {ℓ} (C : Type ℓ) : Type ℓ where
  pub ri : Option String
  pub ct : Option String
  pub con : Option C

-- The values that the sweeper keeps in the table.
abbrev pub Markers : Type 0
Markers = Dict String (Option String)

unfoldable pub marker_key : String → String
marker_key path_key = "catchup_cin_ct:" ^ path_key

unfoldable pub notify_key : String → String
notify_key path_key = "last_cin_ct:" ^ path_key

-- `ct` is a true value.
unfoldable pub is_set : Option String → Bool
is_set none = false
is_set (some ct) = not (ct == "")

-- `old is None or ct > old`, for a time that is there
unfoldable pub is_newer : Option String → Option String → Bool
is_newer (some ct) none = true
is_newer (some ct) (some old) = text_lt old ct
is_newer none old = false

-- `marker is not None and ct is not None and ct < marker`
unfoldable pub is_older : Option String → Option String → Bool
is_older (some ct) (some marker) = text_lt ct marker
is_older ct marker = false

unfoldable pub initialize_marker : String → Markers → Markers
initialize_marker path_key kv =
    if member (marker_key path_key) kv
    then kv
    else set_kv (marker_key path_key) (get_kv (notify_key path_key) none kv) kv

-- `register`: the set of inputs and the table.
unfoldable pub register :
    String → String → Dict String String × Markers → Dict String String × Markers
register path_key cnt_path (input_cnts, kv) =
    (insert path_key cnt_path input_cnts, initialize_marker path_key kv)

unfoldable pub initialize_all : Dict String String → Markers → Markers
initialize_all [] kv = kv
initialize_all ((path_key, cnt_path) ∷ inputs) kv =
    initialize_all inputs (initialize_marker path_key kv)

unfoldable pub replace : Dict String String → Markers → Dict String String × Markers
replace inputs kv = (inputs, initialize_all inputs kv)

unfoldable pub mark_processed : String → Option String → Markers → Markers
mark_processed path_key ct kv =
    if is_set ct && is_newer ct (get_kv (notify_key path_key) none kv)
    then set_kv (notify_key path_key) ct kv
    else kv

unfoldable pub refuses : Verdict → Bool
refuses overflow = true
refuses denied = true
refuses _ = false

unfoldable pub admits : Verdict → ℕ
admits admitted = 1
admits _ = 0

-- `c.get("ct") or ""`
unfoldable pub or_empty : Option String → String
or_empty none = ""
or_empty (some s) = s

-- `if ct and (completed is None or ct > completed): completed = ct`
unfoldable pub completed_with : Option String → Option String → Option String
completed_with ct completed = if is_set ct && is_newer ct completed then ct else completed

-- The order of the scan: by `ct`, then by `ri`.
unfoldable pub cin_lt {ℓ} : {C : Type ℓ} → Cin C → Cin C → Bool
cin_lt a b =
    text_lt (or_empty a.ct) (or_empty b.ct)
    || ((or_empty a.ct == or_empty b.ct) && text_lt (or_empty a.ri) (or_empty b.ri))

abbrev pub Admission {ℓ κ} : Type ℓ → Type κ → Type (ℓ ⊔ κ)
Admission C S =
    String → Option String → Option C → Option String → Markers × S → Result Verdict × (Markers × S)

-- The loop's variables and the state, at the end of the loop or where a call has raised.
pub record Scan {κ} (S : Type κ) : Type κ where
  pub completed : Option String
  pub count : ℕ
  pub state : Markers × S

-- `if completed is not None and completed != marker`
unfoldable pub store_marker : String → Option String → Option String → Markers → Markers
store_marker path_key marker none kv = kv
store_marker path_key marker (some ct) kv =
    if some ct == marker then kv else set_kv (marker_key path_key) (some ct) kv

-- The scan begins with what `_sweep_one` reads, and ends with what it writes.
unfoldable pub finish_sweep {κ} :
    {S : Type κ} → String → Option String → Result (Unit {0}) × Scan S → Result ℕ × (Markers × S)
finish_sweep path_key marker (err e, v) = (err e, v.state)
finish_sweep path_key marker (ok done, v) =
    (ok v.count, (store_marker path_key marker v.completed v.state.0, v.state.1))

abbrev counted : String → Result ℕ → Dict String ℕ → Dict String ℕ
counted path_key (ok n) injected = insert path_key n injected
counted path_key (err e) injected = injected

module _ {ℓ κ} {C : Type ℓ} {S : Type κ} where
  unfoldable pub scan :
      Admission C S → String → Option String → List (Cin C) → Scan S → Result (Unit {0}) × Scan S
  scan admit path_key marker [] v = (ok tt, v)
  scan admit path_key marker (cin ∷ cins) v =
      let (answer, (kv, s)) = admit path_key cin.ri cin.con cin.ct v.state in
      elim (is_older cin.ct marker) [
        | true ↦ scan admit path_key marker cins v
        | false ↦ elim answer [
          | err e ↦ (err e, record v { state = (kv, s) })
          | ok verdict ↦ elim (refuses verdict) [
            | true ↦ (ok tt, record v { state = (kv, s) })
            | false ↦ scan admit path_key marker cins (record {
              completed = completed_with cin.ct v.completed;
              count = admits verdict + v.count;
              state = (mark_processed path_key cin.ct kv, s);
            })
          ]
        ]
      ]

  unfoldable pub sweep_one :
      Admission C S
      → (String → Result (List (Cin C)))
      → String
      → String
      → Markers × S
      → Result ℕ × (Markers × S)
  sweep_one admit listing path_key cnt_path (kv, s) = elim (listing cnt_path) [
    | err e ↦ (err e, (kv, s))
    | ok cins ↦
        let marker = get_kv (marker_key path_key) none kv in
        finish_sweep path_key marker (
          scan admit path_key marker (sorted cin_lt cins)
            (record { completed = marker; count = 0; state = (kv, s) }))
  ]

  -- `sweep`: the loop over the inputs, which goes on after an exception.
  unfoldable pub sweep_loop :
      Admission C S
      → (String → Result (List (Cin C)))
      → Dict String String
      → Dict String ℕ
      → Markers × S
      → Dict String ℕ × (Markers × S)
  sweep_loop admit listing [] injected st = (injected, st)
  sweep_loop admit listing ((path_key, cnt_path) ∷ inputs) injected st =
      let (outcome, st') = sweep_one admit listing path_key cnt_path st in
      sweep_loop admit listing inputs (counted path_key outcome injected) st'

  unfoldable pub sweep :
      Admission C S
      → (String → Result (List (Cin C)))
      → Dict String String
      → Markers × S
      → Dict String ℕ × (Markers × S)
  sweep admit listing input_cnts st = sweep_loop admit listing input_cnts [] st
