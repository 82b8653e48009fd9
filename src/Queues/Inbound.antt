-- ===== src/Queues/Inbound.antt =====
-- `InboundQueue` of src/ipe/runtime/queues.py: a control lane that is drained before the normal
-- one. A `while lane and len(out) < budget` loop is a recursion on the lane.
pub mod Batches
use one_m2m_dds_ipe.Prelude.{
  ℕ, Bool, true, false, ◌&&◌, ◌||◌, List, [], ◌∷◌, ◌++◌, length, is_empty, ltb, leb, if◌then◌else◌,
}
use one_m2m_dds_ipe.Prelude.Result.{Result, ok, err, value_error}

pub record InboundQueue {ℓ} (A : Type ℓ) : Type ℓ where
  pub maxsize : ℕ
  pub control_maxsize : ℕ
  pub normal : List A
  pub control : List A

module _ {ℓ} {A : Type ℓ} where
  unfoldable pub init : ℕ → ℕ → Result (InboundQueue A)
  init maxsize control_maxsize =
      if ltb maxsize 1 || ltb control_maxsize 1
      then err value_error
      else ok (record {
        maxsize = maxsize;
        control_maxsize = control_maxsize;
        normal = [];
        control = [];
      })

  unfoldable pub put_normal : A → InboundQueue A → InboundQueue A × Bool
  put_normal item q =
      if leb q.maxsize (length q.normal)
      then (q, false)
      else (record q { normal = q.normal ++ (item ∷ []) }, true)

  unfoldable pub put_control : A → InboundQueue A → InboundQueue A × Bool
  put_control item q =
      if leb q.control_maxsize (length q.control)
      then (q, false)
      else (record q { control = q.control ++ (item ∷ []) }, true)

  -- The loop over one lane: what was collected, and what is left of the lane.
  unfoldable pub drain : ℕ → List A → List A → List A × List A
  drain budget out [] = (out, [])
  drain budget out (x ∷ lane) =
      let rest = drain budget (out ++ (x ∷ [])) lane in
      if ltb (length out) budget then rest else (out, x ∷ lane)

  unfoldable pub get_batch : ℕ → InboundQueue A → InboundQueue A × List A
  get_batch budget q =
      if ltb budget 1
      then (q, [])
      else let (out, control) = drain budget [] q.control in
        let (all_out, normal) = drain budget out q.normal in
        (record q { control = control; normal = normal }, all_out)

  -- `{"control": …, "normal": …}`
  unfoldable pub depths : InboundQueue A → ℕ × ℕ
  depths q = (length q.control, length q.normal)

  unfoldable pub empty : InboundQueue A → Bool
  empty q = is_empty q.control && is_empty q.normal
