-- ===== src/Queues/Inbound/Batches.antt =====
-- What a batch of `InboundQueue` holds, and the bounds of the lanes.
use one_m2m_dds_ipe.Prelude.{
  ℕ, zero, suc, ◌+◌, ◌-◌, ◌≤◌, ◌≡◌, refl, List, [], ◌∷◌, ◌++◌, length, take, drop, lt→ltb, le→ltb,
  arith, length-append, length-take, take-append, length-drop, zero_sub,
}
use mathlib.Core.List.{append-nil, append_assoc}
use one_m2m_dds_ipe.Queues.Inbound.{InboundQueue, put_normal, put_control, drain, get_batch}

-- A full budget takes nothing more.
drain_full {ℓ} :
    {A : Type ℓ} (budget : ℕ) (out lane : List A)
    → budget ≤ length out
    → drain budget out lane ≡ (out, lane)
unfolding drain
drain_full budget out [] h = refl
drain_full budget out (x ∷ lane) h = rw (le→ltb (length out) budget h)

-- With room for `n` more, the loop takes the first `n` items of the lane.
drain_room {ℓ} :
    {A : Type ℓ} (n budget : ℕ) (out lane : List A)
    → length out + n ≡ budget
    → drain budget out lane ≡ (out ++ take n lane, drop n lane)
unfolding drain
drain_room zero budget out lane h = rw append-nil (drain_full budget out lane (omega arith))
drain_room (suc n) budget out [] h = rw append-nil
drain_room (suc n) budget out (x ∷ lane) h = rw (lt→ltb (length out) budget (omega arith)) (
    rw (
      drain_room n budget (out ++ (x ∷ [])) lane (omega (arith, length-append out (x ∷ []))),
      append_assoc,
    ))

-- A batch is the first `budget` items of the control lane followed by the normal lane, in order,
-- and exactly those items leave their lanes; so nothing is lost, copied or reordered, and no item
-- of the normal lane is taken while one of the control lane is left.
pub get_batch_lem {ℓ} :
    {A : Type ℓ} (budget : ℕ) (q : InboundQueue A)
    → get_batch budget q ≡ (
      record q {
        control = drop budget q.control;
        normal = drop (budget - length q.control) q.normal;
      },
      take budget (q.control ++ q.normal),
    )
unfolding get_batch
get_batch_lem zero q = rw (zero_sub (length q.control))
get_batch_lem (suc b) q =
    rw (le→ltb (suc b) 1 (omega arith), drain_room (suc b) (suc b) [] q.control (omega arith))
      (rw (
        drain_room (suc b - length q.control) (suc b) (take (suc b) q.control) q.normal
            (omega (arith, length-take (suc b) q.control)),
        take-append (suc b) q.control q.normal,
      ))

pub record IsBounded {ℓ} {A : Type ℓ} (q : InboundQueue A) : Type 0 where
  pub normal_fits : length q.normal ≤ q.maxsize
  pub control_fits : length q.control ≤ q.control_maxsize

put_normal-IsBounded {ℓ} :
    {A : Type ℓ} (x : A) (q : InboundQueue A) → IsBounded q → IsBounded (put_normal x q).0
unfolding put_normal
put_normal-IsBounded x q h = ground (arith, length-append q.normal (x ∷ []))

put_control-IsBounded {ℓ} :
    {A : Type ℓ} (x : A) (q : InboundQueue A) → IsBounded q → IsBounded (put_control x q).0
unfolding put_control
put_control-IsBounded x q h = ground (arith, length-append q.control (x ∷ []))

get_batch-IsBounded {ℓ} :
    {A : Type ℓ} (budget : ℕ) (q : InboundQueue A) → IsBounded q → IsBounded (get_batch budget q).0
get_batch-IsBounded budget q h =
    rw (get_batch_lem budget q) (
      omega (arith, length-drop budget q.control, length-drop (budget - length q.control) q.normal))

-- From a queue within its limits no put and no batch takes either lane past its limit.
pub queue-IsBounded {ℓ} :
    {A : Type ℓ} (x : A) (budget : ℕ) (q : InboundQueue A)
    → IsBounded q
    → IsBounded (put_normal x q).0
      × IsBounded (put_control x q).0
      × IsBounded (get_batch budget q).0
queue-IsBounded x budget q h =
    (put_normal-IsBounded x q h, put_control-IsBounded x q h, get_batch-IsBounded budget q h)
