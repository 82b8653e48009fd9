-- ===== src/Inbound/Pending/Events.antt =====
-- Which events wait after a put, after a batch and after an admission.
use one_m2m_dds_ipe.Prelude.{
  ℕ, ◌-◌, String, ◌≡◌, ◌≢◌, refl, sym, ap, ◌∙◌, subst, inl, inr, Bool, true, false, not, ◌&&◌, ◌||◌,
  Option, none, some, List, [], ◌∷◌, ◌++◌, length, take, drop, take-append, take-append-drop, ◌==◌,
  string_equality, Option-cases, Bool-cases, ==_cases, arith,
}
use Prim.Native.String.append
use Prim.Native.String.{◌++◌ as ◌^◌}
use one_m2m_dds_ipe.Prelude.Dict.{Dict, lookup, member}
use one_m2m_dds_ipe.Prelude.Result.{ok}
use one_m2m_dds_ipe.Core.Common.{Value}
use one_m2m_dds_ipe.Queues.Inbound.{InboundQueue, put_normal, put_control, get_batch}
use one_m2m_dds_ipe.Queues.Inbound.Batches.{get_batch_lem}
use one_m2m_dds_ipe.State.Admission.{ProcessedKey, processed_key_equality}
use one_m2m_dds_ipe.Dispatch.Routes.{
  Notification, RouteTable, correlation_fields, all_known, route, qos_event, content_event,
  correlation,
}
use one_m2m_dds_ipe.Dispatch.Routes.Known.{lookup-known}
use one_m2m_dds_ipe.Inbound.{Environment, Event, Waiting, first_of, dedup_key, correlation_text}
use one_m2m_dds_ipe.Onem2m.CatchUp.{or_empty}
use one_m2m_dds_ipe.Inbound.Dispatch.{is_internal, corr_of}
use one_m2m_dds_ipe.Inbound.Pending.{waits, in_queue}

module _ (env : Environment) (k : ProcessedKey) where
  waits-append :
      (xs ys : List Waiting) → waits env k (xs ++ ys) ≡ (waits env k xs || waits env k ys)
  unfolding waits
  waits-append [] ys = refl
  waits-append (x ∷ xs) ys = ground (arith, waits-append xs ys)

  waits-take-drop :
      (n : ℕ) (xs : List Waiting)
      → waits env k xs ≡ (waits env k (take n xs) || waits env k (drop n xs))
  waits-take-drop n xs =
      ap (waits env k) (sym (take-append-drop n xs)) ∙ waits-append (take n xs) (drop n xs)

  -- A batch and what is left of the queue hold what the queue held.
  pub get_batch-waits :
      (budget : ℕ) (q : InboundQueue Waiting)
      → in_queue env k q ≡ true
      → (waits env k (get_batch budget q).1 || in_queue env k (get_batch budget q).0) ≡ true
  get_batch-waits budget q h =
      let n = budget - length q.control in
      rw (get_batch_lem budget q, take-append budget q.control q.normal)
        (ground (
          arith,
          waits-append (take budget q.control) (take n q.normal),
          waits-take-drop budget q.control,
          waits-take-drop n q.normal,
        ))

  pub put_control-waits :
      (item : Waiting) (q : InboundQueue Waiting)
      → (put_control item q).1 ≡ true
      → in_queue env k (put_control item q).0 ≡ (in_queue env k q || waits env k (item ∷ []))
  unfolding put_control
  put_control-waits item q h = ground (arith, waits-append q.control (item ∷ []))

  pub put_normal-waits :
      (item : Waiting) (q : InboundQueue Waiting)
      → (put_normal item q).1 ≡ true
      → in_queue env k (put_normal item q).0 ≡ (in_queue env k q || waits env k (item ∷ []))
  unfolding put_normal
  put_normal-waits item q h = ground (arith, waits-append q.normal (item ∷ []))

first_of-blank : (a b : Option String) → first_of a b ≡ "" → first_of b a ≡ ""
unfolding first_of or_empty
first_of-blank none none h = refl
first_of-blank none (some b) h = ground (arith, string_equality.equals_iff b "")
first_of-blank (some a) none h = ground (arith, string_equality.equals_iff a "")
first_of-blank (some a) (some b) h =
    ground (arith, string_equality.equals_iff a "", string_equality.equals_iff b "")

head_count : String → ℕ
head_count String.[] = 0
head_count (String.◌∷◌ c s) = 1

cancel_key-filled : (s : String) → "cancel:" ^ s ≢ ""
unfolding head_count
cancel_key-filled s e = absurd (omega (arith, ap head_count (sym (append.cons "c" "ancel:" s) ∙ e)))

module _ (env : Environment) where
  dedup_key-blank :
      (ev : Event) → dedup_key env ev ≡ "" → first_of (correlation_text env ev) ev.event_id ≡ ""
  unfolding dedup_key
  dedup_key-blank ev h = elim (Bool-cases (ev.kind == "decision")) [
    | inl d ↦ first_of-blank ev.event_id (correlation_text env ev) (ground arith)
    | inr d ↦ elim (Bool-cases (ev.kind == "cancel")) [
      | inl c ↦
          absurd (cancel_key-filled (first_of ev.event_id (correlation_text env ev)) (ground arith))
      | inr c ↦ ground arith
    ]
  ]

  -- The drain looks an event up under the key that admission has given it.
  pub corr_of-dedup_key :
      (ev : Event)
      → corr_of env (record { event = ev; dedup_corr = some (dedup_key env ev) }) ≡ dedup_key env ev
  unfolding corr_of first_of or_empty dedup_key
  corr_of-dedup_key ev = elim (==_cases (dedup_key env ev) "") [
    | inl (e, blank) ↦
        rw (e, first_of) (ap or_empty (ap some (dedup_key-blank ev blank)) ∙ sym blank)
    | inr (e, _) ↦ rw (e, first_of) refl
  ]

-- No key of the dictionary begins with an underscore.
none_internal : Dict String String → Bool
none_internal [] = true
none_internal ((k, v) ∷ d) = not (is_internal k) && none_internal d

member-none_internal :
    (k : String) (d : Dict String String)
    → none_internal d ≡ true
    → member k d ≡ true
    → is_internal k ≡ false
unfolding none_internal member
member-none_internal k [] plain h = cc
member-none_internal k ((j, v) ∷ d) plain h = elim (==_cases k j) [
  | inl (e, same) ↦ subst (λ s. is_internal s ≡ false) (sym same) (ground (arith, plain))
  | inr (differs, _) ↦ member-none_internal k d (ground (arith, plain)) (ground (arith, h))
]

is_internal-known : (k : String) → member k correlation_fields ≡ true → is_internal k ≡ false
unfolding none_internal is_internal
is_internal-known k h = member-none_internal k correlation_fields refl h

-- An event that comes from a route has the route's kind, so it is not internal.
pub route-kind :
    (str : ℕ → String) (path_key : String) (n : Notification Value) (t : RouteTable Value)
    (ev : Event)
    → all_known t.routes ≡ true
    → route str path_key n t ≡ ok (some ev)
    → is_internal ev.kind ≡ false
unfolding route qos_event content_event correlation
route-kind str path_key n t ev known h = elim (Option-cases (lookup path_key t.routes)) [
  | inl e ↦ absurd (ground arith)
  | inr (r, e) ↦
      let plain = is_internal-known r.kind (lookup-known path_key r t.routes known e) in
      let same : ev.kind ≡ r.kind = ground arith in ap is_internal same ∙ plain
]
