-- ===== src/Inbound/Recovery.antt =====
-- The sweeper of src/ipe/onem2m/catchup.py with the admission of src/ipe/runtime/inbound.py.
use one_m2m_dds_ipe.Prelude.{
  ℕ, String, ◌≡◌, ap, ◌∙◌, inl, inr, Option, none, string_equality, arith,
}
use one_m2m_dds_ipe.Prelude.Dict.{Dict}
use one_m2m_dds_ipe.Core.Common.{Value}
use one_m2m_dds_ipe.Dispatch.Routes.{Notification}
use one_m2m_dds_ipe.Onem2m.CatchUp.{Markers}
use one_m2m_dds_ipe.Onem2m.CatchUp.Marker.{marker_of, mark_processed-marker}
use one_m2m_dds_ipe.Inbound.{
  Environment, Event, InboundProcessor, wake, enqueue, admit_event, admit, catchup_admit, admission,
  dedup_key,
}
use one_m2m_dds_ipe.Inbound.Outcomes.{admit_event-cases, admit-cases, looked_up}

module _ (env : Environment) (now : ℕ) where
  enqueue-marker :
      (x path_key : String) (ev : Event) (corr : String) (p : InboundProcessor)
      → marker_of x (enqueue env now path_key ev corr p).1.kv ≡ marker_of x p.kv
  unfolding enqueue wake
  enqueue-marker x path_key ev corr p = ground (arith, mark_processed-marker x path_key ev.ct p.kv)

  admit_event-marker :
      (x path_key : String) (ev : Event) (p : InboundProcessor)
      → marker_of x (admit_event env now path_key ev p).1.kv ≡ marker_of x p.kv
  admit_event-marker x path_key ev p = elim (admit_event-cases env now path_key ev p) [
    | inl (_, (outbound, e)) ↦ ap (λ r. marker_of x r.1.kv) e
    | inr (_, e) ↦
        ap (λ r. marker_of x r.1.kv) e
        ∙ enqueue-marker x path_key ev (dedup_key env ev)
            (record p { processed = (looked_up env now ev p).0 })
  ]

  admit-marker :
      (x : String) (cr : Option String) (path_key : String) (n : Notification Value)
      (p : InboundProcessor)
      → marker_of x (admit env now cr path_key n p).1.kv ≡ marker_of x p.kv
  admit-marker x cr path_key n p = elim (admit-cases env now cr path_key n p) [
    | inl (error, e) ↦ ap (λ r. marker_of x r.1.kv) e
    | inr (inl (v, outbound, _, e)) ↦ ap (λ r. marker_of x r.1.kv) e
    | inr (inr (ev, _, e)) ↦ ap (λ r. marker_of x r.1.kv) e ∙ admit_event-marker x path_key ev p
  ]

  -- Admission, as the sweeper calls it, meets what the sweeper relies on: whatever it answers, also
  -- if it raises, the recovery marker of every path is as it was.
  pub admission-KeepsMarkers :
      (x path_key : String) (ri : Option String) (con : Option (Dict String Value))
      (ct : Option String) (kv : Markers) (p : InboundProcessor)
      → marker_of x (admission env now path_key ri con ct (kv, p)).1.0 ≡ marker_of x kv
  unfolding admission catchup_admit
  admission-KeepsMarkers x path_key ri con ct kv p =
      admit-marker x none path_key
        (record { sur = none; con = con; cin_ri = ri; cin_ct = ct; fcnt = none; st = none })
        (record p { kv = kv })
