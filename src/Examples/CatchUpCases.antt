-- ===== src/Examples/CatchUpCases.antt =====
-- Catch-up and the classification of answers on small inputs.
use one_m2m_dds_ipe.Prelude.{
  ℕ, zero, suc, ◌<◌, ◌≤◌, String, ◌≡◌, refl, ◌⊎◌, inl, inr, true, false, Option, none, some, List,
  [], ◌∷◌, arith,
}
use one_m2m_dds_ipe.Prelude.Result.{Result, ok}
use one_m2m_dds_ipe.Prelude.Sorting.{here}
use one_m2m_dds_ipe.Onem2m.Client.{OneM2MResponse}
use one_m2m_dds_ipe.State.KeyValue
use one_m2m_dds_ipe.Onem2m.CatchUp
use one_m2m_dds_ipe.Onem2m.CatchUp.{Cin, Verdict, admitted, overflow, Admission, Markers, is_older}
use one_m2m_dds_ipe.Onem2m.CatchUp.Marker.{KeepsMarkers}
use one_m2m_dds_ipe.Onem2m.CatchUp.Fate.{accepted}
use one_m2m_dds_ipe.Onem2m.CatchUp.Recovery.{
  Accounted, sweeps, sweep_one-Accounted, sweep_one-recovers,
}

-- Admission into a queue of which the room is known.
abbrev room_for : Admission String ℕ
room_for path_key ri con ct (kv, zero) = (ok overflow, (kv, zero))
room_for path_key ri con ct (kv, suc room) = (ok admitted, (kv, room))

room_for-KeepsMarkers : KeepsMarkers room_for
room_for-KeepsMarkers p path_key ri con ct (kv, zero) = refl
room_for-KeepsMarkers p path_key ri con ct (kv, suc room) = refl

abbrev first_cin : Cin String
first_cin = record { ri = some "cin1"; ct = some "20260101T000001"; con = some "go" }

abbrev second_cin : Cin String
second_cin = record { ri = some "cin2"; ct = some "20260101T000002"; con = some "stop" }

-- The container, the newer element listed first.
abbrev listed : String → Result (List (Cin String))
listed cnt_path = ok (second_cin ∷ first_cin ∷ [])

-- There is room for one element: the second one is left to the next sweep.
sweep_one-Accounted_example :
    Accounted room_for room_for-KeepsMarkers "p" [] 1
      (sweeps room_for room_for-KeepsMarkers listed "p" "c" ([], 1))
      second_cin
unfolding one_m2m_dds_ipe.Onem2m.CatchUp.sweep_one one_m2m_dds_ipe.Onem2m.CatchUp.finish_sweep
    one_m2m_dds_ipe.Onem2m.CatchUp.scan one_m2m_dds_ipe.Prelude.Sorting.sorted
    one_m2m_dds_ipe.Onem2m.CatchUp.cin_lt one_m2m_dds_ipe.Prelude.Order.text_lt
    one_m2m_dds_ipe.Onem2m.CatchUp.or_empty is_older one_m2m_dds_ipe.State.KeyValue.get_kv
    one_m2m_dds_ipe.Prelude.Dict.lookup one_m2m_dds_ipe.Onem2m.CatchUp.refuses
    one_m2m_dds_ipe.Onem2m.CatchUp.admits
sweep_one-Accounted_example =
    sweep_one-Accounted room_for room_for-KeepsMarkers "p" [] 1 listed "c"
      (second_cin ∷ first_cin ∷ []) 1 refl refl second_cin (here refl)

sweep_one-recovers_example :
    let first = sweeps room_for room_for-KeepsMarkers listed "p" "c" ([], 1) in
    let second = sweeps room_for room_for-KeepsMarkers listed "p" "c" (first.1.0, 5) in
    (accepted (some "cin2") (some "20260101T000002") first.1.1.1 ≡ true)
    ⊎ (accepted (some "cin2") (some "20260101T000002") second.1.1.1 ≡ true)
unfolding CatchUp.sweep_one CatchUp.finish_sweep CatchUp.scan one_m2m_dds_ipe.Prelude.Sorting.sorted
    CatchUp.cin_lt one_m2m_dds_ipe.Prelude.Order.text_lt CatchUp.or_empty is_older KeyValue.get_kv
    KeyValue.set_kv one_m2m_dds_ipe.Prelude.Dict.lookup CatchUp.refuses CatchUp.admits
    CatchUp.store_marker CatchUp.completed_with CatchUp.is_set CatchUp.is_newer
    CatchUp.mark_processed CatchUp.marker_key CatchUp.notify_key one_m2m_dds_ipe.Prelude.Dict.insert
sweep_one-recovers_example =
    sweep_one-recovers room_for room_for-KeepsMarkers listed listed "p" "c"
      (second_cin ∷ first_cin ∷ []) (second_cin ∷ first_cin ∷ []) [] 1 5 1 2 refl refl refl refl
      refl second_cin (here refl) (here refl) refl

abbrev not_found : OneM2MResponse
not_found = record { status = 404; rsc = some 4004 }
