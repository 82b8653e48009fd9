-- ===== src/Onem2m/Client/Recoverable.antt =====
-- Which responses can be classified.
use one_m2m_dds_ipe.Prelude.{
  ℕ, ◌≡◌, ◌⊎◌, inl, inr, ◌≤◌, ◌<◌, false, none, some, arith, ltb, Option-cases, Bool-cases, ltb→lt,
}
use one_m2m_dds_ipe.Prelude.Dict.{lookup}
use one_m2m_dds_ipe.Prelude.Result.{Result-cases, ok, err, value_error}
use one_m2m_dds_ipe.Onem2m.Client.{
  OneM2MResponse, is_ok, Classification, response, classify, classify_rsc, classify_status,
  http_status_from_rsc,
}

-- The code that decides: that of oneM2M if there is one, or else that of HTTP.
abbrev pub IsFailureCode : OneM2MResponse → Type 0
IsFailureCode r = elim r.rsc [ none ↦ 400 ≤ r.status | some rsc ↦ 4000 ≤ rsc ]

abbrev pub IsSuccessCode : OneM2MResponse → Type 0
IsSuccessCode r = elim r.rsc [ none ↦ r.status < 400 | some rsc ↦ rsc < 4000 ]

-- A response is classified exactly if the code that decides is one of a failure: 4000 and above in
-- oneM2M, or 400 and above in HTTP if there is no oneM2M code. Otherwise `classify` raises.
pub classify-response :
    (r : OneM2MResponse)
    → (IsFailureCode r × ((class : Classification) × (classify (response r) ≡ ok class)))
      ⊎ (IsSuccessCode r × (classify (response r) ≡ err value_error))
unfolding classify classify_status classify_rsc
classify-response r = elim (Option-cases r.rsc) [
  | inl e ↦ rw e (by_status r.status)
  | inr (rsc, e) ↦ rw e (by_rsc rsc)
]
  where
    by_status :
        (s : ℕ)
        → ((400 ≤ s) × ((class : Classification) × (classify_status s ≡ ok class)))
          ⊎ ((s < 400) × (classify_status s ≡ err value_error))
    by_status s = elim (Bool-cases (ltb s 400)) [
      | inl low ↦ inr (ltb→lt s 400 low, ground arith)
      | inr high ↦ elim (Result-cases (classify_status s)) [
        | inl (e, h) ↦ absurd (ground arith)
        | inr found ↦ inl (ground arith, found)
      ]
    ]

    by_rsc :
        (s : ℕ)
        → ((4000 ≤ s) × ((class : Classification) × (classify_rsc s ≡ ok class)))
          ⊎ ((s < 4000) × (classify_rsc s ≡ err value_error))
    by_rsc s = elim (Bool-cases (ltb s 4000)) [
      | inl low ↦ inr (ltb→lt s 4000 low, ground arith)
      | inr high ↦ elim (Result-cases (classify_rsc s)) [
        | inl (e, h) ↦ absurd (ground arith)
        | inr found ↦ inl (ground arith, found)
      ]
    ]

made_up_status :
    (rsc : ℕ) → (rsc < 2000) ⊎ ((3000 ≤ rsc) × (rsc < 4000)) → http_status_from_rsc rsc ≡ 400
unfolding http_status_from_rsc lookup
made_up_status rsc h = ground arith

-- The MQTT client makes up a status for each response code. A code below 4000 that is not one of
-- 2000 to 2999 gives a response that is no success and that `classify` raises on.
pub classify-mqtt :
    (rsc : ℕ)
    → (rsc < 2000) ⊎ ((3000 ≤ rsc) × (rsc < 4000))
    → let r : OneM2MResponse = record { status = http_status_from_rsc rsc; rsc = some rsc } in
      (is_ok r ≡ false) × (classify (response r) ≡ err value_error)
unfolding is_ok classify classify_rsc
classify-mqtt rsc h = ground (arith, made_up_status rsc)
