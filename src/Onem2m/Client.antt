-- ===== src/Onem2m/Client.antt =====
-- The transport-neutral part of src/ipe/onem2m/client.py: responses, failures and what may be done
-- about them; and what `create_cin` and `update_cnt` add, of src/ipe/onem2m/resource_ops.py.
pub mod Recoverable
use one_m2m_dds_ipe.Prelude.{
  ℕ, String, Bool, true, false, not, ◌&&◌, ◌||◌, Option, none, some, List, [], ◌∷◌, leb, ltb,
  nat_eq, if◌then◌else◌, contains, nat_equality,
}
use one_m2m_dds_ipe.Core.Common.{Fields, find}
use one_m2m_dds_ipe.Prelude.Dict.{Dict, lookup}
use one_m2m_dds_ipe.Prelude.Result.{Result, Error, ok, err, value_error}

pub data Classification : Type 0 where
  recoverable non_recoverable policy_dependent : Classification

abbrev rsc_policy_dependent : List ℕ
rsc_policy_dependent = 4004 ∷ 4103 ∷ 4105 ∷ []

abbrev http_policy_dependent : List ℕ
http_policy_dependent = 403 ∷ 404 ∷ 409 ∷ []

-- The body and the headers do not matter here.
pub record OneM2MResponse : Type 0 where
  pub status : ℕ
  pub rsc : Option ℕ

unfoldable pub is_ok : OneM2MResponse → Bool
is_ok r =
    leb 200 r.status && (ltb r.status 300 && (elim r.rsc [ none ↦ true | some c ↦ ltb c 4000 ]))

-- What is classified: a response, or one of the exceptions that the code tells apart.
pub data Failure : Type 0 where
  response : OneM2MResponse → Failure
  oversize_error : Failure
  transport_error : Bool → Failure
  exception : Error → Failure

unfoldable pub classify_rsc : ℕ → Result Classification
classify_rsc rsc =
    if ltb rsc 4000
    then err value_error
    else if contains rsc rsc_policy_dependent
    then ok policy_dependent
    else if nat_eq rsc 5207
    then ok non_recoverable
    else if leb 5000 rsc
    then ok recoverable
    else ok non_recoverable

unfoldable pub classify_status : ℕ → Result Classification
classify_status status =
    if ltb status 400
    then err value_error
    else if contains status http_policy_dependent
    then ok policy_dependent
    else if leb 500 status
    then ok recoverable
    else ok non_recoverable

unfoldable pub classify : Failure → Result Classification
classify oversize_error = ok non_recoverable
classify (transport_error may_recover) = ok (if may_recover then recoverable else non_recoverable)
classify (exception e) = ok non_recoverable
classify (response r) = elim r.rsc [ some rsc ↦ classify_rsc rsc | none ↦ classify_status r.status ]

abbrev rsc_to_http : Dict ℕ ℕ
rsc_to_http =
    (2000, 200)
    ∷ (2001, 201)
    ∷ (2002, 200)
    ∷ (2004, 200)
    ∷ (4000, 400)
    ∷ (4004, 404)
    ∷ (4102, 400)
    ∷ (4103, 403)
    ∷ (4105, 409)
    ∷ (5207, 500)
    ∷ []

-- The HTTP status that the MQTT client makes up for a response code.
unfoldable pub http_status_from_rsc : ℕ → ℕ
http_status_from_rsc rsc = elim (lookup rsc rsc_to_http) [
  | some status ↦ status
  | none ↦
      if leb 2000 rsc && ltb rsc 3000
      then 200
      else if leb 5000 rsc && ltb rsc 6000
      then 500
      else 400
]

unfoldable pub is_duplicate : OneM2MResponse → Bool
is_duplicate r = nat_eq r.status 409 || (elim r.rsc [ none ↦ false | some c ↦ nat_eq c 4105 ])

pub record CinResult : Type 0 where
  pub created : Bool
  pub duplicate : Bool
  pub response : OneM2MResponse

-- What `create_cin` makes of the answer; `named` says whether a resource name was given.
unfoldable pub cin_result : Bool → OneM2MResponse → CinResult
cin_result named r =
    if nat_eq r.status 201
    then record { created = true; duplicate = false; response = r }
    else if named && is_duplicate r
    then record { created = false; duplicate = true; response = r }
    else record { created = false; duplicate = false; response = r }

-- `key in attrs`
abbrev pub has : String → Fields → Bool
has key attrs = elim (find key attrs) [ none ↦ false | some v ↦ true ]

-- `update_cnt` raises if none of its keys is given.
unfoldable pub may_update_cnt : Fields → Bool
may_update_cnt attrs = has "mni" attrs || (has "mbs" attrs || has "mia" attrs)
