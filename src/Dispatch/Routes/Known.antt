-- ===== src/Dispatch/Routes/Known.antt =====
-- Every route that the table holds has a kind with a correlation field.
use one_m2m_dds_ipe.Prelude.{String, ◌≡◌, true, Option, some, List, [], ◌∷◌, arith, string_equality}
use one_m2m_dds_ipe.Prelude.Dict.{Dict, lookup, member}
use one_m2m_dds_ipe.Prelude.Result.{Result, ok, err}
use one_m2m_dds_ipe.Dispatch.Routes.{
  Route, RouteTable, InboundEvent, correlation_fields, add, replace, add_alias, remove, all_known,
}

pub data Call {ℓ} (A : Type ℓ) : Type ℓ where
  adding : String → String → String → String → Option (Dict String A) → Call A
  replacing : Dict String (Route A) → Option (Dict String String) → Call A
  aliasing : Option String → String → Call A
  removing : String → Call A

-- A call that raises leaves the table as it was.
abbrev pub or_unchanged {ℓ} : {A : Type ℓ} → RouteTable A → Result (RouteTable A) → RouteTable A
or_unchanged t (ok t') = t'
or_unchanged t (err e) = t

unfoldable pub apply {ℓ} : {A : Type ℓ} → Call A → RouteTable A → RouteTable A
apply (adding p kind robot interface meta) t = or_unchanged t (add p kind robot interface meta t)
apply (replacing routes aliases) t = or_unchanged t (replace routes aliases t)
apply (aliasing sur p) t = add_alias sur p t
apply (removing p) t = remove p t

unfoldable pub run {ℓ} : {A : Type ℓ} → List (Call A) → RouteTable A → RouteTable A
run [] t = t
run (call ∷ calls) t = run calls (apply call t)

pub lookup-known {ℓ} :
    {A : Type ℓ} (p : String) (r : Route A) (routes : Dict String (Route A))
    → all_known routes ≡ true
    → lookup p routes ≡ some r
    → member r.kind correlation_fields ≡ true
unfolding all_known lookup
lookup-known p r [] k h = cc
lookup-known p r ((q, x) ∷ routes) k h = ground (arith, lookup-known p r routes)

abbrev Routed {ℓ} : {A : Type ℓ} → Result (Option (InboundEvent A)) → Type ℓ
Routed {A} r = (event : Option (InboundEvent A)) × (r ≡ ok event)
