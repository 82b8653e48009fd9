-- ===== src/Dispatch/Routes.antt =====
-- `RouteTable` of src/ipe/runtime/dispatcher.py. `A` is the type of the values in payloads and
-- metadata, and `str` is Python's `str` of the integer `st`.
pub mod Aliases
pub mod Known
use one_m2m_dds_ipe.Prelude.{
  ℕ, String, Bool, true, false, not, ◌&&◌, ◌||◌, Option, none, some, List, [], ◌∷◌, length, ◌==◌,
  if◌then◌else◌, string_equality,
}
use Prim.Native.String.{◌++◌ as ◌^◌}
use one_m2m_dds_ipe.Prelude.Dict.{Dict, lookup, member, insert, erase}
use one_m2m_dds_ipe.Prelude.Result.{Result, ok, err, value_error, key_error, ◌>>=◌}

abbrev pub correlation_fields : Dict String String
correlation_fields =
    ("command", "commandId")
    ∷ ("service", "requestId")
    ∷ ("action_goal", "goalId")
    ∷ ("cancel", "goalId")
    ∷ ("decision", "proposalId")
    ∷ ("qos_update", "st")
    ∷ ("qos_policy", "requestId")
    ∷ []

pub record Route {ℓ} (A : Type ℓ) : Type ℓ where
  pub kind : String
  pub robot_id : String
  pub interface : String
  pub meta : Dict String A

-- The fields of `Notification` (src/ipe/onem2m/notification.py) that a route reads.
pub record Notification {ℓ} (A : Type ℓ) : Type ℓ where
  pub sur : Option String
  pub con : Option (Dict String A)
  pub cin_ri : Option String
  pub cin_ct : Option String
  pub fcnt : Option (Dict String A)
  pub st : Option ℕ

pub record InboundEvent {ℓ} (A : Type ℓ) : Type ℓ where
  pub kind : String
  pub robot_id : String
  pub interface : String
  pub correlation_id : Option A
  pub event_id : Option String
  pub payload : Option (Dict String A)
  pub ct : Option String
  pub meta : Option (Dict String A)

pub record RouteTable {ℓ} (A : Type ℓ) : Type ℓ where
  pub routes : Dict String (Route A)
  pub by_sur : Dict String String

unfoldable pub is_slash : String → Bool
is_slash s = s == "/"

-- `sur.lstrip("/")`
unfoldable pub norm_sur : String → String
norm_sur String.[] = String.[]
norm_sur (String.◌∷◌ c s) =
    let rest = norm_sur s in if is_slash (String.◌∷◌ c String.[]) then rest else String.◌∷◌ c s

-- `not sur`
unfoldable pub is_blank : Option String → Bool
is_blank none = true
is_blank (some s) = s == ""

-- `{self._norm_sur(k): v for k, v in aliases.items()}`
unfoldable pub normalize : Dict String String → Dict String String → Dict String String
normalize done [] = done
normalize done ((k, v) ∷ aliases) = normalize (insert (norm_sur k) v done) aliases

abbrev or_key : Option String → String → String
or_key sur path_key = if is_blank sur then path_key else elim sur [ none ↦ path_key | some s ↦ s ]

module _ {ℓ} {A : Type ℓ} where
  abbrev pub init : RouteTable A
  init = record { routes = []; by_sur = [] }

  unfoldable pub add :
      String
      → String
      → String
      → String
      → Option (Dict String A)
      → RouteTable A
      → Result (RouteTable A)
  add path_key kind robot_id interface meta t =
      if not (member kind correlation_fields)
      then err value_error
      else (let route : Route A = record {
        kind = kind;
        robot_id = robot_id;
        interface = interface;
        meta = elim meta [ none ↦ [] | some m ↦ m ];
      } in
          ok (record t { routes = insert path_key route t.routes }))

  unfoldable pub all_known : Dict String (Route A) → Bool
  all_known [] = true
  all_known ((k, r) ∷ routes) = member r.kind correlation_fields && all_known routes

  unfoldable pub replace :
      Dict String (Route A) → Option (Dict String String) → RouteTable A → Result (RouteTable A)
  replace routes aliases t =
      if not (all_known routes)
      then err value_error
      else ok (record {
        routes = routes;
        by_sur = normalize [] (elim aliases [ none ↦ [] | some a ↦ a ]);
      })

  unfoldable pub add_alias : Option String → String → RouteTable A → RouteTable A
  add_alias none path_key t = t
  add_alias (some sur) path_key t =
      if is_blank (some sur)
      then t
      else record t { by_sur = insert (norm_sur sur) path_key t.by_sur }

  unfoldable pub resolve_sur : Option String → RouteTable A → Option String
  resolve_sur none t = none
  resolve_sur (some sur) t = if is_blank (some sur) then none else lookup (norm_sur sur) t.by_sur

  unfoldable pub remove : String → RouteTable A → RouteTable A
  remove path_key t = record t { routes = erase path_key t.routes }

  unfoldable pub get : String → RouteTable A → Option (Route A)
  get path_key t = lookup path_key t.routes

  unfoldable pub contains_route : String → RouteTable A → Bool
  contains_route path_key t = member path_key t.routes

  unfoldable pub size : RouteTable A → ℕ
  size t = length t.routes

  -- `f"{notif.sur or path_key}:st={notif.st}" if notif.st is not None else notif.cin_ri`
  unfoldable pub update_id : (ℕ → String) → String → Notification A → Option String
  update_id str path_key n = elim n.st [
    | none ↦ n.cin_ri
    | some v ↦ some (or_key n.sur path_key ^ (":st=" ^ str v))
  ]

  unfoldable pub qos_event :
      (ℕ → String) → String → Route A → Notification A → Option (InboundEvent A)
  qos_event str path_key r n = elim n.fcnt [
    | none ↦ none
    | some body ↦ some (record {
      kind = r.kind;
      robot_id = r.robot_id;
      interface = r.interface;
      correlation_id = none;
      event_id = update_id str path_key n;
      payload = some body;
      ct = none;
      meta = some r.meta;
    })
  ]

  -- `CORRELATION_FIELDS[r.kind]` is read only if there is content.
  unfoldable pub correlation : Route A → Notification A → Result (Option A)
  correlation r n = elim n.con [
    | none ↦ ok none
    | some con ↦ elim (lookup r.kind correlation_fields) [
      | none ↦ err key_error
      | some name ↦ ok (lookup name con)
    ]
  ]

  -- `dict(r.meta) if r.meta else None`
  abbrev meta_or_none : Dict String A → Option (Dict String A)
  meta_or_none [] = none
  meta_or_none (m ∷ meta) = some (m ∷ meta)

  unfoldable pub content_event : Route A → Notification A → Result (Option (InboundEvent A))
  content_event r n = correlation r n >>= λ corr.
      (let event : InboundEvent A = record {
        kind = r.kind;
        robot_id = r.robot_id;
        interface = r.interface;
        correlation_id = corr;
        event_id = n.cin_ri;
        payload = n.con;
        ct = n.cin_ct;
        meta = meta_or_none r.meta;
      } in
        ok (some event))

  unfoldable pub route :
      (ℕ → String) → String → Notification A → RouteTable A → Result (Option (InboundEvent A))
  route str path_key n t = elim (lookup path_key t.routes) [
    | none ↦ ok none
    | some r ↦ if r.kind == "qos_update" then ok (qos_event str path_key r n) else content_event r n
  ]
