-- ===== src/Dispatch/Lifecycle.antt =====
-- src/ipe/runtime/lifecycle.py: the state that is published, and its copy in the store. The clock
-- is an argument, in milliseconds; the store is the value kept under "ipe_lifecycle".
use one_m2m_dds_ipe.Prelude.{
  ℕ, suc, ◌+◌, String, ◌≡◌, refl, Bool, Option, none, some, List, [], ◌∷◌, if◌then◌else◌, arith,
}

pub data IpeState : Type 0 where
  not_ready preparing prepared running stopped : IpeState

pub data IpePhase : Type 0 where
  idle validating_config transport_ready dds_joined graph_discovered : IpePhase
  binding_plan_resolved ae_registered cse_resources_prepared cse_provisioned : IpePhase
  binding binding_ready : IpePhase

pub data IpeHealth : Type 0 where
  healthy degraded failed : IpeHealth

pub record LifecycleSnapshot : Type 0 where
  pub ipe_state : IpeState
  pub ipe_phase : IpePhase
  pub ipe_health : IpeHealth
  pub generation : ℕ
  pub updated_at : ℕ
  pub detail : String

-- `persistence` is None, or the store's last value.
pub data Persistence : Type 0 where
  absent : Persistence
  stored : Option LifecycleSnapshot → Persistence

pub record Lifecycle : Type 0 where
  pub persistence : Persistence
  pub generation : ℕ
  pub snapshot : LifecycleSnapshot

abbrev pub set_kv : LifecycleSnapshot → Persistence → Persistence
set_kv s absent = absent
set_kv s (stored old) = stored (some s)

abbrev pub save : Lifecycle → Lifecycle
save l = record l { persistence = set_kv l.snapshot l.persistence }

unfoldable pub init : Persistence → ℕ → Lifecycle
init persistence now = save (record {
  persistence = persistence;
  generation = 0;
  snapshot = record {
    ipe_state = not_ready;
    ipe_phase = idle;
    ipe_health = healthy;
    generation = 0;
    updated_at = now;
    detail = "";
  };
})

unfoldable pub set :
    IpeState → IpePhase → Option IpeHealth → String → Bool → ℕ → Lifecycle → Lifecycle
set state phase health detail next_generation now l =
    let generation = if next_generation then suc l.generation else l.generation in
    save (record l {
      generation = generation;
      snapshot = record {
        ipe_state = state;
        ipe_phase = phase;
        ipe_health = elim health [ none ↦ l.snapshot.ipe_health | some h ↦ h ];
        generation = generation;
        updated_at = now;
        detail = detail;
      };
    })

pub record Change : Type 0 where
  pub state : IpeState
  pub phase : IpePhase
  pub health : Option IpeHealth
  pub detail : String
  pub next_generation : Bool
  pub now : ℕ

unfoldable pub run : List Change → Lifecycle → Lifecycle
run [] l = l
run (c ∷ cs) l = run cs (set c.state c.phase c.health c.detail c.next_generation c.now l)

unfoldable pub new_generations : List Change → ℕ
new_generations [] = 0
new_generations (c ∷ cs) =
    let rest = new_generations cs in if c.next_generation then suc rest else rest

-- The last health that was given explicitly, or the one before.
unfoldable pub last_health : IpeHealth → List Change → IpeHealth
last_health h [] = h
last_health h (c ∷ cs) = last_health (elim c.health [ none ↦ h | some g ↦ g ]) cs

abbrev pub IsSaved : Lifecycle → Type 0
IsSaved l =
    (l.snapshot.generation ≡ l.generation) × (l.persistence ≡ set_kv l.snapshot l.persistence)

set_kv_again : (s : LifecycleSnapshot) (p : Persistence) → set_kv s p ≡ set_kv s (set_kv s p)
set_kv_again s absent = refl
set_kv_again s (stored old) = refl

run_from :
    (cs : List Change) (l : Lifecycle)
    → IsSaved l
    → IsSaved (run cs l)
      × ((run cs l).generation ≡ new_generations cs + l.generation)
      × ((run cs l).snapshot.ipe_health ≡ last_health l.snapshot.ipe_health cs)
unfolding run new_generations last_health set
run_from [] l s = (s, omega arith, refl)
run_from (c ∷ cs) l s =
    let next = set c.state c.phase c.health c.detail c.next_generation c.now l in
    let (saved, counted, last) =
      run_from cs next (refl, set_kv_again next.snapshot l.persistence) in
    (saved, ground (arith, counted), last)

-- After any sequence of changes: a store that is there holds the snapshot last published, the
-- generation counts the changes that asked for a new one, and the health is the last that was
-- given.
pub run-IsSaved :
    (cs : List Change) (persistence : Persistence) (now : ℕ)
    → IsSaved (run cs (init persistence now))
      × ((run cs (init persistence now)).generation ≡ new_generations cs)
      × ((run cs (init persistence now)).snapshot.ipe_health ≡ last_health healthy cs)
unfolding init
run-IsSaved cs persistence now =
    let start = init persistence now in
    let (saved, counted, last) =
      run_from cs start (refl, set_kv_again start.snapshot persistence) in
    (saved, omega (arith, counted), last)
