-- ===== src/Examples/DispatchCases.antt =====
-- The route table, the lifecycle and the transaction managers on small inputs.
use one_m2m_dds_ipe.Prelude.{
  ℕ, ◌≤◌, length, ◌++◌, String, ◌≡◌, refl, Bool, true, false, none, some, List, [], ◌∷◌, ◌==◌,
  if◌then◌else◌, string_equality,
}
use one_m2m_dds_ipe.Dispatch.Routes
use one_m2m_dds_ipe.Dispatch.Routes.{RouteTable, Notification, norm_sur, add_alias, resolve_sur}
use one_m2m_dds_ipe.Dispatch.Routes.Known
use one_m2m_dds_ipe.Dispatch.Routes.Known.{Call, adding, aliasing, removing}
use one_m2m_dds_ipe.Dispatch.Lifecycle
use one_m2m_dds_ipe.Dispatch.Lifecycle.{
  Change, preparing, running, dds_joined, binding_ready, degraded, healthy, stored, absent, IsSaved,
  new_generations, last_health, run-IsSaved,
}
use one_m2m_dds_ipe.Dispatch.Discovery.{Snapshot, Poll, graph_fingerprint}
use one_m2m_dds_ipe.Dispatch.Discovery.Convergence.{AllAgree, await_graph_convergence-IsConverged}
use one_m2m_dds_ipe.Vocab.{TxState}
use one_m2m_dds_ipe.State.Transactions.{Transaction, Transactions, service, action}

abbrev no_routes : RouteTable String
no_routes = Routes.init

abbrev route_calls : List (Call String)
route_calls =
    adding "p1" "command" "r1" "drive" none
    ∷ adding "p2" "nonsense" "r1" "drive" none
    ∷ aliasing (some "/cse/drive") "p1"
    ∷ []

abbrev a_notification : Notification String
a_notification = record {
  sur = some "cse/drive";
  con = some (("commandId", "c1") ∷ []);
  cin_ri = some "cin1";
  cin_ct = none;
  fcnt = none;
  st = none;
}

abbrev two_changes : List Change
two_changes =
    record {
      state = preparing;
      phase = dds_joined;
      health = some degraded;
      detail = "";
      next_generation = true;
      now = 1;
    }
    ∷ record {
      state = running;
      phase = binding_ready;
      health = none;
      detail = "up";
      next_generation = false;
      now = 2;
    }
    ∷ []

run-IsSaved_example :
    IsSaved (Lifecycle.run two_changes (Lifecycle.init (stored none) 0))
    × ((Lifecycle.run two_changes (Lifecycle.init (stored none) 0)).generation
        ≡ new_generations two_changes)
    × ((Lifecycle.run two_changes (Lifecycle.init (stored none) 0)).snapshot.ipe_health
        ≡ last_health healthy two_changes)
run-IsSaved_example = run-IsSaved two_changes (stored none) 0

abbrev a_service : Transaction
a_service = record {
  kind = service;
  state = TxState.pending;
  seq = 0;
  timeout_ms = 10;
  started = 1;
  updated = 1;
}

abbrev a_goal : Transaction
a_goal = record a_service { kind = action; state = TxState.executing }

abbrev both_kinds : Transactions
both_kinds = ("s1", a_service) ∷ ("g1", a_goal) ∷ []

abbrev empty_graph : Snapshot
empty_graph = record {
  topics = [];
  services = [];
  actions = [];
  topic_directions = [];
  topic_owners = [];
  service_owners = [];
  action_owners = [];
}

abbrev small_graph : Snapshot
small_graph = record empty_graph { topics = ("odom", "nav_msgs/Odometry" ∷ []) ∷ [] }

abbrev three_polls : List Poll
three_polls =
    record { seen = empty_graph; deadline_passed = false }
    ∷ record { seen = small_graph; deadline_passed = false }
    ∷ record { seen = small_graph; deadline_passed = false }
    ∷ []

await_graph_convergence_example :
    (before run after : List Poll) × (three_polls ≡ before ++ (run ++ after))
    × (length run ≡ 2)
    × (2 ≤ 2)
    × AllAgree (graph_fingerprint small_graph) run
unfolding one_m2m_dds_ipe.Dispatch.Discovery.await_graph_convergence
    one_m2m_dds_ipe.Dispatch.Discovery.await_loop
    one_m2m_dds_ipe.Dispatch.Discovery.application_interface_count graph_fingerprint
    one_m2m_dds_ipe.Prelude.Sorting.sorted
await_graph_convergence_example =
    await_graph_convergence-IsConverged 2 three_polls small_graph 3 2 refl
