-- ===== src/Orchestrator/ExecutorSamples.antt =====
-- Tests of testrange/orchestrator/executor.py and dashboard_state.py, on a graph of three nodes, one of
-- which fails to come up.
use test_range.Prelude.{
  ◌-◌, ◌≤◌, suc, String, List, [], ◌∷◌, ◌++◌, ◌≡◌, refl, none, some, ok, add, length,
}
use test_range.Errors.{Error, raise, driver_error}
use test_range.Graph.Node.{Node}
use test_range.Graph.Build.{BuildGraph, topological_order}
use test_range.State.Schema.{State, phase_run}
use test_range.State.Store.{set_phase}
use test_range.State.Store.Stamps.{IsUpdate, realized_now}
use test_range.State.Store.Ledger.{written}
use test_range.State.Samples.{one_state, one_disk, one_disk-Holds}
use test_range.Orchestrator.Dashboard.{DashboardState, VmStage, append_log, new_record}
use test_range.Orchestrator.Dashboard.Stages.{append_log-bounds}
use test_range.Orchestrator.Executor.{
  Context, then_run, on_store, map_inline, run_realize, realize_graph,
}
use test_range.Orchestrator.Executor.Walks.{realize_graph-topological_order}
use test_range.Orchestrator.Executor.Stamps.{run_realize-failed, run_realize-stamped}

abbrev screen : DashboardState
screen = record {
  vms =
      ("web", record { name = "web"; stage = VmStage.booting; started_at = some 4; detail = none })
      ∷ ("db", new_record "db")
      ∷ [];
  tests = [];
  log_ring = "one" ∷ "two" ∷ [];
  serial_ring = [];
  log_maxlen = 2;
  serial_maxlen = 2;
}

append_log-bounds_example :
    (length (append_log "three" screen).log_ring ≤ 2)
    × (dropped : List String) × (dropped ++ (append_log "three" screen).log_ring
        ≡ screen.log_ring ++ "three" ∷ [])
    × (length dropped ≡ suc (length screen.log_ring) - screen.log_maxlen)
append_log-bounds_example = append_log-bounds "three" screen

abbrev context : Context Unit
context = record {
  disk = one_disk;
  dashboard = screen;
  clock = 5;
  now = "t5";
  node_keys = [];
  vm_probes = [];
  materialized_nodes = [];
  realized_nodes = [];
  rest = tt;
}

abbrev good : String → Node (Context Unit)
good name = record {
  name = name;
  kind = "network";
  cache_key = λ dependencies c. (ok name, c);
  materialize = λ c. (ok tt, c);
  realize = λ c. (ok tt, c);
}

abbrev bad : String → Node (Context Unit)
bad name = record (good name) {
  kind = "vm";
  realize = λ c. (raise driver_error (name ∷ []), c);
  materialize = λ c. (raise driver_error (name ∷ []), c);
}

abbrev message : Error → String
message e = "failed"

abbrev shape : BuildGraph (Context Unit)
shape = record {
  name = "plan";
  nodes = good "net:lan" ∷ bad "vm:web" ∷ [];
  edges = [];
  by_name = ("net:lan", good "net:lan") ∷ ("vm:web", bad "vm:web") ∷ [];
  deps = ("net:lan", []) ∷ ("vm:web", "net:lan" ∷ []) ∷ [];
  dependents = ("net:lan", "vm:web" ∷ []) ∷ ("vm:web", []) ∷ [];
  waves = (good "net:lan" ∷ []) ∷ (bad "vm:web" ∷ []) ∷ [];
  content_waves = (good "net:lan" ∷ bad "vm:web" ∷ []) ∷ [];
}

realize_graph-topological_order_example :
    realize_graph message shape context
    ≡ then_run
        (on_store (set_phase phase_run) context)
        (map_inline (run_realize message) (topological_order shape))
realize_graph-topological_order_example = realize_graph-topological_order message shape context

run_realize-failed_example :
    ((run_realize message (bad "vm:web") context).0 ≡ raise driver_error ("vm:web" ∷ []))
    × ((run_realize message (bad "vm:web") context).1.disk ≡ one_disk)
    × ((run_realize message (bad "vm:web") context).1.realized_nodes ≡ [])
run_realize-failed_example =
    run_realize-failed message (bad "vm:web") context
      (record { class = driver_error; about = "vm:web" ∷ [] }) refl

run_realize-stamped_example :
    (after : State) × ((run_realize message (good "net:lan") context).0 ≡ ok tt)
    × ((run_realize message (good "net:lan") context).1.disk ≡ written after one_disk)
    × ((run_realize message (good "net:lan") context).1.realized_nodes ≡ add "net:lan" [])
    × IsUpdate "net:lan" (realized_now "t5" "net:lan" one_state) one_state after
run_realize-stamped_example =
    run_realize-stamped message (good "net:lan") context one_state refl one_disk-Holds
