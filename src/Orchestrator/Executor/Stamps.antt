-- ===== src/Orchestrator/Executor/Stamps.antt =====
-- The completion stamps of testrange/orchestrator/executor.py, `_run_hook`.
use test_range.Prelude.{String, add, ◌≡◌, refl, ok, err, ◌==◌, Bool-cases, inl, inr}
use test_range.Errors.{Error}
use test_range.Graph.Node.{Node}
use test_range.State.Schema.{State}
use test_range.State.Store.Ledger.{Holds, written}
use test_range.State.Store.Stamps.{realized_now, IsUpdate, mark_node_realized-Holds}
use test_range.Orchestrator.Executor.{Context, run_realize, blame, blame_failure}

module _ {X : Type 0} (message : Error → String) (n : Node (Context X)) (c : Context X) where
  -- If a node's `realize` raises, the exception propagates, and the ledger and the list of realized
  -- nodes are as `realize` left them.
  pub run_realize-failed :
      (e : Error)
      → (n.realize c).0 ≡ err e
      → ((run_realize message n c).0 ≡ err e)
        × ((run_realize message n c).1.disk ≡ (n.realize c).1.disk)
        × ((run_realize message n c).1.realized_nodes ≡ (n.realize c).1.realized_nodes)
  unfolding run_realize blame_failure blame
  run_realize-failed e raised = elim (Bool-cases (n.kind == "vm")) [
    | inl vm ↦ rw (raised, vm) (refl, refl, refl)
    | inr other ↦ rw (raised, other) (refl, refl, refl)
  ]

  -- If a node's `realize` returns on a run directory that holds a state, the node's ledger entry then
  -- has the time as its stamp beside the other stamp that it had, no other node's entry and nothing else in
  -- the state changes, and the node is listed as realized.
  pub run_realize-stamped :
      (s : State)
      → (n.realize c).0 ≡ ok tt
      → Holds (n.realize c).1.disk s
      → (after : State) × ((run_realize message n c).0 ≡ ok tt)
        × ((run_realize message n c).1.disk ≡ written after (n.realize c).1.disk)
        × ((run_realize message n c).1.realized_nodes ≡ add n.name (n.realize c).1.realized_nodes)
        × IsUpdate n.name (realized_now (n.realize c).1.now n.name s) s after
  unfolding run_realize blame_failure
  run_realize-stamped s returned h =
      let (after, run, update) =
        mark_node_realized-Holds (n.realize c).1.now n.name (n.realize c).1.disk s h in
      (after, rw (returned, run) refl, rw (returned, run) refl, rw (returned, run) refl, update)
