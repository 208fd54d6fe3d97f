-- ===== src/Orchestrator/Samples.antt =====
-- Tests of testrange/orchestrator and testrange/state/cleanup.py, on a backend that is a list of
-- names and refuses to destroy the name "stuck".
use test_range.Prelude.{
  String, true, false, not, List, [], ◌∷◌, ◌≡◌, refl, some, reverse, keep_if, ok, ◌==◌,
  if◌then◌else◌,
}
use test_range.Errors.{raise, driver_error, state_locked_error}
use test_range.State.Schema.{State, phase_cleanup}
use test_range.State.Codec.{to_json}
use test_range.State.Store.Effects.{json}
use test_range.State.Samples.{one_resource, one_state, one_disk}
use test_range.State.Store.Ledger.{Holds}
use test_range.Orchestrator.Backend.{Destroy, World}
use test_range.Orchestrator.Teardown.{teardown, destroy_each}
use test_range.Orchestrator.Teardown.Lifo.{reclaim, Ended, teardown-reclaim}
use test_range.Orchestrator.Cleanup.{Drivers, cleanup_run, replay_each, Driver}
use test_range.Orchestrator.Cleanup.Runs.{probed, cleanup_run-locked}
use test_range.Orchestrator.Cleanup.Replay.{Concluded, cleanup_run-Closed, replay_each-destroy_each}

abbrev Names : Type 0
Names = List String

abbrev destroy_named : Destroy Names
destroy_named kind name metadata names =
    if name == "stuck"
    then (raise driver_error (name ∷ []), names)
    else (ok tt, keep_if (λ n. not (n == name)) names)

abbrev named_driver : Driver Names
named_driver = record {
  connect = λ names. (ok tt, names);
  destroy = destroy_named;
  disconnect = λ names. (ok tt, names);
}

abbrev drivers : Drivers Names
drivers class uri = ok named_driver

abbrev two_state : State
two_state = record one_state {
  resources = one_resource ∷ record one_resource { backend_name = "stuck" } ∷ [];
}

abbrev two_world : World Names
two_world = record {
  disk = record one_disk { state_json = some (json (to_json two_state)); lock_held = true };
  backend = "tr_disk" ∷ "stuck" ∷ [];
}

two_world-Holds : Holds two_world.disk two_state
two_world-Holds = record { file = refl; current = refl }

teardown-reclaim_example :
    Ended destroy_named
      (teardown destroy_named two_world).world.disk
      (reclaim destroy_named
        (reverse two_state.resources)
        (record two_state { phase = phase_cleanup })
        two_world.backend).0
    × ((teardown destroy_named two_world).world.backend
        ≡ (reclaim destroy_named
            (reverse two_state.resources)
            (record two_state { phase = phase_cleanup })
            two_world.backend).1)
teardown-reclaim_example = teardown-reclaim destroy_named two_world two_state two_world-Holds

abbrev live_world : World Names
live_world = record { disk = record one_disk { locked_elsewhere = true }; backend = "tr_disk" ∷ [] }

cleanup_run-locked_example :
    cleanup_run drivers "r1" false live_world ≡ (raise state_locked_error [], probed live_world)
cleanup_run-locked_example =
    cleanup_run-locked drivers "r1" live_world one_state (record { file = refl; current = refl })
      false refl

abbrev dead_world : World Names
dead_world = record { disk = one_disk; backend = "tr_disk" ∷ [] }

abbrev crashed_world : World Names
crashed_world = record {
  disk = record one_disk { state_json = some (json (to_json two_state)) };
  backend = "tr_disk" ∷ "stuck" ∷ [];
}

cleanup_run-Closed_example :
    Concluded
      (ok tt)
      (cleanup_run drivers "r1" false crashed_world).0
      (cleanup_run drivers "r1" false crashed_world).1.disk
      (reclaim destroy_named
        (reverse two_state.resources)
        (record two_state { phase = phase_cleanup })
        crashed_world.backend).0
    × ((cleanup_run drivers "r1" false crashed_world).1.backend
        ≡ (reclaim destroy_named
            (reverse two_state.resources)
            (record two_state { phase = phase_cleanup })
            crashed_world.backend).1)
cleanup_run-Closed_example =
    cleanup_run-Closed drivers "r1" named_driver crashed_world two_state
      (record { file = refl; current = refl }) refl refl refl refl refl

replay_each-destroy_each_example :
    (replay_each destroy_named two_state.resources
      (record { world = crashed_world; destroyed = []; errors = [] })).world
    ≡ (destroy_each destroy_named two_state.resources
        (record { world = crashed_world; done = 0; failed = 0 })).world
replay_each-destroy_each_example =
    replay_each-destroy_each destroy_named two_state.resources
      (record { world = crashed_world; destroyed = []; errors = [] })
      (record { world = crashed_world; done = 0; failed = 0 }) refl
