-- ===== src/State/Samples.antt =====
-- Tests of testrange/state on a run directory with a ledger of one resource and one node.
use test_range.Prelude.{
  true, false, ◌&&◌, [], ◌∷◌, ◌≡◌, refl, ◌⊎◌, inr, List, ◌++◌, All, any_of, none, some, Result, ok,
  ◌==◌,
}
use test_range.Errors.{Error, raise, state_error, state_locked_error}
use test_range.State.Json.{Fields}
use test_range.State.Schema.{schema_version, phase_run, Resource, NodeRecord, State}
use test_range.State.Codec.{to_json, from_json}
use test_range.State.Codec.RoundTrip.{from_json-to_json}
use test_range.State.Store.{
  read, reopen, remove, require_dead, record_intent, confirm, mark_node_materialized,
  write_state_atomic, durable_replace,
}
use test_range.State.Store.Effects.{
  json, corrupt, Disk, FileStep, open_file, write_file, sync_file, replace_target, sync_directory,
  temporary, run_steps,
}
use test_range.State.Store.Ledger.{
  Holds, written, completed, intended, IsCompleted, record_intent-Holds, confirm-Holds,
}
use test_range.State.Store.Lookup.{IsFirst}
use test_range.State.Store.Stamps.{IsUpdate, materialized_now, mark_node_materialized-Holds}
use test_range.State.Store.Crash.{ReadsEither, write_state_atomic-crash}
use test_range.State.Store.PowerLoss.{
  ParsesEither, left_over, store_steps, stored, write_state_atomic-left_over,
}
use test_range.State.Store.Locking.{
  fresh_state, start, initialize_owns, initialize_refuses, reopen_resumes, remove_clears,
}

abbrev pub one_resource : Resource
one_resource = record {
  kind = "volume";
  backend_name = "tr_disk";
  plan_name = some "vm";
  intent_at = "t0";
  outcome_at = none;
  metadata = Fields.end;
}

abbrev one_node : NodeRecord
one_node = record { name = "vm:web"; materialized_at = some "t1"; realized_at = none }

abbrev pub one_state : State
one_state = record {
  version = schema_version;
  run_id = "r1";
  plan_name = "plan";
  driver_class = "Libvirt";
  driver_uri = "qemu:///system";
  phase = phase_run;
  created_at = "t0";
  resources = one_resource ∷ [];
  nodes = one_node ∷ [];
}

abbrev empty_disk : Disk
empty_disk = record {
  run_dir = false;
  state_json = none;
  state_partial = none;
  pid_file = none;
  pid_partial = false;
  lock_file = false;
  foreign_files = false;
  lock_held = false;
  locked_elsewhere = false;
}

abbrev pub one_disk : Disk
one_disk = record empty_disk {
  run_dir = true;
  state_json = some (json (to_json one_state));
  lock_file = true;
}

pub one_disk-Holds : Holds one_disk one_state
one_disk-Holds = record { file = refl; current = refl }

from_json-to_json_example : from_json (to_json one_state) ≡ ok one_state
from_json-to_json_example = from_json-to_json one_state refl

abbrev next_state : State
next_state = record one_state { resources = one_resource ∷ one_resource ∷ [] }

-- Cut off before the content is written.
abbrev front : List FileStep
front = open_file temporary ∷ []

abbrev back : List FileStep
back =
    write_file temporary (to_json next_state)
    ∷ sync_file temporary
    ∷ replace_target
    ∷ sync_directory
    ∷ []

next_state_steps : write_state_atomic next_state ≡ front ++ back
unfolding write_state_atomic durable_replace
next_state_steps = refl

write_state_atomic-crash_example :
    ReadsEither one_state next_state (run_steps front one_disk)
    × ((read (run_steps (write_state_atomic next_state) one_disk)).0 ≡ ok next_state)
write_state_atomic-crash_example =
    write_state_atomic-crash one_state next_state one_disk front back one_disk-Holds refl
      next_state_steps

write_state_atomic-left_over_example :
    All
      (ParsesEither one_state next_state)
      (left_over (store_steps front (stored (some corrupt) false one_state)))
    × (left_over
          (store_steps (write_state_atomic next_state) (stored (some corrupt) false one_state))
        ≡ some (json (to_json next_state)) ∷ [])
write_state_atomic-left_over_example =
    write_state_atomic-left_over (some corrupt) false one_state next_state front back refl refl
      next_state_steps

abbrev tr_net : Resource
tr_net = intended "t2" "network" "tr_net" none Fields.end

record_intent-Holds_example :
    (record_intent "t2" "network" "tr_net" none Fields.end one_disk
      ≡ (ok tr_net, written (record one_state { resources = one_resource ∷ tr_net ∷ [] }) one_disk))
    × ((read (record_intent "t2" "network" "tr_net" none Fields.end one_disk).1).0
        ≡ ok (record one_state { resources = one_resource ∷ tr_net ∷ [] }))
record_intent-Holds_example =
    record_intent-Holds "t2" "network" "tr_net" none Fields.end one_disk one_state one_disk-Holds

confirm-Holds_example :
    ((r done : Resource) × IsFirst "tr_disk" r one_state.resources
      × IsCompleted "t2" Fields.end r done
      × (confirm "t2" "tr_disk" Fields.end one_disk
          ≡ (ok tt, written (completed one_state "tr_disk" done) one_disk)))
    ⊎ (any_of (λ (x : Resource). x.backend_name == "tr_disk") one_state.resources ≡ false)
      × (confirm "t2" "tr_disk" Fields.end one_disk ≡ (raise state_error [], one_disk))
confirm-Holds_example = confirm-Holds "t2" "tr_disk" Fields.end one_disk one_state one_disk-Holds

mark_node_materialized-Holds_example :
    (after : State) × (mark_node_materialized "t2" "vm:web" one_disk
      ≡ (ok tt, written after one_disk))
    × IsUpdate "vm:web" (materialized_now "t2" "vm:web" one_state) one_state after
mark_node_materialized-Holds_example =
    mark_node_materialized-Holds "t2" "vm:web" one_disk one_state one_disk-Holds

abbrev fresh : State
fresh = fresh_state "r2" "plan" "Libvirt" "qemu:///system" "t0" 7

abbrev started : Result Error State × Disk
started = start "r2" "plan" "Libvirt" "qemu:///system" "t0" 7 empty_disk

initialize_owns_example :
    (started.0 ≡ ok fresh)
    × Holds started.1 fresh
    × (started.1.pid_file ≡ some 7)
    × (started.1.lock_held ≡ true)
    × ((require_dead started.1).0 ≡ raise state_locked_error [])
initialize_owns_example =
    initialize_owns "r2" "plan" "Libvirt" "qemu:///system" "t0" 7 empty_disk refl refl refl

abbrev live_disk : Disk
live_disk = record one_disk { locked_elsewhere = true; pid_file = some 3 }

abbrev refused : Result Error State × Disk
refused = start "r2" "plan" "Libvirt" "qemu:///system" "t0" 7 live_disk

initialize_refuses_example :
    ((refused.0 ≡ raise state_error []) ⊎ (refused.0 ≡ raise state_locked_error []))
    × (refused.1.state_json ≡ live_disk.state_json)
    × (refused.1.pid_file ≡ live_disk.pid_file)
    × (refused.1.lock_held ≡ false)
initialize_refuses_example =
    initialize_refuses "r2" "plan" "Libvirt" "qemu:///system" "t0" 7 live_disk refl (inr refl)

reopen_resumes_example :
    (one_disk.locked_elsewhere ≡ false)
      × (reopen 9 one_disk ≡ (
        ok one_state,
        record one_disk {
          pid_file = some 9;
          pid_partial = false;
          lock_file = true;
          lock_held = true;
        },
      ))
    ⊎ (one_disk.locked_elsewhere ≡ true)
      × (reopen 9 one_disk ≡ (raise state_locked_error [], record one_disk { lock_file = true }))
reopen_resumes_example = reopen_resumes 9 one_disk one_state one_disk-Holds refl

remove_clears_example :
    ((remove live_disk).0 ≡ ok tt)
    × ((remove live_disk).1.state_json ≡ none)
    × ((remove live_disk).1.pid_file ≡ none)
    × ((remove live_disk).1.lock_file ≡ false)
    × ((remove live_disk).1.lock_held ≡ false)
    × ((remove live_disk).1.state_partial ≡ none)
    × ((remove live_disk).1.pid_partial ≡ false)
    × ((remove live_disk).1.run_dir ≡ (live_disk.run_dir && live_disk.foreign_files))
    × (reopen 7 (remove live_disk).1 ≡ (raise state_error [], (remove live_disk).1))
    × ((live_disk.locked_elsewhere ≡ true)
        ⊎ ((start "r2" "plan" "Libvirt" "qemu:///system" "t0" 7 (remove live_disk).1).0 ≡ ok fresh))
remove_clears_example = remove_clears "r2" "plan" "Libvirt" "qemu:///system" "t0" 7 live_disk
