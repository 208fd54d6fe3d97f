-- ===== src/Orchestrator/Cleanup.antt =====
-- testrange/state/cleanup.py: the recovery of runs from their ledgers. Log lines are left out, and an
-- exception stands where the source keeps its text.
pub mod Runs
pub mod Replay
use test_range.Prelude.{
  ℕ, String, Bool, true, false, ◌&&◌, ◌||◌, not, Option, none, some, List, [], ◌∷◌, ◌++◌, ◌==◌, map,
  reverse, is_nil, length, Result, ok, err, if◌then◌else◌,
}
use test_range.Errors.{Error, ErrorClass, raise, state_error, state_locked_error}
use test_range.State.Schema.{Resource, State, phase_cleanup, phase_done}
use test_range.State.Store.{read, set_phase, forget, release, remove, require_dead, is_running}
use test_range.State.Store.Effects.{Disk}
use test_range.Orchestrator.Backend.{
  Destroy, World, Run, on_disk, on_backend, and_then, ◌>>=◌, ◌>>◌,
}

-- What the registry returns for the driver class and the URI of a ledger.
pub record Driver (B : Type 0) : Type 0 where
  pub connect : B → Result Error Unit × B
  pub destroy : Destroy B
  pub disconnect : B → Result Error Unit × B

abbrev pub Drivers : Type 0 → Type 0
Drivers B = String → String → Result Error (Driver B)

pub record CleanupResult : Type 0 where
  pub run_id : String
  pub destroyed : List String
  pub skipped : List String
  pub errors : List (String × Error)

pub record Progress (B : Type 0) : Type 0 where
  pub world : World B
  pub destroyed : List String
  pub errors : List (String × Error)

-- An exception of `driver.disconnect()` takes the place of the outcome of the `try` block.
abbrev pub disconnected : {A : Type 0} → Result Error A → Result Error Unit → Result Error A
disconnected outcome (ok _) = outcome
disconnected outcome (err e) = err e

module _ {B : Type 0} where
  abbrev pub pure : {A : Type 0} → A → Run B A
  pure a w = (ok a, w)

  -- if not store.exists(): raise StateError(...)
  unfoldable pub require_state : Run B Unit
  require_state w = elim w.disk.state_json [
    | none ↦ (raise state_error [], w)
    | some c ↦ (ok tt, w)
  ]

  unfoldable pub note_outcome : Resource → Progress B → Result Error Unit × World B → Progress B
  note_outcome r p (ok _, w) = record {
    world = w;
    destroyed = p.destroyed ++ r.backend_name ∷ [];
    errors = p.errors;
  }
  note_outcome r p (err e, w) = record {
    world = w;
    destroyed = p.destroyed;
    errors = p.errors ++ (r.backend_name, e) ∷ [];
  }

  -- The loop over the resources, a failure of one being noted and passed over.
  unfoldable pub replay_each : Destroy B → List Resource → Progress B → Progress B
  unfolding note_outcome
  replay_each destroy [] p = p
  replay_each destroy (r ∷ rs) p =
      replay_each destroy rs
        (note_outcome r p ((do on_backend destroy r; on_disk (forget r.backend_name)) p.world))

  -- finally: driver.disconnect()
  unfoldable pub finally_disconnect : {A : Type 0} → Driver B → Result Error A → Run B A
  finally_disconnect driver outcome w =
      let (left, b) = driver.disconnect w.backend in
      (disconnected outcome left, record w { backend = b })

  -- The `try` block with its `finally`, behind the change of the phase.
  unfoldable pub replay_from :
      Driver B → List Resource → Result Error Unit × World B → Result Error (Progress B) × World B
  replay_from driver resources (err e, w) = finally_disconnect driver (err e) w
  replay_from driver resources (ok _, w) =
      let p =
        replay_each driver.destroy resources (record { world = w; destroyed = []; errors = [] }) in
      finally_disconnect driver (ok p) p.world

  unfoldable pub replay : Driver B → List Resource → World B → Result Error (Progress B) × World B
  replay driver resources w = replay_from driver resources (on_disk (set_phase phase_cleanup) w)

  -- The part behind the `finally`: done if nothing is left, and removed if nothing failed either.
  unfoldable pub close_run : Bool → Bool → Run B Unit
  close_run drained clean =
      if drained && clean
      then (do on_disk (set_phase phase_done); on_disk remove)
      else if drained
      then on_disk (set_phase phase_done)
      else pure tt

  unfoldable pub connect_driver : Driver B → Run B Unit
  connect_driver driver w =
      let (result, b) = driver.connect w.backend in (result, record w { backend = b })

  module _ (drivers : Drivers B) (run_id : String) where
    -- The part behind the `try`.
    unfoldable pub conclude : Progress B → Run B CleanupResult
    conclude p = do
      final_state ← on_disk read
      close_run (is_nil final_state.resources) (is_nil p.errors)
      pure (record { run_id = run_id; destroyed = p.destroyed; skipped = []; errors = p.errors })

    -- The part for a ledger with resources.
    unfoldable pub cleanup_resources : State → Run B CleanupResult
    unfolding connect_driver
    cleanup_resources state = do
      driver ← λ w. (drivers state.driver_class state.driver_uri, w)
      connect_driver driver
      p ← replay driver (reverse state.resources)
      conclude p

    unfoldable pub dispatch : Bool → State → Run B CleanupResult
    dispatch dry_run state =
        let skipped = map (λ r. r.backend_name) (reverse state.resources) in
        if dry_run
        then pure (record { run_id = run_id; destroyed = []; skipped = skipped; errors = [] })
        else if is_nil state.resources
        then (do
          on_disk (set_phase phase_done)
          on_disk remove
          pure (record { run_id = run_id; destroyed = []; skipped = []; errors = [] }))
        else cleanup_resources state

    -- cleanup_run(run_id, dry_run=...)
    unfoldable pub cleanup_run : Bool → Run B CleanupResult
    cleanup_run dry_run = do
      require_state
      on_disk require_dead
      state ← on_disk read
      dispatch dry_run state

-- except StateError
unfoldable pub is_state_error : ErrorClass → Bool
is_state_error state_error = true
is_state_error state_locked_error = true
is_state_error _ = false

-- The names that `forget_run` returns: none if reading raised `StateError`, which it catches.
unfoldable pub forgotten : Result Error State → Result Error (List String)
forgotten (ok s) = ok (map (λ r. r.backend_name) s.resources)
forgotten (err e) = if is_state_error e.class then ok [] else err e

-- forget_run(run_id)
unfoldable pub forget_run : {B : Type 0} → Run B (List String)
unfolding forgotten
forget_run = do
  (λ w. (if w.disk.run_dir then ok tt else raise state_error [], w))
  on_disk require_dead
  names ← λ w. (forgotten (read w.disk).0, w)
  on_disk remove
  pure names

-- The buckets of the handlers in `cleanup_all`, in their order: a locked run, a run with a bad
-- state, and any other failure.
unfoldable pub failure_label : ErrorClass → String
failure_label state_locked_error = "(locked)"
failure_label state_error = "(state)"
failure_label _ = "(driver)"

unfoldable pub result_or_failure : String → Result Error CleanupResult → CleanupResult
result_or_failure run_id (ok r) = r
result_or_failure run_id (err e) = record {
  run_id = run_id;
  destroyed = [];
  skipped = [];
  errors = (failure_label e.class, e) ∷ [];
}

module _ {B : Type 0} (drivers : Drivers B) where
  -- cleanup_all(dry_run=...), over the run directories in their order and one backend. It returns a
  -- result for each, with the directories as they are left.
  unfoldable pub cleanup_all :
      Bool → List (String × Disk) → B → List CleanupResult × List (String × Disk) × B
  unfolding cleanup_run result_or_failure
  cleanup_all dry_run [] b = ([], [], b)
  cleanup_all dry_run ((run_id, d) ∷ dirs) b =
      let (result, w) = cleanup_run drivers run_id dry_run (record { disk = d; backend = b }) in
      let (results, dirs', b') = cleanup_all dry_run dirs w.backend in
      (result_or_failure run_id result ∷ results, (run_id, w.disk) ∷ dirs', b')

pub record RunInfo : Type 0 where
  pub run_id : String
  pub running : Bool
  pub phase : String
  pub plan_name : String
  pub created_at : String
  pub resource_count : ℕ
  pub error : Option Error

-- The row of one run in `list_runs`. A missing state file is the `StateError` that `read` raises; an
-- exception of another class is not caught, and ends the listing.
unfoldable pub run_info : String → Bool → Result Error State → Result Error RunInfo
unfolding is_state_error
run_info run_id running (ok s) = ok (record {
  run_id = run_id;
  running = running;
  phase = s.phase;
  plan_name = s.plan_name;
  created_at = s.created_at;
  resource_count = length s.resources;
  error = none;
})
run_info run_id running (err e) =
    let row : RunInfo = record {
      run_id = run_id;
      running = running;
      phase = "";
      plan_name = "";
      created_at = "";
      resource_count = 0;
      error = some e;
    } in
    if is_state_error e.class then ok row else err e

is_ok_true : Result Error Bool → Bool
is_ok_true (ok b) = b
is_ok_true (err e) = false

add_row : RunInfo → Result Error (List RunInfo) → Result Error (List RunInfo)
add_row row (err e) = err e
add_row row (ok rows) = ok (row ∷ rows)

-- list_runs(), over the run directories in their order, with the directories as they are left: the
-- probe of the lock has created each lock file.
unfoldable pub list_runs : List (String × Disk) → Result Error (List RunInfo) × List (String × Disk)
unfolding run_info add_row is_ok_true
list_runs [] = (ok [], [])
list_runs ((run_id, d) ∷ dirs) =
    let (running, d') = is_running d in
    let (rows, dirs') = list_runs dirs in
    elim (run_info run_id (is_ok_true running) (read d').0) [
      | err e ↦ (err e, (run_id, d') ∷ dirs)
      | ok row ↦ (add_row row rows, (run_id, d') ∷ dirs')
    ]
