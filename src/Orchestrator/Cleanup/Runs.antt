-- ===== src/Orchestrator/Cleanup/Runs.antt =====
-- What a cleanup does to a run, by the state that it finds.
use test_range.Prelude.{
  suc, String, ◌≡◌, refl, ap, ◌∙◌, Bool, ◌&&◌, true, false, none, List, [], ◌∷◌, arith, map,
  reverse, length, ok,
}
use test_range.Errors.{raise, state_locked_error}
use test_range.State.Schema.{State, phase_done}
use test_range.State.Store.{require_dead}
use test_range.State.Store.Effects.{Disk}
use test_range.State.Store.Ledger.{Holds, read-Holds, set_phase-Holds}
use test_range.State.Store.Locking.{remove-cleared}
use test_range.Orchestrator.Backend.{World}
use test_range.Orchestrator.Cleanup.{Drivers, require_state, dispatch, cleanup_run, cleanup_all}

-- The world after the probe of the lock.
abbrev pub probed : {B : Type 0} → World B → World B
probed w = record w { disk = record w.disk { lock_file = true } }

state_required :
    {B : Type 0} (w : World B) (s : State) → Holds w.disk s → require_state w ≡ (ok tt, w)
unfolding require_state
state_required w s h = ground (arith, h.file)

dead_required :
    (d : Disk)
    → d.locked_elsewhere ≡ false
    → d.lock_held ≡ false
    → require_dead d ≡ (ok tt, record d { lock_file = true })
unfolding require_dead
dead_required d dead mine = ground arith

live_refused :
    (d : Disk)
    → d.locked_elsewhere ≡ true
    → require_dead d ≡ (raise state_locked_error [], record d { lock_file = true })
unfolding require_dead
live_refused d live = ground arith

module _ {B : Type 0} (drivers : Drivers B) (run_id : String) (w : World B) (s : State)
    (h : Holds w.disk s) where
  -- On a run whose ledger can be read and which another live process owns, `cleanup_run` raises
  -- `StateLockedError`, and touches neither the ledger nor the backend.
  pub cleanup_run-locked :
      (dry_run : Bool)
      → w.disk.locked_elsewhere ≡ true
      → cleanup_run drivers run_id dry_run w ≡ (raise state_locked_error [], probed w)
  unfolding cleanup_run
  cleanup_run-locked dry_run live = rw (state_required w s h, live_refused w.disk live)

  pub cleanup_run-dispatch :
      (dry_run : Bool)
      → w.disk.locked_elsewhere ≡ false
      → w.disk.lock_held ≡ false
      → cleanup_run drivers run_id dry_run w ≡ dispatch drivers run_id dry_run s (probed w)
  unfolding cleanup_run
  cleanup_run-dispatch dry_run dead mine = rw (
    state_required w s h,
    dead_required w.disk dead mine,
    read-Holds (probed w).disk s (record { file = h.file; current = h.current }),
  )

  -- On a run that no process owns, a dry run reports the recorded resources, the last one first,
  -- as what it would destroy; it changes neither the ledger nor the backend.
  pub cleanup_run-dry :
      w.disk.locked_elsewhere ≡ false
      → w.disk.lock_held ≡ false
      → cleanup_run drivers run_id true w ≡ (
        ok (record {
          run_id = run_id;
          destroyed = [];
          skipped = map (λ r. r.backend_name) (reverse s.resources);
          errors = [];
        }),
        probed w,
      )
  cleanup_run-dry dead mine = cleanup_run-dispatch true dead mine ∙ (unfold dispatch in refl)

  -- A run that no process owns and whose ledger is empty is cleared with no driver, whatever the
  -- registry and the backend do: the backend stays as it is, and no state file is left.
  pub cleanup_run-drained :
      w.disk.locked_elsewhere ≡ false
      → w.disk.lock_held ≡ false
      → s.resources ≡ []
      → let (result, w') = cleanup_run drivers run_id false w in
        (result ≡ ok (record { run_id = run_id; destroyed = []; skipped = []; errors = [] }))
        × (w'.backend ≡ w.backend)
        × (w'.disk.state_json ≡ none)
        × (w'.disk.run_dir ≡ (w.disk.run_dir && w.disk.foreign_files))
  unfolding dispatch
  cleanup_run-drained dead mine empty =
      rw
        (
          cleanup_run-dispatch false dead mine,
          empty,
          set_phase-Holds phase_done (probed w).disk s
              (record { file = h.file; current = h.current }),
          remove-cleared _,
        )
        (refl, refl, refl, refl)

-- `cleanup_all` goes through every run directory, whatever happens at each: it returns a result for
-- each of them, and leaves them in their order.
pub cleanup_all-every :
    {B : Type 0} (drivers : Drivers B) (dry_run : Bool) (dirs : List (String × Disk)) (b : B)
    → let (results, dirs', _) = cleanup_all drivers dry_run dirs b in
      (length results ≡ length dirs)
      × (map (λ (d : String × Disk). d.0) dirs' ≡ map (λ (d : String × Disk). d.0) dirs)
unfolding cleanup_all
cleanup_all-every drivers dry_run [] b = (refl, refl)
cleanup_all-every drivers dry_run ((run_id, d) ∷ dirs) b =
    let (_, w) = cleanup_run drivers run_id dry_run (record { disk = d; backend = b }) in
    let (count, same) = cleanup_all-every drivers dry_run dirs w.backend in
    (ap suc count, ap (λ l. run_id ∷ l) same)
