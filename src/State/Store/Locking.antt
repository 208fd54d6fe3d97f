-- ===== src/State/Store/Locking.antt =====
-- Who may own a run: the advisory lock in `initialize`, `reopen`, `release` and `remove`.
use test_range.Prelude.{
  ℕ, String, ◌≡◌, ◌≢◌, refl, ◌⊎◌, inl, inr, true, false, ◌&&◌, none, some, [], ok, Bool-cases,
  arith,
}
use test_range.Errors.{raise, state_error, state_locked_error}
use test_range.State.Schema.{State, schema_version, phase_preflight}
use test_range.State.Codec.{to_json}
use test_range.State.Store.Effects.{Disk, json, Op, modify}
use test_range.State.Store.{
  initialize, reopen, remove, require_dead, release_lock, unlink_state, unlink_pid, unlink_lock,
  unlink_state_partial, unlink_pid_partial, remove_dir, has_files, is_present,
}
use test_range.State.Store.Ledger.{Holds, read-Holds}

module _ (run_id plan_name driver_class driver_uri now : String) (pid : ℕ) where
  abbrev pub fresh_state : State
  fresh_state = record {
    version = schema_version;
    run_id = run_id;
    plan_name = plan_name;
    driver_class = driver_class;
    driver_uri = driver_uri;
    phase = phase_preflight;
    created_at = now;
    resources = [];
    nodes = [];
  }

  abbrev pub start : Op State
  start = initialize run_id plan_name driver_class driver_uri now pid

  -- What a successful `initialize` leaves.
  abbrev owned : Disk → Disk
  owned d = record d {
    run_dir = true;
    state_json = some (json (to_json fresh_state));
    state_partial = none;
    pid_file = some pid;
    pid_partial = false;
    lock_file = true;
    lock_held = true;
  }

  initialize_fresh :
      (d : Disk)
      → d.state_json ≡ none
      → d.locked_elsewhere ≡ false
      → d.lock_held ≡ false
      → start d ≡ (ok fresh_state, owned d)
  unfolding initialize
  initialize_fresh d absent free mine = ground arith

  -- On a run directory without a state file that no process has locked, `initialize` succeeds. It
  -- leaves an empty ledger in phase "preflight", the pid and the lock; and from then on the run
  -- counts as running, so that `require_dead` refuses.
  pub initialize_owns :
      (d : Disk)
      → d.state_json ≡ none
      → d.locked_elsewhere ≡ false
      → d.lock_held ≡ false
      → ((start d).0 ≡ ok fresh_state)
        × Holds (start d).1 fresh_state
        × ((start d).1.pid_file ≡ some pid)
        × ((start d).1.lock_held ≡ true)
        × ((require_dead (start d).1).0 ≡ raise state_locked_error [])
  initialize_owns d absent free mine =
      let e = initialize_fresh d absent free mine in
      rw e (
        refl,
        record { file = refl; current = refl },
        refl,
        refl,
        unfold require_dead in ground arith,
      )

  -- Called by a store that does not hold the lock, on a run directory with a state file or one that
  -- another live process has locked, `initialize` raises `StateError` or `StateLockedError`, leaves the
  -- state file and the pid file as they were, and does not hold the lock.
  pub initialize_refuses :
      (d : Disk)
      → d.lock_held ≡ false
      → (d.state_json ≢ none) ⊎ (d.locked_elsewhere ≡ true)
      → (((start d).0 ≡ raise state_error []) ⊎ ((start d).0 ≡ raise state_locked_error []))
        × ((start d).1.state_json ≡ d.state_json)
        × ((start d).1.pid_file ≡ d.pid_file)
        × ((start d).1.lock_held ≡ false)
  unfolding initialize
  initialize_refuses d mine why = ground arith

-- On a run directory that holds a state, for a store that does not hold the lock: if no live process
-- does either, `reopen` takes it, writes the pid and returns the recorded state; otherwise it raises
-- `StateLockedError` and writes no file but the lock's.
pub reopen_resumes :
    (pid : ℕ) (d : Disk) (s : State)
    → Holds d s
    → d.lock_held ≡ false
    → (d.locked_elsewhere ≡ false
        × (reopen pid d ≡ (
          ok s,
          record d { pid_file = some pid; pid_partial = false; lock_file = true; lock_held = true },
        )))
      ⊎ (d.locked_elsewhere ≡ true)
        × (reopen pid d ≡ (raise state_locked_error [], record d { lock_file = true }))
unfolding reopen
reopen_resumes pid d s h mine = elim (Bool-cases d.locked_elsewhere) [
  | inl taken ↦ inr (taken, ground (arith, h.file))
  | inr free ↦
      let after : Disk = record d {
        pid_file = some pid;
        pid_partial = false;
        lock_file = true;
        lock_held = true;
      } in
      let found = read-Holds after s (record { file = h.file; current = h.current }) in
      inl (free, ground (arith, h.file, found))
]

-- What `remove` leaves of a run directory.
abbrev pub cleared : Disk → Disk
cleared d = record d {
  run_dir = d.run_dir && d.foreign_files;
  state_json = none;
  state_partial = none;
  pid_file = none;
  pid_partial = false;
  lock_file = false;
  lock_held = false;
}

pub remove-cleared : (d : Disk) → remove d ≡ (ok tt, cleared d)
unfolding remove release_lock modify unlink_state unlink_pid unlink_lock unlink_state_partial
    unlink_pid_partial remove_dir has_files is_present
remove-cleared d = ground arith

reopen-cleared : (pid : ℕ) (d : Disk) → reopen pid (cleared d) ≡ (raise state_error [], cleared d)
unfolding reopen
reopen-cleared pid d = refl

-- `remove`, on any run directory, leaves neither state nor pid nor lock nor a temporary file of the
-- first two, and the directory itself only if foreign files are in it. `reopen` then raises `StateError`
-- and writes nothing, and `initialize` starts a run afresh unless another live process has the lock.
pub remove_clears :
    (run_id plan_name driver_class driver_uri now : String) (pid : ℕ) (d : Disk)
    → ((remove d).0 ≡ ok tt)
      × ((remove d).1.state_json ≡ none)
      × ((remove d).1.pid_file ≡ none)
      × ((remove d).1.lock_file ≡ false)
      × ((remove d).1.lock_held ≡ false)
      × ((remove d).1.state_partial ≡ none)
      × ((remove d).1.pid_partial ≡ false)
      × ((remove d).1.run_dir ≡ (d.run_dir && d.foreign_files))
      × (reopen pid (remove d).1 ≡ (raise state_error [], (remove d).1))
      × ((d.locked_elsewhere ≡ true)
          ⊎ ((start run_id plan_name driver_class driver_uri now pid (remove d).1).0
              ≡ ok (fresh_state run_id plan_name driver_class driver_uri now pid)))
remove_clears run_id plan_name driver_class driver_uri now pid d = rw (remove-cleared d) (
  refl,
  refl,
  refl,
  refl,
  refl,
  refl,
  refl,
  refl,
  reopen-cleared pid d,
  elim (Bool-cases d.locked_elsewhere) [
    | inl taken ↦ inl taken
    | inr free ↦
        let e =
          initialize_fresh run_id plan_name driver_class driver_uri now pid (cleared d) refl free
            refl in
        inr (rw e refl)
  ],
)
