-- ===== src/State/Store.antt =====
-- testrange/state/store.py: `StateStore`, the files of a run directory and its advisory lock.
pub mod Effects
pub mod Lookup
pub mod Ledger
pub mod Stamps
pub mod Crash
pub mod PowerLoss
pub mod Locking
use test_range.Prelude.{
  ℕ, String, Bool, true, false, ◌||◌, ◌&&◌, Option, none, some, List, [], ◌∷◌, ◌==◌, any_of,
  if◌then◌else◌, Result, ok, err,
}
use test_range.Errors.{Error, raise, state_error, state_locked_error}
use test_range.State.Json.{Json, Fields, end}
use test_range.State.Schema.{
  Resource, NodeRecord, State, schema_version, phase_preflight, with_resource, replace_resource,
  remove_resource, with_outcome, with_node_record, node_record,
}
use test_range.State.Codec.{to_json, from_json}
use test_range.State.Store.Effects.{
  Disk, Content, json, corrupt, Op, pure, throw, lift, modify, FileStep, open_file, write_file,
  sync_file, replace_target, sync_directory, temporary, perform, ◌>>=◌, ◌>>◌,
}

-- durable_replace(tmp, dest) of testrange/utils/fsutil.py
unfoldable pub durable_replace : List FileStep
durable_replace = sync_file temporary ∷ replace_target ∷ sync_directory ∷ []

-- _write_state_atomic, as the steps that it takes: write_text on the temporary file, and the replacement
unfoldable pub write_state_atomic : State → List FileStep
unfolding durable_replace
write_state_atomic s = open_file temporary ∷ write_file temporary (to_json s) ∷ durable_replace

unfoldable pub write_pid_atomic : ℕ → Op Unit
unfolding modify
write_pid_atomic pid = modify (λ d. record d { pid_file = some pid; pid_partial = false })

unfoldable pub parse_content : Option Content → Result Error State
parse_content none = raise state_error []
parse_content (some corrupt) = raise state_error []
parse_content (some (json j)) = from_json j

-- read()
unfoldable pub read : Op State
unfolding parse_content
read d = (parse_content d.state_json, d)

-- is_running(): the probe opens the lock file, creating it. It fails while another process holds
-- the lock, and while this store's own descriptor does.
unfoldable pub is_running : Op Bool
is_running d = (ok (d.locked_elsewhere || d.lock_held), record d { lock_file = true })

unfoldable pub require_dead : Op Unit
unfolding is_running throw pure
require_dead = do running ← is_running; if running then throw state_locked_error else pure tt

-- _acquire_lock()
unfoldable pub acquire_lock : Op Unit
acquire_lock d =
    if d.lock_held
    then (ok tt, d)
    else if d.locked_elsewhere
    then (raise state_locked_error [], record d { lock_file = true })
    else (ok tt, record d { lock_file = true; lock_held = true })

-- _release_lock()
unfoldable pub release_lock : Op Unit
release_lock d = (ok tt, record d { lock_held = false })

-- mkdir(parents=True, exist_ok=True)
unfoldable pub make_run_dir : Op Unit
make_run_dir d = (ok tt, record d { run_dir = true })

exists_check : Bool → Op Unit
unfolding throw pure
exists_check wanted d = elim d.state_json [
  | none ↦ (if wanted then throw state_error else pure tt) d
  | some c ↦ (if wanted then pure tt else throw state_error) d
]

-- initialize(...), in the process `pid` at the time `now`
unfoldable pub initialize :
    (run_id plan_name driver_class driver_uri now : String) → (pid : ℕ) → Op State
unfolding make_run_dir exists_check acquire_lock write_pid_atomic perform write_state_atomic pure
initialize run_id plan_name driver_class driver_uri now pid = do
  make_run_dir
  exists_check false
  let state : State = record {
    version = schema_version;
    run_id = run_id;
    plan_name = plan_name;
    driver_class = driver_class;
    driver_uri = driver_uri;
    phase = phase_preflight;
    created_at = now;
    resources = [];
    nodes = [];
  }
  acquire_lock
  write_pid_atomic pid
  perform (write_state_atomic state)
  pure state

-- reopen()
unfoldable pub reopen : ℕ → Op State
unfolding exists_check require_dead acquire_lock write_pid_atomic
reopen pid = do exists_check true; require_dead; acquire_lock; write_pid_atomic pid; read

-- release()
unfoldable pub release : Op Unit
unfolding release_lock modify
release = do release_lock; modify (λ d. record d { pid_file = none })

-- path.unlink(missing_ok=True) of each file, in the order of `remove`
unfoldable pub unlink_state : Disk → Disk
unlink_state d = record d { state_json = none }

unfoldable pub unlink_pid : Disk → Disk
unlink_pid d = record d { pid_file = none }

unfoldable pub unlink_lock : Disk → Disk
unlink_lock d = record d { lock_file = false }

unfoldable pub unlink_state_partial : Disk → Disk
unlink_state_partial d = record d { state_partial = none }

unfoldable pub unlink_pid_partial : Disk → Disk
unlink_pid_partial d = record d { pid_partial = false }

unfoldable pub is_present : {A : Type 0} → Option A → Bool
is_present none = false
is_present (some a) = true

-- any entry of the run directory
unfoldable pub has_files : Disk → Bool
unfolding is_present
has_files d =
    is_present d.state_json
    || is_present d.pid_file
    || d.lock_file
    || is_present d.state_partial
    || d.pid_partial
    || d.foreign_files

-- run_dir.rmdir(), which fails, suppressed, on a directory with files
unfoldable pub remove_dir : Disk → Disk
unfolding has_files
remove_dir d = if has_files d then d else record d { run_dir = false }

-- remove()
unfoldable pub remove : Op Unit
unfolding release_lock modify unlink_state unlink_pid unlink_lock unlink_state_partial
    unlink_pid_partial remove_dir
remove = do
  release_lock
  modify unlink_state
  modify unlink_pid
  modify unlink_lock
  modify unlink_state_partial
  modify unlink_pid_partial
  modify remove_dir

-- record_intent(kind=..., backend_name=..., plan_name=..., **metadata)
unfoldable pub record_intent :
    (now kind backend_name : String) → Option String → Fields → Op Resource
unfolding perform write_state_atomic pure
record_intent now kind backend_name plan_name metadata = do
  let r : Resource = record {
    kind = kind;
    backend_name = backend_name;
    plan_name = plan_name;
    intent_at = now;
    outcome_at = none;
    metadata = metadata;
  }
  state ← read
  perform (write_state_atomic (with_resource state r))
  pure r

unfoldable pub find_resource : List Resource → String → Option Resource
find_resource [] name = none
find_resource (r ∷ rs) name = if r.backend_name == name then some r else find_resource rs name

confirm_found : (now backend_name : String) → Fields → State → Option Resource → Op Unit
unfolding throw lift perform write_state_atomic
confirm_found now backend_name metadata state none = throw state_error
confirm_found now backend_name metadata state (some r) = do
  after ← lift (replace_resource state backend_name (with_outcome r now metadata))
  perform (write_state_atomic after)

-- confirm(backend_name, **metadata)
-- The loop over the resources: the first that has the name.
unfoldable pub confirm : (now backend_name : String) → Fields → Op Unit
unfolding confirm_found
confirm now backend_name metadata = do
  state ← read
  confirm_found now backend_name metadata state (find_resource state.resources backend_name)

-- forget(backend_name)
unfoldable pub forget : String → Op Unit
unfolding perform write_state_atomic
forget backend_name = do
  state ← read
  perform (write_state_atomic (remove_resource state backend_name))

unfoldable pub set_phase : String → Op Unit
unfolding perform write_state_atomic
set_phase phase = do state ← read; perform (write_state_atomic (record state { phase = phase }))

unfoldable pub record_or_new : String → Option NodeRecord → NodeRecord
record_or_new name none = record { name = name; materialized_at = none; realized_at = none }
record_or_new name (some n) = n

-- state.node_record(name) or NodeRecord(name=name)
abbrev pub prior_record : State → String → NodeRecord
prior_record state name = record_or_new name (node_record state name)

unfoldable pub mark_node_materialized : (now name : String) → Op Unit
unfolding perform write_state_atomic
mark_node_materialized now name = do
  state ← read
  perform (
      write_state_atomic
        (with_node_record state (record (prior_record state name) { materialized_at = some now })))

unfoldable pub mark_node_realized : (now name : String) → Op Unit
unfolding perform write_state_atomic
mark_node_realized now name = do
  state ← read
  perform (
      write_state_atomic
        (with_node_record state (record (prior_record state name) { realized_at = some now })))
