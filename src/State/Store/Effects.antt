-- ===== src/State/Store/Effects.antt =====
-- The effects of a `StateStore`: the files of the run directory, the lock, and exceptions. What a
-- step has written before an exception stays written.
use test_range.Prelude.{ℕ, Bool, Option, none, some, List, [], ◌∷◌, Result, ok, err}
use test_range.Errors.{Error, ErrorClass, raise}
use test_range.State.Json.{Json}

-- A file that `json.loads` accepts, as its value, or one that it refuses.
pub data Content : Type 0 where
  json : Json → Content
  corrupt : Content

-- The run directory, as the store sees it. `lock_held`: this store's `_lock_fd` is set;
-- `locked_elsewhere`: a live process holds the lock through another descriptor.
pub record Disk : Type 0 where
  pub run_dir : Bool
  pub state_json : Option Content
  pub state_partial : Option Content
  pub pid_file : Option ℕ
  pub pid_partial : Bool
  pub lock_file : Bool
  pub foreign_files : Bool
  pub lock_held : Bool
  pub locked_elsewhere : Bool

-- `state.json` and its temporary file.
pub data StateFile : Type 0 where
  target temporary : StateFile

-- The calls that write a state file, between any two of which the process may die. A file is truncated
-- when it is opened, and holds no value before it is written.
pub data FileStep : Type 0 where
  open_file sync_file : StateFile → FileStep
  write_file : StateFile → Json → FileStep
  replace_target sync_directory : FileStep

-- os.replace(tmp, dest), which fails without a temporary file
unfoldable pub replaced : Option Content → Disk → Disk
replaced none d = d
replaced (some c) d = record d { state_json = some c; state_partial = none }

unfoldable pub put_file : StateFile → Content → Disk → Disk
put_file target c d = record d { state_json = some c }
put_file temporary c d = record d { state_partial = some c }

-- What another process sees after a step: it does not see whether a file is synced.
unfoldable pub apply_step : FileStep → Disk → Disk
unfolding replaced put_file
apply_step (open_file f) d = put_file f corrupt d
apply_step (write_file f j) d = put_file f (json j) d
apply_step (sync_file f) d = d
apply_step replace_target d = replaced d.state_partial d
apply_step sync_directory d = d

unfoldable pub run_steps : List FileStep → Disk → Disk
unfolding apply_step
run_steps [] d = d
run_steps (w ∷ ws) d = run_steps ws (apply_step w d)

abbrev pub Op : Type 0 → Type 0
Op A = Disk → Result Error A × Disk

unfoldable pub modify : (Disk → Disk) → Op Unit
modify f d = (ok tt, f d)

-- The steps of a write with no crash among them.
unfoldable pub perform : List FileStep → Op Unit
unfolding run_steps
perform ws d = (ok tt, run_steps ws d)

module _ {A : Type 0} where
  unfoldable pub pure : A → Op A
  pure a d = (ok a, d)

  unfoldable pub throw : ErrorClass → Op A
  throw class d = (raise class [], d)

  unfoldable pub lift : Result Error A → Op A
  lift r d = (r, d)

module _ {A B : Type 0} where
  abbrev pub and_then : Result Error A → (A → Op B) → Op B
  and_then (ok a) f d = f a d
  and_then (err e) f d = (err e, d)

  infixl 5 ◌>>=◌ ◌>>◌
  abbrev pub ◌>>=◌ : Op A → (A → Op B) → Op B
  ◌>>=◌ m f d = let (r, d') = m d in and_then r f d'

  abbrev pub ◌>>◌ : Op A → Op B → Op B
  m >> k = m >>= λ _. k
