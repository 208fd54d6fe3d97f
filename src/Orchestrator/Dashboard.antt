-- ===== src/Orchestrator/Dashboard.antt =====
-- testrange/orchestrator/dashboard_state.py: the stages of the machines, the tests and the two bounded
-- buffers behind the live display. The lock is held for one operation, which is a function here; the
-- clock's value is an argument, in whole ticks.
pub mod Stages
use test_range.Prelude.{
  ℕ, zero, ◌+◌, ◌-◌, suc, String, Bool, true, false, Option, none, some, List, [], ◌∷◌, ◌++◌, map,
  length, leb, Dict, get, put, values, if◌then◌else◌, ◌==◌,
}

pub data VmStage : Type 0 where
  pending provisioning building booting binding ready failed : VmStage

unfoldable pub is_terminal : VmStage → Bool
is_terminal ready = true
is_terminal failed = true
is_terminal stage = false

unfoldable pub is_pending : VmStage → Bool
is_pending pending = true
is_pending stage = false

pub record VmRecord : Type 0 where
  pub name : String
  pub stage : VmStage
  pub started_at : Option ℕ
  pub detail : Option String

pub data TestStatus : Type 0 where
  running passed test_failed : TestStatus

pub record TestRecord : Type 0 where
  pub name : String
  pub status : TestStatus
  pub duration : ℕ
  pub error : Option String

pub record DashboardState : Type 0 where
  pub vms : Dict VmRecord
  pub tests : Dict TestRecord
  pub log_ring : List String
  pub serial_ring : List (String × String)
  pub log_maxlen : ℕ
  pub serial_maxlen : ℕ

abbrev pub new_record : String → VmRecord
new_record name = record { name = name; stage = pending; started_at = none; detail = none }

-- self._vms.get(name, VMRecord(name=name))
unfoldable pub record_of : Dict VmRecord → String → VmRecord
record_of vms name = elim (get vms name) [ none ↦ new_record name | some r ↦ r ]

-- self._vms.setdefault(name, VMRecord(name=name))
unfoldable pub set_default : Dict VmRecord → String → Dict VmRecord
set_default vms name = elim (get vms name) [ none ↦ put vms name (new_record name) | some r ↦ vms ]

unfoldable pub seed_all : List String → Dict VmRecord → Dict VmRecord
seed_all [] vms = vms
seed_all (name ∷ names) vms = seed_all names (set_default vms name)

unfoldable pub seed_vms : List String → DashboardState → DashboardState
unfolding seed_all set_default
seed_vms names d = record d { vms = seed_all names d.vms }

-- if started is None and stage is not VMStage.PENDING: started = now
unfoldable pub first_start : ℕ → VmStage → Option ℕ → Option ℕ
unfolding is_pending
first_start now stage (some t) = some t
first_start now stage none = if is_pending stage then none else some now

-- a if a is not None else b
unfoldable pub or_else : Option String → Option String → Option String
or_else none b = b
or_else (some a) b = some a

unfoldable pub advanced : ℕ → VmStage → Option String → VmRecord → VmRecord
advanced now stage detail r = record r {
  stage = stage;
  started_at = first_start now stage r.started_at;
  detail = or_else detail r.detail;
}

unfoldable pub set_vm_stage : ℕ → String → VmStage → Option String → DashboardState → DashboardState
set_vm_stage now name stage detail d = record d {
  vms = put d.vms name (advanced now stage detail (record_of d.vms name));
}

-- rec.detail or detail
unfoldable pub detail_or : Option String → String → Option String
detail_or none detail = some detail
detail_or (some s) detail = if s == "" then some detail else some s

unfoldable pub aborted : String → VmRecord → VmRecord
aborted detail r =
    if is_terminal r.stage
    then r
    else record r { stage = failed; detail = detail_or r.detail detail }

unfoldable pub abort_each : String → Dict VmRecord → Dict VmRecord
abort_each detail [] = []
abort_each detail ((name, r) ∷ vms) = (name, aborted detail r) ∷ abort_each detail vms

unfoldable pub abort_unfinished : String → DashboardState → DashboardState
abort_unfinished detail d = record d { vms = abort_each detail d.vms }

unfoldable pub start_test : String → DashboardState → DashboardState
start_test name d = record d {
  tests = put d.tests name (record { name = name; status = running; duration = 0; error = none });
}

unfoldable pub finish_test : String → Bool → ℕ → Option String → DashboardState → DashboardState
finish_test name is_passed duration error d = record d {
  tests = put d.tests name (record {
    name = name;
    status = if is_passed then passed else test_failed;
    duration = duration;
    error = error;
  });
}

module _ {A : Type 0} where
  -- The last elements, `count` of them fewer.
  unfoldable pub drop_first : ℕ → List A → List A
  drop_first count [] = []
  drop_first zero (x ∷ xs) = x ∷ xs
  drop_first (suc count) (x ∷ xs) = drop_first count xs

  -- deque(maxlen=maxlen).append(x)
  unfoldable pub append_bounded : ℕ → List A → A → List A
  unfolding drop_first
  append_bounded maxlen ring x = drop_first (suc (length ring) - maxlen) (ring ++ x ∷ [])

unfoldable pub append_log : String → DashboardState → DashboardState
append_log line d = record d { log_ring = append_bounded d.log_maxlen d.log_ring line }

unfoldable pub append_serial : String → String → DashboardState → DashboardState
append_serial vm line d = record d {
  serial_ring = append_bounded d.serial_maxlen d.serial_ring (vm, line);
}

pub record VmView : Type 0 where
  pub name : String
  pub stage : VmStage
  pub elapsed : Option ℕ
  pub detail : Option String

pub record DashboardSnapshot : Type 0 where
  pub vms : List VmView
  pub tests : List TestRecord
  pub log_lines : List String
  pub serial_lines : List (String × String)

-- The clock never runs backwards, so the difference is that of the source.
unfoldable pub elapsed_at : ℕ → Option ℕ → Option ℕ
elapsed_at now none = none
elapsed_at now (some t) = some (now - t)

unfoldable pub view_at : ℕ → VmRecord → VmView
unfolding elapsed_at
view_at now r = record {
  name = r.name;
  stage = r.stage;
  elapsed = elapsed_at now r.started_at;
  detail = r.detail;
}

unfoldable pub snapshot : ℕ → DashboardState → DashboardSnapshot
snapshot now d = record {
  vms = map (view_at now) (values d.vms);
  tests = values d.tests;
  log_lines = d.log_ring;
  serial_lines = d.serial_ring;
}
