-- ===== src/State/Schema.antt =====
-- testrange/state/schema.py: the records of the ledger and their updates.
use test_range.Prelude.{
  ℕ, String, not, Option, none, some, List, [], ◌∷◌, ◌++◌, map, ◌==◌, keep_if, any_of,
  if◌then◌else◌, Result, ok, raise_if, ◌>>◌,
}
use test_range.Errors.{Error, state_error}
use test_range.State.Json.{Fields, merge}

abbrev pub schema_version : ℕ
schema_version = 1

abbrev pub phase_preflight : String
phase_preflight = "preflight"

abbrev pub phase_build : String
phase_build = "build"

abbrev pub phase_run : String
phase_run = "run"

abbrev pub phase_cleanup : String
phase_cleanup = "cleanup"

abbrev pub phase_done : String
phase_done = "done"

abbrev pub phase_leaked : String
phase_leaked = "leaked"

pub record Resource : Type 0 where
  pub kind : String
  pub backend_name : String
  pub plan_name : Option String
  pub intent_at : String
  pub outcome_at : Option String
  pub metadata : Fields

unfoldable pub with_outcome : Resource → String → Fields → Resource
with_outcome r outcome_at extra = record r {
  outcome_at = some outcome_at;
  metadata = merge r.metadata extra;
}

pub record NodeRecord : Type 0 where
  pub name : String
  pub materialized_at : Option String
  pub realized_at : Option String

pub record State : Type 0 where
  pub version : ℕ
  pub run_id : String
  pub plan_name : String
  pub driver_class : String
  pub driver_uri : String
  pub phase : String
  pub created_at : String
  pub resources : List Resource
  pub nodes : List NodeRecord

unfoldable pub with_resource : State → Resource → State
with_resource s r = record s { resources = s.resources ++ r ∷ [] }

unfoldable pub replace_resource : State → String → Resource → Result Error State
replace_resource s backend_name new = do
  raise_if (not (any_of (λ r. r.backend_name == backend_name) s.resources))
      (record { class = state_error; about = backend_name ∷ [] })
  ok (record s {
    resources = map (λ r. if r.backend_name == backend_name then new else r) s.resources;
  })

unfoldable pub remove_resource : State → String → State
remove_resource s backend_name = record s {
  resources = keep_if (λ r. not (r.backend_name == backend_name)) s.resources;
}

-- The ledger of the nodes is keyed by name: an entry is replaced, and goes to the end.
unfoldable pub with_node_record : State → NodeRecord → State
with_node_record s n = record s { nodes = keep_if (λ m. not (m.name == n.name)) s.nodes ++ n ∷ [] }

unfoldable pub find_record : List NodeRecord → String → Option NodeRecord
find_record [] name = none
find_record (n ∷ nodes) name = if n.name == name then some n else find_record nodes name

unfoldable pub node_record : State → String → Option NodeRecord
node_record s name = find_record s.nodes name
