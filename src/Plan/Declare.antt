-- ===== src/Plan/Declare.antt =====
-- testrange/plan.py: `Plan(name, hypervisor)`, which validates the declared topology, freezes the
-- container and assembles the graph. It returns the plan and the container as it is left.
pub mod Sealed
use test_range.Prelude.{String, List, [], ◌∷◌, map, Result, ok, err, ◌>>=◌, ◌>>◌, raise_if, ◌==◌}
use test_range.Errors.{Error, value_error}
use test_range.Graph.Build.{BuildGraph}
use test_range.Networks.Plan.{validate_hypervisor_plan}
use test_range.Plan.Hypervisor.{Hypervisor, declared_pools, declared_switches, declared_vms, freeze}
use test_range.Plan.Assemble.{Kinds, assemble_graph}

pub record Plan (Ctx P : Type 0) : Type 0 where
  pub name : String
  pub hypervisor : Hypervisor P
  pub graph : BuildGraph Ctx

module _ {Ctx P : Type 0} (kinds : Kinds Ctx P) where
  -- What stands before `hypervisor.freeze()`.
  unfoldable pub check_plan : String → Hypervisor P → Result Error Unit
  check_plan name h =
      raise_if (name == "") (record { class = value_error; about = [] })
      >> validate_hypervisor_plan (declared_switches h) (map (λ p. p.name) (declared_pools h))
          (map (λ r. r.spec) (declared_vms h))

  unfoldable pub seal :
      String → Hypervisor P → Result Error Unit → Result Error (Plan Ctx P) × Hypervisor P
  seal name h (err e) = (err e, h)
  seal name h (ok _) = (
    (assemble_graph kinds name (freeze h) >>= λ g.
        ok (record { name = name; hypervisor = freeze h; graph = g })),
    freeze h,
  )

  unfoldable pub make_plan : String → Hypervisor P → Result Error (Plan Ctx P) × Hypervisor P
  make_plan name h = seal name h (check_plan name h)
