-- ===== src/Plan/Declare/Sealed.antt =====
-- What a finished plan of testrange/plan.py guarantees.
use test_range.Prelude.{
  String, ◌≡◌, refl, ap, sym, ◌∙◌, true, List, [], map, All, Result, ok, err, raise_if, >>-eq-ok,
  >>=-eq-ok, ok-injective, ◌==◌,
}
use test_range.Errors.{Error, value_error}
use test_range.Networks.Switch.{Switch}
use test_range.Networks.Machine.{nics}
use test_range.Networks.Plan.{validate_hypervisor_plan}
use test_range.Networks.Addressing.{switch_for, validate_addressing}
use test_range.Networks.Addressing.Free.{IsPlaced, validate_addressing-IsPlaced}
use test_range.Networks.Addressing.Wire.{IsSeparate, all_uses, validate_addressing-IsSeparate}
use test_range.Plan.Hypervisor.{Hypervisor, declared_pools, declared_switches, declared_vms, freeze}
use test_range.Plan.Assemble.{Kinds, assemble_graph}
use test_range.Plan.Declare.{Plan, check_plan, seal, make_plan}

validated_addressing :
    (switches : List Switch) (pools : List String) (vms : List _)
    → validate_hypervisor_plan switches pools vms ≡ ok tt
    → validate_addressing switches vms ≡ ok tt
unfolding validate_hypervisor_plan
validated_addressing switches pools vms h = (>>-eq-ok _ (validate_addressing switches vms) h).1

module _ {Ctx P : Type 0} (kinds : Kinds Ctx P) (name : String) (h : Hypervisor P)
    {plan : Plan Ctx P} (made : (make_plan kinds name h).0 ≡ ok plan) where
  seal-ok :
      (checked : Result Error Unit)
      → (seal kinds name h checked).0 ≡ ok plan
      → (checked ≡ ok tt)
        × ((seal kinds name h checked).1 ≡ freeze h)
        × (plan.hypervisor ≡ freeze h)
        × (assemble_graph kinds name (freeze h) ≡ ok plan.graph)
  unfolding seal
  seal-ok (err e) m = cc
  seal-ok (ok tt) m =
      let (g, built, same) =
        >>=-eq-ok (assemble_graph kinds name (freeze h))
          (λ g. ok (record { name = name; hypervisor = freeze h; graph = g })) m in
      (
        refl,
        refl,
        sym (ap (λ p. p.hypervisor) (ok-injective same)),
        built ∙ ap (λ (p : Plan Ctx P). ok p.graph) (ok-injective same),
      )

  -- If `Plan(name, hypervisor)` returns, then the container is frozen, the plan's graph is the one that
  -- it assembles to, and in its declarations every NIC names a declared network, every static address is
  -- placed in its subnet off the reserved slots, and no switch has one twice.
  pub make_plan-IsPlaced :
      ((make_plan kinds name h).1.frozen ≡ true)
      × (assemble_graph kinds name (freeze h) ≡ ok plan.graph)
      × All
          (λ v. All (IsPlaced (switch_for (declared_switches h) [])) (nics v.devices))
          (map (λ r. r.spec) (declared_vms h))
      × IsSeparate
          (all_uses (switch_for (declared_switches h) []) (map (λ r. r.spec) (declared_vms h)))
  unfolding make_plan check_plan freeze
  make_plan-IsPlaced =
      let (checked, left, _, built) = seal-ok (check_plan kinds name h) made in
      let valid =
        (>>-eq-ok (raise_if (name == "") (record { class = value_error; about = [] }))
          (validate_hypervisor_plan (declared_switches h) (map (λ p. p.name) (declared_pools h))
            (map (λ r. r.spec) (declared_vms h)))
          checked).1 in
      let addressed =
        validated_addressing (declared_switches h) (map (λ p. p.name) (declared_pools h))
          (map (λ r. r.spec) (declared_vms h)) valid in
      (
        ap (λ z. z.frozen) left,
        built,
        validate_addressing-IsPlaced (declared_switches h) (map (λ r. r.spec) (declared_vms h))
            addressed,
        validate_addressing-IsSeparate (declared_switches h) (map (λ r. r.spec) (declared_vms h))
            addressed,
      )
