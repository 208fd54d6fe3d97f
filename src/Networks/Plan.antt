-- ===== src/Networks/Plan.antt =====
-- testrange/vms/validate.py, `validate_vm_plan`, and testrange/networks/validate.py,
-- `validate_hypervisor_plan`: the validation that a hypervisor runs when it is constructed.
use test_range.Prelude.{
  String, not, ◌++◌, List, [], ◌∷◌, map, concat, keep_if, is_nil, Result, ok, ◌>>=◌, ◌>>◌, raise_if,
  contains, add, sorted, if◌then◌else◌,
}
use test_range.Errors.{Error, raise, value_error, exception}
use test_range.Networks.Spelling.{validate_name, is_reserved, has_marker}
use test_range.Networks.Switch.{Switch}
use test_range.Networks.Machine.{VmSpec, NetworkIface, os_pools, nics}
use test_range.Networks.Addressing.{validate_addressing}

-- set(names)
unfoldable pub as_set : List String → List String
as_set [] = []
as_set (n ∷ ns) = add n (as_set ns)

-- {n for n in names if names.count(n) > 1}
unfoldable pub repeated : List String → List String
repeated [] = []
repeated (n ∷ ns) = if contains n ns then add n (repeated ns) else repeated ns

-- if names: raise ValueError(...)
unfoldable pub raise_listing : List String → Result Error Unit
raise_listing names =
    raise_if (not (is_nil names)) (record { class = value_error; about = sorted names })

unfoldable pub validate_names : List String → Result Error Unit
validate_names [] = ok tt
validate_names (n ∷ ns) = validate_name n >>= λ _. validate_names ns

-- r.spec.os_drive.pool not in pool_names; a spec without an OS drive has no first one.
unfoldable pub check_pool : List String → VmSpec → List String → Result Error Unit
check_pool pools r [] = raise exception []
check_pool pools r (p ∷ ps) =
    raise_if (not (contains p pools)) (record { class = value_error; about = r.name ∷ p ∷ [] })

unfoldable pub check_pools : List String → List VmSpec → Result Error Unit
check_pools pools [] = ok tt
check_pools pools (r ∷ rs) = check_pool pools r (os_pools r.devices) >> check_pools pools rs

unfoldable pub validate_vm_plan : List VmSpec → List String → Result Error Unit
unfolding raise_listing repeated
validate_vm_plan rs pools =
    let names = map (λ r. r.name) rs in
    raise_listing (repeated names)
    >> validate_names names
    >> raise_listing (as_set (keep_if is_reserved names))
    >> raise_listing (keep_if has_marker names)
    >> check_pools pools rs

-- [n.name for s in switches for n in s.networks]
unfoldable pub all_networks : List Switch → List String
all_networks switches = concat (map (λ s. s.networks) switches)

unfoldable pub check_references : List String → String → List NetworkIface → Result Error Unit
check_references declared vm [] = ok tt
check_references declared vm (n ∷ ns) =
    raise_if (not (contains n.network.name declared))
      (record { class = value_error; about = vm ∷ n.network.name ∷ [] })
    >> check_references declared vm ns

unfoldable pub check_machines : List String → List VmSpec → Result Error Unit
check_machines declared [] = ok tt
check_machines declared (r ∷ rs) =
    check_references declared r.name (nics r.devices) >> check_machines declared rs

unfoldable pub validate_hypervisor_plan :
    List Switch → List String → List VmSpec → Result Error Unit
validate_hypervisor_plan switches pools rs =
    let declared = all_networks switches in
    let labels = map (λ s. s.name) switches in
    validate_vm_plan rs pools
    >> raise_listing (repeated declared)
    >> validate_names labels
    >> validate_names declared
    >> raise_listing (as_set (keep_if is_reserved (labels ++ declared)))
    >> check_machines declared rs
    >> validate_addressing switches rs
