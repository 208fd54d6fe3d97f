-- ===== src/Plan/Hypervisor.antt =====
-- testrange/hypervisor.py: the container that a plan is declared in, with `VMHandle.needs` of
-- testrange/handles.py and the pools and recipes that it registers. `P` is the builder and the
-- communicator of a recipe. A method returns its result and the container it leaves.
pub mod Registered
use test_range.Prelude.{
  ℕ, String, Bool, true, false, Option, none, some, List, [], ◌∷◌, ◌++◌, Result, ok, err, ◌>>=◌,
  ◌>>◌, raise_if, Dict, get, put, keys, values, contains, ◌==◌, ltb, if◌then◌else◌,
}
use test_range.Errors.{Error, raise, value_error, key_error}
use test_range.Networks.Switch.{Switch}
use test_range.Networks.Machine.{VmSpec, Device, NetworkHandle, NetworkIface, make_vm_spec}
use test_range.Plan.Handles.{
  Handle, pool, switch, vm, network, node_name, make_handle, make_network_handle,
}

-- testrange/devices/pool/base.py
pub record StoragePool : Type 0 where
  pub name : String
  pub size_gb : ℕ

unfoldable pub make_pool : String → ℕ → Result Error StoragePool
make_pool name size_gb =
    raise_if (name == "") (record { class = value_error; about = [] })
    >> raise_if (ltb size_gb 1) (record { class = value_error; about = [] })
    >> ok (record { name = name; size_gb = size_gb })

-- testrange/vms/recipe.py
pub record VmRecipe (P : Type 0) : Type 0 where
  pub spec : VmSpec
  pub parts : P

-- The handles of pools, switches and machines are their names, so their registries are the keys.
pub record Hypervisor (P : Type 0) : Type 0 where
  pub build_switch : Option Switch
  pub pools : Dict StoragePool
  pub switches : Dict Switch
  pub networks : Dict NetworkHandle
  pub vms : Dict (VmRecipe P)
  pub explicit_edges : List (String × String)
  pub frozen : Bool

-- for net in switch.networks: if net.name in self._network_handles: raise
unfoldable pub check_networks : Dict NetworkHandle → List String → Result Error Unit
check_networks d [] = ok tt
check_networks d (n ∷ ns) =
    raise_if (contains n (keys d)) (record { class = value_error; about = n ∷ [] })
    >> check_networks d ns

-- The second loop, which stores the handles; a network's name is not empty.
unfoldable pub store_networks : String → List String → Dict NetworkHandle → Dict NetworkHandle
store_networks owner [] d = d
store_networks owner (n ∷ ns) d =
    store_networks owner ns (put d n (record { name = n; switch = owner }))

module _ {P : Type 0} where
  unfoldable pub new_hypervisor : Option Switch → Hypervisor P
  new_hypervisor build_switch = record {
    build_switch = build_switch;
    pools = [];
    switches = [];
    networks = [];
    vms = [];
    explicit_edges = [];
    frozen = false;
  }

  unfoldable pub require_mutable : Hypervisor P → Result Error Unit
  require_mutable h = raise_if h.frozen (record { class = value_error; about = [] })

  -- What a method leaves: the container as it was if it raises before it registers anything.
  unfoldable pub registered :
      {A : Type 0} → Hypervisor P → Result Error (A × Hypervisor P) → Result Error A × Hypervisor P
  registered h (ok (a, h')) = (ok a, h')
  registered h (err e) = (err e, h)

  unfoldable pub add_pool : StoragePool → Hypervisor P → Result Error Handle × Hypervisor P
  unfolding require_mutable make_handle
  add_pool p h = registered h (
      require_mutable h
      >> raise_if (contains p.name (keys h.pools))
          (record { class = value_error; about = p.name ∷ [] })
      >> (make_handle pool p.name >>= λ a. ok (a, record h { pools = put h.pools p.name p })))

  unfoldable pub add_switch : Switch → Hypervisor P → Result Error Handle × Hypervisor P
  unfolding require_mutable make_handle check_networks store_networks
  add_switch s h = registered h (
      require_mutable h
      >> raise_if (contains s.name (keys h.switches))
          (record { class = value_error; about = s.name ∷ [] })
      >> check_networks h.networks s.networks
      >> (make_handle switch s.name >>= λ a. ok (
        a,
        record h {
          switches = put h.switches s.name s;
          networks = store_networks s.name s.networks h.networks;
        },
      )))

  unfoldable pub add_vm : VmRecipe P → Hypervisor P → Result Error Handle × Hypervisor P
  unfolding require_mutable make_handle
  add_vm r h = registered h (
      require_mutable h
      >> raise_if (contains r.spec.name (keys h.vms))
          (record { class = value_error; about = r.spec.name ∷ [] })
      >> (make_handle vm r.spec.name >>= λ a. ok (a, record h { vms = put h.vms r.spec.name r })))

  -- Hypervisor.vm: the devices in their fixed order.
  unfoldable pub add_vm_parts :
      String
      → Device
      → Device
      → Device
      → P
      → List Device
      → List Device
      → String
      → Hypervisor P
      → Result Error Handle × Hypervisor P
  unfolding add_vm
  add_vm_parts name c m o parts nics data_disks firmware h =
      elim (make_vm_spec name (c ∷ m ∷ o ∷ data_disks ++ nics) firmware) [
        | err e ↦ (err e, h)
        | ok spec ↦ add_vm (record { spec = spec; parts = parts }) h
      ]

  unfoldable pub add_explicit_edge :
      String → String → Hypervisor P → Result Error Unit × Hypervisor P
  unfolding require_mutable
  add_explicit_edge dependent dependency h = registered h (
      require_mutable h
      >> ok (tt, record h { explicit_edges = h.explicit_edges ++ (dependent, dependency) ∷ [] }))

  -- The rest of a loop over a container, unless the step raised.
  unfoldable pub and_then :
      Result Error Unit × Hypervisor P
      → (Hypervisor P → Result Error Unit × Hypervisor P)
      → Result Error Unit × Hypervisor P
  and_then (ok _, h) next = next h
  and_then (err e, h) next = (err e, h)

  -- The body of the loop in `VMHandle.needs`.
  unfoldable pub need_one : String → Handle → Hypervisor P → Result Error Unit × Hypervisor P
  unfolding add_explicit_edge
  need_one name other h =
      if node_name other == node_name (vm name)
      then (raise value_error (name ∷ []), h)
      else add_explicit_edge (node_name (vm name)) (node_name other) h

  unfoldable pub needs : String → List Handle → Hypervisor P → Result Error Unit × Hypervisor P
  unfolding need_one
  needs name [] h = (ok tt, h)
  needs name (other ∷ others) h = and_then (need_one name other h) (λ h'. needs name others h')

  unfoldable pub freeze : Hypervisor P → Hypervisor P
  freeze h = record h { frozen = true }

  -- declared_pools, declared_switches and declared_vms
  unfoldable pub declared_pools : Hypervisor P → List StoragePool
  declared_pools h = values h.pools

  unfoldable pub declared_switches : Hypervisor P → List Switch
  declared_switches h = values h.switches

  unfoldable pub declared_vms : Hypervisor P → List (VmRecipe P)
  declared_vms h = values h.vms

-- _Registry.__getitem__
unfoldable pub registry_get : {V : Type 0} → Dict V → String → Result Error V
registry_get d name = elim (get d name) [ none ↦ raise key_error (name ∷ []) | some v ↦ ok v ]
