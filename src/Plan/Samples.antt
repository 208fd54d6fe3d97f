-- ===== src/Plan/Samples.antt =====
-- Tests of testrange/hypervisor.py, testrange/nodes.py and testrange/plan.py on a pool, a switch with a
-- sidecar and two machines, one of which needs the other.
use test_range.Prelude.{
  ℕ, String, ◌≡◌, refl, subst, inl, true, false, none, [], ◌∷◌, map, All, ok, put, keys, values,
  contains, arith, ◌==◌, if◌then◌else◌, join,
}
use test_range.Graph.Build.{BuildGraph}
use test_range.Graph.Waves.{neighbours}
use test_range.Networks.Switch.{needs_sidecar}
use test_range.Networks.Machine.{VmSpec, nics, os_pools, data_drives}
use test_range.Networks.Addressing.{switch_for}
use test_range.Networks.Addressing.Free.{IsPlaced}
use test_range.Networks.Addressing.Wire.{IsSeparate, all_uses}
use test_range.Networks.Samples.{lan, web, db, web_accepted}
use test_range.Networks.Plan.{
  validate_hypervisor_plan, validate_vm_plan, raise_listing, repeated, validate_names, as_set,
  check_pools, check_pool, all_networks, check_machines, check_references,
}
use test_range.Networks.Spelling.{
  validate_name, is_safe_name, is_first, is_later, is_between, is_char, is_digit, every,
  is_reserved, has_marker, at_marker, is_letter, is_number,
}
use test_range.Plan.Handles.{
  vm, make_handle, pool_node, network_node, sidecar_node, vm_node, node_name,
}
use test_range.Plan.Hypervisor.{
  Hypervisor, StoragePool, VmRecipe, declared_pools, declared_switches, declared_vms, freeze,
  add_pool, add_switch, add_vm, needs, add_explicit_edge, new_hypervisor, registered,
  require_mutable, check_networks, store_networks, and_then, need_one,
}
use test_range.Plan.Hypervisor.Registered.{Declared, IsRegistered, Declared-IsRegistered}
use test_range.Plan.Assemble.{Kinds, Hooks, assemble_graph, first_pool, first_os}
use test_range.Plan.Assemble.Names.{rank, initial, switch_names}
use test_range.Plan.Assemble.Distinctness.{all_names}
use test_range.Plan.Assemble.Edges.{DownPairs, has_pair, required_pair}
use test_range.Plan.Assemble.Known.{IsPlaceable}
use test_range.Plan.Assemble.Accepted.{assemble_graph-accepts}
use test_range.Plan.Declare.{make_plan, check_plan, seal}
use test_range.Plan.Declare.Sealed.{make_plan-IsPlaced}

abbrev disk_pool : StoragePool
disk_pool = record { name = "pool"; size_gb = 64 }

abbrev recipe : VmSpec → VmRecipe Unit
recipe spec = record { spec = spec; parts = tt }

abbrev container : Hypervisor Unit
container =
    (needs "web" (vm "db" ∷ [])
      (add_vm (recipe db)
        (add_vm (recipe web)
          (add_switch lan (add_pool disk_pool (new_hypervisor none)).1).1).1).1).1

container-Declared : Declared container
container-Declared = Declared.with_needs "web" (vm "db" ∷ []) _ (
    Declared.with_vm (recipe db) _ (
      Declared.with_vm (recipe web) _
        (Declared.with_switch lan _ (Declared.with_pool disk_pool _ (Declared.empty none)))))

-- The same container, as the methods leave it.
abbrev stored : Hypervisor Unit
stored = record {
  build_switch = none;
  pools = ("pool", disk_pool) ∷ [];
  switches = ("sw", lan) ∷ [];
  networks = ("lan", record { name = "lan"; switch = "sw" }) ∷ [];
  vms = ("web", recipe web) ∷ ("db", recipe db) ∷ [];
  explicit_edges = ("vm:web", "vm:db") ∷ [];
  frozen = false;
}

container-stored : container ≡ stored
unfolding needs need_one node_name vm_node join and_then add_explicit_edge add_vm add_switch
    add_pool new_hypervisor registered require_mutable make_handle check_networks store_networks
    keys put contains
container-stored = refl

stored-IsRegistered : IsRegistered stored
stored-IsRegistered =
    subst IsRegistered container-stored (Declared-IsRegistered container container-Declared)

abbrev hooks : Hooks Unit
hooks = record {
  cache_key = λ keys c. (ok "key", c);
  materialize = λ c. (ok tt, c);
  realize = λ c. (ok tt, c);
}

abbrev kinds : Kinds Unit Unit
kinds = record { pool = λ p. hooks; network = λ s. hooks; sidecar = λ s. hooks; vm = λ r i. hooks }

abbrev web_last : String → ℕ
web_last x = if x == "vm:web" then 1 else 0

web-IsPlaceable : IsPlaceable ("pool" ∷ []) (lan ∷ []) web
unfolding contains os_pools data_drives nics first_os
web-IsPlaceable = record {
  os_pool = "pool";
  has_os = refl;
  os_known = refl;
  data_known = tt;
  nics_known = (refl, tt);
}

db-IsPlaceable : IsPlaceable ("pool" ∷ []) (lan ∷ []) db
unfolding contains os_pools data_drives nics first_os
db-IsPlaceable = record {
  os_pool = "pool";
  has_os = refl;
  os_known = refl;
  data_known = tt;
  nics_known = (refl, tt);
}

web-Down :
    DownPairs
      (all_names ("pool" ∷ []) (lan ∷ []) ("web" ∷ "db" ∷ []))
      (rank web_last)
      (("vm:web", "vm:db") ∷ [])
unfolding all_names rank initial contains switch_names needs_sidecar network_node sidecar_node
    pool_node vm_node join
web-Down = (
  record {
    from_named = refl;
    to_named = refl;
    from_known = refl;
    to_known = refl;
    lower = omega arith;
  },
  tt,
)

assemble_graph-accepts_example :
    (g : BuildGraph Unit) × (assemble_graph kinds "plan" stored ≡ ok g)
    × ((x d : String)
        → contains d (neighbours g.deps x)
          ≡ has_pair
              (required_pair
                (first_pool (declared_pools stored))
                (declared_switches stored)
                (map (λ r. r.spec) (declared_vms stored))
                stored.explicit_edges)
              x
              d)
assemble_graph-accepts_example =
    assemble_graph-accepts kinds "plan" stored web_last refl stored-IsRegistered
      (unfold declared_pools values first_pool in inl (disk_pool, refl))
      (unfold declared_vms declared_switches values keys in (web-IsPlaceable, (db-IsPlaceable, tt)))
      (unfold declared_switches values keys in web-Down)

abbrev sealed : Hypervisor Unit
sealed = record stored { frozen = true }

sealed-IsRegistered : IsRegistered sealed
unfolding freeze
sealed-IsRegistered = Declared-IsRegistered sealed (
    subst (λ z. Declared (freeze z)) container-stored
      (Declared.frozen container container-Declared))

sealed_graph : (g : BuildGraph Unit) × (assemble_graph kinds "plan" sealed ≡ ok g)
sealed_graph =
    let (g, built, _) =
      assemble_graph-accepts kinds "plan" sealed web_last refl sealed-IsRegistered
        (unfold declared_pools values first_pool in inl (disk_pool, refl))
        (unfold declared_vms declared_switches values keys in
          (web-IsPlaceable, (db-IsPlaceable, tt)))
        (unfold declared_switches values keys in web-Down) in
    (g, built)

stored_checked : check_plan kinds "plan" stored ≡ ok tt
unfolding check_plan validate_hypervisor_plan declared_pools declared_switches declared_vms values
    contains validate_vm_plan raise_listing repeated validate_names validate_name is_safe_name
    is_first is_later is_between is_char is_digit every as_set is_reserved has_marker at_marker
    is_letter is_number check_pools check_pool os_pools all_networks check_machines check_references
    nics
stored_checked = rw web_accepted refl

stored_made :
    (make_plan kinds "plan" stored).0
    ≡ ok (record { name = "plan"; hypervisor = sealed; graph = sealed_graph.0 })
unfolding make_plan seal freeze
stored_made = rw (stored_checked, sealed_graph.1) refl

make_plan-IsPlaced_example :
    ((make_plan kinds "plan" stored).1.frozen ≡ true)
    × (assemble_graph kinds "plan" (freeze stored) ≡ ok sealed_graph.0)
    × All
        (λ v. All (IsPlaced (switch_for (declared_switches stored) [])) (nics v.devices))
        (map (λ r. r.spec) (declared_vms stored))
    × IsSeparate (
        all_uses
          (switch_for (declared_switches stored) [])
          (map (λ r. r.spec) (declared_vms stored)))
make_plan-IsPlaced_example = make_plan-IsPlaced kinds "plan" stored stored_made
