-- ===== src/Plan/Assemble.antt =====
-- testrange/nodes.py, `assemble_graph`: the nodes and the edges that a frozen container becomes. What the
-- hooks of a node kind do is an argument here; names, kinds and edges are the source's.
pub mod Names
pub mod Distinctness
pub mod Edges
pub mod Known
pub mod Accepted
use test_range.Prelude.{
  ℕ, zero, suc, String, Bool, true, false, Option, none, some, List, [], ◌∷◌, ◌++◌, map, Result, ok,
  err, ◌>>=◌, ◌>>◌, Dict, get, put, if◌then◌else◌,
}
use test_range.Errors.{Error, raise, orchestrator_error, exception}
use test_range.Graph.Edge.{Edge, EdgeKind, Cacheability, make_edge}
use test_range.Graph.Node.{Node, Hook}
use test_range.Graph.Build.{BuildGraph, build_graph}
use test_range.Graph.Build.Links.{has_edge}
use test_range.Networks.Switch.{Switch, needs_sidecar}
use test_range.Networks.Machine.{VmSpec, NetworkIface, os_pools, data_drives, nics}
use test_range.Plan.Handles.{pool_node, network_node, sidecar_node, vm_node}
use test_range.Plan.Hypervisor.{
  Hypervisor, StoragePool, VmRecipe, declared_pools, declared_switches, declared_vms,
}

pub record Hooks (Ctx : Type 0) : Type 0 where
  pub cache_key : Dict String → Hook Ctx String
  pub materialize : Hook Ctx Unit
  pub realize : Hook Ctx Unit

-- The hooks of `PoolNode`, `NetworkNode`, `SidecarNode` and `VMNode`.
pub record Kinds (Ctx P : Type 0) : Type 0 where
  pub pool : StoragePool → Hooks Ctx
  pub network : Switch → Hooks Ctx
  pub sidecar : Switch → Hooks Ctx
  pub vm : VmRecipe P → ℕ → Hooks Ctx

-- edges.setdefault((dependent, dependency), Edge(dependent, dependency))
unfoldable pub keep_edge : List Edge → Edge → List Edge
keep_edge edges e = if has_edge edges e.dependent e.dependency then edges else edges ++ e ∷ []

unfoldable pub add_edge : String → String → List Edge → Result Error (List Edge)
unfolding keep_edge
add_edge dependent dependency edges = do
  e ← make_edge dependent dependency EdgeKind.ordering Cacheability.ordering
  ok (keep_edge edges e)

-- Edges from one node to each of several, in their order.
unfoldable pub add_edges : String → List String → List Edge → Result Error (List Edge)
add_edges dependent [] edges = ok edges
add_edges dependent (d ∷ ds) edges = do
  edges' ← add_edge dependent d edges
  add_edges dependent ds edges'

-- The edges of a switch with a sidecar; the sidecar's disk is in the first pool.
unfoldable pub add_sidecar : Option StoragePool → Switch → List Edge → Result Error (List Edge)
add_sidecar none s edges = raise orchestrator_error (s.name ∷ [])
add_sidecar (some p) s edges =
    add_edges (sidecar_node s.name) (network_node s.name ∷ pool_node p.name ∷ []) edges

unfoldable pub add_switch_edges :
    Option StoragePool → List Switch → List Edge → Result Error (List Edge)
add_switch_edges first [] edges = ok edges
add_switch_edges first (s ∷ ss) edges = do
  edges' ← if needs_sidecar s then add_sidecar first s edges else ok edges
  add_switch_edges first ss edges'

-- switch_by_network_node
unfoldable pub by_network_node : List Switch → Dict Switch → Dict Switch
by_network_node [] d = d
by_network_node (s ∷ ss) d = by_network_node ss (put d (network_node s.name) s)

-- What a NIC depends on: the network, and the sidecar of its switch if there is one.
unfoldable pub sidecar_of : Option Switch → List String
sidecar_of none = []
sidecar_of (some s) = if needs_sidecar s then sidecar_node s.name ∷ [] else []

unfoldable pub nic_needs : Dict Switch → List NetworkIface → List String
nic_needs d [] = []
nic_needs d (n ∷ ns) =
    network_node n.network.switch ∷ sidecar_of (get d (network_node n.network.switch))
    ++ nic_needs d ns

-- The OS drive is the first one, as `next` finds it.
unfoldable pub first_os : List String → Result Error String
first_os [] = raise exception []
first_os (p ∷ ps) = ok p

unfoldable pub add_vm_edges : Dict Switch → List VmSpec → List Edge → Result Error (List Edge)
add_vm_edges d [] edges = ok edges
add_vm_edges d (v ∷ vs) edges = do
  p ← first_os (os_pools v.devices)
  edges' ←
      add_edges (vm_node v.name)
        (pool_node p ∷ map pool_node (data_drives v.devices) ++ nic_needs d (nics v.devices)) edges
  add_vm_edges d vs edges'

unfoldable pub add_explicit : List (String × String) → List Edge → Result Error (List Edge)
add_explicit [] edges = ok edges
add_explicit ((dependent, dependency) ∷ es) edges = do
  edges' ← add_edge dependent dependency edges
  add_explicit es edges'

-- hyp.declared_pools[0] if hyp.declared_pools else None
unfoldable pub first_pool : List StoragePool → Option StoragePool
first_pool [] = none
first_pool (p ∷ ps) = some p

unfoldable pub assemble_edges :
    List StoragePool → List Switch → List VmSpec → List (String × String) → Result Error (List Edge)
assemble_edges pools switches vms explicit = do
  edges ← add_switch_edges (first_pool pools) switches []
  edges' ← add_vm_edges (by_network_node switches []) vms edges
  add_explicit explicit edges'

module _ {Ctx P : Type 0} (kinds : Kinds Ctx P) where
  unfoldable pub make_node : String → String → Hooks Ctx → Node Ctx
  make_node kind name h = record {
    name = name;
    kind = kind;
    cache_key = h.cache_key;
    materialize = h.materialize;
    realize = h.realize;
  }

  unfoldable pub switch_nodes : List Switch → List (Node Ctx)
  switch_nodes [] = []
  switch_nodes (s ∷ ss) =
      let rest = switch_nodes ss in
      make_node "network" (network_node s.name) (kinds.network s)
      ∷ (if needs_sidecar s
          then make_node "sidecar" (sidecar_node s.name) (kinds.sidecar s) ∷ rest
          else rest)

  -- enumerate(hyp.declared_vms)
  unfoldable pub vm_nodes : ℕ → List (VmRecipe P) → List (Node Ctx)
  vm_nodes index [] = []
  vm_nodes index (r ∷ rs) =
      make_node "vm" (vm_node r.spec.name) (kinds.vm r index) ∷ vm_nodes (suc index) rs

  unfoldable pub assemble_nodes : Hypervisor P → List (Node Ctx)
  assemble_nodes h =
      map (λ p. make_node "pool" (pool_node p.name) (kinds.pool p)) (declared_pools h)
      ++ switch_nodes (declared_switches h)
      ++ vm_nodes 0 (declared_vms h)

  -- assemble_graph(name, hyp)
  unfoldable pub assemble_graph : String → Hypervisor P → Result Error (BuildGraph Ctx)
  assemble_graph name h = do
    edges ←
        assemble_edges (declared_pools h) (declared_switches h) (map (λ r. r.spec) (declared_vms h))
          h.explicit_edges
    build_graph name (assemble_nodes h) edges
