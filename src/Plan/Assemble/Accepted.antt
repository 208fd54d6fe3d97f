-- ===== src/Plan/Assemble/Accepted.antt =====
-- testrange/nodes.py, `assemble_graph`, on a container whose references are all to what it registered.
use test_range.Prelude.{
  ℕ, suc, ◌<◌, String, ◌≡◌, refl, ap, subst, ◌∙◌, ◌⊎◌, inl, inr, false, ◌&&◌, none, some, List, [],
  ◌∷◌, ◌++◌, map, append_assoc, arith, ◌==◌, eq_iff, contains, In, In-cons_self, In-In_cons,
  Bool-cases, All, ok, keys, values,
}
use test_range.Graph.Edge.{Edge}
use test_range.Graph.Node.{Node}
use test_range.Graph.Waves.{neighbours}
use test_range.Graph.Build.{BuildGraph}
use test_range.Graph.Build.Index.{names_of}
use test_range.Graph.Build.Links.{AllSound}
use test_range.Graph.Build.Order.{build_graph-waves}
use test_range.Graph.Build.Cycles.{IsWellFormed, IsRanked, build_graph_accepts}
use test_range.Networks.Switch.{Switch, needs_sidecar}
use test_range.Networks.Machine.{os_pools}
use test_range.Plan.Handles.{pool_node, network_node, sidecar_node, vm_node}
use test_range.Plan.Hypervisor.{
  Hypervisor, StoragePool, VmRecipe, declared_pools, declared_switches, declared_vms,
}
use test_range.Plan.Hypervisor.Registered.{IsRegistered}
use test_range.Plan.Assemble.{
  Kinds, make_node, switch_nodes, vm_nodes, assemble_nodes, assemble_graph, first_pool, first_os,
}
use test_range.Plan.Assemble.Names.{rank, switch_names}
use test_range.Plan.Assemble.Distinctness.{all_names, Distinct-all_names}
use test_range.Plan.Assemble.Edges.{
  AllDown, DownPairs, has_pair, required_pair, assemble_edges-Stage,
}
use test_range.Plan.Assemble.Known.{IsPlaceable, required_pair-Down}

-- What edges that go down give the construction of the graph.
AllSound-Down :
    (names : List String) (order : String → ℕ) (edges : List Edge)
    → AllDown names order edges
    → AllSound names edges
AllSound-Down names order [] d = tt
AllSound-Down names order (e ∷ edges) (down, rest) = (
  record {
    dependent_known = down.from_known;
    dependency_known = down.to_known;
    proper = elim (Bool-cases (e.dependent == e.dependency)) [
      | inr other ↦ other
      | inl same ↦
          absurd (omega (arith, down.lower, ap order ((eq_iff e.dependent e.dependency).0 same)))
    ];
  },
  AllSound-Down names order edges rest,
)

IsRanked-Down :
    (names : List String) (order : String → ℕ) (edges : List Edge)
    → AllDown names order edges
    → IsRanked order edges
IsRanked-Down names order [] d n m h = cc
IsRanked-Down names order (e ∷ edges) (down, rest) n m h =
    elim (Bool-cases (e.dependent == n && e.dependency == m)) [
      | inl here ↦
          subst (λ z. order m < order z) ((eq_iff e.dependent n).0 (ground arith))
            (subst (λ z. order z < order e.dependent) ((eq_iff e.dependency m).0 (ground arith))
              down.lower)
      | inr there ↦ IsRanked-Down names order edges rest n m (ground arith)
    ]

module _ {Ctx P : Type 0} (kinds : Kinds Ctx P) where
  names_of-append : (xs ys : List (Node Ctx)) → names_of (xs ++ ys) ≡ names_of xs ++ names_of ys
  names_of-append [] ys = refl
  names_of-append (x ∷ xs) ys = ap (λ l. x.name ∷ l) (names_of-append xs ys)

  names_of-pools :
      (ps : List StoragePool)
      → names_of (map (λ p. make_node kinds "pool" (pool_node p.name) (kinds.pool p)) ps)
        ≡ map pool_node (map (λ p. p.name) ps)
  unfolding make_node
  names_of-pools [] = refl
  names_of-pools (p ∷ ps) = ap (λ l. pool_node p.name ∷ l) (names_of-pools ps)

  names_of-switch_nodes : (ss : List Switch) → names_of (switch_nodes kinds ss) ≡ switch_names ss
  unfolding switch_nodes switch_names make_node
  names_of-switch_nodes [] = refl
  names_of-switch_nodes (s ∷ ss) = elim (Bool-cases (needs_sidecar s)) [
    | inl with_sidecar ↦
        rw with_sidecar
          (ap (λ l. network_node s.name ∷ sidecar_node s.name ∷ l) (names_of-switch_nodes ss))
    | inr bare ↦ rw bare (ap (λ l. network_node s.name ∷ l) (names_of-switch_nodes ss))
  ]

  names_of-vm_nodes :
      (i : ℕ) (rs : List (VmRecipe P))
      → names_of (vm_nodes kinds i rs) ≡ map vm_node (map (λ r. r.spec.name) rs)
  unfolding vm_nodes make_node
  names_of-vm_nodes i [] = refl
  names_of-vm_nodes i (r ∷ rs) = ap (λ l. vm_node r.spec.name ∷ l) (names_of-vm_nodes (suc i) rs)

  names_of-assemble_nodes :
      (h : Hypervisor P)
      → IsRegistered h
      → names_of (assemble_nodes kinds h)
        ≡ all_names (keys h.pools) (declared_switches h) (keys h.vms)
  unfolding assemble_nodes all_names declared_pools declared_vms
  names_of-assemble_nodes h w =
      let ps : List (Node Ctx) =
        map (λ p. make_node kinds "pool" (pool_node p.name) (kinds.pool p)) (values h.pools) in
      let ss : List (Node Ctx) = switch_nodes kinds (declared_switches h) in
      let vs : List (Node Ctx) = vm_nodes kinds 0 (values h.vms) in
      ap names_of (append_assoc ps ss vs)
      ∙ names_of-append ps (ss ++ vs)
      ∙ ap (λ l. names_of ps ++ l) (names_of-append ss vs)
      ∙ rw
          (
            names_of-pools (values h.pools),
            names_of-switch_nodes (declared_switches h),
            names_of-vm_nodes 0 (values h.vms),
            w.pools.named,
            w.vms.named,
          )
          refl

first_pool-In :
    (ps : List StoragePool) (p : StoragePool)
    → first_pool ps ≡ some p
    → In p.name (map (λ q. q.name) ps)
unfolding first_pool contains
first_pool-In [] p e = cc
first_pool-In (q ∷ qs) p e =
    let same : q ≡ p = cc in
    subst (λ z. In z.name (q.name ∷ map (λ q. q.name) qs)) same
      (In-cons_self q.name (map (λ q. q.name) qs))

-- The recipes' names stand among the names of the machines.
recipes-In :
    {P : Type 0} (vs : List String) (ss : List Switch) (ps : List String) (rs : List (VmRecipe P))
    → ((x : String) → In x (map (λ r. r.spec.name) rs) → In x vs)
    → All (λ r. IsPlaceable ps ss r.spec) rs
    → All (λ v. In v.name vs × IsPlaceable ps ss v) (map (λ r. r.spec) rs)
recipes-In vs ss ps [] known all = tt
recipes-In vs ss ps (r ∷ rs) known (here, all) = (
  (known r.spec.name (In-cons_self r.spec.name (map (λ q. q.spec.name) rs)), here),
  recipes-In vs ss ps rs (λ x m. known x (In-In_cons x r.spec.name (map (λ q. q.spec.name) rs) m))
      all,
)

recipes-os :
    {P : Type 0} (ss : List Switch) (ps : List String) (rs : List (VmRecipe P))
    → All (λ r. IsPlaceable ps ss r.spec) rs
    → All (λ v. (p : String) × (first_os (os_pools v.devices) ≡ ok p)) (map (λ r. r.spec) rs)
recipes-os ss ps [] all = tt
recipes-os ss ps (r ∷ rs) (here, all) = ((here.os_pool, here.has_os), recipes-os ss ps rs all)

module _ {Ctx P : Type 0} (kinds : Kinds Ctx P) (name : String) (h : Hypervisor P)
    (order : String → ℕ) (named : (name == "") ≡ false) (w : IsRegistered h)
    (home : ((p : StoragePool) × (first_pool (declared_pools h) ≡ some p))
      ⊎ (first_pool (declared_pools h) ≡ none)
        × All (λ s. needs_sidecar s ≡ false) (declared_switches h))
    (placed : All (λ r. IsPlaceable (keys h.pools) (declared_switches h) r.spec) (declared_vms h))
    (explicit : DownPairs
      (all_names (keys h.pools) (declared_switches h) (keys h.vms))
      (rank order)
      h.explicit_edges) where
  abbrev asked : List (String × String)
  asked =
      required_pair (first_pool (declared_pools h)) (declared_switches h)
        (map (λ r. r.spec) (declared_vms h)) h.explicit_edges

  -- A container with distinct names is accepted, if its machines refer to registered pools and switches,
  -- there is a pool wherever a switch has a sidecar, and the explicit edges join its nodes and go down:
  -- from a machine to another kind of node, or down a given order of the machines. The graph then has
  -- exactly the dependencies that are asked for: of a sidecar on its network and the first pool, of a
  -- machine on the pools of its disks, the networks of its NICs and the sidecars of their switches, and
  -- the explicit ones.
  pub assemble_graph-accepts :
      (g : BuildGraph Ctx) × (assemble_graph kinds name h ≡ ok g)
      × ((x d : String) → contains d (neighbours g.deps x) ≡ has_pair asked x d)
  unfolding assemble_graph declared_pools declared_vms declared_switches
  assemble_graph-accepts =
      let ss : List Switch = declared_switches h in
      let ns : List String = all_names (keys h.pools) ss (keys h.vms) in
      let (edges, run, stage) =
        assemble_edges-Stage ns (rank order) (declared_pools h) ss
          (map (λ r. r.spec) (declared_vms h)) h.explicit_edges home
          (recipes-os ss (keys h.pools) (declared_vms h) placed)
          (required_pair-Down (keys h.pools) ss (keys h.vms) order (first_pool (declared_pools h))
            (map (λ r. r.spec) (declared_vms h)) h.explicit_edges
            (λ p e. subst (λ l. In p.name l) w.pools.named (first_pool-In (declared_pools h) p e))
            (recipes-In (keys h.vms) ss (keys h.pools) (declared_vms h)
              (λ x m. subst (λ l. In x l) w.vms.named m) placed)
            explicit) in
      let same : names_of (assemble_nodes kinds h) ≡ ns = names_of-assemble_nodes kinds h w in
      let fine : IsWellFormed name (assemble_nodes kinds h) edges = record {
        named = named;
        distinct = rw same (
            Distinct-all_names (keys h.pools) ss (keys h.vms) w.pools.distinct
              (rw w.switches.named w.switches.distinct) w.vms.distinct);
        sound = rw same (AllSound-Down ns (rank order) edges stage.down);
      } in
      let (g, built) =
        build_graph_accepts name (assemble_nodes kinds h) edges fine (rank order)
          (IsRanked-Down ns (rank order) edges stage.down) in
      let (_, deps, _, _) = build_graph-waves name (assemble_nodes kinds h) edges built in
      (g, rw run built, λ x d. deps x d ∙ stage.edges x d)
