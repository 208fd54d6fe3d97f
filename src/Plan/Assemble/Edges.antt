-- ===== src/Plan/Assemble/Edges.antt =====
-- The edges of testrange/nodes.py, `assemble_graph`: between nodes of the graph, and down the ranks of
-- their kinds.
use test_range.Prelude.{
  ℕ, ◌<◌, String, ◌≡◌, refl, subst, ◌⊎◌, inl, inr, Bool, true, false, ◌&&◌, ◌||◌, Option, none,
  some, List, [], ◌∷◌, ◌++◌, map, arith, eq_iff, ◌==◌, In, Bool-cases, if◌then◌else◌, All,
  All-append, ok, Dict,
}
use test_range.Graph.Edge.{Edge, EdgeKind, Cacheability, make_edge}
use test_range.Graph.Build.Links.{has_edge, has_edge-snoc}
use test_range.Networks.Switch.{Switch, needs_sidecar}
use test_range.Networks.Machine.{VmSpec, os_pools, data_drives, nics}
use test_range.Plan.Handles.{pool_node, network_node, sidecar_node, vm_node}
use test_range.Plan.Hypervisor.{StoragePool}
use test_range.Plan.Assemble.{
  keep_edge, add_edge, add_edges, add_sidecar, add_switch_edges, nic_needs, first_os, add_vm_edges,
  add_explicit, assemble_edges, by_network_node, first_pool,
}

-- Ordered pairs of node names, as edges to come.
pub has_pair : List (String × String) → String → String → Bool
has_pair [] x y = false
has_pair ((a, b) ∷ ps) x y = a == x && b == y || has_pair ps x y

unfoldable pub from_one : String → List String → List (String × String)
from_one a bs = map (λ b. (a, b)) bs

has_pair-append :
    (ps qs : List (String × String)) (x y : String)
    → has_pair (ps ++ qs) x y ≡ (has_pair ps x y || has_pair qs x y)
unfolding has_pair
has_pair-append [] qs x y = refl
has_pair-append ((a, b) ∷ ps) qs x y = ground (arith, has_pair-append ps qs x y)

-- What `assemble_graph` asks for: a sidecar needs its network and the first pool, a machine the pools of
-- its disks and what its NICs need.
unfoldable pub sidecar_pairs : Option StoragePool → List Switch → List (String × String)
sidecar_pairs none ss = []
sidecar_pairs (some p) [] = []
sidecar_pairs (some p) (s ∷ ss) =
    (if needs_sidecar s
      then from_one (sidecar_node s.name) (network_node s.name ∷ pool_node p.name ∷ [])
      else [])
    ++ sidecar_pairs (some p) ss

unfoldable pub first_one : List String → List String
first_one [] = []
first_one (p ∷ ps) = p ∷ []

unfoldable pub vm_needs : Dict Switch → VmSpec → List String
vm_needs d v =
    map pool_node (first_one (os_pools v.devices))
    ++ (map pool_node (data_drives v.devices) ++ nic_needs d (nics v.devices))

unfoldable pub vm_pairs : Dict Switch → List VmSpec → List (String × String)
vm_pairs d [] = []
vm_pairs d (v ∷ vs) = from_one (vm_node v.name) (vm_needs d v) ++ vm_pairs d vs

-- Every pair that the assembly asks for.
unfoldable pub required_pair :
    Option StoragePool → List Switch → List VmSpec → List (String × String) → List (String × String)
required_pair first ss vs explicit =
    sidecar_pairs first ss ++ (vm_pairs (by_network_node ss []) vs ++ explicit)

first_os-first_one : (ps : List String) (p : String) → first_os ps ≡ ok p → first_one ps ≡ p ∷ []
unfolding first_os first_one
first_os-first_one [] p h = cc
first_os-first_one (q ∷ qs) p h = cc

vm_needs-first :
    (d : Dict Switch) (v : VmSpec) (p : String)
    → first_os (os_pools v.devices) ≡ ok p
    → vm_needs d v
      ≡ pool_node p ∷ map pool_node (data_drives v.devices) ++ nic_needs d (nics v.devices)
unfolding vm_needs
vm_needs-first d v p h = rw (first_os-first_one (os_pools v.devices) p h) refl

has_edge-same :
    (edges : List Edge) (a b x y : String)
    → (a == x) ≡ true
    → (b == y) ≡ true
    → has_edge edges x y ≡ has_edge edges a b
has_edge-same edges a b x y ha hb =
    subst (λ z. has_edge edges z y ≡ has_edge edges a b) ((eq_iff a x).0 ha)
      (subst (λ z. has_edge edges a z ≡ has_edge edges a b) ((eq_iff b y).0 hb) refl)

module _ (names : List String) (order : String → ℕ) where
  -- From one node of the graph down to another.
  pub record IsDown (dependent dependency : String) : Type 0 where
    pub from_named : (dependent == "") ≡ false
    pub to_named : (dependency == "") ≡ false
    pub from_known : In dependent names
    pub to_known : In dependency names
    pub lower : order dependency < order dependent

  abbrev pub AllDown : List Edge → Type 0
  AllDown edges = All (λ e. IsDown e.dependent e.dependency) edges

  make_edge-ok :
      (a b : String)
      → IsDown a b
      → make_edge a b EdgeKind.ordering Cacheability.ordering
        ≡ ok (record {
          dependent = a;
          dependency = b;
          kind = EdgeKind.ordering;
          cacheability = Cacheability.ordering;
        })
  unfolding make_edge
  make_edge-ok a b d = rw (d.from_named, d.to_named) refl

  abbrev pub DownPairs : List (String × String) → Type 0
  DownPairs ps = All (λ (p : String × String). IsDown p.0 p.1) ps

  -- A step of the assembly: the edges stay down, and the given pairs join them.
  pub record Stage (before : List Edge) (ps : List (String × String)) (after : List Edge)
      : Type 0 where
    pub down : AllDown after
    pub edges : (x y : String) → has_edge after x y ≡ (has_edge before x y || has_pair ps x y)

  Stage-nil : (edges : List Edge) → AllDown edges → Stage edges [] edges
  unfolding has_pair
  Stage-nil edges d = record { down = d; edges = λ x y. ground arith }

  Stage-append :
      (b m a : List Edge) (ps qs : List (String × String))
      → Stage b ps m
      → Stage m qs a
      → Stage b (ps ++ qs) a
  Stage-append b m a ps qs f g = record {
    down = g.down;
    edges = λ x y. ground (arith, f.edges x y, g.edges x y, has_pair-append ps qs x y);
  }

  keep_edge-Stage :
      (edges : List Edge) (e : Edge)
      → AllDown edges
      → IsDown e.dependent e.dependency
      → Stage edges ((e.dependent, e.dependency) ∷ []) (keep_edge edges e)
  unfolding keep_edge has_pair
  keep_edge-Stage edges e all d = elim (Bool-cases (has_edge edges e.dependent e.dependency)) [
    | inl present ↦ rw present (record {
      down = all;
      edges = λ x y. ground (
        arith,
        eq_iff e.dependent x,
        eq_iff e.dependency y,
        has_edge-same edges e.dependent e.dependency x y,
      );
    })
    | inr new ↦ rw new (record {
      down = All-append (λ (z : Edge). IsDown z.dependent z.dependency) edges (e ∷ []) all (d, tt);
      edges = λ x y. ground (arith, has_edge-snoc edges e x y);
    })
  ]

  add_edge-Stage :
      (a b : String) (edges : List Edge)
      → AllDown edges
      → IsDown a b
      → (after : List Edge) × (add_edge a b edges ≡ ok after) × Stage edges ((a, b) ∷ []) after
  unfolding add_edge
  add_edge-Stage a b edges all d =
      let e : Edge = record {
        dependent = a;
        dependency = b;
        kind = EdgeKind.ordering;
        cacheability = Cacheability.ordering;
      } in
      (keep_edge edges e, rw (make_edge-ok a b d) refl, keep_edge-Stage edges e all d)

  pub add_edges-Stage :
      (a : String) (bs : List String) (edges : List Edge)
      → AllDown edges
      → DownPairs (from_one a bs)
      → (after : List Edge) × (add_edges a bs edges ≡ ok after) × Stage edges (from_one a bs) after
  unfolding add_edges from_one
  add_edges-Stage a [] edges all d = (edges, refl, Stage-nil edges all)
  add_edges-Stage a (b ∷ bs) edges all d =
      let (middle, run, one) = add_edge-Stage a b edges all d.0 in
      let (after, rest, more) = add_edges-Stage a bs middle one.down d.1 in
      (after, rw run rest, Stage-append edges middle after ((a, b) ∷ []) (from_one a bs) one more)

  pub add_explicit-Stage :
      (ps : List (String × String)) (edges : List Edge)
      → AllDown edges
      → DownPairs ps
      → (after : List Edge) × (add_explicit ps edges ≡ ok after) × Stage edges ps after
  unfolding add_explicit
  add_explicit-Stage [] edges all d = (edges, refl, Stage-nil edges all)
  add_explicit-Stage ((a, b) ∷ ps) edges all d =
      let (middle, run, one) = add_edge-Stage a b edges all d.0 in
      let (after, rest, more) = add_explicit-Stage ps middle one.down d.1 in
      (after, rw run rest, Stage-append edges middle after ((a, b) ∷ []) ps one more)

  All-front : (ps qs : List (String × String)) → DownPairs (ps ++ qs) → DownPairs ps
  All-front [] qs d = tt
  All-front (p ∷ ps) qs d = (d.0, All-front ps qs d.1)

  All-back : (ps qs : List (String × String)) → DownPairs (ps ++ qs) → DownPairs qs
  All-back [] qs d = d
  All-back (p ∷ ps) qs d = All-back ps qs d.1

  pub add_switch_edges-Stage :
      (p : StoragePool) (ss : List Switch) (edges : List Edge)
      → AllDown edges
      → DownPairs (sidecar_pairs (some p) ss)
      → (after : List Edge) × (add_switch_edges (some p) ss edges ≡ ok after)
        × Stage edges (sidecar_pairs (some p) ss) after
  unfolding add_switch_edges add_sidecar sidecar_pairs
  add_switch_edges-Stage p [] edges all d = (edges, refl, Stage-nil edges all)
  add_switch_edges-Stage p (s ∷ ss) edges all d = elim (Bool-cases (needs_sidecar s)) [
    | inr bare ↦
        let (after, rest, more) = add_switch_edges-Stage p ss edges all (rw bare at d) in
        (after, rw bare rest, rw bare more)
    | inl with_sidecar ↦
        let d' = rw with_sidecar at d in
        let a : String = sidecar_node s.name in
        let bs : List String = network_node s.name ∷ pool_node p.name ∷ [] in
        let (middle, run, one) =
          add_edges-Stage a bs edges all
            (All-front (from_one a bs) (sidecar_pairs (some p) ss) d') in
        let (after, rest, more) =
          add_switch_edges-Stage p ss middle one.down
            (All-back (from_one a bs) (sidecar_pairs (some p) ss) d') in
        (
          after,
          rw (with_sidecar, run) rest,
          rw with_sidecar (
              Stage-append edges middle after (from_one a bs) (sidecar_pairs (some p) ss) one more),
        )
  ]

  -- With no pool there is no edge of a switch, if none has a sidecar.
  pub add_switch_edges-none :
      (ss : List Switch) (edges : List Edge)
      → All (λ s. needs_sidecar s ≡ false) ss
      → add_switch_edges none ss edges ≡ ok edges
  unfolding add_switch_edges
  add_switch_edges-none [] edges bare = refl
  add_switch_edges-none (s ∷ ss) edges bare = rw bare.0 (add_switch_edges-none ss edges bare.1)

  pub add_vm_edges-Stage :
      (d : Dict Switch) (vs : List VmSpec) (edges : List Edge)
      → AllDown edges
      → All (λ v. (p : String) × (first_os (os_pools v.devices) ≡ ok p)) vs
      → DownPairs (vm_pairs d vs)
      → (after : List Edge) × (add_vm_edges d vs edges ≡ ok after)
        × Stage edges (vm_pairs d vs) after
  unfolding add_vm_edges vm_pairs
  add_vm_edges-Stage d [] edges all os downs = (edges, refl, Stage-nil edges all)
  add_vm_edges-Stage d (v ∷ vs) edges all ((p, has), os) downs =
      let bs : List String =
        pool_node p ∷ map pool_node (data_drives v.devices) ++ nic_needs d (nics v.devices) in
      let same : vm_needs d v ≡ bs = vm_needs-first d v p has in
      let downs' = rw same at downs in
      let (middle, run, one) =
        add_edges-Stage (vm_node v.name) bs edges all
          (All-front (from_one (vm_node v.name) bs) (vm_pairs d vs) downs') in
      let (after, rest, more) =
        add_vm_edges-Stage d vs middle one.down os
          (All-back (from_one (vm_node v.name) bs) (vm_pairs d vs) downs') in
      (
        after,
        rw (has, run) rest,
        rw same (
            Stage-append edges middle after (from_one (vm_node v.name) bs) (vm_pairs d vs) one
              more),
      )

  -- The edges end up exactly where a pair is asked for, and they all go down.
  pub assemble_edges-Stage :
      (pools : List StoragePool) (ss : List Switch) (vs : List VmSpec)
      (explicit : List (String × String))
      → ((p : StoragePool) × (first_pool pools ≡ some p))
        ⊎ (first_pool pools ≡ none) × All (λ s. needs_sidecar s ≡ false) ss
      → All (λ v. (p : String) × (first_os (os_pools v.devices) ≡ ok p)) vs
      → DownPairs (required_pair (first_pool pools) ss vs explicit)
      → (edges : List Edge) × (assemble_edges pools ss vs explicit ≡ ok edges)
        × Stage [] (required_pair (first_pool pools) ss vs explicit) edges
  unfolding assemble_edges required_pair
  assemble_edges-Stage pools ss vs explicit (inl (p, first)) os downs =
      let d = by_network_node ss [] in
      let later : List (String × String) = vm_pairs d vs ++ explicit in
      let downs' : DownPairs (sidecar_pairs (some p) ss ++ later) = rw first at downs in
      let (edges, run, one) =
        add_switch_edges-Stage p ss [] tt (All-front (sidecar_pairs (some p) ss) later downs') in
      let back : DownPairs later = All-back (sidecar_pairs (some p) ss) later downs' in
      let (edges', run', two) =
        add_vm_edges-Stage d vs edges one.down os (All-front (vm_pairs d vs) explicit back) in
      let (edges'', run'', three) =
        add_explicit-Stage explicit edges' two.down (All-back (vm_pairs d vs) explicit back) in
      (
        edges'',
        rw (first, run, run') run'',
        rw first (
            Stage-append [] edges edges'' (sidecar_pairs (some p) ss) later one
              (Stage-append edges edges' edges'' (vm_pairs d vs) explicit two three)),
      )
  assemble_edges-Stage pools ss vs explicit (inr (none_first, bare)) os downs =
      let d = by_network_node ss [] in
      let later : List (String × String) = vm_pairs d vs ++ explicit in
      let back : DownPairs later = unfold sidecar_pairs in rw none_first at downs in
      let (edges', run', two) =
        add_vm_edges-Stage d vs [] tt os (All-front (vm_pairs d vs) explicit back) in
      let (edges'', run'', three) =
        add_explicit-Stage explicit edges' two.down (All-back (vm_pairs d vs) explicit back) in
      (
        edges'',
        rw (none_first, add_switch_edges-none ss [] bare, run') run'',
        rw none_first (
            unfold sidecar_pairs in
            Stage-append [] edges' edges'' (vm_pairs d vs) explicit two three),
      )
