-- ===== src/Graph/Build.antt =====
-- testrange/graph/build_graph.py: the construction of a `BuildGraph` and its accessors.
pub mod Index
pub mod Schedule
pub mod Links
pub mod Order
pub mod Cycles
use test_range.Prelude.{
  ℕ, String, Bool, true, false, Option, none, some, List, [], ◌∷◌, ◌++◌, ◌==◌, map, reverse, not,
  ◌&&◌, length, eqb, concat, contains, add, sorted, if◌then◌else◌, keep_if, Dict, get, put, keys,
  Result, ok, err, raise_if, ◌>>=◌, ◌>>◌,
}
use test_range.Errors.{
  Error, raise, value_error, key_error, duplicate_node_error, self_dependency_error,
  dangling_dependency_error, graph_cycle_error,
}
use test_range.Graph.Edge.{Edge, affects_cache_key}
use test_range.Graph.Node.{Node}
use test_range.Graph.Waves.{Adjacency, neighbours, independent, levels}
use test_range.Graph.Cycle.{find_cycle}

-- The instance is immutable, so `__setattr__` and `_frozen` have no part in the model.
pub record BuildGraph (Ctx : Type 0) : Type 0 where
  pub name : String
  pub nodes : List (Node Ctx)
  pub edges : List Edge
  pub by_name : Dict (Node Ctx)
  pub deps : Adjacency
  pub dependents : Adjacency
  pub waves : List (List (Node Ctx))
  pub content_waves : List (List (Node Ctx))

module _ {Ctx : Type 0} where
  -- for node in node_tuple: ...
  unfoldable pub index_nodes : Dict (Node Ctx) → List (Node Ctx) → Result Error (Dict (Node Ctx))
  index_nodes by_name [] = ok by_name
  index_nodes by_name (node ∷ nodes) =
      let rest = index_nodes (put by_name node.name node) nodes in
      if contains node.name (keys by_name)
      then raise duplicate_node_error (node.name ∷ [])
      else rest

  -- tuple(self._by_name[n] for n in names)
  unfoldable pub nodes_named : Dict (Node Ctx) → List String → Result Error (List (Node Ctx))
  nodes_named by_name [] = ok []
  nodes_named by_name (n ∷ names) =
      let rest = nodes_named by_name names in
      elim (get by_name n) [
        | none ↦ raise key_error (n ∷ [])
        | some node ↦ do nodes ← rest; ok (node ∷ nodes)
      ]

  unfoldable pub waves_named :
      Dict (Node Ctx) → List (List String) → Result Error (List (List (Node Ctx)))
  waves_named by_name [] = ok []
  waves_named by_name (wave ∷ waves) = do
    nodes ← nodes_named by_name wave
    rest ← waves_named by_name waves
    ok (nodes ∷ rest)

-- {n: set() for n in by_name}
unfoldable pub no_links : List String → Adjacency
no_links [] = []
no_links (n ∷ names) = (n, []) ∷ no_links names

-- deps[k].add(x), at a key that is there
unfoldable pub link : Adjacency → String → String → Adjacency
link [] k x = []
link ((j, s) ∷ deps) k x = if j == k then (j, add x s) ∷ deps else (j, s) ∷ link deps k x

abbrev pub Links : Type 0
Links = Adjacency × Adjacency

abbrev pub link_edge : Links → Edge → Links
link_edge (deps, dependents) e =
    (link deps e.dependent e.dependency, link dependents e.dependency e.dependent)

-- The two checks that the loop over the edges makes.
unfoldable pub check_edge : List String → Edge → Result Error Unit
check_edge names e = do
  raise_if (e.dependent == e.dependency)
      (record { class = self_dependency_error; about = e.dependent ∷ [] })
  raise_if (not (contains e.dependent names)) (record {
    class = dangling_dependency_error;
    about = e.dependent ∷ e.dependency ∷ e.dependent ∷ [];
  })
  raise_if (not (contains e.dependency names)) (record {
    class = dangling_dependency_error;
    about = e.dependent ∷ e.dependency ∷ e.dependency ∷ [];
  })

-- for edge in edge_tuple: ...
unfoldable pub link_edges : List String → Links → List Edge → Result Error Links
link_edges names links [] = ok links
link_edges names links (e ∷ edges) = do
  check_edge names e
  link_edges names (link_edge links e) edges

-- The loop that links the cacheable edges alone.
unfoldable pub link_content : Links → List Edge → Links
link_content links [] = links
link_content links (e ∷ edges) =
    link_content (if affects_cache_key e then link_edge links e else links) edges

-- if len(done) != len(self.nodes): ...
unfoldable pub check_acyclic : ℕ → Adjacency → List String → List String → Result Error Unit
check_acyclic count graph_deps done names =
    let refuse : Result Error Unit = (do
      cycle ← find_cycle graph_deps done names
      raise graph_cycle_error cycle) in
    if eqb (length done) count then ok tt else refuse

-- {e.dependency for e in edges if e.dependent == name and e.affects_cache_key}
unfoldable pub content_names : List Edge → String → List String
content_names [] name = []
content_names (e ∷ edges) name =
    let rest = content_names edges name in
    if e.dependent == name && affects_cache_key e then add e.dependency rest else rest

module _ {Ctx : Type 0} where
  -- `_compute_waves` behind its loop. `none` is a loop that ran out of rounds.
  unfoldable pub finish_waves :
      Dict (Node Ctx)
      → ℕ
      → Adjacency
      → Option (List String × List (List String))
      → Result Error (List (List (Node Ctx)))
  finish_waves by_name count graph_deps none = raise graph_cycle_error []
  finish_waves by_name count graph_deps (some (done, names)) = do
    waves ← waves_named by_name names
    check_acyclic count graph_deps done (keys by_name)
    ok waves

  -- `_compute_waves`, for a graph with the given index and number of nodes. The loop has a round
  -- for each node.
  unfoldable pub compute_waves :
      Dict (Node Ctx) → ℕ → Adjacency → Links → Result Error (List (List (Node Ctx)))
  compute_waves by_name count graph_deps (deps, dependents) =
      finish_waves by_name count graph_deps
        (levels deps dependents count [] [] (sorted (independent deps)))

  -- `BuildGraph(name, nodes, edges)`
  unfoldable pub build_graph : String → List (Node Ctx) → List Edge → Result Error (BuildGraph Ctx)
  build_graph name nodes edges = do
    raise_if (name == "") (record { class = value_error; about = [] })
    by_name ← index_nodes [] nodes
    let names = keys by_name
    links ← link_edges names (no_links names, no_links names) edges
    waves ← compute_waves by_name (length nodes) links.0 links
    content_waves ←
        compute_waves by_name (length nodes) links.0
          (link_content (no_links names, no_links names) edges)
    ok (record {
      name = name;
      nodes = nodes;
      edges = edges;
      by_name = by_name;
      deps = links.0;
      dependents = links.1;
      waves = waves;
      content_waves = content_waves;
    })

  -- node(name)
  unfoldable pub node : BuildGraph Ctx → String → Result Error (Node Ctx)
  node g name = elim (get g.by_name name) [ none ↦ raise key_error (name ∷ []) | some n ↦ ok n ]

  -- name in graph
  unfoldable pub has_node : BuildGraph Ctx → String → Bool
  has_node g name = contains name (keys g.by_name)

  -- graph.names
  unfoldable pub node_names : BuildGraph Ctx → List String
  node_names g = map (λ n. n.name) g.nodes

  unfoldable pub dependencies_of : BuildGraph Ctx → String → Result Error (List (Node Ctx))
  dependencies_of g name = elim (get g.deps name) [
    | none ↦ raise key_error (name ∷ [])
    | some s ↦ nodes_named g.by_name (sorted s)
  ]

  unfoldable pub dependents_of : BuildGraph Ctx → String → Result Error (List (Node Ctx))
  dependents_of g name = elim (get g.dependents name) [
    | none ↦ raise key_error (name ∷ [])
    | some s ↦ nodes_named g.by_name (sorted s)
  ]

  unfoldable pub content_dependencies_of : BuildGraph Ctx → String → Result Error (List (Node Ctx))
  content_dependencies_of g name = nodes_named g.by_name (sorted (content_names g.edges name))

  unfoldable pub topological_order : BuildGraph Ctx → List (Node Ctx)
  topological_order g = concat g.waves

  unfoldable pub reverse_topological_order : BuildGraph Ctx → List (Node Ctx)
  reverse_topological_order g = reverse (topological_order g)
