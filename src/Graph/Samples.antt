-- ===== src/Graph/Samples.antt =====
-- Tests of testrange/graph on a plan of three nodes, and on one with a cycle.
use test_range.Prelude.{
  ℕ, ◌<◌, String, true, List, [], ◌∷◌, ◌≡◌, refl, ◌&&◌, ◌⊎◌, inl, inr, subst, Bool-cases, map,
  concat, ok, contains, Distinct, arith, eq_iff, ◌==◌, if◌then◌else◌,
}
use test_range.Errors.{raise, graph_cycle_error}
use test_range.Graph.Edge.{Edge, EdgeKind, Cacheability}
use test_range.Graph.Node.{Node}
use test_range.Graph.Waves.{Adjacency, neighbours}
use test_range.Graph.Waves.Exact.{IsExact}
use test_range.Graph.Cycle.Found.{IsCycle}
use test_range.Graph.Build.{BuildGraph, build_graph, topological_order}
use test_range.Graph.Build.Index.{names_of}
use test_range.Graph.Build.Links.{has_edge}
use test_range.Graph.Build.Order.{build_graph-waves, topological_order-IsOrdered, IsOrdered}
use test_range.Graph.Build.Cycles.{IsWellFormed, IsRanked, build_graph_decides, build_graph_accepts}

abbrev plain : String → Node Unit
plain name = record {
  name = name;
  kind = "vm";
  cache_key = λ keys ctx. (ok name, ctx);
  materialize = λ ctx. (ok tt, ctx);
  realize = λ ctx. (ok tt, ctx);
}

abbrev needs : String → String → Cacheability → Edge
needs dependent dependency c = record {
  dependent = dependent;
  dependency = dependency;
  kind = EdgeKind.ordering;
  cacheability = c;
}

abbrev three_nodes : List (Node Unit)
three_nodes = plain "net" ∷ plain "base" ∷ plain "vm" ∷ []

abbrev two_edges : List Edge
two_edges = needs "vm" "base" Cacheability.bake ∷ needs "base" "net" Cacheability.ordering ∷ []

abbrev height : String → ℕ
height n = if n == "net" then 0 else if n == "base" then 1 else 2

two_edges_ends :
    (n d : String)
    → has_edge two_edges n d ≡ true
    → (("vm" ≡ n) × ("base" ≡ d)) ⊎ (("base" ≡ n) × ("net" ≡ d))
unfolding has_edge
two_edges_ends n d m = elim (Bool-cases ("vm" == n && "base" == d)) [
  | inl first ↦ inl ((eq_iff "vm" n).0 (ground arith), (eq_iff "base" d).0 (ground arith))
  | inr other ↦ inr ((eq_iff "base" n).0 (ground arith), (eq_iff "net" d).0 (ground arith))
]

two_edges-IsRanked : IsRanked height two_edges
two_edges-IsRanked n d m = elim (two_edges_ends n d m) [
  | inl (dependent, dependency) ↦
      subst (λ z. height d < height z) dependent
        (subst (λ z. height z < 2) dependency (omega arith))
  | inr (dependent, dependency) ↦
      subst (λ z. height d < height z) dependent
        (subst (λ z. height z < 1) dependency (omega arith))
]

three_nodes-IsWellFormed : IsWellFormed "plan" three_nodes two_edges
unfolding contains
three_nodes-IsWellFormed = record {
  named = refl;
  distinct = (refl, (refl, (refl, tt)));
  sound = (
    record { dependent_known = refl; dependency_known = refl; proper = refl },
    (record { dependent_known = refl; dependency_known = refl; proper = refl }, tt),
  );
}

abbrev Accepted : Type 0
Accepted = (g : BuildGraph Unit) × (build_graph "plan" three_nodes two_edges ≡ ok g)

build_graph_accepts_example : Accepted
build_graph_accepts_example =
    build_graph_accepts "plan" three_nodes two_edges three_nodes-IsWellFormed height
      two_edges-IsRanked

accepted : Accepted
accepted =
    build_graph_accepts "plan" three_nodes two_edges three_nodes-IsWellFormed height
      two_edges-IsRanked

abbrev graph : BuildGraph Unit
graph = accepted.0

build_graph-waves_example :
    IsExact graph.deps (names_of three_nodes) [] (map names_of graph.waves)
    × ((n d : String) → contains d (neighbours graph.deps n) ≡ has_edge two_edges n d)
    × Distinct (concat (map names_of graph.waves))
    × ((x : String)
        → contains x (concat (map names_of graph.waves)) ≡ contains x (names_of three_nodes))
build_graph-waves_example = build_graph-waves "plan" three_nodes two_edges accepted.1

topological_order-IsOrdered_example : IsOrdered two_edges [] (names_of (topological_order graph))
topological_order-IsOrdered_example =
    topological_order-IsOrdered "plan" three_nodes two_edges accepted.1

abbrev circular_edges : List Edge
circular_edges = needs "net" "vm" Cacheability.ordering ∷ two_edges

circular-IsWellFormed : IsWellFormed "plan" three_nodes circular_edges
unfolding contains
circular-IsWellFormed = record {
  named = refl;
  distinct = three_nodes-IsWellFormed.distinct;
  sound = (
    record { dependent_known = refl; dependency_known = refl; proper = refl },
    three_nodes-IsWellFormed.sound,
  );
}

build_graph_decides_example :
    ((g : BuildGraph Unit) × (build_graph "plan" three_nodes circular_edges ≡ ok g))
    ⊎ (deps : Adjacency) × (cycle : List String) × (build_graph "plan" three_nodes circular_edges
        ≡ raise graph_cycle_error cycle)
      × IsCycle deps cycle
      × ((n d : String) → contains d (neighbours deps n) ≡ has_edge circular_edges n d)
build_graph_decides_example =
    build_graph_decides "plan" three_nodes circular_edges circular-IsWellFormed
