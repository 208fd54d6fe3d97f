-- ===== src/Graph/Build/Schedule.antt =====
-- `_compute_waves` on the links of a graph: its first wave, its result and its refusal.
use test_range.Prelude.{
  ℕ, String, ◌≡◌, ◌≢◌, refl, sym, subst, ◌∙◌, inl, inr, true, false, ◌&&◌, some, List, [], ◌∷◌,
  ◌==◌, eq_iff, arith, map, length, contains, sorted, subset, Distinct, In, Bool-cases, Dict, get,
  keys, ok, contains-sorted, Distinct-sorted, length-le_of_In, subset-In, append-nil,
}
use test_range.Errors.{raise, graph_cycle_error}
use test_range.Graph.Edge.{Edge}
use test_range.Graph.Node.{Node}
use test_range.Graph.Waves.{Adjacency, neighbours, is_ready, independent, levels}
use test_range.Graph.Waves.Exact.{IsFrontier, IsSchedule, levels-IsSchedule}
use test_range.Graph.Waves.Invariant.{subset_cases}
use test_range.Graph.Cycle.{find_cycle}
use test_range.Graph.Cycle.Found.{IsCycle, find_cycle-IsCycle}
use test_range.Graph.Build.{Links, check_acyclic, compute_waves, finish_waves, waves_named}
use test_range.Graph.Build.Index.{IsIndex, names_of, waves_named-ok}
use test_range.Graph.Build.Links.{has_edge, IsLinked, AllSound, Distinct-neighbours}

In-independent-keys : (deps : Adjacency) (x : String) → In x (independent deps) → In x (keys deps)
unfolding independent keys contains
In-independent-keys [] x h = cc
In-independent-keys ((j, []) ∷ deps) x h = ground (arith, In-independent-keys deps x)
In-independent-keys ((j, d ∷ ds) ∷ deps) x h = ground (arith, In-independent-keys deps x)

absent_independent :
    (deps : Adjacency) (x : String)
    → contains x (keys deps) ≡ false
    → contains x (independent deps) ≡ false
absent_independent deps x h = ground (arith, In-independent-keys deps x)

contains-independent :
    (deps : Adjacency) (x : String)
    → Distinct (keys deps)
    → In x (keys deps)
    → contains x (independent deps) ≡ is_ready deps [] x
unfolding independent keys contains is_ready neighbours get subset
contains-independent [] x d m = cc
contains-independent ((j, []) ∷ deps) x d m = elim (Bool-cases (j == x)) [
  | inl here ↦ ground arith
  | inr other ↦ ground (arith, contains-independent deps x d.1)
]
contains-independent ((j, s ∷ ss) ∷ deps) x d m = elim (Bool-cases (j == x)) [
  | inl here ↦
      let same = (eq_iff j x).0 here in
      let gone = absent_independent deps x (subst (λ z. contains z (keys deps) ≡ false) same d.0) in
      ground arith
  | inr other ↦ ground (arith, contains-independent deps x d.1)
]

Distinct-independent : (deps : Adjacency) → Distinct (keys deps) → Distinct (independent deps)
unfolding independent keys
Distinct-independent [] d = tt
Distinct-independent ((j, []) ∷ deps) d =
    (absent_independent deps j d.0, Distinct-independent deps d.1)
Distinct-independent ((j, s ∷ ss) ∷ deps) d = Distinct-independent deps d.1

has_edge-In :
    (names : List String) (edges : List Edge) (n d : String)
    → AllSound names edges
    → has_edge edges n d ≡ true
    → In n names × In d names
has_edge-In names [] n d s h = absurd (cc)
has_edge-In names (e ∷ edges) n d s h = elim (Bool-cases (e.dependent == n && e.dependency == d)) [
  | inl here ↦
      let k : In n names × In d names = (
        subst (λ z. In z names) ((eq_iff e.dependent n).0 (ground arith)) s.0.dependent_known,
        subst (λ z. In z names) ((eq_iff e.dependency d).0 (ground arith)) s.0.dependency_known,
      ) in
      k
  | inr other ↦ has_edge-In names edges n d s.1 (rw other at h)
]

-- The links of a graph: what `_compute_waves` is given.
module _ {names : List String} {edges : List Edge} {links : Links} (distinct : Distinct names)
    (linked : IsLinked names edges links) (sound : AllSound names edges) where
  listed_deps : (x d : String) → In d (neighbours links.0 x) → In d names
  listed_deps x d m = (has_edge-In names edges x d sound (sym (linked.deps_edges x d) ∙ m)).1

  first-IsFrontier : IsFrontier links.0 names [] (sorted (independent links.0))
  unfolding contains is_ready
  first-IsFrontier = record {
    done_distinct = tt;
    current_distinct =
        Distinct-sorted _ (Distinct-independent links.0 (rw linked.deps_keys distinct));
    fresh = λ x m. refl;
    known = λ x m. rw linked.deps_keys at (In-independent-keys links.0 x (rw contains-sorted at m));
    exact = λ x m.
        contains-sorted x (independent links.0)
        ∙ contains-independent links.0 x (rw linked.deps_keys distinct) (rw linked.deps_keys m);
  }

  pub schedule :
      (count : ℕ)
      → count ≡ length names
      → (result : List String × List (List String)) × (levels links.0 links.1 count [] []
            (sorted (independent links.0))
          ≡ some result)
        × IsSchedule links.0 names result.0 result.1
  schedule count e =
      levels-IsSchedule links.0 links.1 names
        (λ c x m. linked.dependents_edges x c ∙ (sym (linked.deps_edges x c) ∙ m))
        (λ c x m. (has_edge-In names edges x c sound (sym (linked.dependents_edges x c) ∙ m)).0)
        count [] [] (sorted (independent links.0)) (omega arith) refl tt first-IsFrontier

  -- What is left over, when not every name is done, is stuck.
  left_over_stuck :
      {done : List String} {waves : List (List String)}
      → IsSchedule links.0 names done waves
      → (x : String) → In x names
      → contains x done ≡ false
      → is_ready links.0 done x ≡ false
  unfolding contains
  left_over_stuck s x m new = ground (arith, s.frontier.exact x m)

  -- If some name is left over, so is one of `names`.
  left_over :
      (done : List String)
      → length done ≢ length names
      → Distinct done
      → ((x : String) → In x done → In x names)
      → (x : String) × In x names × (contains x done ≡ false)
  left_over done n d h = elim (subset_cases names done) [
    | inl all ↦ absurd (
        omega (
          arith,
          n,
          length-le_of_In done names d h,
          length-le_of_In names done distinct (λ x m. subset-In x names done all m),
        ))
    | inr missing ↦ missing
  ]

  module _ {Ctx : Type 0} (by_name : Dict (Node Ctx)) (i : IsIndex by_name)
      (e : keys by_name ≡ names) where
    check_acyclic-ok :
        (count : ℕ) (graph_deps : Adjacency) (done : List String)
        → length done ≡ count
        → check_acyclic count graph_deps done names ≡ ok tt
    unfolding check_acyclic
    check_acyclic-ok count graph_deps done h = ground arith

    check_acyclic-cycle :
        (count : ℕ) (graph_deps : Adjacency) (done cycle : List String)
        → length done ≢ count
        → find_cycle graph_deps done names ≡ ok cycle
        → check_acyclic count graph_deps done names ≡ raise graph_cycle_error cycle
    unfolding check_acyclic
    check_acyclic-cycle count graph_deps done cycle n h = rw h (ground arith)

    -- The waves of names as waves of nodes.
    named_waves :
        {done : List String} {waves : List (List String)}
        → IsSchedule links.0 names done waves
        → (nodes : List (List (Node Ctx))) × (waves_named by_name waves ≡ ok nodes)
          × (map names_of nodes ≡ waves)
    named_waves {done} {waves} s =
        waves_named-ok by_name waves i
          (λ x m. rw e (s.frontier.known x (rw append-nil (rw s.flat at m))))

    -- When every name is done, the waves are returned.
    pub compute_waves-ok :
        (graph_deps : Adjacency) (done : List String) (waves : List (List String))
        → levels links.0 links.1 (length names) [] [] (sorted (independent links.0))
          ≡ some (done, waves)
        → IsSchedule links.0 names done waves
        → length done ≡ length names
        → (nodes : List (List (Node Ctx))) × (compute_waves by_name (length names) graph_deps links
            ≡ ok nodes)
          × (map names_of nodes ≡ waves)
    unfolding compute_waves finish_waves
    compute_waves-ok graph_deps done waves run s all =
        let (nodes, named, same) = named_waves s in
        (nodes, rw (run, named, e, check_acyclic-ok (length names) graph_deps done all), same)

    -- When a name is left over, a genuine cycle is reported.
    pub compute_waves-IsCycle :
        (done : List String) (waves : List (List String))
        → levels links.0 links.1 (length names) [] [] (sorted (independent links.0))
          ≡ some (done, waves)
        → IsSchedule links.0 names done waves
        → length done ≢ length names
        → (cycle : List String) × (compute_waves by_name (length names) links.0 links
            ≡ raise graph_cycle_error cycle)
          × IsCycle links.0 cycle
    unfolding compute_waves finish_waves
    compute_waves-IsCycle done waves run s some_left =
        let (nodes, named, same) = named_waves s in
        let (root, m, new) =
          left_over done some_left s.frontier.done_distinct
            (λ x k. s.frontier.known x (rw append-nil k)) in
        let (cycle, found, is_cycle) =
          find_cycle-IsCycle links.0 names done (left_over_stuck s) listed_deps
            (λ x. Distinct-neighbours links.0 x linked.deps_distinct) root m new in
        (
          cycle,
          rw (run, named, e, check_acyclic-cycle (length names) links.0 done cycle some_left found),
          is_cycle,
        )
