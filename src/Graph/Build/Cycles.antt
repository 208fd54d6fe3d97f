-- ===== src/Graph/Build/Cycles.antt =====
-- When construction accepts a well-formed plan, and when it reports a cycle.
use Prim.Native.Nat.{ℕ}
use native.Mathlib.Decide.{ℕ_discrete}
use test_range.Prelude.{
  ◌<◌, String, ◌≡◌, refl, sym, subst, ◌∙◌, ◌⊎◌, inl, inr, true, false, List, [], ◌∷◌, ◌++◌, ◌==◌,
  arith, length, contains, concat, Distinct, In, Bool-cases, Dict, get, keys, ok, append-nil,
  subset-In, In-subset, contains-append, length-le_of_In,
}
use test_range.Errors.{raise, graph_cycle_error}
use test_range.Graph.Edge.{Edge, affects_cache_key}
use test_range.Graph.Node.{Node}
use test_range.Graph.Waves.{Adjacency, neighbours, is_ready}
use test_range.Graph.Waves.Exact.{IsExact, IsSchedule}
use test_range.Graph.Cycle.Found.{IsCycle, IsChain}
use test_range.Graph.Build.{
  BuildGraph, build_graph, index_nodes, no_links, link_edges, check_edge, link_edge, link_content,
  compute_waves, Links,
}
use test_range.Graph.Build.Index.{IsIndex, names_of, index_nodes-keys, index_nodes-ok}
use test_range.Graph.Build.Links.{
  has_edge, cacheable, IsLinked, IsSound, AllSound, link_edges-IsLinked, link_content-IsLinked,
  IsLinked-no_links,
}
use test_range.Graph.Build.Schedule.{schedule, compute_waves-ok, compute_waves-IsCycle}
use test_range.Graph.Build.Order.{length-names_of}

-- Each edge goes down in the ranking.
abbrev pub IsRanked : (String → ℕ) → List Edge → Type 0
IsRanked rank edges = (n d : String) → has_edge edges n d ≡ true → rank d < rank n

module _ (deps : Adjacency) (rank : String → ℕ)
    (down : (n d : String) → In d (neighbours deps n) → rank d < rank n) where
  chain_falls :
      (x : String) (inner : List String) (y : String)
      → IsChain deps (x ∷ inner ++ y ∷ [])
      → rank y < rank x
  chain_falls x [] y h = down x y h.0
  chain_falls x (z ∷ inner) y h = omega (arith, down x z h.0, chain_falls z inner y h.1)

  -- Ranked edges form no cycle.
  no_cycle : (cycle : List String) → IsCycle deps cycle → ⊥
  no_cycle cycle c =
      let falls = chain_falls c.start c.inner c.start (subst (IsChain deps) c.closed c.chain) in
      omega arith

cacheable-has_edge :
    (edges : List Edge) (n d : String)
    → has_edge (cacheable edges) n d ≡ true
    → has_edge edges n d ≡ true
unfolding cacheable
cacheable-has_edge [] n d h = h
cacheable-has_edge (e ∷ edges) n d h = ground (arith, cacheable-has_edge edges n d)

AllSound-cacheable :
    (names : List String) (edges : List Edge)
    → AllSound names edges
    → AllSound names (cacheable edges)
unfolding cacheable
AllSound-cacheable names [] s = tt
AllSound-cacheable names (e ∷ edges) s = elim (Bool-cases (affects_cache_key e)) [
  | inl bakes ↦ rw bakes (s.0, AllSound-cacheable names edges s.1)
  | inr plain ↦ rw plain (AllSound-cacheable names edges s.1)
]

-- Under fewer dependencies no fewer names are done.
module _ (deps fewer : Adjacency) (names done : List String)
    (sub : (x d : String) → In d (neighbours fewer x) → In d (neighbours deps x))
    (closed : (x : String) → In x names → is_ready fewer done x ≡ true → In x done) where
  all_done :
      (seen : List String) (waves : List (List String))
      → IsExact deps names seen waves
      → ((x : String) → In x (concat waves) → In x names)
      → ((x : String) → In x seen → In x done)
      → (x : String) → In x (concat waves)
      → In x done
  unfolding is_ready
  all_done seen [] e known within x m = absurd (unfold contains in cc)
  all_done seen (w ∷ waves) e known within x m =
      let here = λ (y : String) (k : In y w).
        let y_known = known y (ground (arith, contains-append y w (concat waves))) in
        let ready : is_ready deps seen y ≡ true = ground (arith, e.0 y y_known) in
        closed y y_known (
          In-subset (neighbours fewer y) done
            (λ d needed. within d (subset-In d (neighbours deps y) seen ready (sub y d needed)))) in
      elim (Bool-cases (contains x w)) [
        | inl now ↦ here x now
        | inr later ↦
            all_done (seen ++ w) waves e.1
              (λ y k. known y (ground (arith, contains-append y w (concat waves))))
              (λ y k. ground (arith, contains-append y seen w, within y, here y)) x
              (ground (arith, contains-append x w (concat waves)))
      ]

-- At the end of the loop no further name is ready.
schedule_closed :
    {deps : Adjacency} {names done : List String} {waves : List (List String)}
    → IsSchedule deps names done waves
    → (x : String) → In x names
    → is_ready deps done x ≡ true
    → In x done
unfolding contains
schedule_closed s x m r = ground (arith, s.frontier.exact x m)

check_edge-ok : (names : List String) (e : Edge) → IsSound names e → check_edge names e ≡ ok tt
unfolding check_edge
check_edge-ok names e s = ground arith

link_edges-ok :
    (names : List String) (links : Links) (edges : List Edge)
    → AllSound names edges
    → (after : Links) × (link_edges names links edges ≡ ok after)
unfolding link_edges
link_edges-ok names links [] s = (links, refl)
link_edges-ok names links (e ∷ edges) s =
    rw (check_edge-ok names e s.0) (link_edges-ok names (link_edge links e) edges s.1)

-- A plan whose names are distinct and not empty, and whose edges join two of them.
pub record IsWellFormed {Ctx : Type 0} (name : String) (nodes : List (Node Ctx)) (edges : List Edge)
    : Type 0 where
  pub named : (name == "") ≡ false
  pub distinct : Distinct (names_of nodes)
  pub sound : AllSound (names_of nodes) edges

module _ {Ctx : Type 0} (name : String) (nodes : List (Node Ctx)) (edges : List Edge)
    (w : IsWellFormed name nodes edges) where
  -- What construction has before it computes the waves.
  record Prepared : Type 0 where
    by_name : Dict (Node Ctx)
    links : Links
    indexed : index_nodes [] nodes ≡ ok by_name
    names : keys by_name ≡ names_of nodes
    index : IsIndex by_name
    linking :
        link_edges (keys by_name) (no_links (keys by_name), no_links (keys by_name)) edges
        ≡ ok links
    linked : IsLinked (names_of nodes) edges links

  prepared : Prepared
  unfolding keys get
  prepared =
      let (by_name, e) = index_nodes-ok [] nodes w.distinct in
      let (ks, i, d) =
        index_nodes-keys [] by_name nodes (record { entry = λ k n e'. absurd (cc) }) tt e in
      let (links, l) =
        link_edges-ok (keys by_name) (no_links (keys by_name), no_links (keys by_name)) edges
          (rw ks w.sound) in
      let (linked, _) =
        link_edges-IsLinked (keys by_name) [] _ edges (IsLinked-no_links (keys by_name)) l in
      record {
        by_name = by_name;
        links = links;
        indexed = e;
        names = ks;
        index = i;
        linking = l;
        linked = subst (λ z. IsLinked z edges links) ks linked;
      }

  abbrev content_links : Prepared → Links
  content_links p = link_content (no_links (keys p.by_name), no_links (keys p.by_name)) edges

  content-IsLinked : (p : Prepared) → IsLinked (names_of nodes) (cacheable edges) (content_links p)
  content-IsLinked p =
      subst (λ z. IsLinked z (cacheable edges) (content_links p)) p.names
        (link_content-IsLinked (keys p.by_name) [] _ edges (IsLinked-no_links (keys p.by_name))
          (rw p.names w.sound))

  -- The waves of the cacheable edges never fail where those of all edges do not.
  content_ok :
      (p : Prepared) (done : List String) (waves : List (List String))
      → IsSchedule p.links.0 (names_of nodes) done waves
      → length done ≡ length (names_of nodes)
      → (content : List (List (Node Ctx))) × (compute_waves p.by_name
            (length nodes)
            p.links.0
            (content_links p)
          ≡ ok content)
  content_ok p done waves s all =
      let sound = AllSound-cacheable (names_of nodes) edges w.sound in
      let ((done', waves'), run', s') =
        schedule w.distinct (content-IsLinked p) sound (length (names_of nodes)) refl in
      let known = λ (x : String) (m : In x done). s.frontier.known x (rw append-nil m) in
      let known' = λ (x : String) (m : In x done'). s'.frontier.known x (rw append-nil m) in
      let within =
        all_done p.links.0 (content_links p).0 (names_of nodes) done'
          (λ x d m.
            p.linked.deps_edges x d
            ∙ cacheable-has_edge edges x d (sym ((content-IsLinked p).deps_edges x d) ∙ m))
          (schedule_closed s') [] waves s.layers (λ x m. known x (rw s.flat at m))
          (λ x m. absurd (unfold contains in cc)) in
      let more =
        length-le_of_In done done' s.frontier.done_distinct (λ x m. within x (rw s.flat m)) in
      let fewer = length-le_of_In done' (names_of nodes) s'.frontier.done_distinct known' in
      let (content, e, _) =
        compute_waves-ok w.distinct (content-IsLinked p) sound p.by_name p.index p.names p.links.0
          done' waves' run' s' (omega arith) in
      (content, rw (length-names_of nodes) at e)

  -- For a well-formed plan construction returns a graph, or it raises `GraphCycleError` with names
  -- that form a cycle of the given edges: each depends on the next one, and the last is the first.
  pub build_graph_decides :
      ((g : BuildGraph Ctx) × (build_graph name nodes edges ≡ ok g))
      ⊎ (deps : Adjacency) × (cycle : List String) × (build_graph name nodes edges
          ≡ raise graph_cycle_error cycle)
        × IsCycle deps cycle
        × ((n d : String) → contains d (neighbours deps n) ≡ has_edge edges n d)
  unfolding build_graph
  build_graph_decides =
      let p = prepared in
      let ((done, waves), run, s) =
        schedule w.distinct p.linked w.sound (length (names_of nodes)) refl in
      elim (ℕ_discrete (length done) (length (names_of nodes))) [
        | yes all ↦
            let (full, e, _) =
              compute_waves-ok w.distinct p.linked w.sound p.by_name p.index p.names p.links.0 done
                waves run s all in
            let e' = rw (length-names_of nodes) at e in
            let (content, c) = content_ok p done waves s all in
            let g : BuildGraph Ctx = record {
              name = name;
              nodes = nodes;
              edges = edges;
              by_name = p.by_name;
              deps = p.links.0;
              dependents = p.links.1;
              waves = full;
              content_waves = content;
            } in
            inl (g, rw (w.named, p.indexed, p.linking, e', c))
        | no some_left ↦
            let (cycle, e, is_cycle) =
              compute_waves-IsCycle w.distinct p.linked w.sound p.by_name p.index p.names done waves
                run s some_left in
            let e' = rw (length-names_of nodes) at e in
            inr (
              p.links.0,
              cycle,
              rw (w.named, p.indexed, p.linking, e'),
              is_cycle,
              p.linked.deps_edges,
            )
      ]

  -- A well-formed plan whose edges all go down in some ranking of the names, so that they form no
  -- cycle, is accepted.
  pub build_graph_accepts :
      (rank : String → ℕ)
      → IsRanked rank edges
      → (g : BuildGraph Ctx) × (build_graph name nodes edges ≡ ok g)
  build_graph_accepts rank ranked = elim build_graph_decides [
    | inl built ↦ built
    | inr (deps, cycle, _, is_cycle, same) ↦
        absurd (no_cycle deps rank (λ n d m. ranked n d (sym (same n d) ∙ m)) cycle is_cycle)
  ]
