-- ===== src/Graph/Build/Order.antt =====
-- What a constructed graph guarantees: its waves and its topological order.
use native.Mathlib.Nat.{le_refl}
use native.Mathlib.Decide.{ℕ_discrete}
use test_range.Prelude.{
  suc, String, ◌≡◌, refl, sym, ap, subst, ◌∙◌, true, List, [], ◌∷◌, ◌++◌, ◌==◌, arith, map, length,
  contains, concat, Distinct, In, Dict, get, keys, ok, >>=-eq-ok, >>-eq-ok, ok-injective, ok-ne-err,
  raise_if, append-nil, append_assoc, subset-In, contains-append, In-cons_self, In-In_cons,
  In-of_length-eq,
}
use test_range.Errors.{value_error}
use test_range.Graph.Edge.{Edge}
use test_range.Graph.Node.{Node}
use test_range.Graph.Waves.{Adjacency, neighbours, is_ready}
use test_range.Graph.Waves.Exact.{IsExact, IsSchedule}
use test_range.Graph.Build.{
  BuildGraph, build_graph, index_nodes, no_links, link_edges, link_content, compute_waves, Links,
  topological_order,
}
use test_range.Graph.Build.Index.{IsIndex, names_of, index_nodes-keys}
use test_range.Graph.Build.Links.{
  has_edge, IsLinked, AllSound, link_edges-IsLinked, IsLinked-no_links,
}
use test_range.Graph.Build.Schedule.{schedule, compute_waves-ok, compute_waves-IsCycle}

pub length-names_of :
    {Ctx : Type 0} (nodes : List (Node Ctx)) → length (names_of nodes) ≡ length nodes
length-names_of [] = refl
length-names_of (n ∷ nodes) = ap suc (length-names_of nodes)

-- What construction has established, in the graph's own fields.
record IsBuilt {Ctx : Type 0} (g : BuildGraph Ctx) : Type 0 where
  distinct : Distinct (names_of g.nodes)
  linked : IsLinked (names_of g.nodes) g.edges (g.deps, g.dependents)
  sound : AllSound (names_of g.nodes) g.edges
  index : IsIndex g.by_name
  index_keys : keys g.by_name ≡ names_of g.nodes
  waves_computed :
      compute_waves g.by_name (length (names_of g.nodes)) g.deps (g.deps, g.dependents) ≡ ok g.waves

module _ {Ctx : Type 0} (name : String) (nodes : List (Node Ctx)) (edges : List Edge) where
  -- The parts of a successful construction.
  record Parts (g : BuildGraph Ctx) : Type 0 where
    by_name : Dict (Node Ctx)
    links : Links
    waves : List (List (Node Ctx))
    content_waves : List (List (Node Ctx))
    indexed : index_nodes [] nodes ≡ ok by_name
    linking :
        link_edges (keys by_name) (no_links (keys by_name), no_links (keys by_name)) edges
        ≡ ok links
    computed : compute_waves by_name (length nodes) links.0 links ≡ ok waves
    whole :
        record {
          name = name;
          nodes = nodes;
          edges = edges;
          by_name = by_name;
          deps = links.0;
          dependents = links.1;
          waves = waves;
          content_waves = content_waves;
        }
        ≡ g

  build_graph-Parts : {g : BuildGraph Ctx} → build_graph name nodes edges ≡ ok g → Parts g
  unfolding build_graph
  build_graph-Parts {g} h =
      let (_, h1) =
        >>-eq-ok (raise_if (name == "") (record { class = value_error; about = [] })) _ h in
      let (by_name, hi, h2) = >>=-eq-ok (index_nodes [] nodes) _ h1 in
      let (links, hl, h3) =
        >>=-eq-ok
          (link_edges (keys by_name) (no_links (keys by_name), no_links (keys by_name)) edges) _
          h2 in
      let (waves, hw, h4) = >>=-eq-ok (compute_waves by_name (length nodes) links.0 links) _ h3 in
      let (content, hc, h5) =
        >>=-eq-ok
          (compute_waves by_name (length nodes) links.0
            (link_content (no_links (keys by_name), no_links (keys by_name)) edges))
          _ h4 in
      record {
        by_name = by_name;
        links = links;
        waves = waves;
        content_waves = content;
        indexed = hi;
        linking = hl;
        computed = hw;
        whole = cc;
      }

  IsIndex-facts :
      (by_name : Dict (Node Ctx))
      → index_nodes [] nodes ≡ ok by_name
      → (keys by_name ≡ names_of nodes) × IsIndex by_name × Distinct (keys by_name)
  unfolding keys
  IsIndex-facts by_name h =
      index_nodes-keys [] by_name nodes (record { entry = λ k n e. absurd (unfold get in cc) }) tt h

  build_graph-IsBuilt : {g : BuildGraph Ctx} → build_graph name nodes edges ≡ ok g → IsBuilt g
  build_graph-IsBuilt {g} h =
      let p = build_graph-Parts h in
      let (ks, i, d) = IsIndex-facts p.by_name p.indexed in
      let (l, s) =
        link_edges-IsLinked (keys p.by_name) [] _ edges (IsLinked-no_links (keys p.by_name))
          p.linking in
      subst IsBuilt p.whole (record {
        distinct = subst Distinct ks d;
        linked = subst (λ z. IsLinked z edges p.links) ks l;
        sound = subst (λ z. AllSound z edges) ks s;
        index = i;
        index_keys = ks;
        waves_computed = rw length-names_of p.computed;
      })

module _ {Ctx : Type 0} {g : BuildGraph Ctx} (b : IsBuilt g) where
  abbrev wave_names : List (List String)
  wave_names = map names_of g.waves

  -- The waves are a schedule with every name done.
  waves-IsSchedule :
      (done : List String) × IsSchedule g.deps (names_of g.nodes) done wave_names
      × (length done ≡ length (names_of g.nodes))
  waves-IsSchedule =
      let ((done, waves), run, s) =
        schedule b.distinct b.linked b.sound (length (names_of g.nodes)) refl in
      elim (ℕ_discrete (length done) (length (names_of g.nodes))) [
        | yes all ↦
            let (nodes, computed, same) =
              compute_waves-ok b.distinct b.linked b.sound g.by_name b.index b.index_keys g.deps
                done waves run s all in
            let e : waves ≡ wave_names =
              sym same ∙ ap (map names_of) (ok-injective (sym computed ∙ b.waves_computed)) in
            (done, subst (λ z. IsSchedule g.deps (names_of g.nodes) done z) e s, all)
        | no some_left ↦
            let (cycle, refused, _) =
              compute_waves-IsCycle b.distinct b.linked b.sound g.by_name b.index b.index_keys done
                waves run s some_left in
            absurd (ok-ne-err (sym b.waves_computed ∙ refused))
      ]

  settled : (x : String) → contains x (concat wave_names) ≡ contains x (names_of g.nodes)
  settled x =
      let (done, s, all) = waves-IsSchedule in
      let to = λ (y : String) (m : In y done). s.frontier.known y (rw append-nil m) in
      let back =
        In-of_length-eq done (names_of g.nodes) s.frontier.done_distinct to (rw all (le_refl _)) in
      rw s.flat (ground (arith, to x, back x))

-- Behind each name in the list stand only names that it depends on: `seen`, and those before it.
abbrev pub IsOrdered : List Edge → List String → List String → Type 0
IsOrdered edges seen [] = Unit
IsOrdered edges seen (n ∷ order) =
    ((d : String) → has_edge edges n d ≡ true → In d seen) × IsOrdered edges (seen ++ n ∷ []) order

IsOrdered-wave :
    (edges : List Edge) (base seen wave rest : List String)
    → ((x d : String) → In x wave → has_edge edges x d ≡ true → In d base)
    → ((d : String) → In d base → In d seen)
    → IsOrdered edges (seen ++ wave) rest
    → IsOrdered edges seen (wave ++ rest)
IsOrdered-wave edges base seen [] rest h within r = rw append-nil at r
IsOrdered-wave edges base seen (x ∷ wave) rest h within r = (
  λ d m. within d (h x d (In-cons_self x wave) m),
  IsOrdered-wave edges base (seen ++ x ∷ []) wave rest (λ y d m. h y d (In-In_cons y x wave m))
      (λ d m. ground (arith, contains-append d seen (x ∷ []), within d m)) (rw append_assoc r),
)

IsExact-IsOrdered :
    (deps : Adjacency) (names : List String) (edges : List Edge)
    → ((n d : String) → contains d (neighbours deps n) ≡ has_edge edges n d)
    → (seen : List String) (waves : List (List String))
    → ((x : String) → In x (concat waves) → In x names)
    → IsExact deps names seen waves
    → IsOrdered edges seen (concat waves)
unfolding is_ready
IsExact-IsOrdered deps names edges same seen [] known e = tt
IsExact-IsOrdered deps names edges same seen (w ∷ waves) known e =
    IsOrdered-wave edges seen seen w (concat waves)
      (λ x d m linked.
        let ready : is_ready deps seen x ≡ true =
          ground (arith, e.0 x (known x (ground (arith, contains-append x w (concat waves))))) in
        subset-In d (neighbours deps x) seen ready (same x d ∙ linked))
      (λ d m. m)
      (IsExact-IsOrdered deps names edges same (seen ++ w) waves
        (λ x m. known x (ground (arith, contains-append x w (concat waves)))) e.1)

names_of-append :
    {Ctx : Type 0} (xs ys : List (Node Ctx)) → names_of (xs ++ ys) ≡ names_of xs ++ names_of ys
names_of-append [] ys = refl
names_of-append (x ∷ xs) ys = ap (λ l. x.name ∷ l) (names_of-append xs ys)

names_of-concat :
    {Ctx : Type 0} (waves : List (List (Node Ctx)))
    → names_of (concat waves) ≡ concat (map names_of waves)
names_of-concat [] = refl
names_of-concat (w ∷ waves) =
    names_of-append w (concat waves) ∙ ap (λ l. names_of w ++ l) (names_of-concat waves)

module _ {Ctx : Type 0} (name : String) (nodes : List (Node Ctx)) (edges : List Edge)
    {g : BuildGraph Ctx} (built : build_graph name nodes edges ≡ ok g) where
  -- The nodes and the edges of a constructed graph are the given ones.
  kept : (g.nodes ≡ nodes) × (g.edges ≡ edges)
  kept =
      let p = build_graph-Parts name nodes edges built in
      (sym (ap (λ r. r.nodes) p.whole), sym (ap (λ r. r.edges) p.whole))

  -- In a graph that construction returns, each wave of `waves()` holds exactly the names that no
  -- earlier wave holds and whose dependencies all stand in earlier waves; a name's dependencies are
  -- those that the edges give it; and the waves together hold each node's name exactly once.
  pub build_graph-waves :
      IsExact g.deps (names_of nodes) [] (map names_of g.waves)
      × ((n d : String) → contains d (neighbours g.deps n) ≡ has_edge edges n d)
      × Distinct (concat (map names_of g.waves))
      × ((x : String) → contains x (concat (map names_of g.waves)) ≡ contains x (names_of nodes))
  build_graph-waves =
      let b = build_graph-IsBuilt name nodes edges built in
      let (done, s, all) = waves-IsSchedule b in
      let (same_nodes, same_edges) = kept in
      (
        subst (λ z. IsExact g.deps (names_of z) [] (map names_of g.waves)) same_nodes s.layers,
        λ n d. b.linked.deps_edges n d ∙ ap (λ z. has_edge z n d) same_edges,
        rw s.flat s.frontier.done_distinct,
        λ x. settled b x ∙ ap (λ z. contains x (names_of z)) same_nodes,
      )

  -- In the topological order of a graph that construction returns, every node stands behind all of
  -- its dependencies.
  pub topological_order-IsOrdered : IsOrdered edges [] (names_of (topological_order g))
  unfolding topological_order
  topological_order-IsOrdered =
      let (layers, same, _, all) = build_graph-waves in
      rw names_of-concat (
        IsExact-IsOrdered g.deps (names_of nodes) edges same [] (map names_of g.waves)
          (λ x m. sym (all x) ∙ m) layers)
