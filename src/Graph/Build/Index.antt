-- ===== src/Graph/Build/Index.antt =====
-- The index of a graph's nodes by name, and the node lists that are read from it.
use test_range.Prelude.{
  String, ◌≡◌, refl, sym, subst, ◌∙◌, inl, inr, false, some, List, [], ◌∷◌, ◌++◌, ◌==◌, eq_iff,
  arith, map, contains, concat, Distinct, Distinct-snoc, In, Bool-cases, Dict, get, put, keys,
  get-put, get-of_contains, ok, append_assoc, append-nil, In-cons_self, In-In_cons, contains-append,
}
use test_range.Graph.Node.{Node}
use test_range.Graph.Build.{index_nodes, nodes_named, waves_named}

Distinct-append-absent :
    (xs : List String) (y : String) (ys : List String)
    → Distinct (xs ++ y ∷ ys)
    → contains y xs ≡ false
unfolding contains
Distinct-append-absent [] y ys d = refl
Distinct-append-absent (x ∷ xs) y ys d = ground (
  arith,
  eq_iff x y,
  eq_iff y x,
  contains-append x xs (y ∷ ys),
  Distinct-append-absent xs y ys d.1,
)

module _ {Ctx : Type 0} where
  abbrev pub names_of : List (Node Ctx) → List String
  names_of nodes = map (λ n. n.name) nodes

  -- Every entry of the index is under its node's name.
  pub record IsIndex (by_name : Dict (Node Ctx)) : Type 0 where
    pub entry : (k : String) (n : Node Ctx) → get by_name k ≡ some n → n.name ≡ k

  keys-put_new :
      (d : Dict (Node Ctx)) (k : String) (v : Node Ctx)
      → contains k (keys d) ≡ false
      → keys (put d k v) ≡ keys d ++ k ∷ []
  unfolding keys put contains
  keys-put_new [] k v h = refl
  keys-put_new ((j, w) ∷ d) k v h = ground (arith, keys-put_new d k v)

  IsIndex-put : (d : Dict (Node Ctx)) (n : Node Ctx) → IsIndex d → IsIndex (put d n.name n)
  IsIndex-put d n i = record {
    entry = λ k m e. elim (Bool-cases (n.name == k)) [
      | inl same ↦
          let e' : some n ≡ some m = rw (get-put, same) at e in ground (arith, eq_iff n.name k)
      | inr other ↦ i.entry k m (rw (get-put, other) at e)
    ];
  }

  -- Accepted nodes have distinct names, and the index has those names in their order.
  pub index_nodes-keys :
      (by_name after : Dict (Node Ctx)) (nodes : List (Node Ctx))
      → IsIndex by_name
      → Distinct (keys by_name)
      → index_nodes by_name nodes ≡ ok after
      → (keys after ≡ keys by_name ++ names_of nodes) × IsIndex after × Distinct (keys after)
  unfolding index_nodes
  index_nodes-keys by_name after [] i d h =
      let e : by_name ≡ after = cc in
      subst (λ x. (keys x ≡ keys by_name ++ []) × IsIndex x × Distinct (keys x)) e
        (sym (append-nil (keys by_name)), i, d)
  index_nodes-keys by_name after (n ∷ nodes) i d h =
      elim (Bool-cases (contains n.name (keys by_name))) [
        | inl old ↦ absurd (let h' = rw old at h in cc)
        | inr new ↦
            let e = keys-put_new by_name n.name n new in
            let (ks, i', d') =
              index_nodes-keys (put by_name n.name n) after nodes (IsIndex-put by_name n i)
                (rw e (Distinct-snoc n.name (keys by_name) d new)) (rw new at h) in
            (ks ∙ (rw e (append_assoc (keys by_name) (n.name ∷ []) (names_of nodes))), i', d')
      ]

  -- Distinct names are accepted.
  pub index_nodes-ok :
      (by_name : Dict (Node Ctx)) (nodes : List (Node Ctx))
      → Distinct (keys by_name ++ names_of nodes)
      → (after : Dict (Node Ctx)) × (index_nodes by_name nodes ≡ ok after)
  unfolding index_nodes
  index_nodes-ok by_name [] d = (by_name, refl)
  index_nodes-ok by_name (n ∷ nodes) d =
      let new = Distinct-append-absent (keys by_name) n.name (names_of nodes) d in
      rw new (
        index_nodes-ok (put by_name n.name n) nodes
          (rw (keys-put_new by_name n.name n new) (rw append_assoc d)))

  nodes_named_cons :
      (by_name : Dict (Node Ctx)) (x : String) (names : List String) (n : Node Ctx)
      (nodes : List (Node Ctx))
      → get by_name x ≡ some n
      → nodes_named by_name names ≡ ok nodes
      → nodes_named by_name (x ∷ names) ≡ ok (n ∷ nodes)
  unfolding nodes_named
  nodes_named_cons by_name x names n nodes found e = rw (found, e, nodes_named)

  pub nodes_named-ok :
      (by_name : Dict (Node Ctx)) (names : List String)
      → IsIndex by_name
      → ((x : String) → In x names → In x (keys by_name))
      → (nodes : List (Node Ctx)) × (nodes_named by_name names ≡ ok nodes)
        × (names_of nodes ≡ names)
  nodes_named-ok by_name [] i h = ([], unfold nodes_named in refl, refl)
  nodes_named-ok by_name (x ∷ names) i h =
      let (n, found) = get-of_contains by_name x (h x (In-cons_self x names)) in
      let (nodes, e, same) = nodes_named-ok by_name names i (λ y m. h y (In-In_cons y x names m)) in
      (n ∷ nodes, nodes_named_cons by_name x names n nodes found e, cc (i.entry x n found, same))

  pub waves_named-ok :
      (by_name : Dict (Node Ctx)) (waves : List (List String))
      → IsIndex by_name
      → ((x : String) → In x (concat waves) → In x (keys by_name))
      → (nodes : List (List (Node Ctx))) × (waves_named by_name waves ≡ ok nodes)
        × (map names_of nodes ≡ waves)
  unfolding waves_named
  waves_named-ok by_name [] i h = ([], refl, refl)
  waves_named-ok by_name (w ∷ waves) i h =
      let (nodes, e, same) =
        nodes_named-ok by_name w i
          (λ x m. h x (ground (arith, contains-append x w (concat waves)))) in
      let (rest, e', same') =
        waves_named-ok by_name waves i
          (λ x m. h x (ground (arith, contains-append x w (concat waves)))) in
      (nodes ∷ rest, rw (e, e'), cc (same, same'))
