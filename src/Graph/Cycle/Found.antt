-- ===== src/Graph/Cycle/Found.antt =====
-- testrange/graph/build_graph.py, `_find_cycle`, on the names that the waves leave over.
use test_range.Prelude.{
  ℕ, zero, suc, ◌+◌, ◌*◌, ◌≤◌, ◌<◌, String, ◌≡◌, refl, ap, subst, ◌∙◌, ◌⊎◌, inl, inr, true, false,
  List, [], ◌∷◌, ◌++◌, ◌==◌, length, contains, add, sorted, arith, eq_iff, In, Distinct, Bool-cases,
  ok, length-append, ◌-◌, contains-append, contains-add, Distinct-add, length-le_of_In,
  In-cons_self, In-In_cons, In-cons_cases, contains-sorted, length-sorted, In-subset,
}
use test_range.Graph.Waves.{Adjacency, neighbours, is_ready}
use test_range.Graph.Cycle.{found, from_first, walk, search_roots, find_cycle}

-- Each name in the list depends on the next one.
abbrev pub IsChain : Adjacency → List String → Type 0
IsChain deps [] = Unit
IsChain deps (x ∷ []) = Unit
IsChain deps (x ∷ y ∷ rest) = In y (neighbours deps x) × IsChain deps (y ∷ rest)

-- A chain of dependencies that comes back to where it starts.
pub record IsCycle (deps : Adjacency) (cycle : List String) : Type 0 where
  pub start : String
  pub inner : List String
  pub closed : cycle ≡ start ∷ inner ++ start ∷ []
  pub chain : IsChain deps cycle

module _ (deps : Adjacency) where
  IsChain-tail : (x : String) (xs : List String) → IsChain deps (x ∷ xs) → IsChain deps xs
  IsChain-tail x [] h = tt
  IsChain-tail x (y ∷ ys) h = h.1

  IsChain-snoc :
      (xs : List String) (x y : String)
      → IsChain deps (xs ++ x ∷ [])
      → In y (neighbours deps x)
      → IsChain deps ((xs ++ x ∷ []) ++ y ∷ [])
  IsChain-snoc [] x y h m = (m, tt)
  IsChain-snoc (a ∷ []) x y h m = (h.0, (m, tt))
  IsChain-snoc (a ∷ b ∷ xs) x y h m = (h.0, IsChain-snoc (b ∷ xs) x y h.1 m)

  IsChain-from_first :
      (x : String) (xs ys : List String)
      → IsChain deps (xs ++ ys)
      → In x xs
      → IsChain deps (from_first x xs ++ ys)
  unfolding from_first contains
  IsChain-from_first x [] ys h m = cc
  IsChain-from_first x (z ∷ xs) ys h m = elim (Bool-cases (z == x)) [
    | inl here ↦ rw here h
    | inr other ↦
        rw other (IsChain-from_first x xs ys (IsChain-tail z (xs ++ ys) h) (rw other at m))
  ]

  from_first-cons :
      (x : String) (xs : List String)
      → In x xs
      → (rest : List String) × (from_first x xs ≡ x ∷ rest)
  unfolding from_first contains
  from_first-cons x [] m = cc
  from_first-cons x (z ∷ xs) m = elim (Bool-cases (z == x)) [
    | inl here ↦ (xs, rw here (ap (λ w. w ∷ xs) ((eq_iff z x).0 here)))
    | inr other ↦ let (rest, e) = from_first-cons x xs (rw other at m) in (rest, rw other e)
  ]

  IsCycle-from_first :
      (pre : List String) (node dep : String)
      → IsChain deps (pre ++ node ∷ [])
      → In dep (neighbours deps node)
      → In dep (pre ++ node ∷ [])
      → IsCycle deps (from_first dep (pre ++ node ∷ []) ++ dep ∷ [])
  IsCycle-from_first pre node dep h needed m =
      let (rest, e) = from_first-cons dep (pre ++ node ∷ []) m in
      record {
        start = dep;
        inner = rest;
        closed = ap (λ l. l ++ dep ∷ []) e;
        chain =
            IsChain-from_first dep (pre ++ node ∷ []) (dep ∷ [])
              (IsChain-snoc pre node dep h needed) m;
      }

add_cases : (x y : String) (xs : List String) → In x (add y xs) → (y ≡ x) ⊎ In x xs
add_cases x y xs m = ground (arith, contains-add x y xs, eq_iff y x)

contains_singleton : (x y : String) → contains x (y ∷ []) ≡ (y == x)
unfolding contains
contains_singleton x y = ground arith

length-add :
    (x : String) (xs : List String) → contains x xs ≡ false → length (add x xs) ≡ suc (length xs)
unfolding add
length-add x xs h = rw h (omega (arith, length-append xs (x ∷ [])))

spend_one : (k m : ℕ) → 0 < k → (k - 1) * m + m ≡ k * m
spend_one zero m h = absurd (omega arith)
spend_one (suc k) m h = let e : suc k - 1 ≡ k = omega arith in rw e (omega arith)

-- The names that are left over: each has a dependency among them.
module _ (deps : Adjacency) (names settled : List String)
    (stuck : (x : String)
      → In x names
      → contains x settled ≡ false
      → is_ready deps settled x ≡ false)
    (listed : (x d : String) → In d (neighbours deps x) → In d names)
    (distinct : (x : String) → Distinct (neighbours deps x)) where
  -- What holds at the last frame of the walk.
  record IsAt (node : String) (rest pre path on_path : List String) : Type 0 where
    is_name : In node names
    unsettled : contains node settled ≡ false
    left : (d : String) → In d (neighbours deps node) → In d rest ⊎ In d settled
    needed : (d : String) → In d rest → In d (neighbours deps node)
    ends : path ≡ pre ++ node ∷ []
    chain : IsChain deps (pre ++ node ∷ [])
    distinct_path : Distinct on_path
    on_path_names : (x : String) → In x on_path → In x names
    same : (x : String) → contains x on_path ≡ contains x path

  not_exhausted :
      (node : String) (pre path on_path : List String) → IsAt node [] pre path on_path → ⊥
  unfolding is_ready contains
  not_exhausted node pre path on_path a =
      let ready =
        In-subset (neighbours deps node) settled
          (λ d m. elim (a.left d m) [ inl none_left ↦ absurd (cc) | inr old ↦ old ]) in
      cc (stuck node a.is_name a.unsettled, ready)

  pass_settled :
      {node d : String} {rest pre path on_path : List String}
      → IsAt node (d ∷ rest) pre path on_path
      → In d settled
      → IsAt node rest pre path on_path
  pass_settled {d = d} {rest = rest} a old = record {
    is_name = a.is_name;
    unsettled = a.unsettled;
    left = λ x m. elim (a.left x m) [
      | inl l ↦ elim (In-cons_cases x d rest l) [
        | inl e ↦ inr (subst (λ z. In z settled) e old)
        | inr r ↦ inl r
      ]
      | inr s ↦ inr s
    ];
    needed = λ x m. a.needed x (In-In_cons x d rest m);
    ends = a.ends;
    chain = a.chain;
    distinct_path = a.distinct_path;
    on_path_names = a.on_path_names;
    same = a.same;
  }

  pass_down :
      {node d : String} {rest pre path on_path : List String}
      → IsAt node (d ∷ rest) pre path on_path
      → contains d settled ≡ false
      → IsAt d (sorted (neighbours deps d)) (pre ++ node ∷ []) (path ++ d ∷ []) (add d on_path)
  pass_down {node} {d} {rest} {pre} {path} {on_path} a new =
      let needed = a.needed d (In-cons_self d rest) in
      record {
        is_name = listed node d needed;
        unsettled = new;
        left = λ x m. inl (rw contains-sorted m);
        needed = λ x m. rw contains-sorted at m;
        ends = ap (λ l. l ++ d ∷ []) a.ends;
        chain = IsChain-snoc deps pre node d a.chain needed;
        distinct_path = Distinct-add d on_path a.distinct_path;
        on_path_names = λ x m. elim (add_cases x d on_path m) [
          | inl e ↦ subst (λ z. In z names) e (listed node d needed)
          | inr old ↦ a.on_path_names x old
        ];
        same = λ x. ground (
          arith,
          contains-add x d on_path,
          contains-append x path (d ∷ []),
          contains_singleton x d,
          a.same x,
        );
      }

  length-neighbours-le : (x : String) → length (neighbours deps x) ≤ length names
  length-neighbours-le x = length-le_of_In (neighbours deps x) names (distinct x) (listed x)

  -- What one round of the walk does, on each of its branches.
  module _ (fuel : ℕ) (node d : String) (rest : List String) (frames : List (String × List String))
      (path on_path : List String) where
    walk_skip :
        contains d settled ≡ true
        → walk deps settled (suc fuel) ((node, d ∷ rest) ∷ frames) path on_path []
          ≡ walk deps settled fuel ((node, rest) ∷ frames) path on_path []
    unfolding walk
    walk_skip old = rw old

    walk_back :
        contains d settled ≡ false
        → contains d on_path ≡ true
        → walk deps settled (suc fuel) ((node, d ∷ rest) ∷ frames) path on_path []
          ≡ found (from_first d path ++ d ∷ [])
    unfolding walk contains
    walk_back new back = rw (new, back)

    walk_down :
        contains d settled ≡ false
        → contains d on_path ≡ false
        → walk deps settled (suc fuel) ((node, d ∷ rest) ∷ frames) path on_path []
          ≡ walk deps settled fuel
              ((d, sorted (neighbours deps d)) ∷ (node, rest) ∷ frames)
              (path ++ d ∷ [])
              (add d on_path)
              []
    unfolding walk contains
    walk_down new fresh = rw (new, fresh)

  walk-IsCycle :
      (fuel k : ℕ) (node : String) (rest : List String) (frames : List (String × List String))
      (pre path on_path : List String)
      → IsAt node rest pre path on_path
      → length names ≤ k + length on_path
      → k * suc (length names) + length rest < fuel
      → (cycle : List String) × (walk deps settled fuel ((node, rest) ∷ frames) path on_path []
          ≡ found cycle)
        × IsCycle deps cycle
  walk-IsCycle zero k node rest frames pre path on_path a enough h = absurd (omega arith)
  walk-IsCycle (suc fuel) k node [] frames pre path on_path a enough h =
      absurd (not_exhausted node pre path on_path a)
  walk-IsCycle (suc fuel) k node (d ∷ rest) frames pre path on_path a enough h =
      elim (Bool-cases (contains d settled)) [
        | inl old ↦
            let (c, e, is_cycle) =
              walk-IsCycle fuel k node rest frames pre path on_path (pass_settled a old) enough
                (omega arith) in
            (c, walk_skip fuel node d rest frames path on_path old ∙ e, is_cycle)
        | inr new ↦ elim (Bool-cases (contains d on_path)) [
          | inl back ↦ (
            from_first d path ++ d ∷ [],
            walk_back fuel node d rest frames path on_path new back,
            rw a.ends (
                IsCycle-from_first deps pre node d a.chain (a.needed d (In-cons_self d rest))
                  (rw a.ends at (rw a.same at back))),
          )
          | inr fresh ↦
              let at_d = pass_down a new in
              let room =
                length-le_of_In (d ∷ on_path) names (fresh, a.distinct_path)
                  (λ x m. elim (In-cons_cases x d on_path m) [
                    | inl e ↦ subst (λ z. In z names) e at_d.is_name
                    | inr old ↦ a.on_path_names x old
                  ]) in
              let pos : 0 < k = omega arith in
              let (c, e, is_cycle) =
                walk-IsCycle fuel (k - 1) d (sorted (neighbours deps d)) ((node, rest) ∷ frames)
                  (pre ++ node ∷ []) (path ++ d ∷ []) (add d on_path) at_d
                  (omega (arith, length-add d on_path fresh))
                  (omega (
                    arith,
                    spend_one k (suc (length names)) pos,
                    length-neighbours-le d,
                    length-sorted (neighbours deps d),
                  )) in
              (c, walk_down fuel node d rest frames path on_path new fresh ∙ e, is_cycle)
        ]
      ]

  IsAt-root :
      (r : String)
      → In r names
      → contains r settled ≡ false
      → IsAt r (sorted (neighbours deps r)) [] (r ∷ []) (r ∷ [])
  IsAt-root r m new = record {
    is_name = m;
    unsettled = new;
    left = λ x k. inl (rw contains-sorted k);
    needed = λ x k. rw contains-sorted at k;
    ends = refl;
    chain = tt;
    distinct_path = (unfold contains in refl, tt);
    on_path_names = λ x k. elim (In-cons_cases x r [] k) [
      | inl e ↦ subst (λ z. In z names) e m
      | inr none_left ↦ absurd (unfold contains in cc)
    ];
    same = λ x. refl;
  }

  -- The walk starts at a name that is left over, and finds a cycle.
  search_roots-IsCycle :
      (fuel : ℕ) (roots : List String)
      → suc (length names) * suc (length names) ≤ fuel
      → ((x : String) → In x roots → In x names)
      → (root : String) → In root roots
      → contains root settled ≡ false
      → (cycle : List String) × (search_roots deps settled fuel roots [] ≡ ok cycle)
        × IsCycle deps cycle
  unfolding search_roots contains
  search_roots-IsCycle fuel [] enough h root m new = cc
  search_roots-IsCycle fuel (r ∷ roots) enough h root m new =
      elim (Bool-cases (contains r settled)) [
        | inl old ↦
            let later : In root roots = elim (In-cons_cases root r roots m) [
              | inl e ↦ let same = ap (λ z. contains z settled) e in absurd (cc)
              | inr there ↦ there
            ] in
            rw old (
              search_roots-IsCycle fuel roots enough (λ x k. h x (In-In_cons x r roots k)) root
                later new)
        | inr fresh ↦
            let (c, e, is_cycle) =
              walk-IsCycle fuel (length names) r (sorted (neighbours deps r)) [] [] (r ∷ [])
                (r ∷ []) (IsAt-root r (h r (In-cons_self r roots)) fresh) (omega arith)
                (omega
                  (arith, length-neighbours-le r, length-sorted (neighbours deps r), enough)) in
            (c, rw (fresh, e), is_cycle)
      ]

  -- Kahn's levels and the walk agree: where a name is left over, a cycle is reported.
  pub find_cycle-IsCycle :
      (root : String)
      → In root names
      → contains root settled ≡ false
      → (cycle : List String) × (find_cycle deps settled names ≡ ok cycle) × IsCycle deps cycle
  unfolding find_cycle
  find_cycle-IsCycle root m new =
      search_roots-IsCycle (suc (length names) * suc (length names)) names (omega arith) (λ x k. k)
        root m new
