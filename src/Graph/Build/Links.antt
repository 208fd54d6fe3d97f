-- ===== src/Graph/Build/Links.antt =====
-- The adjacency sets that construction builds from the edges.
use test_range.Prelude.{
  String, ◌≡◌, refl, sym, ap, subst, ◌∙◌, inl, inr, Bool, false, ◌&&◌, ◌||◌, List, [], ◌∷◌, ◌++◌,
  ◌==◌, eq_iff, arith, contains, contains-add, Distinct, Distinct-add, In, Bool-cases,
  if◌then◌else◌, get, keys, any_of, ok, >>-eq-ok, append-nil, append_assoc,
}
use test_range.Graph.Edge.{Edge, affects_cache_key}
use test_range.Graph.Waves.{Adjacency, neighbours}
use test_range.Graph.Build.{no_links, link, Links, link_edge, check_edge, link_edges, link_content}

-- An edge from `n` to `d` is in the list.
abbrev pub has_edge : List Edge → String → String → Bool
has_edge edges n d = any_of (λ e. e.dependent == n && e.dependency == d) edges

-- The edges whose cacheability folds the dependency into the dependent's key.
unfoldable pub cacheable : List Edge → List Edge
cacheable [] = []
cacheable (e ∷ edges) = let rest = cacheable edges in if affects_cache_key e then e ∷ rest else rest

keys-no_links : (names : List String) → keys (no_links names) ≡ names
unfolding keys no_links
keys-no_links [] = refl
keys-no_links (n ∷ names) = ap (λ l. n ∷ l) (keys-no_links names)

neighbours-no_links : (names : List String) (n : String) → neighbours (no_links names) n ≡ []
unfolding neighbours no_links get
neighbours-no_links [] n = refl
neighbours-no_links (m ∷ names) n = ground (arith, neighbours-no_links names n)

keys-link : (deps : Adjacency) (k x : String) → keys (link deps k x) ≡ keys deps
unfolding keys link
keys-link [] k x = refl
keys-link ((j, s) ∷ deps) k x = ground (arith, keys-link deps k x)

-- Linking adds one name at one key.
contains-link :
    (deps : Adjacency) (k x n d : String)
    → In k (keys deps)
    → contains d (neighbours (link deps k x) n)
      ≡ (k == n && x == d || contains d (neighbours deps n))
unfolding neighbours link get keys contains
contains-link [] k x n d m = cc
contains-link ((j, s) ∷ deps) k x n d m = elim (Bool-cases (j == k)) [
  | inl here ↦ rw here (ground (arith, eq_iff j k, eq_iff j n, eq_iff k n, contains-add d x s))
  | inr other ↦ rw other (
      ground
        (arith, eq_iff j k, eq_iff j n, eq_iff k n, contains-link deps k x n d (rw other at m)))
]

abbrev pub AllDistinct : Adjacency → Type 0
AllDistinct [] = Unit
AllDistinct ((j, s) ∷ deps) = Distinct s × AllDistinct deps

AllDistinct-no_links : (names : List String) → AllDistinct (no_links names)
unfolding no_links
AllDistinct-no_links [] = tt
AllDistinct-no_links (n ∷ names) = (tt, AllDistinct-no_links names)

AllDistinct-link :
    (deps : Adjacency) (k x : String) → AllDistinct deps → AllDistinct (link deps k x)
unfolding link
AllDistinct-link [] k x h = tt
AllDistinct-link ((j, s) ∷ deps) k x h = elim (Bool-cases (j == k)) [
  | inl here ↦ rw here (Distinct-add x s h.0, h.1)
  | inr other ↦ rw other (h.0, AllDistinct-link deps k x h.1)
]

neighbours_cons :
    (j n : String) (s : List String) (deps : Adjacency)
    → neighbours ((j, s) ∷ deps) n ≡ (if j == n then s else neighbours deps n)
unfolding neighbours get
neighbours_cons j n s deps = ground arith

pub Distinct-neighbours :
    (deps : Adjacency) (n : String) → AllDistinct deps → Distinct (neighbours deps n)
Distinct-neighbours [] n h = unfold neighbours get in tt
Distinct-neighbours ((j, s) ∷ deps) n h = elim (Bool-cases (j == n)) [
  | inl here ↦ rw (neighbours_cons j n s deps, here) h.0
  | inr other ↦ rw (neighbours_cons j n s deps, other) (Distinct-neighbours deps n h.1)
]

-- The two dictionaries hold the edges, in both directions.
pub record IsLinked (names : List String) (edges : List Edge) (links : Links) : Type 0 where
  pub deps_keys : keys links.0 ≡ names
  pub dependents_keys : keys links.1 ≡ names
  pub deps_edges : (n d : String) → contains d (neighbours links.0 n) ≡ has_edge edges n d
  pub dependents_edges : (n d : String) → contains n (neighbours links.1 d) ≡ has_edge edges n d
  pub deps_distinct : AllDistinct links.0

pub IsLinked-no_links : (names : List String) → IsLinked names [] (no_links names, no_links names)
IsLinked-no_links names = record {
  deps_keys = keys-no_links names;
  dependents_keys = keys-no_links names;
  deps_edges = λ n d. rw neighbours-no_links (unfold contains in refl);
  dependents_edges = λ n d. rw neighbours-no_links (unfold contains in refl);
  deps_distinct = AllDistinct-no_links names;
}

pub has_edge-snoc :
    (edges : List Edge) (e : Edge) (n d : String)
    → has_edge (edges ++ e ∷ []) n d ≡ (e.dependent == n && e.dependency == d || has_edge edges n d)
has_edge-snoc [] e n d = refl
has_edge-snoc (f ∷ edges) e n d = ground (arith, has_edge-snoc edges e n d)

-- Both ends of an edge are names of the graph, and differ.
pub record IsSound (names : List String) (e : Edge) : Type 0 where
  pub dependent_known : In e.dependent names
  pub dependency_known : In e.dependency names
  pub proper : (e.dependent == e.dependency) ≡ false

pub IsLinked-link_edge :
    (names : List String) (past : List Edge) (links : Links) (e : Edge)
    → IsLinked names past links
    → IsSound names e
    → IsLinked names (past ++ e ∷ []) (link_edge links e)
IsLinked-link_edge names past (deps, dependents) e l s = record {
  deps_keys = keys-link deps e.dependent e.dependency ∙ l.deps_keys;
  dependents_keys = keys-link dependents e.dependency e.dependent ∙ l.dependents_keys;
  deps_edges = λ n d.
      contains-link deps e.dependent e.dependency n d (rw l.deps_keys s.dependent_known)
      ∙ (rw l.deps_edges (sym (has_edge-snoc past e n d)));
  dependents_edges = λ n d.
      contains-link dependents e.dependency e.dependent d n
        (rw l.dependents_keys s.dependency_known)
      ∙ (rw l.dependents_edges (ground (arith, has_edge-snoc past e n d)));
  deps_distinct = AllDistinct-link deps e.dependent e.dependency l.deps_distinct;
}

pub check_edge-IsSound :
    (names : List String) (e : Edge) → check_edge names e ≡ ok tt → IsSound names e
unfolding check_edge
check_edge-IsSound names e h = record {
  dependent_known = ground arith;
  dependency_known = ground arith;
  proper = ground arith;
}

abbrev pub AllSound : List String → List Edge → Type 0
AllSound names [] = Unit
AllSound names (e ∷ edges) = IsSound names e × AllSound names edges

-- An accepted edge list is sound, and the dictionaries hold all of it.
pub link_edges-IsLinked :
    (names : List String) (past : List Edge) (links : Links) (edges : List Edge) {after : Links}
    → IsLinked names past links
    → link_edges names links edges ≡ ok after
    → IsLinked names (past ++ edges) after × AllSound names edges
unfolding link_edges
link_edges-IsLinked names past links [] {after} l h =
    let e : links ≡ after = cc in
    (subst (λ x. IsLinked names (past ++ []) x) e (rw append-nil l), tt)
link_edges-IsLinked names past links (e ∷ edges) {after} l h =
    let (checked, rest) = >>-eq-ok (check_edge names e) _ h in
    let sound = check_edge-IsSound names e checked in
    let (linked, sound_rest) =
      link_edges-IsLinked names (past ++ e ∷ []) (link_edge links e) edges
        (IsLinked-link_edge names past links e l sound) rest in
    (rw append_assoc at linked, (sound, sound_rest))

pub link_content-IsLinked :
    (names : List String) (past : List Edge) (links : Links) (edges : List Edge)
    → IsLinked names past links
    → AllSound names edges
    → IsLinked names (past ++ cacheable edges) (link_content links edges)
unfolding link_content cacheable
link_content-IsLinked names past links [] l s = rw append-nil l
link_content-IsLinked names past links (e ∷ edges) l s = elim (Bool-cases (affects_cache_key e)) [
  | inl bakes ↦ rw bakes (
      subst (λ x. IsLinked names x (link_content (link_edge links e) edges))
        (append_assoc past (e ∷ []) (cacheable edges))
        (link_content-IsLinked names (past ++ e ∷ []) (link_edge links e) edges
          (IsLinked-link_edge names past links e l s.0) s.1))
  | inr plain ↦ rw plain (link_content-IsLinked names past links edges l s.1)
]
