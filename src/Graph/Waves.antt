-- ===== src/Graph/Waves.antt =====
-- BuildGraph._compute_waves of testrange/graph/build_graph.py: Kahn's algorithm by levels, on the
-- adjacency sets of the names.
pub mod Invariant
pub mod Exact
use test_range.Prelude.{
  ℕ, zero, suc, String, Bool, not, ◌&&◌, Option, none, some, List, [], ◌∷◌, ◌++◌, Dict, get, is_nil,
  contains, add, subset, sorted, if◌then◌else◌,
}

abbrev pub Adjacency : Type 0
Adjacency = Dict (List String)

-- deps[name]; construction gives every node an entry, so Python's `KeyError` does not arise.
unfoldable pub neighbours : Adjacency → String → List String
neighbours deps name = elim (get deps name) [ none ↦ [] | some s ↦ s ]

-- done.update(current)
unfoldable pub update : List String → List String → List String
update done [] = done
update done (name ∷ current) = update (add name done) current

-- deps[dependent] <= done
unfoldable pub is_ready : Adjacency → List String → String → Bool
is_ready deps done name = subset (neighbours deps name) done

-- (name for name, d in deps.items() if not d)
unfoldable pub independent : Adjacency → List String
independent [] = []
independent ((name, d) ∷ deps) = if is_nil d then name ∷ independent deps else independent deps

module _ (deps dependents : Adjacency) where
  -- for dependent in dependents[finished]: if ...: nxt.add(dependent)
  unfoldable pub collect : List String → List String → List String → List String
  collect done nxt [] = nxt
  collect done nxt (name ∷ rest) =
      collect done
        (if not (contains name done) && is_ready deps done name then add name nxt else nxt) rest

  -- for finished in current: ...
  unfoldable pub next_wave : List String → List String → List String → List String
  unfolding collect
  next_wave done nxt [] = nxt
  next_wave done nxt (finished ∷ current) =
      next_wave done (collect done nxt (neighbours dependents finished)) current

  -- The `while current` loop: what is done at its end, and the waves. `none`: out of fuel.
  unfoldable pub levels :
      ℕ → List String → List (List String) → List String → Option (List String × List (List String))
  levels fuel done waves [] = some (done, waves)
  levels zero done waves (c ∷ cs) = none
  levels (suc fuel) done waves (c ∷ cs) =
      let after = update done (c ∷ cs) in
      levels fuel after (waves ++ (c ∷ cs) ∷ []) (sorted (next_wave after [] (c ∷ cs)))
