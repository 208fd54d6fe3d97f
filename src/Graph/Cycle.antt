-- ===== src/Graph/Cycle.antt =====
-- BuildGraph._find_cycle of testrange/graph/build_graph.py: a depth-first walk with an explicit
-- stack among the names that the waves left unsettled.
pub mod Found
use test_range.Prelude.{
  ℕ, zero, suc, ◌+◌, ◌*◌, String, ◌||◌, List, [], ◌∷◌, ◌++◌, ◌==◌, length, contains, add, sorted,
  if◌then◌else◌,
}
use test_range.Prelude.{Result, ok}
use test_range.Errors.{Error, assertion_error, raise}
use test_range.Graph.Waves.{Adjacency, neighbours}

-- How the walk from one root ends.
pub data Walk : Type 0 where
  found : List String → Walk
  finished : (black : List String) → Walk
  out_of_fuel : Walk

-- path[path.index(dep):]
unfoldable pub from_first : String → List String → List String
from_first x [] = []
from_first x (y ∷ ys) = if y == x then y ∷ ys else from_first x ys

-- path.pop()
unfoldable pub without_last : List String → List String
without_last [] = []
without_last (x ∷ []) = []
without_last (x ∷ y ∷ ys) = x ∷ without_last (y ∷ ys)

-- on_path.discard(node)
unfoldable pub discard : String → List String → List String
discard x [] = []
discard x (y ∷ ys) = if y == x then discard x ys else y ∷ discard x ys

module _ (deps : Adjacency) (settled : List String) where
  -- The `while frames` loop. A frame is a name with what is left of its iterator, and the last
  -- frame stands first. A round takes one name from the last frame's iterator, or pops the frame.
  unfoldable pub walk :
      ℕ → List (String × List String) → List String → List String → List String → Walk
  walk fuel [] path on_path black = finished black
  walk zero (frame ∷ frames) path on_path black = out_of_fuel
  walk (suc fuel) ((node, []) ∷ frames) path on_path black =
      walk fuel frames (without_last path) (discard node on_path) (add node black)
  walk (suc fuel) ((node, dep ∷ rest) ∷ frames) path on_path black =
      let skip = walk fuel ((node, rest) ∷ frames) path on_path black in
      let descend =
        walk fuel ((dep, sorted (neighbours deps dep)) ∷ (node, rest) ∷ frames) (path ++ dep ∷ [])
          (add dep on_path) black in
      if contains dep settled || contains dep black
      then skip
      else if contains dep on_path
      then found (from_first dep path ++ dep ∷ [])
      else descend

  -- The `for root in self._by_name` loop.
  unfoldable pub search_roots : ℕ → List String → List String → Result Error (List String)
  search_roots fuel [] black = raise assertion_error []
  search_roots fuel (root ∷ roots) black =
      let next = search_roots fuel roots in
      if contains root settled || contains root black
      then next black
      else elim (walk fuel ((root, sorted (neighbours deps root)) ∷ []) (root ∷ []) (root ∷ [])
          black) [
            | found cycle ↦ ok cycle
            | finished black' ↦ next black'
            | out_of_fuel ↦ raise assertion_error []
          ]

  -- `names` are the graph's names. The fuel is a round for each name and each of its dependencies,
  -- as often as there are names.
  unfoldable pub find_cycle : List String → Result Error (List String)
  find_cycle names = search_roots (suc (length names) * suc (length names)) names []
