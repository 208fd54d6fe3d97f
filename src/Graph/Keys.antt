-- ===== src/Graph/Keys.antt =====
-- testrange/graph/keys.py: the walk that computes the cache keys in topological order.
use test_range.Prelude.{String, none, some, List, [], ◌∷◌, Dict, get, put, Result, ok, err, ◌>>=◌}
use test_range.Errors.{Error, raise, key_error}
use test_range.Graph.Node.{Node, Hook}
use test_range.Graph.Build.{BuildGraph, content_dependencies_of, topological_order}

-- The body of the loop, behind the keys of the dependencies.
unfoldable pub store_key : Dict String → String → Result Error String → Result Error (Dict String)
store_key keys name key = do k ← key; ok (put keys name k)

module _ {Ctx : Type 0} where
  -- {dep.name: keys[dep.name] for dep in deps}
  unfoldable pub keys_of : Dict String → List (Node Ctx) → Result Error (Dict String)
  keys_of keys [] = ok []
  keys_of keys (dep ∷ deps) =
      let rest = keys_of keys deps in
      elim (get keys dep.name) [
        | none ↦ raise key_error (dep.name ∷ [])
        | some k ↦ do others ← rest; ok (put others dep.name k)
      ]

  -- for node in order: ...
  unfoldable pub walk_keys : BuildGraph Ctx → Dict String → List (Node Ctx) → Hook Ctx (Dict String)
  walk_keys g keys [] ctx = (ok keys, ctx)
  walk_keys g keys (node ∷ order) ctx =
      elim (do deps ← content_dependencies_of g node.name; keys_of keys deps) [
        | err e ↦ (err e, ctx)
        | ok dependency_keys ↦
            let (key, ctx') = node.cache_key dependency_keys ctx in
            elim (store_key keys node.name key) [
              | err e ↦ (err e, ctx')
              | ok keys' ↦ walk_keys g keys' order ctx'
            ]
      ]

  unfoldable pub compute_cache_keys : BuildGraph Ctx → Hook Ctx (Dict String)
  compute_cache_keys g = walk_keys g [] (topological_order g)
