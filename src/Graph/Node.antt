-- ===== src/Graph/Node.antt =====
-- testrange/graph/node.py. `Ctx` is the state that the executor hands to a node's hooks; a hook
-- changes it and may raise.
use test_range.Prelude.{String, Result, Dict}
use test_range.Errors.{Error}

abbrev pub Hook : Type 0 → Type 0 → Type 0
Hook Ctx A = Ctx → Result Error A × Ctx

-- One value for each subclass of `Node`.
pub record Node (Ctx : Type 0) : Type 0 where
  pub name : String
  pub kind : String
  pub cache_key : Dict String → Hook Ctx String
  pub materialize : Hook Ctx Unit
  pub realize : Hook Ctx Unit
