-- ===== src/Graph/Edge.antt =====
-- testrange/graph/edge.py
use test_range.Prelude.{String, Bool, true, false, [], ◌==◌, Result, ok, raise_if, ◌>>◌}
use test_range.Errors.{Error, value_error}

pub data EdgeKind : Type 0 where
  ordering : EdgeKind

pub data Cacheability : Type 0 where
  ordering bake replay : Cacheability

pub record Edge : Type 0 where
  pub dependent : String
  pub dependency : String
  pub kind : EdgeKind
  pub cacheability : Cacheability

-- `Edge(...)` with `__post_init__`
unfoldable pub make_edge : String → String → EdgeKind → Cacheability → Result Error Edge
make_edge dependent dependency kind cacheability = do
  raise_if (dependent == "") (record { class = value_error; about = [] })
  raise_if (dependency == "") (record { class = value_error; about = [] })
  ok (record {
    dependent = dependent;
    dependency = dependency;
    kind = kind;
    cacheability = cacheability;
  })

is_cacheable : Cacheability → Bool
is_cacheable Cacheability.ordering = false
is_cacheable bake = true
is_cacheable replay = true

-- Edge.affects_cache_key
unfoldable pub affects_cache_key : Edge → Bool
unfolding is_cacheable
affects_cache_key e = is_cacheable e.cacheability
