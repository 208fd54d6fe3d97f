-- ===== src/Orchestrator/Executor.antt =====
-- testrange/orchestrator/executor.py: the walks over the waves of a build graph. `Context` is what the
-- executor reads and writes of testrange/orchestrator/context.py, and `X` all the rest of it, which the
-- node hooks share. `parallel_map` is its inline path, which a single worker takes.
pub mod Walks
pub mod Stamps
use test_range.Prelude.{
  ℕ, String, Bool, true, false, ◌&&◌, Option, none, some, List, [], ◌∷◌, map, is_nil, Dict, get,
  put, values, add, sorted, Result, ok, err, ◌==◌, if◌then◌else◌,
}
use test_range.Networks.Spelling.{is_char}
use test_range.Errors.{Error, raise, key_error}
use test_range.Graph.Node.{Node, Hook}
use test_range.Graph.Build.{BuildGraph, topological_order}
use test_range.Graph.Keys.{compute_cache_keys}
use test_range.State.Schema.{phase_build, phase_run}
use test_range.State.Store.{set_phase, mark_node_materialized, mark_node_realized}
use test_range.State.Store.Effects.{Disk, Op}
use test_range.Orchestrator.Dashboard.{DashboardState, set_vm_stage, failed}

-- A probe is the name of its machine and whether its disks are cached.
pub record Context (X : Type 0) : Type 0 where
  pub disk : Disk
  pub dashboard : DashboardState
  pub clock : ℕ
  pub now : String
  pub node_keys : Dict String
  pub vm_probes : Dict (String × Bool)
  pub materialized_nodes : List String
  pub realized_nodes : List String
  pub rest : X

abbrev pub Walk : Type 0 → Type 0
Walk X = Hook (Context X) Unit

-- ctx.node_keys.update(keys)
unfoldable pub update_keys : Dict String → Dict String → Dict String
update_keys d [] = d
update_keys d ((n, k) ∷ keys) = update_keys (put d n k) keys

-- sorted(p.vm.name for p in ... if p.cached_paths is None)
unfoldable pub missed : List (String × Bool) → List String
missed [] = []
missed ((vm, is_cached) ∷ probes) =
    let others = missed probes in if is_cached then others else vm ∷ others

-- node.name.removeprefix("vm:")
unfoldable pub vm_plan_name : String → String
unfolding is_char
vm_plan_name (String.◌∷◌ v (String.◌∷◌ m (String.◌∷◌ c s))) =
    if is_char b'v' v && is_char b'm' m && is_char b':' c
    then s
    else String.◌∷◌ v (String.◌∷◌ m (String.◌∷◌ c s))
vm_plan_name s = s

module _ {X : Type 0} where
  abbrev pub done : Walk X
  done c = (ok tt, c)

  abbrev pub then_run : Result Error Unit × Context X → Walk X → Result Error Unit × Context X
  then_run (ok _, c) next = next c
  then_run (err e, c) next = (err e, c)

  infixl 5 ◌>>◌
  abbrev pub ◌>>◌ : Walk X → Walk X → Walk X
  (first >> next) c = then_run (first c) next

  abbrev pub on_store : Op Unit → Walk X
  on_store op c = let (r, d) = op c.disk in (r, record c { disk = d })

  -- The loop that logs each key: `KeyError` for a node without one.
  unfoldable pub check_keys : Dict String → List (Node (Context X)) → Result Error Unit
  check_keys keys [] = ok tt
  check_keys keys (n ∷ ns) =
      let rest = check_keys keys ns in
      elim (get keys n.name) [ none ↦ raise key_error (n.name ∷ []) | some k ↦ rest ]

  unfoldable pub keep_keys :
      BuildGraph (Context X)
      → Result Error (Dict String) × Context X
      → Result Error Unit × Context X
  unfolding update_keys check_keys
  keep_keys g (err e, c) = (err e, c)
  keep_keys g (ok keys, c) =
      let all = update_keys c.node_keys keys in
      (check_keys all (topological_order g), record c { node_keys = all })

  unfoldable pub prepare_keys : BuildGraph (Context X) → Walk X
  prepare_keys g c = if is_nil c.node_keys then keep_keys g (compute_cache_keys g c) else (ok tt, c)

  unfoldable pub misses_behind :
      Result Error Unit × Context X → Result Error (List String) × Context X
  misses_behind (err e, c) = (err e, c)
  misses_behind (ok _, c) = (ok (sorted (missed (values c.vm_probes))), c)

  unfoldable pub probe_misses : BuildGraph (Context X) → Hook (Context X) (List String)
  probe_misses g c = misses_behind (prepare_keys g c)

  -- except Exception: ctx.dashboard.set_vm_stage(...); `message` is `str`.
  unfoldable pub blame : (Error → String) → Node (Context X) → Error → Context X → Context X
  blame message n e c =
      if n.kind == "vm"
      then record c {
        dashboard =
            set_vm_stage c.clock (vm_plan_name n.name) failed (some (message e)) c.dashboard;
      }
      else c

  unfoldable pub blame_failure :
      (Error → String)
      → Node (Context X)
      → Result Error Unit × Context X
      → Result Error Unit × Context X
  blame_failure message n (ok _, c) = (ok tt, c)
  blame_failure message n (err e, c) = (err e, blame message n e c)

  abbrev pub stamp_materialized : Node (Context X) → Walk X
  stamp_materialized n c = on_store (mark_node_materialized c.now n.name) c

  abbrev pub stamp_realized : Node (Context X) → Walk X
  stamp_realized n c = on_store (mark_node_realized c.now n.name) c

  abbrev pub add_materialized : Node (Context X) → Walk X
  add_materialized n c = (ok tt, record c { materialized_nodes = add n.name c.materialized_nodes })

  abbrev pub add_realized : Node (Context X) → Walk X
  add_realized n c = (ok tt, record c { realized_nodes = add n.name c.realized_nodes })

  module _ (message : Error → String) where
    -- _run_hook(ctx, node, "materialize")
    unfoldable pub run_materialize : Node (Context X) → Walk X
    run_materialize n =
        (λ c. blame_failure message n (n.materialize c))
        >> stamp_materialized n
        >> add_materialized n

    -- _run_hook(ctx, node, "realize")
    unfoldable pub run_realize : Node (Context X) → Walk X
    run_realize n =
        (λ c. blame_failure message n (n.realize c)) >> stamp_realized n >> add_realized n

  -- [fn(item) for item in work]
  unfoldable pub map_inline : (Node (Context X) → Walk X) → List (Node (Context X)) → Walk X
  map_inline fn [] = done
  map_inline fn (n ∷ ns) = fn n >> map_inline fn ns

  unfoldable pub walk_waves : (Node (Context X) → Walk X) → List (List (Node (Context X))) → Walk X
  walk_waves fn [] = done
  walk_waves fn (w ∷ ws) = map_inline fn w >> walk_waves fn ws

  -- try: ... finally: cleanup; an exception of the `finally` part replaces the other one.
  abbrev pub finally_run : Result Error Unit × Context X → Walk X → Result Error Unit × Context X
  finally_run (ok _, c) cleanup = cleanup c
  finally_run (err e, c) cleanup = then_run (cleanup c) (λ c'. (err e, c'))

  module _ (message : Error → String) (g : BuildGraph (Context X)) where
    unfoldable pub materialize_waves : Walk X → Walk X
    materialize_waves teardown_build_infra c =
        finally_run (walk_waves (run_materialize message) g.content_waves c) teardown_build_infra

    unfoldable pub materialize_graph : Walk X → Walk X
    materialize_graph teardown_build_infra =
        on_store (set_phase phase_build) >> prepare_keys g >> materialize_waves teardown_build_infra

    unfoldable pub realize_graph : Walk X
    realize_graph = on_store (set_phase phase_run) >> walk_waves (run_realize message) g.waves
