-- ===== src/Orchestrator/Executor/Walks.antt =====
-- The walks of testrange/orchestrator/executor.py, with one worker.
use test_range.Prelude.{
  String, List, [], ◌∷◌, ◌++◌, concat, ◌≡◌, refl, ap, sym, ◌∙◌, Result, ok, err,
}
use test_range.Errors.{Error}
use test_range.Graph.Node.{Node}
use test_range.Graph.Build.{BuildGraph, topological_order}
use test_range.State.Schema.{phase_run}
use test_range.State.Store.{set_phase}
use test_range.Orchestrator.Executor.{
  Context, Walk, done, then_run, on_store, map_inline, walk_waves, run_realize, realize_graph,
}

module _ {X : Type 0} where
  then_run_assoc :
      (p : Result Error Unit × Context X) (f g : Walk X)
      → then_run (then_run p f) g ≡ then_run p (λ c. then_run (f c) g)
  then_run_assoc (ok _, c) f g = refl
  then_run_assoc (err e, c) f g = refl

  then_run_done : (p : Result Error Unit × Context X) → then_run p done ≡ p
  then_run_done (ok tt, c) = refl
  then_run_done (err e, c) = refl

  then_world :
      (p : Result Error Unit × Context X) (e : Error) → (then_run p (λ c. (err e, c))).1 ≡ p.1
  then_world (ok _, c) e = refl
  then_world (err f, c) e = refl

  then_failed :
      (p : Result Error Unit × Context X) (e : Error)
      → p.0 ≡ ok tt
      → (then_run p (λ c. (err e, c))).0 ≡ err e
  then_failed (ok _, c) e h = refl
  then_failed (err f, c) e h = cc

  module _ (fn : Node (Context X) → Walk X) where
    map_inline-append :
        (xs ys : List (Node (Context X))) (c : Context X)
        → map_inline fn (xs ++ ys) c ≡ then_run (map_inline fn xs c) (map_inline fn ys)
    unfolding map_inline
    map_inline-append [] ys c = refl
    map_inline-append (x ∷ xs) ys c =
        ap (then_run (fn x c)) (λ i c'. map_inline-append xs ys c' i)
        ∙ sym (then_run_assoc (fn x c) (map_inline fn xs) (map_inline fn ys))

    -- Wave by wave, one worker does what one pass over all the nodes does.
    walk_waves-concat :
        (ws : List (List (Node (Context X)))) (c : Context X)
        → walk_waves fn ws c ≡ map_inline fn (concat ws) c
    unfolding walk_waves map_inline
    walk_waves-concat [] c = refl
    walk_waves-concat (w ∷ ws) c =
        ap (then_run (map_inline fn w c)) (λ i c'. walk_waves-concat ws c' i)
        ∙ sym (map_inline-append w (concat ws) c)

  module _ (message : Error → String) (g : BuildGraph (Context X)) where
    -- With one worker `realize_graph` sets the phase and then runs the nodes one by one in the
    -- topological order of the graph, up to the first failure.
    pub realize_graph-topological_order :
        (c : Context X)
        → realize_graph message g c
          ≡ then_run
              (on_store (set_phase phase_run) c)
              (map_inline (run_realize message) (topological_order g))
    unfolding realize_graph topological_order
    realize_graph-topological_order c =
        ap (then_run (on_store (set_phase phase_run) c))
          (λ i c'. walk_waves-concat (run_realize message) g.waves c' i)
