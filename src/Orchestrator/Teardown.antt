-- ===== src/Orchestrator/Teardown.antt =====
-- testrange/orchestrator/teardown.py. Log lines are left out, but for the two counts of the summary.
pub mod Lifo
use test_range.Prelude.{
  ℕ, ◌+◌, String, List, [], ◌∷◌, reverse, is_nil, Result, ok, err, if◌then◌else◌,
}
use test_range.Errors.{Error}
use test_range.State.Schema.{Resource, State, phase_cleanup, phase_done}
use test_range.State.Store.{read, set_phase, forget, release, remove}
use test_range.Orchestrator.Backend.{Destroy, World, Run, on_disk, on_backend, ◌>>=◌, ◌>>◌}

module _ {B : Type 0} (destroy : Destroy B) where
  -- The body of the `try` in the loop.
  unfoldable pub destroy_and_forget : Resource → Run B Unit
  destroy_and_forget r = do on_backend destroy r; on_disk (forget r.backend_name)

  pub record Tally : Type 0 where
    pub world : World B
    pub done : ℕ
    pub failed : ℕ

  unfoldable pub count : Tally → Result Error Unit × World B → Tally
  count t (ok _, w) = record { world = w; done = t.done + 1; failed = t.failed }
  count t (err _, w) = record { world = w; done = t.done; failed = t.failed + 1 }

  -- for idx, r in enumerate(resources, start=1): ...
  unfoldable pub destroy_each : List Resource → Tally → Tally
  unfolding count
  destroy_each [] t = t
  destroy_each (r ∷ rs) t = destroy_each rs (count t (destroy_and_forget r t.world))

  -- The bookkeeping behind the loop: `remaining` is empty too if the state cannot be read.
  remaining : Result Error State → List Resource
  remaining (ok s) = s.resources
  remaining (err e) = []

  -- try: set_phase(PHASE_DONE); release(); remove()
  unfoldable pub finalize : Run B Unit
  finalize = do on_disk (set_phase phase_done); on_disk release; on_disk remove

  pub finish : Tally → Tally
  unfolding remaining finalize
  finish t =
      if is_nil (remaining (read t.world.disk).0)
      then record t { world = (finalize t.world).1 }
      else t

  -- The part behind the first read of the state, which ends the teardown if it raises.
  teardown_read : World B → Result Error State → Tally
  unfolding destroy_each finish
  teardown_read w (err e) = record { world = w; done = 0; failed = 0 }
  teardown_read w (ok s) =
      finish (destroy_each (reverse s.resources) (record { world = w; done = 0; failed = 0 }))

  unfoldable pub teardown : World B → Tally
  unfolding teardown_read
  teardown w = let w' = (on_disk (set_phase phase_cleanup) w).1 in teardown_read w' (read w'.disk).0
