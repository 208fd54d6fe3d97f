-- ===== src/Orchestrator/Cleanup/Replay.antt =====
-- testrange/state/cleanup.py, `cleanup_run` on a ledger with resources, beside the teardown of
-- testrange/orchestrator/teardown.py.
use test_range.Prelude.{
  String, Bool, true, false, List, [], ◌∷◌, ◌≡◌, refl, ap, sym, subst, ◌∙◌, inl, inr, none, is_nil,
  reverse, Bool-cases, Result, ok, err,
}
use test_range.Errors.{Error}
use test_range.State.Schema.{Resource, State, phase_cleanup, phase_done}
use test_range.State.Store.Effects.{Disk}
use test_range.State.Store.Ledger.{Holds, written, read-Holds, set_phase-Holds}
use test_range.State.Store.Locking.{remove-cleared}
use test_range.Orchestrator.Backend.{Destroy, World, and_then}
use test_range.Orchestrator.Teardown.{Tally, count, destroy_each, destroy_and_forget}
use test_range.Orchestrator.Teardown.Lifo.{reclaim, destroy_each-reclaim}
use test_range.Orchestrator.Cleanup.Runs.{probed, cleanup_run-dispatch}
use test_range.Orchestrator.Cleanup.{
  Driver, Drivers, CleanupResult, Progress, disconnected, finally_disconnect, note_outcome,
  replay_each, replay_from, replay, close_run, connect_driver, conclude, cleanup_resources,
  cleanup_run, dispatch,
}

-- How a cleanup ends: with the resources that are left, or else with a ledger in phase "done", or with
-- no ledger.
pub data Closed (d : Disk) (s : State) : Type 0 where
  kept : is_nil s.resources ≡ false → Holds d s → Closed d s
  finished : is_nil s.resources ≡ true → Holds d (record s { phase = phase_done }) → Closed d s
  removed : is_nil s.resources ≡ true → d.state_json ≡ none → Closed d s

-- How a cleanup that is connected ends, by whether disconnecting raises.
pub data Concluded (left : Result Error Unit) (result : Result Error CleanupResult) (d : Disk)
    (s : State) : Type 0 where
  ended : left ≡ ok tt → Closed d s → Concluded left result d s
  broken_off : (e : Error) → left ≡ err e → result ≡ err e → Holds d s → Concluded left result d s

module _ {B : Type 0} where
  note_outcome-world :
      (r : Resource) (p : Progress B) (q : Result Error Unit × World B)
      → (note_outcome r p q).world ≡ q.1
  unfolding note_outcome
  note_outcome-world r p (ok _, w) = refl
  note_outcome-world r p (err e, w) = refl

  count-world :
      (destroy : Destroy B) (t : Tally destroy) (q : Result Error Unit × World B)
      → (count destroy t q).world ≡ q.1
  unfolding count
  count-world destroy t (ok _, w) = refl
  count-world destroy t (err e, w) = refl

  -- From the same world, the loop of `cleanup_run` leaves the ledger and the backend as the loop of
  -- `teardown` does.
  pub replay_each-destroy_each :
      (destroy : Destroy B) (rs : List Resource) (p : Progress B) (t : Tally destroy)
      → p.world ≡ t.world
      → (replay_each destroy rs p).world ≡ (destroy_each destroy rs t).world
  unfolding replay_each destroy_each destroy_and_forget
  replay_each-destroy_each destroy [] p t same = same
  replay_each-destroy_each destroy (r ∷ rs) p t same =
      replay_each-destroy_each destroy rs (note_outcome r p (destroy_and_forget destroy r p.world))
        (count destroy t (destroy_and_forget destroy r t.world))
        (note_outcome-world r p (destroy_and_forget destroy r p.world)
          ∙ ap (λ w. (destroy_and_forget destroy r w).1) same
          ∙ sym (count-world destroy t (destroy_and_forget destroy r t.world)))

  close_run-Closed :
      (clean : Bool) (w : World B) (s : State)
      → Holds w.disk s
      → ((close_run (is_nil s.resources) clean w).0 ≡ ok tt)
        × Closed (close_run (is_nil s.resources) clean w).1.disk s
        × ((close_run (is_nil s.resources) clean w).1.backend ≡ w.backend)
  unfolding close_run
  close_run-Closed clean w s h = elim (Bool-cases (is_nil s.resources)) [
    | inr left ↦ rw left (refl, kept left h, refl)
    | inl empty ↦ elim (Bool-cases clean) [
      | inl all ↦
          rw (empty, all, set_phase-Holds phase_done w.disk s h, remove-cleared _)
            (refl, removed empty refl, refl)
      | inr some_failed ↦
          rw (empty, some_failed, set_phase-Holds phase_done w.disk s h)
            (refl, finished empty (record { file = refl; current = h.current }), refl)
    ]
  ]

  conclude-Closed :
      (drivers : Drivers B) (run_id : String) (p : Progress B) (w : World B) (s : State)
      → Holds w.disk s
      → Closed (conclude drivers run_id p w).1.disk s
        × ((conclude drivers run_id p w).1.backend ≡ w.backend)
        × ((conclude drivers run_id p w).0
            ≡ ok (record {
              run_id = run_id;
              destroyed = p.destroyed;
              skipped = [];
              errors = p.errors;
            }))
  unfolding conclude
  conclude-Closed drivers run_id p w s h =
      let (ran, closed, same) = close_run-Closed (is_nil p.errors) w s h in
      rw (read-Holds w.disk s h, ran) (closed, same, refl)

  -- The end of a run behind a disconnection that gave `left` and the backend `b`.
  disconnected-Concluded :
      (drivers : Drivers B) (run_id : String) (left : Result Error Unit) (b : B) (p : Progress B)
      (s : State)
      → Holds p.world.disk s
      → let q =
          and_then
            (disconnected (ok p) left)
            (conclude drivers run_id)
            (record p.world { backend = b }) in
        Concluded left q.0 q.1.disk s × (q.1.backend ≡ b)
  disconnected-Concluded drivers run_id (ok tt) b p s h =
      let (ends, still, _) =
        conclude-Closed drivers run_id p (record p.world { backend = b }) s
          (record { file = h.file; current = h.current }) in
      (ended refl ends, still)
  disconnected-Concluded drivers run_id (err e) b p s h =
      (broken_off e refl refl (record { file = h.file; current = h.current }), refl)

  replay-reclaim :
      (driver : Driver B) (rs : List Resource) (w : World B) (s : State)
      → Holds w.disk s
      → let spec = reclaim driver.destroy rs (record s { phase = phase_cleanup }) w.backend in
        (p : Progress B) × (replay driver rs w ≡ finally_disconnect driver (ok p) p.world)
        × Holds p.world.disk spec.0
        × (p.world.backend ≡ spec.1)
  unfolding replay replay_from
  replay-reclaim driver rs w s h =
      let s' : State = record s { phase = phase_cleanup } in
      let w' : World B = record w { disk = written s' w.disk } in
      let held : Holds w'.disk s' = record { file = refl; current = h.current } in
      let p : Progress B =
        replay_each driver.destroy rs (record { world = w'; destroyed = []; errors = [] }) in
      let t : Tally driver.destroy = record { world = w'; done = 0; failed = 0 } in
      let same : p.world ≡ (destroy_each driver.destroy rs t).world =
        replay_each-destroy_each driver.destroy rs
          (record { world = w'; destroyed = []; errors = [] }) t refl in
      let (after, moved) = destroy_each-reclaim driver.destroy rs t s' held in
      (
        p,
        ap (λ q. replay_from driver rs (q.0, record w { disk = q.1 }))
            (set_phase-Holds phase_cleanup w.disk s h),
        subst (λ z. Holds z.disk (reclaim driver.destroy rs s' w.backend).0) (sym same) after,
        ap (λ z. z.backend) same ∙ moved,
      )

  module _ (drivers : Drivers B) (run_id : String) (driver : Driver B) where
    cleanup_resources-Closed :
        (w : World B) (s : State)
        → Holds w.disk s
        → drivers s.driver_class s.driver_uri ≡ ok driver
        → (driver.connect w.backend).0 ≡ ok tt
        → let spec =
            reclaim driver.destroy
              (reverse s.resources)
              (record s { phase = phase_cleanup })
              (driver.connect w.backend).1 in
          let (result, w') = cleanup_resources drivers run_id s w in
          Concluded (driver.disconnect spec.1).0 result w'.disk spec.0
          × (w'.backend ≡ (driver.disconnect spec.1).1)
    unfolding cleanup_resources connect_driver finally_disconnect
    cleanup_resources-Closed w s h found connected =
        let w' : World B = record w { backend = (driver.connect w.backend).1 } in
        let (p, run, held, moved) =
          replay-reclaim driver (reverse s.resources) w' s
            (record { file = h.file; current = h.current }) in
        rw (found, connected, run, sym moved)
          (disconnected-Concluded drivers run_id (driver.disconnect p.world.backend).0
            (driver.disconnect p.world.backend).1 p _ held)

    -- On a run that no process owns, with resources in its ledger and a driver that connects,
    -- `cleanup_run` destroys the resources on the backend in the reverse of their order and then
    -- disconnects. After each `destroy` that returns, and only then, the ledger loses the entries of
    -- that name. If disconnecting raises, so does `cleanup_run`, with the same exception, and the ledger
    -- keeps the entries that are left. If it does not, then with no entry left the run ends in phase "done"
    -- or without a state file, and otherwise the ledger keeps the entries that are left.
    pub cleanup_run-Closed :
        (w : World B) (s : State)
        → Holds w.disk s
        → w.disk.locked_elsewhere ≡ false
        → w.disk.lock_held ≡ false
        → is_nil s.resources ≡ false
        → drivers s.driver_class s.driver_uri ≡ ok driver
        → (driver.connect w.backend).0 ≡ ok tt
        → let spec =
            reclaim driver.destroy
              (reverse s.resources)
              (record s { phase = phase_cleanup })
              (driver.connect w.backend).1 in
          let (result, w') = cleanup_run drivers run_id false w in
          Concluded (driver.disconnect spec.1).0 result w'.disk spec.0
          × (w'.backend ≡ (driver.disconnect spec.1).1)
    unfolding dispatch
    cleanup_run-Closed w s h dead mine recorded found connected =
        rw (cleanup_run-dispatch drivers run_id w s h false dead mine, recorded)
          (cleanup_resources-Closed (probed w) s (record { file = h.file; current = h.current })
            found connected)
