-- ===== src/Orchestrator/Teardown/Lifo.antt =====
-- The teardown against a specification on the ledger alone.
use test_range.Prelude.{
  ◌≡◌, refl, sym, ap, subst, ◌∙◌, inl, inr, true, false, List, [], ◌∷◌, reverse, is_nil, none,
  Result, ok, err, Bool-cases,
}
use test_range.Errors.{Error}
use test_range.State.Schema.{Resource, State, remove_resource, phase_cleanup, phase_done}
use test_range.State.Store.{forget, release}
use test_range.State.Store.Effects.{Disk}
use test_range.State.Store.Ledger.{Holds, read-Holds, written, forget-Holds, set_phase-Holds}
use test_range.State.Store.Locking.{remove-cleared}
use test_range.Orchestrator.Backend.{Destroy, World, on_disk, and_then}
use test_range.Orchestrator.Teardown.{
  destroy_and_forget, Tally, count, destroy_each, finalize, finish, remaining, teardown,
}

is_nil-eq : (rs : List Resource) → is_nil rs ≡ true → rs ≡ []
is_nil-eq [] h = refl
is_nil-eq (r ∷ rs) h = cc

module _ {B : Type 0} (destroy : Destroy B) where
  -- The ledger behind one `destroy` call with the given outcome.
  abbrev pub reclaimed : Resource → Result Error Unit → State → State
  reclaimed r (ok _) s = remove_resource s r.backend_name
  reclaimed r (err _) s = s

  -- The specification: each resource in turn is destroyed on the backend, and leaves the ledger
  -- exactly if that did not raise.
  pub reclaim : List Resource → State → B → State × B
  reclaim [] s b = (s, b)
  reclaim (r ∷ rs) s b =
      let (result, b') = destroy r.kind r.backend_name r.metadata b in
      reclaim rs (reclaimed r result s) b'

  settle :
      (r : Resource) (result : Result Error Unit) (w : World B) (s : State)
      → Holds w.disk s
      → let (result', w') = and_then result (λ _. on_disk (forget r.backend_name)) w in
        (result' ≡ result) × Holds w'.disk (reclaimed r result s) × (w'.backend ≡ w.backend)
  unfolding remove_resource
  settle r (ok _) w s h =
      rw (forget-Holds r.backend_name w.disk s h)
        (refl, record { file = refl; current = h.current }, refl)
  settle r (err e) w s h = (refl, h, refl)

  destroy_one :
      (r : Resource) (w : World B) (s : State)
      → Holds w.disk s
      → let (result, b) = destroy r.kind r.backend_name r.metadata w.backend in
        let (result', w') = destroy_and_forget destroy r w in
        (result' ≡ result) × Holds w'.disk (reclaimed r result s) × (w'.backend ≡ b)
  unfolding destroy_and_forget
  destroy_one r w s h =
      let (result, b) = destroy r.kind r.backend_name r.metadata w.backend in
      settle r result (record w { backend = b }) s (record { file = h.file; current = h.current })

  count_world :
      (t : Tally destroy) (p : Result Error Unit × World B) → (count destroy t p).world ≡ p.1
  unfolding count
  count_world t (ok _, w) = refl
  count_world t (err _, w) = refl

  -- The loop on the disk is the specification on the ledger.
  pub destroy_each-reclaim :
      (rs : List Resource) (t : Tally destroy) (s : State)
      → Holds t.world.disk s
      → let t' = destroy_each destroy rs t in
        let spec = reclaim rs s t.world.backend in
        Holds t'.world.disk spec.0 × (t'.world.backend ≡ spec.1)
  unfolding destroy_each reclaim
  destroy_each-reclaim [] t s h = (h, refl)
  destroy_each-reclaim (r ∷ rs) t s h =
      let (same, held, moved) = destroy_one r t.world s h in
      let next = count destroy t (destroy_and_forget destroy r t.world) in
      let at_next = count_world t (destroy_and_forget destroy r t.world) in
      let result = (destroy r.kind r.backend_name r.metadata t.world.backend).0 in
      let ih =
        destroy_each-reclaim rs next (reclaimed r result s)
          (subst (λ w. Holds w.disk (reclaimed r result s)) (sym at_next) held) in
      subst
        (λ b.
          Holds (destroy_each destroy rs next).world.disk (reclaim rs (reclaimed r result s) b).0
          × ((destroy_each destroy rs next).world.backend
              ≡ (reclaim rs (reclaimed r result s) b).1))
        (ap (λ w. w.backend) at_next ∙ moved) ih

  finalize_lem :
      (w : World B) (s : State)
      → Holds w.disk s
      → ((finalize destroy w).1.disk.state_json ≡ none)
        × ((finalize destroy w).1.disk.lock_held ≡ false)
        × ((finalize destroy w).1.backend ≡ w.backend)
  unfolding finalize release
  finalize_lem w s h =
      rw (set_phase-Holds phase_done w.disk s h, remove-cleared _) (refl, refl, refl)

  -- How a teardown ends: the run directory cleared, or a ledger of what could not be destroyed.
  pub data Ended (d : Disk) (s : State) : Type 0 where
    cleared : s.resources ≡ [] → d.state_json ≡ none → d.lock_held ≡ false → Ended d s
    leftover : is_nil s.resources ≡ false → Holds d s → Ended d s

  finish-Ended :
      (t : Tally destroy) (s : State)
      → Holds t.world.disk s
      → Ended (finish destroy t).world.disk s × ((finish destroy t).world.backend ≡ t.world.backend)
  unfolding finish remaining
  finish-Ended t s h = elim (Bool-cases (is_nil s.resources)) [
    | inl none_left ↦
        let (gone, free, same) = finalize_lem t.world s h in
        rw (read-Holds t.world.disk s h, none_left)
          (cleared (is_nil-eq s.resources none_left) gone free, same)
    | inr some_left ↦ rw (read-Holds t.world.disk s h, some_left) (leftover some_left h, refl)
  ]

  -- On a run directory that holds a state, a teardown destroys the recorded resources on the
  -- backend in the reverse of their order. After each `destroy` that returns, and only then, the
  -- ledger loses the entries of that name. With no entry left the state file is removed and the lock
  -- dropped; otherwise the ledger keeps the entries that are left.
  pub teardown-reclaim :
      (w : World B) (s : State)
      → Holds w.disk s
      → let t = teardown destroy w in
        let spec = reclaim (reverse s.resources) (record s { phase = phase_cleanup }) w.backend in
        Ended t.world.disk spec.0 × (t.world.backend ≡ spec.1)
  unfolding teardown
  teardown-reclaim w s h =
      let s' : State = record s { phase = phase_cleanup } in
      let w' : World B = record w { disk = written s' w.disk } in
      let held : Holds w'.disk s' = record { file = refl; current = h.current } in
      let start : Tally destroy = record { world = w'; done = 0; failed = 0 } in
      let (after, moved) = destroy_each-reclaim (reverse s.resources) start s' held in
      let (ended, still) =
        finish-Ended (destroy_each destroy (reverse s.resources) start)
          (reclaim (reverse s.resources) s' w.backend).0 after in
      rw (set_phase-Holds phase_cleanup w.disk s h, read-Holds w'.disk s' held)
        (ended, still ∙ moved)
