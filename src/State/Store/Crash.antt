-- ===== src/State/Store/Crash.antt =====
-- Crash safety: what a reader finds when the process dies between two steps of a write.
use test_range.Prelude.{◌≡◌, refl, ap, subst, ◌⊎◌, inl, inr, List, [], ◌∷◌, ◌++◌, ◌&◌, ok}
use test_range.State.Schema.{State, schema_version}
use test_range.State.Codec.{to_json}
use test_range.State.Store.Effects.{
  Disk, FileStep, open_file, temporary, put_file, json, apply_step, run_steps,
}
use test_range.State.Store.{write_state_atomic, read}
use test_range.State.Store.Ledger.{Holds, read-Holds, written}

-- The predicate holds before each of the steps and after the last.
abbrev pub Throughout : (Disk → Type 0) → List FileStep → Disk → Type 0
Throughout P [] d = P d
Throughout P (w ∷ ws) d = P d × Throughout P ws (apply_step w d)

Throughout-split :
    (P : Disk → Type 0) (front back : List FileStep) (d : Disk)
    → Throughout P (front ++ back) d
    → P (run_steps front d)
unfolding run_steps
Throughout-split P [] [] d h = h
Throughout-split P [] (w ∷ back) d h = h.0
Throughout-split P (w ∷ front) back d h = Throughout-split P front back (apply_step w d) h.1

-- `read` returns the one state or the other.
abbrev pub ReadsEither : State → State → Disk → Type 0
ReadsEither old new d = ((read d).0 ≡ ok old) ⊎ ((read d).0 ≡ ok new)

reads_old : (old new : State) (d : Disk) → Holds d old → ReadsEither old new d
reads_old old new d h = inl (ap (λ p. p.0) (read-Holds d old h))

reads_new : (old new : State) (d : Disk) → Holds d new → ReadsEither old new d
reads_new old new d h = inr (ap (λ p. p.0) (read-Holds d new h))

write_state_atomic-Throughout :
    (old new : State) (d : Disk)
    → Holds d old
    → new.version ≡ schema_version
    → Throughout (ReadsEither old new) (write_state_atomic new) d
unfolding write_state_atomic apply_step put_file
write_state_atomic-Throughout old new d h v =
    let before : ReadsEither old new d = reads_old old new d h in
    let opened : ReadsEither old new (apply_step (open_file temporary) d) =
      reads_old old new _ (record { file = h.file; current = h.current }) in
    let filled : ReadsEither old new (put_file temporary (json (to_json new)) d) =
      reads_old old new _ (record { file = h.file; current = h.current }) in
    let after : ReadsEither old new (written new d) =
      reads_new old new (written new d) (record { file = refl; current = v }) in
    before & opened & filled & filled & after & after

-- On a run directory that holds a state, whichever of the steps of `_write_state_atomic` a crash cuts off,
-- writing a state of the current schema version, `read` returns the state that was there before or the
-- new one; and after all of them it returns the new one.
pub write_state_atomic-crash :
    (old new : State) (d : Disk) (front back : List FileStep)
    → Holds d old
    → new.version ≡ schema_version
    → write_state_atomic new ≡ front ++ back
    → ReadsEither old new (run_steps front d)
      × ((read (run_steps (write_state_atomic new) d)).0 ≡ ok new)
write_state_atomic-crash old new d front back h v split = (
  Throughout-split (ReadsEither old new) front back d (
      subst (λ ws. Throughout (ReadsEither old new) ws d) split
        (write_state_atomic-Throughout old new d h v)),
  unfold write_state_atomic run_steps apply_step in
      ap (λ p. p.0) (read-Holds (written new d) new (record { file = refl; current = v })),
)
