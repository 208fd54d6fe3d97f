-- ===== src/Orchestrator/Dashboard/Stages.antt =====
-- The stages and the buffers of testrange/orchestrator/dashboard_state.py.
use test_range.Prelude.{
  ℕ, zero, suc, ◌-◌, ◌≤◌, String, Option, some, List, [], ◌∷◌, ◌++◌, ◌≡◌, refl, ap, length,
  length-append, get, get-put, arith, ◌==◌, if◌then◌else◌,
}
use test_range.Orchestrator.Dashboard.{
  VmStage, VmRecord, DashboardState, set_vm_stage, advanced, record_of, first_start, append_log,
  append_bounded, drop_first,
}

length-drop_first :
    {A : Type 0} (count : ℕ) (xs : List A) → length (drop_first count xs) ≡ length xs - count
unfolding drop_first
length-drop_first count [] = omega arith
length-drop_first zero (x ∷ xs) = omega arith
length-drop_first (suc count) (x ∷ xs) = omega (arith, length-drop_first count xs)

drop_first-split :
    {A : Type 0} (count : ℕ) (xs : List A)
    → count ≤ length xs
    → (dropped : List A) × (dropped ++ drop_first count xs ≡ xs) × (length dropped ≡ count)
unfolding drop_first
drop_first-split count [] room = ([], refl, omega arith)
drop_first-split zero (x ∷ xs) room = ([], refl, refl)
drop_first-split (suc count) (x ∷ xs) room =
    let (dropped, whole, size) = drop_first-split count xs (omega arith) in
    (x ∷ dropped, ap (λ l. x ∷ l) whole, ap suc size)

-- However long the buffer is, after `append_log` it has at most its bound of lines. It is the old
-- buffer with the line at its end, less the oldest lines, as many as exceed the bound.
pub append_log-bounds :
    (line : String) (d : DashboardState)
    → (length (append_log line d).log_ring ≤ d.log_maxlen)
      × (dropped : List String) × (dropped ++ (append_log line d).log_ring
          ≡ d.log_ring ++ line ∷ [])
      × (length dropped ≡ suc (length d.log_ring) - d.log_maxlen)
unfolding append_log append_bounded
append_log-bounds line d =
    let count : ℕ = suc (length d.log_ring) - d.log_maxlen in
    let size = length-append d.log_ring (line ∷ []) in
    let (dropped, whole, evicted) =
      drop_first-split count (d.log_ring ++ line ∷ []) (omega (arith, size)) in
    (
      omega (arith, length-drop_first count (d.log_ring ++ line ∷ []), size),
      dropped,
      whole,
      evicted,
    )

-- `set_vm_stage` gives the named machine the stage and keeps the time at which its clock started, if it
-- has started; the record of every other machine is as it was.
pub set_vm_stage-started :
    (now : ℕ) (name : String) (stage : VmStage) (detail : Option String) (d : DashboardState)
    (t : ℕ)
    → (record_of d.vms name).started_at ≡ some t
    → (after : VmRecord) × (after.stage ≡ stage)
      × (after.started_at ≡ some t)
      × ((other : String)
          → get (set_vm_stage now name stage detail d).vms other
            ≡ (if name == other then some after else get d.vms other))
unfolding set_vm_stage first_start advanced
set_vm_stage-started now name stage detail d t started = (
  advanced now stage detail (record_of d.vms name),
  refl,
  rw started refl,
  λ other. get-put d.vms name other (advanced now stage detail (record_of d.vms name)),
)
