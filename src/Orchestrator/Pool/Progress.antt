-- ===== src/Orchestrator/Pool/Progress.antt =====
-- A call of `parallel_map` ends: there is always a step until the outcome is settled, and a budget that
-- every step draws on.
use test_range.Prelude.{
  ℕ, zero, suc, ◌+◌, ◌-◌, ◌*◌, ◌<◌, ◌≤◌, ◌≡◌, refl, true, false, ◌&&◌, ◌||◌, ◌⊎◌, inl, inr, some,
  List, [], ◌∷◌, map, length, any_of, all_of, Result, arith, Bool-cases, Option-cases,
}
use native.Mathlib.Decide.{dec_lt}
use test_range.Errors.{Error}
use test_range.Orchestrator.Pool.{
  Status, queued, running, cancelled, finished, Phase, waiting, returning, scanning, cancelling,
  raising, Task, Pool, enqueue, has_failed, has_ended, count_running, failure_at, cancel_at, Starts,
  Finishes, Step, Reached, is_over, is_final,
}

abbrev effort_left : {R : Type 0} → Status R → ℕ
effort_left queued = 2
effort_left running = 1
effort_left cancelled = 0
effort_left (finished r) = 0

module _ {T R : Type 0} where
  abbrev work_left : List (Task T R) → ℕ
  work_left [] = 0
  work_left ((x, s) ∷ ts) = effort_left s + work_left ts

-- the steps that the calling thread may still take
abbrev calls_left : ℕ → Phase → ℕ
calls_left size waiting = 2 * size + 3
calls_left size (scanning k) = size + 2 + (size - k)
calls_left size (cancelling k e) = 1 + (size - k)
calls_left size returning = 0
calls_left size (raising e) = 0

calls_left-length : (m n : ℕ) (ph : Phase) → m ≡ n → calls_left m ph ≡ calls_left n ph
calls_left-length m n ph e = rw e

module _ {T : Type 0} (R : Type 0) where
  submit-work_left :
      (items : List T)
      → (work_left (map (enqueue {T = T} {R = R}) items) ≡ 2 * length items)
        × (length (map (enqueue {T = T} {R = R}) items) ≡ length items)
  submit-work_left [] = (omega arith, refl)
  submit-work_left (x ∷ xs) = ground (arith, submit-work_left xs)

module _ {T R : Type 0} where
  abbrev pub budget : Pool T R → ℕ
  budget p = work_left p.tasks + calls_left (length p.tasks) p.phase

  Starts-work_left :
      {ts us : List (Task T R)}
      → Starts ts us
      → (suc (work_left us) ≡ work_left ts) × (length us ≡ length ts)
  Starts-work_left (Starts.here x ts) = (omega arith, refl)
  Starts-work_left (Starts.past_running x ts us m) = ground (arith, Starts-work_left m)
  Starts-work_left (Starts.past_ended x s ts us d m) = ground (arith, Starts-work_left m)

  cancel_at-work_left :
      (k : ℕ) (ts : List (Task T R))
      → (work_left (cancel_at k ts) ≤ work_left ts) × (length (cancel_at k ts) ≡ length ts)
  cancel_at-work_left k [] = (omega arith, refl)
  cancel_at-work_left zero ((x, queued) ∷ ts) = (omega arith, refl)
  cancel_at-work_left zero ((x, running) ∷ ts) = (omega arith, refl)
  cancel_at-work_left zero ((x, cancelled) ∷ ts) = (omega arith, refl)
  cancel_at-work_left zero ((x, finished r) ∷ ts) = (omega arith, refl)
  cancel_at-work_left (suc k) ((x, s) ∷ ts) = ground (arith, cancel_at-work_left k ts)

  idle-Starts :
      (ts : List (Task T R))
      → count_running ts ≡ 0
      → all_of has_ended ts ≡ false
      → (us : List (Task T R)) × Starts ts us
  idle-Starts [] idle h = cc
  idle-Starts ((x, queued) ∷ ts) idle h = ((x, running) ∷ ts, Starts.here x ts)
  idle-Starts ((x, running) ∷ ts) idle h = absurd (omega arith)
  idle-Starts ((x, cancelled) ∷ ts) idle h =
      let (us, m) = idle-Starts ts (omega arith) h in
      ((x, cancelled) ∷ us, Starts.past_ended x cancelled ts us refl m)
  idle-Starts ((x, finished r) ∷ ts) idle h =
      let (us, m) = idle-Starts ts (omega arith) h in
      ((x, finished r) ∷ us, Starts.past_ended x (finished r) ts us refl m)

  failure_at-bound :
      (k : ℕ) (ts : List (Task T R)) (e : Error) → failure_at k ts ≡ some e → k < length ts
  failure_at-bound k [] e f = cc
  failure_at-bound zero (t ∷ ts) e f = omega arith
  failure_at-bound (suc k) (t ∷ ts) e f = omega (arith, failure_at-bound k ts e f)

  module _ {fn : T → Result Error R} where
    Finishes-work_left :
        {ts us : List (Task T R)}
        → Finishes fn ts us
        → (suc (work_left us) ≡ work_left ts) × (length us ≡ length ts)
    Finishes-work_left (Finishes.here x ts) = (omega arith, refl)
    Finishes-work_left (Finishes.there x s ts us m) = ground (arith, Finishes-work_left m)

    Step-budget : {workers : ℕ} {p q : Pool T R} → Step fn workers p q → budget q < budget p
    Step-budget (Step.start_item ts us ph l m) =
        ground (arith, Starts-work_left m, calls_left-length (length us) (length ts) ph)
    Step-budget (Step.finish_item ts us ph m) =
        ground (arith, Finishes-work_left m, calls_left-length (length us) (length ts) ph)
    Step-budget (Step.wake ts w) = omega arith
    Step-budget (Step.pass ts k l n) = omega arith
    Step-budget (Step.found ts k e f) = omega (arith, failure_at-bound k ts e f)
    Step-budget (Step.no_failure ts k l) = omega arith
    Step-budget (Step.drop_pending ts k e l) = ground (arith, cancel_at-work_left k ts)
    Step-budget (Step.raise ts k e l) = omega arith

    Reached-budget :
        {workers : ℕ} {items : List T} {n : ℕ} {p : Pool T R}
        → Reached fn workers items n p
        → n + budget p ≤ 4 * length items + 3
    Reached-budget {items} Reached.submitted = ground (arith, submit-work_left R items)
    Reached-budget (Reached.stepped n p q r s) = omega (arith, Reached-budget r, Step-budget s)

    Finishes-or_idle :
        (ts : List (Task T R))
        → ((us : List (Task T R)) × Finishes fn ts us) ⊎ (count_running ts ≡ 0)
    Finishes-or_idle [] = inr refl
    Finishes-or_idle ((x, running) ∷ ts) = inl ((x, finished (fn x)) ∷ ts, Finishes.here x ts)
    Finishes-or_idle ((x, queued) ∷ ts) = elim (Finishes-or_idle ts) [
      | inl (us, m) ↦ inl ((x, queued) ∷ us, Finishes.there x queued ts us m)
      | inr idle ↦ inr (omega arith)
    ]
    Finishes-or_idle ((x, cancelled) ∷ ts) = elim (Finishes-or_idle ts) [
      | inl (us, m) ↦ inl ((x, cancelled) ∷ us, Finishes.there x cancelled ts us m)
      | inr idle ↦ inr (omega arith)
    ]
    Finishes-or_idle ((x, finished r) ∷ ts) = elim (Finishes-or_idle ts) [
      | inl (us, m) ↦ inl ((x, finished r) ∷ us, Finishes.there x (finished r) ts us m)
      | inr idle ↦ inr (omega arith)
    ]

    moves_on :
        {workers : ℕ} (ts : List (Task T R)) (ph : Phase)
        → 1 ≤ workers
        → all_of has_ended ts ≡ false
        → (q : Pool T R) × Step fn workers (record { tasks = ts; phase = ph }) q
    moves_on ts ph w h = elim (Finishes-or_idle ts) [
      | inl (us, m) ↦ (record { tasks = us; phase = ph }, Step.finish_item ts us ph m)
      | inr idle ↦
          let (us, m) = idle-Starts ts idle h in
          (record { tasks = us; phase = ph }, Step.start_item ts us ph (omega arith) m)
    ]

    scan_on :
        {workers : ℕ} (ts : List (Task T R)) (k : ℕ)
        → (q : Pool T R) × Step fn workers (record { tasks = ts; phase = scanning k }) q
    scan_on ts k = elim (Option-cases (failure_at k ts)) [
      | inl (e, f) ↦ (record { tasks = ts; phase = cancelling 0 e }, Step.found ts k e f)
      | inr n ↦ elim (dec_lt k (length ts)) [
        | yes l ↦ (record { tasks = ts; phase = scanning (suc k) }, Step.pass ts k l n)
        | no l ↦ (record { tasks = ts; phase = returning }, Step.no_failure ts k (omega arith))
      ]
    ]

    wait_on :
        {workers : ℕ} (ts : List (Task T R))
        → 1 ≤ workers
        → (q : Pool T R) × Step fn workers (record { tasks = ts; phase = waiting }) q
    wait_on ts w = elim (Bool-cases (any_of has_failed ts || all_of has_ended ts)) [
      | inl awake ↦ (record { tasks = ts; phase = scanning 0 }, Step.wake ts awake)
      | inr n ↦ moves_on ts waiting w (ground arith)
    ]

    cancel_on :
        {workers : ℕ} (ts : List (Task T R)) (k : ℕ) (e : Error)
        → (q : Pool T R) × Step fn workers (record { tasks = ts; phase = cancelling k e }) q
    cancel_on ts k e = elim (dec_lt k (length ts)) [
      | yes l ↦ (
        record { tasks = cancel_at k ts; phase = cancelling (suc k) e },
        Step.drop_pending ts k e l,
      )
      | no l ↦ (record { tasks = ts; phase = raising e }, Step.raise ts k e (omega arith))
    ]

    goes_on :
        {workers : ℕ} (ts : List (Task T R)) (ph : Phase)
        → 1 ≤ workers
        → (is_over ph && all_of has_ended ts) ≡ false
        → (q : Pool T R) × Step fn workers (record { tasks = ts; phase = ph }) q
    goes_on ts waiting w h = wait_on ts w
    goes_on ts (scanning k) w h = scan_on ts k
    goes_on ts (cancelling k e) w h = cancel_on ts k e
    goes_on ts (raising e) w h = moves_on ts (raising e) w h
    goes_on ts returning w h = moves_on ts returning w h

    final_or_step :
        {workers : ℕ}
        → 1 ≤ workers
        → (p : Pool T R) → is_final p ≡ false
        → (q : Pool T R) × Step fn workers p q
    final_or_step w p h = goes_on p.tasks p.phase w h

    -- With a worker at least, a call takes at most four steps for each item and three more, in whichever
    -- order, and until its outcome is settled and the workers are joined there is a next step.
    pub Reached-ends :
        {workers : ℕ} {items : List T} {n : ℕ} {p : Pool T R}
        → 1 ≤ workers
        → Reached fn workers items n p
        → (n ≤ 4 * length items + 3)
          × ((is_final p ≡ true) ⊎ ((q : Pool T R) × Step fn workers p q))
    Reached-ends {p} w r = (
      omega (arith, Reached-budget r),
      elim (Bool-cases (is_final p)) [
        | inl done ↦ inl done
        | inr more ↦ inr (final_or_step w p more)
      ],
    )
