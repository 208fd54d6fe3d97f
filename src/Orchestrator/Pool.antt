-- ===== src/Orchestrator/Pool.antt =====
-- testrange/orchestrator/_parallel.py, `parallel_map` with several workers, as a step relation: the
-- threads of the pool and the calling thread take their steps in any order. `fn` is what a worker
-- computes for an item; its effects on shared state are left out. The caller cancels what is pending in
-- submission order, where the source iterates over the set `not_done`. The pool hands out the queued items
-- first in, first out, runs at most `workers` at a time, and is joined before the call ends.
pub mod Moves
pub mod Invariant
pub mod Outcome
pub mod Progress
mod Samples
use test_range.Prelude.{
  ℕ, zero, suc, ◌+◌, ◌<◌, ◌≤◌, ◌≡◌, Bool, true, false, ◌&&◌, ◌||◌, Option, none, some, List, [],
  ◌∷◌, map, length, any_of, all_of, Result, ok, err, ◌>>=◌,
}
use test_range.Errors.{Error}
use test_range.Orchestrator.Parallel.{resolve_workers}

pub data Status (R : Type 0) : Type 0 where
  queued running cancelled : Status R
  finished : Result Error R → Status R

-- What the calling thread is at: in `wait`, at a position of its loop over the futures, at a position of
-- the loop that cancels, joining the pool with an exception to raise, or with results to return.
pub data Phase : Type 0 where
  waiting returning : Phase
  scanning : ℕ → Phase
  cancelling : ℕ → Error → Phase
  raising : Error → Phase

module _ {R : Type 0} where
  -- fut.done()
  abbrev pub is_done : Status R → Bool
  is_done queued = false
  is_done running = false
  is_done cancelled = true
  is_done (finished r) = true

  -- fut.exception(), for a future that is done
  abbrev pub failure : Status R → Option Error
  failure (finished (err e)) = some e
  failure (finished (ok r)) = none
  failure queued = none
  failure running = none
  failure cancelled = none

  -- 1 for an item that a worker is at
  abbrev pub busy : Status R → ℕ
  busy running = 1
  busy queued = 0
  busy cancelled = 0
  busy (finished r) = 0

  -- pending.cancel()
  abbrev pub cancel : Status R → Status R
  cancel queued = cancelled
  cancel running = running
  cancel cancelled = cancelled
  cancel (finished r) = finished r

abbrev pub is_over : Phase → Bool
is_over (raising e) = true
is_over returning = true
is_over waiting = false
is_over (scanning k) = false
is_over (cancelling k e) = false

abbrev pub is_some : Option Error → Bool
is_some none = false
is_some (some e) = true

abbrev pub Task : Type 0 → Type 0 → Type 0
Task T R = T × Status R

pub record Pool (T R : Type 0) : Type 0 where
  pub tasks : List (T × Status R)
  pub phase : Phase

module _ {T R : Type 0} where
  abbrev pub enqueue : T → Task T R
  enqueue x = (x, queued)

  -- ex.submit for each item
  abbrev pub submit : List T → Pool T R
  submit items = record { tasks = map enqueue items; phase = waiting }

  abbrev pub has_failed : Task T R → Bool
  has_failed (x, s) = is_some (failure s)

  abbrev pub has_ended : Task T R → Bool
  has_ended (x, s) = is_done s

  abbrev pub count_running : List (Task T R) → ℕ
  count_running [] = 0
  count_running ((x, s) ∷ ts) = busy s + count_running ts

  abbrev pub failure_at : ℕ → List (Task T R) → Option Error
  failure_at k [] = none
  failure_at zero ((x, s) ∷ ts) = failure s
  failure_at (suc k) (t ∷ ts) = failure_at k ts

  abbrev pub cancel_at : ℕ → List (Task T R) → List (Task T R)
  cancel_at k [] = []
  cancel_at zero ((x, s) ∷ ts) = (x, cancel s) ∷ ts
  cancel_at (suc k) (t ∷ ts) = t ∷ cancel_at k ts

  -- A worker takes the first queued item.
  pub data Starts : List (Task T R) → List (Task T R) → Type 0 where
    here : (x : T) (ts : List (Task T R)) → Starts ((x, queued) ∷ ts) ((x, running) ∷ ts)
    past_running :
        (x : T) (ts us : List (Task T R))
        → Starts ts us
        → Starts ((x, running) ∷ ts) ((x, running) ∷ us)
    past_ended :
        (x : T) (s : Status R) (ts us : List (Task T R))
        → is_done s ≡ true
        → Starts ts us
        → Starts ((x, s) ∷ ts) ((x, s) ∷ us)

  module _ (fn : T → Result Error R) where
    -- A worker is through with its item.
    pub data Finishes : List (Task T R) → List (Task T R) → Type 0 where
      here :
          (x : T) (ts : List (Task T R)) → Finishes ((x, running) ∷ ts) ((x, finished (fn x)) ∷ ts)
      there :
          (x : T) (s : Status R) (ts us : List (Task T R))
          → Finishes ts us
          → Finishes ((x, s) ∷ ts) ((x, s) ∷ us)

    pub data Step (workers : ℕ) : Pool T R → Pool T R → Type 0 where
      start_item :
          (ts us : List (Task T R)) (ph : Phase)
          → count_running ts < workers
          → Starts ts us
          → Step workers (record { tasks = ts; phase = ph }) (record { tasks = us; phase = ph })
      finish_item :
          (ts us : List (Task T R)) (ph : Phase)
          → Finishes ts us
          → Step workers (record { tasks = ts; phase = ph }) (record { tasks = us; phase = ph })
      -- wait(futures, return_when=FIRST_EXCEPTION)
      wake :
          (ts : List (Task T R))
          → (any_of has_failed ts || all_of has_ended ts) ≡ true
          → Step workers
              (record { tasks = ts; phase = waiting })
              (record { tasks = ts; phase = scanning 0 })
      -- the loop over the futures, at one that is not done or has no exception
      pass :
          (ts : List (Task T R)) (k : ℕ)
          → k < length ts
          → failure_at k ts ≡ none
          → Step workers
              (record { tasks = ts; phase = scanning k })
              (record { tasks = ts; phase = scanning (suc k) })
      found :
          (ts : List (Task T R)) (k : ℕ) (e : Error)
          → failure_at k ts ≡ some e
          → Step workers
              (record { tasks = ts; phase = scanning k })
              (record { tasks = ts; phase = cancelling 0 e })
      no_failure :
          (ts : List (Task T R)) (k : ℕ)
          → length ts ≤ k
          → Step workers
              (record { tasks = ts; phase = scanning k })
              (record { tasks = ts; phase = returning })
      -- the loop over `not_done`; `cancel` leaves alone what is done or in flight
      drop_pending :
          (ts : List (Task T R)) (k : ℕ) (e : Error)
          → k < length ts
          → Step workers
              (record { tasks = ts; phase = cancelling k e })
              (record { tasks = cancel_at k ts; phase = cancelling (suc k) e })
      -- fut.result() raises, and the pool is joined
      raise :
          (ts : List (Task T R)) (k : ℕ) (e : Error)
          → length ts ≤ k
          → Step workers
              (record { tasks = ts; phase = cancelling k e })
              (record { tasks = ts; phase = raising e })

    pub data Reached (workers : ℕ) (items : List T) : ℕ → Pool T R → Type 0 where
      submitted : Reached workers items 0 (submit items)
      stepped :
          (n : ℕ) (p q : Pool T R)
          → Reached workers items n p
          → Step workers p q
          → Reached workers items (suc n) q

  -- [fut.result() for fut in futures]
  abbrev pub results_of : List (Task T R) → List R
  results_of [] = []
  results_of ((x, finished (ok r)) ∷ ts) = r ∷ results_of ts
  results_of ((x, finished (err e)) ∷ ts) = results_of ts
  results_of ((x, queued) ∷ ts) = results_of ts
  results_of ((x, running) ∷ ts) = results_of ts
  results_of ((x, cancelled) ∷ ts) = results_of ts

  -- The outcome is settled and the workers have been joined.
  abbrev pub is_final : Pool T R → Bool
  is_final p = is_over p.phase && all_of has_ended p.tasks

  -- [fn(item) for item in work]
  abbrev pub map_all : (T → Result Error R) → List T → Result Error (List R)
  map_all fn [] = ok []
  map_all fn (x ∷ xs) = fn x >>= λ r. map_all fn xs >>= λ rs. ok (r ∷ rs)

  module _ (fn : T → Result Error R) (jobs : Option ℕ) where
    -- The ways in which a call of parallel_map can end.
    pub data ParallelMap (items : List T) : Result Error (List R) → Type 0 where
      inline : resolve_workers (length items) jobs ≡ 1 → ParallelMap items (map_all fn items)
      returned :
          (n : ℕ) (p : Pool T R)
          → Reached fn (resolve_workers (length items) jobs) items n p
          → p.phase ≡ returning
          → all_of has_ended p.tasks ≡ true
          → ParallelMap items (ok (results_of p.tasks))
      raised :
          (n : ℕ) (p : Pool T R) (e : Error)
          → Reached fn (resolve_workers (length items) jobs) items n p
          → p.phase ≡ raising e
          → all_of has_ended p.tasks ≡ true
          → ParallelMap items (err e)
