-- ===== src/Orchestrator/Pool/Samples.antt =====
-- Tests of `parallel_map` on three items and two workers, where the second item fails.
use test_range.Prelude.{
  ℕ, ◌+◌, ◌*◌, ◌≤◌, ◌≡◌, refl, ◌⊎◌, true, some, List, [], ◌∷◌, length, eqb, if◌then◌else◌, Result,
  ok, err, arith,
}
use test_range.Errors.{Error, driver_error}
use test_range.Orchestrator.Parallel.{resolve_workers}
use test_range.Orchestrator.Pool.{
  Status, queued, running, cancelled, finished, Phase, waiting, scanning, cancelling, raising, Task,
  Pool, Starts, Finishes, Step, Reached, ParallelMap, is_final,
}
use test_range.Orchestrator.Pool.Invariant.{IsSound, Blames}
use test_range.Orchestrator.Pool.Outcome.{Reached-IsSound, raising-Starts_none, ParallelMap-Agrees}
use test_range.Orchestrator.Pool.Progress.{Reached-ends}

abbrev broken : Error
broken = record { class = driver_error; about = [] }

abbrev increment : ℕ → Result Error ℕ
increment n = if eqb n 2 then err broken else ok (n + 1)

abbrev items : List ℕ
items = 1 ∷ 2 ∷ 3 ∷ []

abbrev three : Status ℕ → Status ℕ → Status ℕ → List (Task ℕ ℕ)
three a b c = (1, a) ∷ (2, b) ∷ (3, c) ∷ []

abbrev at : Phase → List (Task ℕ ℕ) → Pool ℕ ℕ
at ph ts = record { tasks = ts; phase = ph }

abbrev failed : Status ℕ
failed = finished (err broken)

abbrev both_run : List (Task ℕ ℕ)
both_run = three running running queued

abbrev second_failed : List (Task ℕ ℕ)
second_failed = three running failed queued

abbrev third_dropped : List (Task ℕ ℕ)
third_dropped = three running failed cancelled

abbrev all_ended : List (Task ℕ ℕ)
all_ended = three (finished (ok 2)) failed cancelled

started_both : Reached increment 2 items 2 (at waiting both_run)
started_both =
    Reached.stepped 1 (at waiting (three running queued queued)) _
      (Reached.stepped 0 (at waiting (three queued queued queued)) _ Reached.submitted
        (Step.start_item _ _ waiting (omega arith) (Starts.here 1 _)))
      (Step.start_item _ _ waiting (omega arith) (Starts.past_running 1 _ _ (Starts.here 2 _)))

second_found : Reached increment 2 items 6 (at (cancelling 0 broken) second_failed)
second_found =
    Reached.stepped 5 (at (scanning 1) second_failed) _
      (Reached.stepped 4 (at (scanning 0) second_failed) _
        (Reached.stepped 3 (at waiting second_failed) _
          (Reached.stepped 2 (at waiting both_run) _ started_both
            (Step.finish_item _ _ waiting (Finishes.there 1 running _ _ (Finishes.here 2 _))))
          (Step.wake second_failed refl))
        (Step.pass second_failed 0 (omega arith) refl))
      (Step.found second_failed 1 broken refl)

now_raising : Reached increment 2 items 10 (at (raising broken) third_dropped)
now_raising =
    Reached.stepped 9 (at (cancelling 3 broken) third_dropped) _
      (Reached.stepped 8 (at (cancelling 2 broken) second_failed) _
        (Reached.stepped 7 (at (cancelling 1 broken) second_failed) _
          (Reached.stepped 6 (at (cancelling 0 broken) second_failed) _ second_found
            (Step.drop_pending second_failed 0 broken (omega arith)))
          (Step.drop_pending second_failed 1 broken (omega arith)))
        (Step.drop_pending second_failed 2 broken (omega arith)))
      (Step.raise third_dropped 3 broken (omega arith))

drained : Reached increment 2 items 11 (at (raising broken) all_ended)
drained =
    Reached.stepped 10 (at (raising broken) third_dropped) _ now_raising
      (Step.finish_item _ _ (raising broken) (Finishes.here 1 _))

Reached-IsSound_example : IsSound increment 2 items (at (cancelling 0 broken) second_failed)
Reached-IsSound_example = Reached-IsSound increment second_found

raising-Starts_none_example : ¬ (Starts third_dropped (three running failed running))
raising-Starts_none_example = raising-Starts_none increment now_raising refl

ParallelMap-Agrees_example : Blames increment broken items
unfolding resolve_workers
ParallelMap-Agrees_example =
    ParallelMap-Agrees increment {jobs = some 2} {items = items} {out = err broken}
      (ParallelMap.raised 11 (at (raising broken) all_ended) broken drained refl refl)

Reached-ends_example :
    (2 ≤ 4 * length items + 3)
    × ((is_final (at waiting both_run) ≡ true)
        ⊎ ((q : Pool ℕ ℕ) × Step increment 2 (at waiting both_run) q))
Reached-ends_example = Reached-ends (omega arith) started_both
