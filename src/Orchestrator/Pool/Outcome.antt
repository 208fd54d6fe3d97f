-- ===== src/Orchestrator/Pool/Outcome.antt =====
-- What a call of `parallel_map` can give.
use test_range.Prelude.{
  ℕ, suc, ◌≡◌, refl, ap, subst, true, false, Option, List, [], ◌∷◌, map, any_of, all_of, Result, ok,
  err, ◌>>=◌, >>=-eq-err, arith, inl, inr,
}
use test_range.Errors.{Error}
use test_range.Orchestrator.Pool.{
  queued, running, cancelled, finished, raising, Task, Pool, enqueue, count_running, results_of,
  Starts, Reached, map_all, ParallelMap,
}
use test_range.Orchestrator.Pool.Moves.{is_cancelled, is_ok, item_of, unqueued_below}
use test_range.Orchestrator.Pool.Invariant.{Blames, IsHonest, Known, IsSound, Step-IsSound}

module _ {T : Type 0} (R : Type 0) where
  submit-items : (items : List T) → map item_of (map (enqueue {T = T} {R = R}) items) ≡ items
  submit-items [] = refl
  submit-items (x ∷ xs) = ap (λ ys. x ∷ ys) (submit-items xs)

  submit-uncancelled :
      (items : List T) → any_of is_cancelled (map (enqueue {T = T} {R = R}) items) ≡ false
  submit-uncancelled [] = refl
  submit-uncancelled (x ∷ xs) = submit-uncancelled xs

  submit-count_running : (items : List T) → count_running (map (enqueue {T = T} {R = R}) items) ≡ 0
  submit-count_running [] = refl
  submit-count_running (x ∷ xs) = omega (arith, submit-count_running xs)

module _ {T R : Type 0} where
  -- An item is only taken off the queue.
  Starts-queued :
      {ts us : List (Task T R)} → Starts ts us → ((k : ℕ) → unqueued_below k ts ≡ true) → ⊥
  Starts-queued (Starts.here x ts) h = let q = h 1 in cc
  Starts-queued (Starts.past_running x ts us m) h = Starts-queued m (λ k. h (suc k))
  Starts-queued (Starts.past_ended x s ts us d m) h =
      Starts-queued m (λ k. ground (arith, h (suc k)))

module _ {T R : Type 0} (fn : T → Result Error R) where
  submit-IsHonest : (items : List T) → IsHonest fn (map enqueue items)
  submit-IsHonest [] = tt
  submit-IsHonest (x ∷ xs) = submit-IsHonest xs

  -- In every pool that is reached the tasks are those of the items, in the order of submission, each
  -- result is what `fn` gives for its item, at most `workers` items are in flight, and: while the call
  -- waits nothing is cancelled; once it returns every task has ended well; and once it raises, the
  -- exception is that of an item and nothing is queued.
  pub Reached-IsSound :
      {workers : ℕ} {items : List T} {n : ℕ} {p : Pool T R}
      → Reached fn workers items n p
      → IsSound fn workers items p
  Reached-IsSound {items} Reached.submitted = record {
    kept = submit-items R items;
    honest = submit-IsHonest items;
    bounded = omega (arith, submit-count_running R items);
    known = submit-uncancelled R items;
  }
  Reached-IsSound {workers} {items} (Reached.stepped n p q r s) =
      Step-IsSound fn workers items s (Reached-IsSound r)

  -- Once the exception is on its way no further item starts.
  pub raising-Starts_none :
      {workers : ℕ} {items : List T} {n : ℕ} {p : Pool T R} {e : Error} {us : List (Task T R)}
      → Reached fn workers items n p
      → p.phase ≡ raising e
      → ¬ Starts p.tasks us
  raising-Starts_none {items} {p} r at =
      λ m. Starts-queued m (subst (λ ph. Known fn items ph p.tasks) at (Reached-IsSound r).known).1

  ok-map_all :
      (ts : List (Task T R))
      → IsHonest fn ts
      → all_of is_ok ts ≡ true
      → map_all fn (map item_of ts) ≡ ok (results_of ts)
  ok-map_all [] hn o = refl
  ok-map_all ((x, finished (ok r)) ∷ ts) hn o = rw (hn.0, ok-map_all ts hn.1 o)
  ok-map_all ((x, finished (err e)) ∷ ts) hn o = cc
  ok-map_all ((x, queued) ∷ ts) hn o = cc
  ok-map_all ((x, running) ∷ ts) hn o = cc
  ok-map_all ((x, cancelled) ∷ ts) hn o = cc

  map_all-Blames : (items : List T) (e : Error) → map_all fn items ≡ err e → Blames fn e items
  map_all-Blames [] e h = cc
  map_all-Blames (x ∷ xs) e h =
      elim (>>=-eq-err (fn x) (λ r. map_all fn xs >>= λ rs. ok (r ∷ rs)) h) [
        | inl failed ↦ inl failed
        | inr (r, done, later) ↦ elim (>>=-eq-err (map_all fn xs) (λ rs. ok (r ∷ rs)) later) [
          | inl failed ↦ inr (map_all-Blames xs e failed)
          | inr (rs, all, clash) ↦ cc
        ]
      ]

  -- What the sequential loop would tell of the same outcome.
  abbrev pub Agrees : List T → Result Error (List R) → Type 0
  Agrees items (ok rs) = map_all fn items ≡ ok rs
  Agrees items (err e) = Blames fn e items

  map_all-Agrees :
      (items : List T) (out : Result Error (List R)) → map_all fn items ≡ out → Agrees items out
  map_all-Agrees items (ok rs) h = h
  map_all-Agrees items (err e) h = map_all-Blames items e h

  -- However its threads are interleaved, a call that gives a list gives the list of the sequential loop,
  -- and a call that raises raises what `fn` raises for one of the items.
  pub ParallelMap-Agrees :
      {jobs : Option ℕ} {items : List T} {out : Result Error (List R)}
      → ParallelMap fn jobs items out
      → Agrees items out
  ParallelMap-Agrees {items} (ParallelMap.inline one) = map_all-Agrees items _ refl
  ParallelMap-Agrees {items} (ParallelMap.returned n p r at d) =
      let sound = Reached-IsSound r in
      let settled = subst (λ ph. Known fn items ph p.tasks) at sound.known in
      subst (λ xs. map_all fn xs ≡ ok (results_of p.tasks)) sound.kept
        (ok-map_all p.tasks sound.honest settled)
  ParallelMap-Agrees {items} (ParallelMap.raised n p e r at d) =
      (subst (λ ph. Known fn items ph p.tasks) at (Reached-IsSound r).known).0
