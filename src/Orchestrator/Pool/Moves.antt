-- ===== src/Orchestrator/Pool/Moves.antt =====
-- What the steps of a worker keep of the list of tasks.
use test_range.Prelude.{
  ℕ, zero, suc, ◌≡◌, refl, ap, Bool, true, false, ◌&&◌, not, List, [], ◌∷◌, map, any_of, all_of,
  Result, ok, err, arith,
}
use test_range.Errors.{Error}
use test_range.Orchestrator.Pool.{
  Status, queued, running, cancelled, finished, Task, has_failed, Starts, Finishes,
}

module _ {T R : Type 0} (fn : T → Result Error R) where
  pub data Moved (x : T) : Status R → Status R → Type 0 where
    same : (s : Status R) → Moved x s s
    starting : Moved x queued running
    finishing : Moved x running (finished (fn x))

  pub data Moves : List (Task T R) → List (Task T R) → Type 0 where
    nil : Moves [] []
    cons :
        (x : T) (s s' : Status R) (ts us : List (Task T R))
        → Moved x s s'
        → Moves ts us
        → Moves ((x, s) ∷ ts) ((x, s') ∷ us)

  Moves-refl : (ts : List (Task T R)) → Moves ts ts
  Moves-refl [] = nil
  Moves-refl ((x, s) ∷ ts) = cons x s s ts ts (same s) (Moves-refl ts)

  pub Starts-Moves : {ts us : List (Task T R)} → Starts ts us → Moves ts us
  Starts-Moves (Starts.here x ts) = cons x queued running ts ts starting (Moves-refl ts)
  Starts-Moves (Starts.past_running x ts us m) =
      cons x running running ts us (same running) (Starts-Moves m)
  Starts-Moves (Starts.past_ended x s ts us d m) = cons x s s ts us (same s) (Starts-Moves m)

  pub Finishes-Moves : {ts us : List (Task T R)} → Finishes fn ts us → Moves ts us
  Finishes-Moves (Finishes.here x ts) =
      cons x running (finished (fn x)) ts ts finishing (Moves-refl ts)
  Finishes-Moves (Finishes.there x s ts us m) = cons x s s ts us (same s) (Finishes-Moves m)

module _ {T R : Type 0} where
  abbrev pub is_cancelled : Task T R → Bool
  is_cancelled (x, cancelled) = true
  is_cancelled (x, queued) = false
  is_cancelled (x, running) = false
  is_cancelled (x, finished r) = false

  abbrev pub is_queued : Task T R → Bool
  is_queued (x, queued) = true
  is_queued (x, cancelled) = false
  is_queued (x, running) = false
  is_queued (x, finished r) = false

  abbrev pub is_ok : Task T R → Bool
  is_ok (x, finished (ok r)) = true
  is_ok (x, finished (err e)) = false
  is_ok (x, queued) = false
  is_ok (x, running) = false
  is_ok (x, cancelled) = false

  abbrev pub item_of : Task T R → T
  item_of (x, s) = x

  -- a failure at a position from `k` on
  abbrev pub fails_from : ℕ → List (Task T R) → Bool
  fails_from zero ts = any_of has_failed ts
  fails_from (suc k) [] = false
  fails_from (suc k) (t ∷ ts) = fails_from k ts

  -- no queued item at a position below `k`
  abbrev pub unqueued_below : ℕ → List (Task T R) → Bool
  unqueued_below zero ts = true
  unqueued_below (suc k) [] = true
  unqueued_below (suc k) (t ∷ ts) = not (is_queued t) && unqueued_below k ts

  module _ {fn : T → Result Error R} where
    pub Moves-items : {ts us : List (Task T R)} → Moves fn ts us → map item_of us ≡ map item_of ts
    Moves-items nil = refl
    Moves-items (cons x s s' ts us m ms) = ap (λ xs. x ∷ xs) (Moves-items ms)

    pub Moves-uncancelled :
        {ts us : List (Task T R)}
        → Moves fn ts us
        → any_of is_cancelled ts ≡ false
        → any_of is_cancelled us ≡ false
    Moves-uncancelled nil h = refl
    Moves-uncancelled (cons x s _ ts us (same _) ms) h = ground (arith, Moves-uncancelled ms)
    Moves-uncancelled (cons x _ _ ts us starting ms) h = Moves-uncancelled ms h
    Moves-uncancelled (cons x _ _ ts us finishing ms) h = Moves-uncancelled ms h

    Moves-any_failed :
        {ts us : List (Task T R)}
        → Moves fn ts us
        → any_of has_failed ts ≡ true
        → any_of has_failed us ≡ true
    Moves-any_failed nil h = h
    Moves-any_failed (cons x s _ ts us (same _) ms) h = ground (arith, Moves-any_failed ms)
    Moves-any_failed (cons x _ _ ts us starting ms) h = Moves-any_failed ms h
    Moves-any_failed (cons x _ _ ts us finishing ms) h = ground (arith, Moves-any_failed ms)

    pub Moves-fails_from :
        (k : ℕ) {ts us : List (Task T R)}
        → Moves fn ts us
        → fails_from k ts ≡ true
        → fails_from k us ≡ true
    Moves-fails_from zero ms h = Moves-any_failed ms h
    Moves-fails_from (suc k) nil h = h
    Moves-fails_from (suc k) (cons x s s' ts us m ms) h = Moves-fails_from k ms h

    pub Moves-ok :
        {ts us : List (Task T R)} → Moves fn ts us → all_of is_ok ts ≡ true → all_of is_ok us ≡ true
    Moves-ok nil h = refl
    Moves-ok (cons x s _ ts us (same _) ms) h = ground (arith, Moves-ok ms)
    Moves-ok (cons x _ _ ts us starting ms) h = cc
    Moves-ok (cons x _ _ ts us finishing ms) h = cc

    pub Moves-unqueued_below :
        (k : ℕ) {ts us : List (Task T R)}
        → Moves fn ts us
        → unqueued_below k ts ≡ true
        → unqueued_below k us ≡ true
    Moves-unqueued_below zero ms h = refl
    Moves-unqueued_below (suc k) nil h = refl
    Moves-unqueued_below (suc k) (cons x s _ ts us (same _) ms) h =
        ground (arith, Moves-unqueued_below k ms)
    Moves-unqueued_below (suc k) (cons x _ _ ts us starting ms) h = cc
    Moves-unqueued_below (suc k) (cons x _ _ ts us finishing ms) h = Moves-unqueued_below k ms h
