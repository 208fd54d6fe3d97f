-- ===== src/Orchestrator/Pool/Invariant.antt =====
-- The invariant of the pool: every step keeps it.
use test_range.Prelude.{
  ℕ, zero, suc, ◌≤◌, ◌≡◌, refl, ap, subst, ◌∙◌, true, false, ◌||◌, ◌⊎◌, inl, inr, none, some, List,
  [], ◌∷◌, map, length, any_of, all_of, Result, ok, err, arith, Bool-cases,
}
use test_range.Errors.{Error}
use test_range.Orchestrator.Pool.{
  queued, running, cancelled, finished, Phase, waiting, returning, scanning, cancelling, raising,
  Task, Pool, has_failed, has_ended, count_running, failure_at, cancel_at, Starts, Finishes, Step,
}
use test_range.Orchestrator.Pool.Moves.{
  same, starting, finishing, Moves, nil, cons, Starts-Moves, Finishes-Moves, is_cancelled, is_ok,
  item_of, fails_from, unqueued_below, Moves-items, Moves-uncancelled, Moves-fails_from, Moves-ok,
  Moves-unqueued_below,
}

module _ {T R : Type 0} (fn : T → Result Error R) where
  -- One of the items makes `fn` raise the exception.
  abbrev pub Blames : Error → List T → Type 0
  Blames e [] = ⊥
  Blames e (x ∷ xs) = (fn x ≡ err e) ⊎ Blames e xs

  -- Every result in the pool is what `fn` computes for its item.
  abbrev pub IsHonest : List (Task T R) → Type 0
  IsHonest [] = Unit
  IsHonest ((x, finished r) ∷ ts) = (fn x ≡ r) × IsHonest ts
  IsHonest ((x, queued) ∷ ts) = IsHonest ts
  IsHonest ((x, running) ∷ ts) = IsHonest ts
  IsHonest ((x, cancelled) ∷ ts) = IsHonest ts

  -- What the calling thread knows at its place.
  abbrev pub Known : List T → Phase → List (Task T R) → Type 0
  Known items waiting ts = any_of is_cancelled ts ≡ false
  Known items (scanning k) ts = (fails_from k ts || all_of is_ok ts) ≡ true
  Known items returning ts = all_of is_ok ts ≡ true
  Known items (cancelling k e) ts = Blames e items × (unqueued_below k ts ≡ true)
  Known items (raising e) ts = Blames e items × ((k : ℕ) → unqueued_below k ts ≡ true)

  pub record IsSound (workers : ℕ) (items : List T) (p : Pool T R) : Type 0 where
    pub kept : map item_of p.tasks ≡ items
    pub honest : IsHonest p.tasks
    pub bounded : count_running p.tasks ≤ workers
    pub known : Known items p.phase p.tasks

  Moves-IsHonest : {ts us : List (Task T R)} → Moves fn ts us → IsHonest ts → IsHonest us
  Moves-IsHonest nil h = tt
  Moves-IsHonest (cons x (finished r) _ ts us (same _) ms) h = (h.0, Moves-IsHonest ms h.1)
  Moves-IsHonest (cons x queued _ ts us (same _) ms) h = Moves-IsHonest ms h
  Moves-IsHonest (cons x running _ ts us (same _) ms) h = Moves-IsHonest ms h
  Moves-IsHonest (cons x cancelled _ ts us (same _) ms) h = Moves-IsHonest ms h
  Moves-IsHonest (cons x _ _ ts us starting ms) h = Moves-IsHonest ms h
  Moves-IsHonest (cons x _ _ ts us finishing ms) h = (refl, Moves-IsHonest ms h)

  Moves-Known :
      (items : List T) (ph : Phase) {ts us : List (Task T R)}
      → Moves fn ts us
      → Known items ph ts
      → Known items ph us
  Moves-Known items waiting ms h = Moves-uncancelled ms h
  Moves-Known items (scanning k) ms h = ground (arith, Moves-fails_from k ms, Moves-ok ms)
  Moves-Known items returning ms h = Moves-ok ms h
  Moves-Known items (cancelling k e) ms h = (h.0, Moves-unqueued_below k ms h.1)
  Moves-Known items (raising e) ms h = (h.0, λ k. Moves-unqueued_below k ms (h.1 k))

  count_running-Starts :
      {ts us : List (Task T R)} → Starts ts us → count_running us ≡ suc (count_running ts)
  count_running-Starts (Starts.here x ts) = omega arith
  count_running-Starts (Starts.past_running x ts us m) = omega (arith, count_running-Starts m)
  count_running-Starts (Starts.past_ended x s ts us d m) = omega (arith, count_running-Starts m)

  count_running-Finishes :
      {ts us : List (Task T R)} → Finishes fn ts us → suc (count_running us) ≡ count_running ts
  count_running-Finishes (Finishes.here x ts) = omega arith
  count_running-Finishes (Finishes.there x s ts us m) = omega (arith, count_running-Finishes m)

  ended-is_ok :
      (ts : List (Task T R))
      → any_of is_cancelled ts ≡ false
      → all_of has_ended ts ≡ true
      → any_of has_failed ts ≡ false
      → all_of is_ok ts ≡ true
  ended-is_ok [] c d f = refl
  ended-is_ok ((x, finished (ok r)) ∷ ts) c d f = ended-is_ok ts c d f
  ended-is_ok ((x, finished (err e)) ∷ ts) c d f = cc
  ended-is_ok ((x, queued) ∷ ts) c d f = cc
  ended-is_ok ((x, running) ∷ ts) c d f = cc
  ended-is_ok ((x, cancelled) ∷ ts) c d f = cc

  fails_from-nil : (k : ℕ) → fails_from {T = T} {R = R} k [] ≡ false
  fails_from-nil zero = refl
  fails_from-nil (suc k) = refl

  fails_from-suc :
      (k : ℕ) (ts : List (Task T R))
      → failure_at k ts ≡ none
      → fails_from k ts ≡ true
      → fails_from (suc k) ts ≡ true
  fails_from-suc k [] n f = ground (arith, fails_from-nil k)
  fails_from-suc zero ((x, s) ∷ ts) n f = ground arith
  fails_from-suc (suc k) (t ∷ ts) n f = fails_from-suc k ts n f

  fails_from-end : (k : ℕ) (ts : List (Task T R)) → length ts ≤ k → fails_from k ts ≡ false
  fails_from-end zero [] h = refl
  fails_from-end zero (t ∷ ts) h = absurd (omega arith)
  fails_from-end (suc k) [] h = refl
  fails_from-end (suc k) (t ∷ ts) h = fails_from-end k ts (omega arith)

  failure_at-Blames :
      (k : ℕ) (ts : List (Task T R)) (e : Error)
      → IsHonest ts
      → failure_at k ts ≡ some e
      → Blames e (map item_of ts)
  failure_at-Blames k [] e hn f = cc
  failure_at-Blames zero ((x, finished (err e')) ∷ ts) e hn f = inl cc
  failure_at-Blames zero ((x, finished (ok r)) ∷ ts) e hn f = cc
  failure_at-Blames zero ((x, queued) ∷ ts) e hn f = cc
  failure_at-Blames zero ((x, running) ∷ ts) e hn f = cc
  failure_at-Blames zero ((x, cancelled) ∷ ts) e hn f = cc
  failure_at-Blames (suc k) ((x, finished r) ∷ ts) e hn f = inr (failure_at-Blames k ts e hn.1 f)
  failure_at-Blames (suc k) ((x, queued) ∷ ts) e hn f = inr (failure_at-Blames k ts e hn f)
  failure_at-Blames (suc k) ((x, running) ∷ ts) e hn f = inr (failure_at-Blames k ts e hn f)
  failure_at-Blames (suc k) ((x, cancelled) ∷ ts) e hn f = inr (failure_at-Blames k ts e hn f)

  cancel_at-items : (k : ℕ) (ts : List (Task T R)) → map item_of (cancel_at k ts) ≡ map item_of ts
  cancel_at-items k [] = refl
  cancel_at-items zero ((x, s) ∷ ts) = refl
  cancel_at-items (suc k) ((x, s) ∷ ts) = ap (λ xs. x ∷ xs) (cancel_at-items k ts)

  cancel_at-count_running :
      (k : ℕ) (ts : List (Task T R)) → count_running (cancel_at k ts) ≡ count_running ts
  cancel_at-count_running k [] = refl
  cancel_at-count_running zero ((x, queued) ∷ ts) = refl
  cancel_at-count_running zero ((x, running) ∷ ts) = refl
  cancel_at-count_running zero ((x, cancelled) ∷ ts) = refl
  cancel_at-count_running zero ((x, finished r) ∷ ts) = refl
  cancel_at-count_running (suc k) ((x, s) ∷ ts) = omega (arith, cancel_at-count_running k ts)

  cancel_at-IsHonest : (k : ℕ) (ts : List (Task T R)) → IsHonest ts → IsHonest (cancel_at k ts)
  cancel_at-IsHonest k [] h = tt
  cancel_at-IsHonest zero ((x, queued) ∷ ts) h = h
  cancel_at-IsHonest zero ((x, running) ∷ ts) h = h
  cancel_at-IsHonest zero ((x, cancelled) ∷ ts) h = h
  cancel_at-IsHonest zero ((x, finished r) ∷ ts) h = h
  cancel_at-IsHonest (suc k) ((x, queued) ∷ ts) h = cancel_at-IsHonest k ts h
  cancel_at-IsHonest (suc k) ((x, running) ∷ ts) h = cancel_at-IsHonest k ts h
  cancel_at-IsHonest (suc k) ((x, cancelled) ∷ ts) h = cancel_at-IsHonest k ts h
  cancel_at-IsHonest (suc k) ((x, finished r) ∷ ts) h = (h.0, cancel_at-IsHonest k ts h.1)

  cancel_at-unqueued_below :
      (k : ℕ) (ts : List (Task T R))
      → unqueued_below k ts ≡ true
      → unqueued_below (suc k) (cancel_at k ts) ≡ true
  cancel_at-unqueued_below k [] h = refl
  cancel_at-unqueued_below zero ((x, queued) ∷ ts) h = refl
  cancel_at-unqueued_below zero ((x, running) ∷ ts) h = refl
  cancel_at-unqueued_below zero ((x, cancelled) ∷ ts) h = refl
  cancel_at-unqueued_below zero ((x, finished r) ∷ ts) h = refl
  cancel_at-unqueued_below (suc k) ((x, s) ∷ ts) h = ground (arith, cancel_at-unqueued_below k ts)

  unqueued_below-length :
      (k : ℕ) (ts : List (Task T R))
      → length ts ≤ k
      → unqueued_below k ts ≡ true
      → (j : ℕ) → unqueued_below j ts ≡ true
  unqueued_below-length k ts l h zero = refl
  unqueued_below-length k [] l h (suc j) = refl
  unqueued_below-length zero (t ∷ ts) l h (suc j) = absurd (omega arith)
  unqueued_below-length (suc k) (t ∷ ts) l h (suc j) =
      let below : unqueued_below k ts ≡ true = ground arith in
      ground (arith, unqueued_below-length k ts (omega arith) below j)

  wake-Known :
      (items : List T) (ts : List (Task T R))
      → any_of is_cancelled ts ≡ false
      → (any_of has_failed ts || all_of has_ended ts) ≡ true
      → Known items (scanning 0) ts
  wake-Known items ts c w = elim (Bool-cases (any_of has_failed ts)) [
    | inl f ↦ ground arith
    | inr n ↦ let o : all_of is_ok ts ≡ true = ended-is_ok ts c (ground arith) n in ground arith
  ]

  pub Step-IsSound :
      (workers : ℕ) (items : List T) {p q : Pool T R}
      → Step fn workers p q
      → IsSound workers items p
      → IsSound workers items q
  Step-IsSound workers items (Step.start_item ts us ph l m) sound = record {
    kept = Moves-items (Starts-Moves fn m) ∙ sound.kept;
    honest = Moves-IsHonest (Starts-Moves fn m) sound.honest;
    bounded = omega (arith, count_running-Starts m);
    known = Moves-Known items ph (Starts-Moves fn m) sound.known;
  }
  Step-IsSound workers items (Step.finish_item ts us ph m) sound = record {
    kept = Moves-items (Finishes-Moves fn m) ∙ sound.kept;
    honest = Moves-IsHonest (Finishes-Moves fn m) sound.honest;
    bounded = omega (arith, count_running-Finishes m, sound.bounded);
    known = Moves-Known items ph (Finishes-Moves fn m) sound.known;
  }
  Step-IsSound workers items (Step.wake ts w) sound = record {
    kept = sound.kept;
    honest = sound.honest;
    bounded = sound.bounded;
    known = wake-Known items ts sound.known w;
  }
  Step-IsSound workers items (Step.pass ts k l n) sound = record {
    kept = sound.kept;
    honest = sound.honest;
    bounded = sound.bounded;
    known = ground (arith, fails_from-suc k ts n, sound.known);
  }
  Step-IsSound workers items (Step.found ts k e f) sound = record {
    kept = sound.kept;
    honest = sound.honest;
    bounded = sound.bounded;
    known = (subst (Blames e) sound.kept (failure_at-Blames k ts e sound.honest f), refl);
  }
  Step-IsSound workers items (Step.no_failure ts k l) sound = record {
    kept = sound.kept;
    honest = sound.honest;
    bounded = sound.bounded;
    known = ground (arith, fails_from-end k ts l, sound.known);
  }
  Step-IsSound workers items (Step.drop_pending ts k e l) sound = record {
    kept = cancel_at-items k ts ∙ sound.kept;
    honest = cancel_at-IsHonest k ts sound.honest;
    bounded = omega (arith, cancel_at-count_running k ts, sound.bounded);
    known = (sound.known.0, cancel_at-unqueued_below k ts sound.known.1);
  }
  Step-IsSound workers items (Step.raise ts k e l) sound = record {
    kept = sound.kept;
    honest = sound.honest;
    bounded = sound.bounded;
    known = (sound.known.0, unqueued_below-length k ts l sound.known.1);
  }
