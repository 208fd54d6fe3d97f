-- ===== src/Graph/Waves/Exact.antt =====
-- The waves that `_compute_waves` returns, wave by wave, and the rounds that its loop takes.
use test_range.Prelude.{
  ℕ, zero, suc, ◌+◌, ◌≤◌, String, ◌≡◌, refl, sym, ap, subst, ◌∙◌, inl, inr, true, false, not, ◌&&◌,
  some, List, [], ◌∷◌, ◌++◌, length, contains, sorted, arith, append_assoc, append-nil, Distinct,
  In, subset-In, contains-append, In-cons_self, In-cons_cases, concat, length-append,
  Distinct-append, length-le_of_In,
}
use test_range.Graph.Waves.{Adjacency, neighbours, is_ready, next_wave, levels}
use test_range.Graph.Waves.Invariant.{
  update_fresh, feeds, feeds_cases, contains-next_wave, Distinct-next_wave, In-feeds, subset_cases,
}

-- Each wave holds exactly the names that no earlier wave holds and whose dependencies all stand in
-- earlier waves.
abbrev pub IsExact : Adjacency → List String → List String → List (List String) → Type 0
IsExact deps names seen [] = Unit
IsExact deps names seen (wave ∷ waves) =
    ((x : String) → In x names → contains x wave ≡ (not (contains x seen) && is_ready deps seen x))
    × IsExact deps names (seen ++ wave) waves

IsExact-snoc :
    (deps : Adjacency) (names seen : List String) (waves : List (List String)) (wave : List String)
    → IsExact deps names seen waves
    → IsExact deps names (seen ++ concat waves) (wave ∷ [])
    → IsExact deps names seen (waves ++ wave ∷ [])
IsExact-snoc deps names seen [] wave e h = rw append-nil at h
IsExact-snoc deps names seen (w ∷ ws) wave e h =
    (e.0, IsExact-snoc deps names (seen ++ w) ws wave e.1 (rw append_assoc h))

concat-snoc :
    (waves : List (List String)) (wave : List String)
    → concat (waves ++ wave ∷ []) ≡ concat waves ++ wave
concat-snoc [] wave = append-nil wave
concat-snoc (w ∷ ws) wave = rw (concat-snoc ws wave) (sym (append_assoc w (concat ws) wave))

-- What holds between the rounds of the loop.
pub record IsFrontier (deps : Adjacency) (names done current : List String) : Type 0 where
  pub done_distinct : Distinct done
  pub current_distinct : Distinct current
  pub fresh : (x : String) → In x current → contains x done ≡ false
  pub known : (x : String) → In x (done ++ current) → In x names
  pub exact :
      (x : String)
      → In x names
      → contains x current ≡ (not (contains x done) && is_ready deps done x)

-- The result of the loop: the waves in a row are what is done, and no further name is ready.
pub record IsSchedule (deps : Adjacency) (names done : List String) (waves : List (List String))
    : Type 0 where
  pub flat : concat waves ≡ done
  pub layers : IsExact deps names [] waves
  pub frontier : IsFrontier deps names done []

module _ (deps dependents : Adjacency) (names : List String)
    (converse : (c x : String) → In c (neighbours deps x) → In x (neighbours dependents c))
    (listed : (c x : String) → In x (neighbours dependents c) → In x names) where
  module _ {done current : List String} (f : IsFrontier deps names done current) where
    -- A name that the finished wave makes ready depends on that wave.
    newly_ready_fed :
        (x : String)
        → In x names
        → contains x (done ++ current) ≡ false
        → is_ready deps (done ++ current) x ≡ true
        → feeds dependents current x ≡ true
    unfolding is_ready
    newly_ready_fed x m new ready = elim (subset_cases (neighbours deps x) done) [
      | inl old ↦ ground (arith, f.exact x m, contains-append x done current)
      | inr (d, needed, undone) ↦
          let placed = subset-In d (neighbours deps x) (done ++ current) ready needed in
          In-feeds dependents d x current (ground (arith, contains-append d done current))
            (converse d x needed)
    ]

    exact_next :
        (x : String)
        → In x names
        → contains x (sorted (next_wave deps dependents (done ++ current) [] current))
          ≡ (not (contains x (done ++ current)) && is_ready deps (done ++ current) x)
    exact_next x m =
        ground (
          arith,
          contains-next_wave deps dependents (done ++ current) x current,
          newly_ready_fed x m,
        )

    known_next :
        (x : String)
        → In x (sorted (next_wave deps dependents (done ++ current) [] current))
        → In x names
    known_next x h =
        let fed : feeds dependents current x ≡ true =
          ground (arith, contains-next_wave deps dependents (done ++ current) x current) in
        let (c, m) = feeds_cases dependents x current fed in listed c x m

    IsFrontier-next :
        IsFrontier deps names
          (done ++ current)
          (sorted (next_wave deps dependents (done ++ current) [] current))
    IsFrontier-next = record {
      done_distinct =
          Distinct-append done current f.done_distinct f.current_distinct
            (λ x h. ground (arith, f.fresh x));
      current_distinct = Distinct-next_wave deps dependents (done ++ current) current;
      fresh = λ x h. ground (arith, contains-next_wave deps dependents (done ++ current) x current);
      known = λ x h. ground (
        arith,
        contains-append x (done ++ current)
            (sorted (next_wave deps dependents (done ++ current) [] current)),
        f.known x,
        known_next x,
      );
      exact = exact_next;
    }

  -- A name that the wave holds is one more than what is done.
  room :
      {done current : List String} {c : String}
      → IsFrontier deps names done (c ∷ current)
      → suc (length done) ≤ length names
  room {done} {current} {c} f =
      length-le_of_In (c ∷ done) names (f.fresh c (In-cons_self c current), f.done_distinct)
        λ x m. f.known x (elim (In-cons_cases x c done m) [
          | inl e ↦ ground (
            arith,
            contains-append x done (c ∷ current),
            subst (λ z. In z (c ∷ current)) e (In-cons_self c current),
          )
          | inr old ↦ ground (arith, contains-append x done (c ∷ current))
        ])

  -- With a round for each name left, the loop ends, and its result is a schedule.
  pub levels-IsSchedule :
      (fuel : ℕ) (done : List String) (waves : List (List String)) (current : List String)
      → length names ≤ fuel + length done
      → concat waves ≡ done
      → IsExact deps names [] waves
      → IsFrontier deps names done current
      → (result : List String × List (List String)) × (levels deps dependents fuel done waves
            current
          ≡ some result)
        × IsSchedule deps names result.0 result.1
  unfolding levels
  levels-IsSchedule fuel done waves [] bound flat layers f =
      ((done, waves), refl, record { flat = flat; layers = layers; frontier = f })
  levels-IsSchedule zero done waves (c ∷ cs) bound flat layers f = absurd (omega (arith, room f))
  levels-IsSchedule (suc fuel) done waves (c ∷ cs) bound flat layers f =
      subst
        (λ after.
          (result : List String × List (List String)) × (levels deps dependents fuel after
              (waves ++ (c ∷ cs) ∷ []) (sorted (next_wave deps dependents after [] (c ∷ cs)))
            ≡ some result)
          × IsSchedule deps names result.0 result.1)
        (sym (update_fresh done (c ∷ cs) f.current_distinct f.fresh))
        (levels-IsSchedule fuel (done ++ c ∷ cs) (waves ++ (c ∷ cs) ∷ [])
          (sorted (next_wave deps dependents (done ++ c ∷ cs) [] (c ∷ cs)))
          (omega (arith, length-append done (c ∷ cs)))
          (concat-snoc waves (c ∷ cs) ∙ ap (λ l. l ++ c ∷ cs) flat)
          (IsExact-snoc deps names [] waves (c ∷ cs) layers (rw flat (f.exact, tt)))
          (IsFrontier-next f))
