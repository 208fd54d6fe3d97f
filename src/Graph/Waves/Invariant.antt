-- ===== src/Graph/Waves/Invariant.antt =====
-- The sets that the loop of `_compute_waves` builds.
use test_range.Prelude.{
  String, ◌≡◌, refl, sym, subst, ◌∙◌, In-cons_cases, ◌⊎◌, inl, inr, Bool, true, false, not, ◌&&◌,
  ◌||◌, List, [], ◌∷◌, ◌++◌, contains, add, subset, sorted, arith, eq_iff, contains-add,
  append_assoc, append-nil, Distinct, In, Bool-cases, eq_refl, Distinct-add, contains-append,
  In-cons_self, In-ne, In-In_cons, contains-sorted, Distinct-sorted,
}
use test_range.Graph.Waves.{Adjacency, neighbours, update, is_ready, collect, next_wave}

-- A wave disjoint from what is done is appended as it stands.
pub update_fresh :
    (done current : List String)
    → Distinct current
    → ((x : String) → In x current → contains x done ≡ false)
    → update done current ≡ done ++ current
unfolding update add
update_fresh done [] d h = rw append-nil
update_fresh done (c ∷ cs) d h =
    rw (h c (In-cons_self c cs))
      (update_fresh (done ++ c ∷ []) cs d.1 (λ x m. fresh x m) ∙ append_assoc done (c ∷ []) cs)
  where
    fresh : (x : String) → In x cs → contains x (done ++ c ∷ []) ≡ false
    fresh x m = rw contains-append (
        unfold contains in
        ground (arith, h x (In-In_cons x c cs m), In-ne c x cs d.0 m, eq_iff c x))

-- What the two inner loops add to the next wave.
module _ (deps : Adjacency) (done : List String) where
  contains-collect :
      (dependents : Adjacency) (x : String) (nxt rest : List String)
      → contains x (collect deps dependents done nxt rest)
        ≡ (contains x nxt || (contains x rest && (not (contains x done) && is_ready deps done x)))
  unfolding collect contains
  contains-collect dependents x nxt [] = ground arith
  contains-collect dependents x nxt (n ∷ rest) = ground (
    arith,
    eq_iff n x,
    contains-add x n nxt,
    contains-collect dependents x nxt rest,
    contains-collect dependents x (add n nxt) rest,
  )

  Distinct-collect :
      (dependents : Adjacency) (nxt rest : List String)
      → Distinct nxt
      → Distinct (collect deps dependents done nxt rest)
  unfolding collect
  Distinct-collect dependents nxt [] d = d
  Distinct-collect dependents nxt (n ∷ rest) d =
      elim (Bool-cases (not (contains n done) && is_ready deps done n)) [
        | inl new ↦ rw new (Distinct-collect dependents (add n nxt) rest (Distinct-add n nxt d))
        | inr old ↦ rw old (Distinct-collect dependents nxt rest d)
      ]

module _ (dependents : Adjacency) where
  -- Some name of the wave has `x` among its dependents.
  pub feeds : List String → String → Bool
  feeds [] x = false
  feeds (finished ∷ current) x = contains x (neighbours dependents finished) || feeds current x

  pub In-feeds :
      (c x : String) (current : List String)
      → In c current
      → In x (neighbours dependents c)
      → feeds current x ≡ true
  unfolding feeds contains
  In-feeds c x [] m h = cc
  In-feeds c x (k ∷ cs) m h = elim (In-cons_cases c k cs m) [
    | inl e ↦ let here = subst (λ z. In x (neighbours dependents z)) (sym e) h in ground arith
    | inr r ↦ ground (arith, In-feeds c x cs r h)
  ]

  pub feeds_cases :
      (x : String) (current : List String)
      → feeds current x ≡ true
      → (c : String) × In x (neighbours dependents c)
  unfolding feeds
  feeds_cases x [] h = cc
  feeds_cases x (c ∷ cs) h = elim (Bool-cases (contains x (neighbours dependents c))) [
    | inl here ↦ (c, here)
    | inr other ↦ feeds_cases x cs (rw other at h)
  ]

module _ (deps dependents : Adjacency) (done : List String) where
  contains-next_wave_from :
      (x : String) (nxt current : List String)
      → contains x (next_wave deps dependents done nxt current) ≡ (
          contains x nxt
          || (feeds dependents current x && (not (contains x done) && is_ready deps done x)))
  unfolding next_wave feeds
  contains-next_wave_from x nxt [] = ground arith
  contains-next_wave_from x nxt (c ∷ cs) = ground (
    arith,
    contains-collect deps done dependents x nxt (neighbours dependents c),
    contains-next_wave_from x (collect deps dependents done nxt (neighbours dependents c)) cs,
  )

  Distinct-next_wave_from :
      (nxt current : List String)
      → Distinct nxt
      → Distinct (next_wave deps dependents done nxt current)
  unfolding next_wave
  Distinct-next_wave_from nxt [] d = d
  Distinct-next_wave_from nxt (c ∷ cs) d =
      Distinct-next_wave_from (collect deps dependents done nxt (neighbours dependents c)) cs
        (Distinct-collect deps done dependents nxt (neighbours dependents c) d)

  -- The next wave: what the finished wave feeds, is not done, and has all its dependencies done.
  pub contains-next_wave :
      (x : String) (current : List String)
      → contains x (sorted (next_wave deps dependents done [] current))
        ≡ (feeds dependents current x && (not (contains x done) && is_ready deps done x))
  contains-next_wave x current =
      rw contains-sorted (unfold contains in contains-next_wave_from x [] current)

  pub Distinct-next_wave :
      (current : List String) → Distinct (sorted (next_wave deps dependents done [] current))
  Distinct-next_wave current = Distinct-sorted _ (Distinct-next_wave_from [] current tt)

-- Of a set that is not contained in another, a member that is missing.
pub subset_cases :
    (xs ys : List String) → (subset xs ys ≡ true) ⊎ (x : String) × In x xs × (contains x ys ≡ false)
unfolding subset contains
subset_cases [] ys = inl refl
subset_cases (x ∷ xs) ys = elim (Bool-cases (contains x ys)) [
  | inr out ↦ inr (x, (rw eq_refl), out)
  | inl old ↦ elim (subset_cases xs ys) [
    | inl all ↦ inl (rw (old, all))
    | inr (z, m, out) ↦ inr (z, ground arith, out)
  ]
]
