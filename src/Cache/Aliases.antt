-- ===== src/Cache/Aliases.antt =====
-- The names of entries: `add_name` and `forget_name` keep a name to one entry.
use test_range.Prelude.{
  String, ◌==◌, eq_iff, ◌≡◌, ◌⊎◌, refl, sym, subst, ◌∙◌, false, Option, none, some, List, [], ◌∷◌,
  Dict, get, keys, contains, In, get-none_of_absent, contains-sorted, sorted, Bool-cases, inl, inr,
}
use test_range.Cache.Storage.{
  CacheEntryInfo, Files, store_sidecar, keep_read, read_each, with_name, apply, iter_entries,
  find_by_name,
}
use test_range.Cache.Crash.{IsFiled, get-put_cases}
use test_range.Cache.Entries.{IsEntry, find_by_name-IsEntry}

module _ (n : String) where
  with_name-In :
      (is : List CacheEntryInfo) (i : CacheEntryInfo) → with_name n is ≡ some i → In n i.names
  unfolding with_name
  with_name-In [] i e = cc
  with_name-In (j ∷ is) i e = elim (Bool-cases (contains n j.names)) [
    | inl here ↦
        let found : some j ≡ some i = rw here at e in
        let same : j ≡ i = cc in subst (λ (z : CacheEntryInfo). In n z.names) same here
    | inr there ↦ with_name-In is i (rw there at e)
  ]

  with_name-cons :
      (o : Option CacheEntryInfo) (is : List CacheEntryInfo)
      → (i : CacheEntryInfo) × (with_name n is ≡ some i)
      → (i : CacheEntryInfo) × (with_name n (keep_read o is) ≡ some i)
  unfolding with_name keep_read
  with_name-cons none is found = found
  with_name-cons (some j) is (i, e) = elim (Bool-cases (contains n j.names)) [
    | inl here ↦ (j, rw here refl)
    | inr there ↦ (i, rw there e)
  ]

  with_name-here :
      (o : Option CacheEntryInfo) (is : List CacheEntryInfo) (i : CacheEntryInfo)
      → o ≡ some i
      → In n i.names
      → with_name n (keep_read o is) ≡ some i
  unfolding with_name keep_read
  with_name-here none is i e h = cc
  with_name-here (some j) is i e h =
      let same : i ≡ j = cc in rw (subst (λ (z : CacheEntryInfo). In n z.names) same h) e

  -- A name of an entry that is read finds some entry.
  with_name-read_each :
      (d : Dict CacheEntryInfo) (ks : List String) (k : String) (i : CacheEntryInfo)
      → get d k ≡ some i
      → In n i.names
      → In k ks
      → (j : CacheEntryInfo) × (with_name n (read_each d ks) ≡ some j)
  unfolding read_each contains
  with_name-read_each d [] k i e h at = cc
  with_name-read_each d (l ∷ ks) k i e h at = elim (Bool-cases (l == k)) [
    | inl here ↦ (
      i,
      with_name-here (get d l) (read_each d ks) i
          (subst (λ m. get d m ≡ some i) (sym ((eq_iff l k).0 here)) e) h,
    )
    | inr there ↦
        with_name-cons (get d l) (read_each d ks)
          (with_name-read_each d ks k i e h (rw there at at))
  ]

get-In :
    (d : Dict CacheEntryInfo) (k : String) (i : CacheEntryInfo) → get d k ≡ some i → In k (keys d)
get-In d k i e = elim (Bool-cases (contains k (keys d))) [
  | inl present ↦ present
  | inr absent ↦ let gone : get d k ≡ none = get-none_of_absent d k absent in cc
]

module _ {C : Type 0} where
  -- No name belongs to two entries.
  abbrev pub IsUnambiguous : Files C → Type 0
  IsUnambiguous c =
      (k j : String) (i i' : CacheEntryInfo) (n : String)
      → get c.sidecars k ≡ some i
      → get c.sidecars j ≡ some i'
      → In n i.names
      → In n i'.names
      → k ≡ j

  find_by_name-found :
      (c : Files C) (n k : String) (i : CacheEntryInfo)
      → get c.sidecars k ≡ some i
      → In n i.names
      → (j : CacheEntryInfo) × (find_by_name n c ≡ some j)
  unfolding find_by_name iter_entries
  find_by_name-found c n k i e h =
      with_name-read_each n c.sidecars (sorted (keys c.sidecars)) k i e h
        (contains-sorted k (keys c.sidecars) ∙ get-In c.sidecars k i e)

  pub find_by_name-In :
      (c : Files C) (n : String) (i : CacheEntryInfo) → find_by_name n c ≡ some i → In n i.names
  unfolding find_by_name
  find_by_name-In c n i e = with_name-In n (iter_entries c) i e

  -- Where names are kept apart, a name finds the entry that has it.
  pub find_by_name-own :
      (digest : C → String) (c : Files C) (n k : String) (i : CacheEntryInfo)
      → IsFiled digest c
      → IsUnambiguous c
      → get c.sidecars k ≡ some i
      → In n i.names
      → find_by_name n c ≡ some i
  find_by_name-own digest c n k i f u e h =
      let (j, found) = find_by_name-found c n k i e h in
      let entry : IsEntry c.sidecars j = find_by_name-IsEntry f n j found in
      let same : k ≡ j.sha256 = u k j.sha256 i j n e entry h (find_by_name-In c n j found) in
      found ∙ sym entry ∙ subst (λ m. get c.sidecars m ≡ some i) same e

  -- Nobody has the name.
  abbrev pub IsUnused : String → Files C → Type 0
  IsUnused n c =
      (k : String) (i : CacheEntryInfo) → get c.sidecars k ≡ some i → contains n i.names ≡ false

  pub find_by_name-IsUnused : (c : Files C) (n : String) → find_by_name n c ≡ none → IsUnused n c
  find_by_name-IsUnused c n gone k i e = elim (Bool-cases (contains n i.names)) [
    | inl has ↦ let (j, found) = find_by_name-found c n k i e has in cc
    | inr free ↦ free
  ]

  pub store_sidecar-IsUnambiguous :
      (c : Files C) (k : String) (old new : CacheEntryInfo)
      → IsUnambiguous c
      → get c.sidecars k ≡ some old
      → ((n : String) → In n new.names → In n old.names ⊎ IsUnused n c)
      → IsUnambiguous (apply (store_sidecar k new) c)
  unfolding apply
  store_sidecar-IsUnambiguous c k old new u e kept a b i j n ea eb ha hb =
      elim (get-put_cases c.sidecars k a new i ea) [
        | inl (at_a, is_a) ↦ elim (get-put_cases c.sidecars k b new j eb) [
          | inl (at_b, is_b) ↦ sym at_a ∙ at_b
          | inr there ↦
              sym at_a
              ∙ met b j n there (subst (λ (z : CacheEntryInfo). In n z.names) (sym is_a) ha) hb
        ]
        | inr here ↦ elim (get-put_cases c.sidecars k b new j eb) [
          | inl (at_b, is_b) ↦
              sym (met a i n here (subst (λ (z : CacheEntryInfo). In n z.names) (sym is_b) hb) ha)
              ∙ at_b
          | inr there ↦ u a b i j n here there ha hb
        ]
      ]
    where
      met :
          (b : String) (j : CacheEntryInfo) (n : String)
          → get c.sidecars b ≡ some j
          → In n new.names
          → In n j.names
          → k ≡ b
      met b j n there ha hb = elim (kept n ha) [
        | inl was ↦ u k b old j n e there was hb
        | inr unused ↦ let clash : contains n j.names ≡ false = unused b j there in cc
      ]
