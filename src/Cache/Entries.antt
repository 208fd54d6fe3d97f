-- ===== src/Cache/Entries.antt =====
-- The entries that a call finds are the ones that are filed.
use test_range.Prelude.{
  String, ◌==◌, ◌≡◌, refl, sym, ap, subst, Bool, Option, none, some, List, [], ◌∷◌, Dict, get, keys,
  contains, keep_if, sorted, ok, >>-eq-ok, raise_if, if◌then◌else◌, Bool-cases, All, inl, inr,
}
use test_range.Errors.{value_error}
use test_range.Cache.Spelling.{looks_like_sha, starts_with}
use test_range.Cache.Storage.{
  CacheEntryInfo, Files, keep_read, read_each, with_name, only_one, found_or_miss, iter_entries,
  find_by_name, resolve,
}
use test_range.Cache.Crash.{IsFiled}

abbrev pub IsEntry : Dict CacheEntryInfo → CacheEntryInfo → Type 0
IsEntry d i = get d i.sha256 ≡ some i

module _ (d : Dict CacheEntryInfo)
    (filed : (k : String) (i : CacheEntryInfo) → get d k ≡ some i → i.sha256 ≡ k) where
  keep_read-IsEntry :
      (k : String) (o : Option CacheEntryInfo) (is : List CacheEntryInfo)
      → get d k ≡ o
      → All (IsEntry d) is
      → All (IsEntry d) (keep_read o is)
  unfolding keep_read
  keep_read-IsEntry k none is e h = h
  keep_read-IsEntry k (some i) is e h = (subst (λ m. get d m ≡ some i) (sym (filed k i e)) e, h)

  read_each-IsEntry : (ks : List String) → All (IsEntry d) (read_each d ks)
  unfolding read_each
  read_each-IsEntry [] = tt
  read_each-IsEntry (k ∷ ks) =
      keep_read-IsEntry k (get d k) (read_each d ks) refl (read_each-IsEntry ks)

keep_if-IsEntry :
    (d : Dict CacheEntryInfo) (p : CacheEntryInfo → Bool) (is : List CacheEntryInfo)
    → All (IsEntry d) is
    → All (IsEntry d) (keep_if p is)
keep_if-IsEntry d p [] h = tt
keep_if-IsEntry d p (i ∷ is) h = elim (Bool-cases (p i)) [
  | inl yes' ↦ rw yes' (h.0, keep_if-IsEntry d p is h.1)
  | inr no' ↦ rw no' (keep_if-IsEntry d p is h.1)
]

with_name-IsEntry :
    (d : Dict CacheEntryInfo) (n : String) (is : List CacheEntryInfo) (i : CacheEntryInfo)
    → All (IsEntry d) is
    → with_name n is ≡ some i
    → IsEntry d i
unfolding with_name
with_name-IsEntry d n [] i h e = cc
with_name-IsEntry d n (j ∷ is) i h e = elim (Bool-cases (contains n j.names)) [
  | inl here ↦
      let found : some j ≡ some i = rw here at e in
      let same : j ≡ i = cc in subst (IsEntry d) same h.0
  | inr there ↦ with_name-IsEntry d n is i h.1 (rw there at e)
]

only_one-IsEntry :
    (d : Dict CacheEntryInfo) (identifier : String) (is : List CacheEntryInfo) (i : CacheEntryInfo)
    → All (IsEntry d) is
    → only_one identifier is ≡ ok i
    → IsEntry d i
unfolding only_one
only_one-IsEntry d identifier [] i h e = cc
only_one-IsEntry d identifier (j ∷ []) i h e = let same : j ≡ i = cc in subst (IsEntry d) same h.0
only_one-IsEntry d identifier (j ∷ k ∷ is) i h e = cc

pub found_or_miss-eq-ok :
    (n : String) (o : Option CacheEntryInfo) (i : CacheEntryInfo)
    → found_or_miss n o ≡ ok i
    → o ≡ some i
unfolding found_or_miss
found_or_miss-eq-ok n none i e = cc
found_or_miss-eq-ok n (some j) i e = let same : j ≡ i = cc in ap some same

module _ {C : Type 0} {digest : C → String} {c : Files C} (f : IsFiled digest c) where
  pub iter_entries-IsEntry : All (IsEntry c.sidecars) (iter_entries c)
  unfolding iter_entries
  iter_entries-IsEntry = read_each-IsEntry c.sidecars f.filed (sorted (keys c.sidecars))

  pub find_by_name-IsEntry :
      (n : String) (i : CacheEntryInfo) → find_by_name n c ≡ some i → IsEntry c.sidecars i
  unfolding find_by_name
  find_by_name-IsEntry n i e =
      with_name-IsEntry c.sidecars n (iter_entries c) i iter_entries-IsEntry e

  pub found_or_miss-IsEntry :
      (n : String) (i : CacheEntryInfo)
      → found_or_miss n (find_by_name n c) ≡ ok i
      → IsEntry c.sidecars i
  found_or_miss-IsEntry n i e =
      find_by_name-IsEntry n i (found_or_miss-eq-ok n (find_by_name n c) i e)

  pub resolve-IsEntry :
      (n : String) (i : CacheEntryInfo) → resolve n c ≡ ok i → IsEntry c.sidecars i
  unfolding resolve
  resolve-IsEntry n i e = elim (Bool-cases (looks_like_sha n)) [
    | inl sha ↦
        only_one-IsEntry c.sidecars n (keep_if (λ i. starts_with n i.sha256) (iter_entries c)) i
          (keep_if-IsEntry c.sidecars (λ i. starts_with n i.sha256) (iter_entries c)
            iter_entries-IsEntry)
          (rw sha at picked)
    | inr name ↦ found_or_miss-IsEntry n i (rw name at picked)
  ]
    where
      picked :
          (if looks_like_sha n
            then only_one n (keep_if (λ i. starts_with n i.sha256) (iter_entries c))
            else found_or_miss n (find_by_name n c))
          ≡ ok i
      picked = (>>-eq-ok (raise_if (n == "") (record { class = value_error; about = [] })) _ e).1
