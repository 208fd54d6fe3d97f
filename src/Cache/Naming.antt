-- ===== src/Cache/Naming.antt =====
-- What `add_name` and `forget_name` do to the names.
use test_range.Prelude.{
  String, ◌==◌, eq_iff, eq_refl, ◌≡◌, ◌⊎◌, refl, sym, subst, ◌∙◌, true, false, not, Option, none,
  some, List, [], ◌∷◌, ◌++◌, get, put, contains, In, get-put, contains-append, keep_if, Result, ok,
  ◌>>=◌, >>=-eq-ok, >>-eq-ok, raise_if-eq-ok, ok-injective, raise_if, arith, Bool-cases,
  Option-cases, inl, inr,
}
use test_range.Errors.{Error, cache_error}
use test_range.Cache.Spelling.{validate_cache_name}
use test_range.Cache.Storage.{
  CacheEntryInfo, Files, Write, store_sidecar, apply, apply_all, find_by_name, found_or_miss,
  resolve,
}
use test_range.Cache.Local.{
  or_kept, drop_name, forget_name, append_alias, alias_resolved, add_name, clashes,
}
use test_range.Cache.Crash.{IsFiled, apply-IsFiled, get-put_cases}
use test_range.Cache.Entries.{IsEntry, find_by_name-IsEntry, found_or_miss-eq-ok, resolve-IsEntry}
use test_range.Cache.Aliases.{
  IsUnambiguous, IsUnused, find_by_name-own, find_by_name-IsUnused, find_by_name-In,
  store_sidecar-IsUnambiguous,
}

contains-snoc : (m n : String) (ns : List String) → In m (ns ++ n ∷ []) → In m ns ⊎ (n ≡ m)
unfolding contains
contains-snoc m n ns h = ground (arith, contains-append m ns (n ∷ []), eq_iff n m)

contains-keep_other :
    (m n : String) (ns : List String)
    → In m (keep_if (λ z. not (z == n)) ns)
    → In m ns × ((m == n) ≡ false)
unfolding contains
contains-keep_other m n [] h = cc
contains-keep_other m n (z ∷ ns) h = elim (Bool-cases (z == n)) [
  | inl dropped ↦
      let (at, other) = contains-keep_other m n ns (rw dropped at h) in (rw at (grind arith), other)
  | inr kept ↦ elim (Bool-cases (z == m)) [
    | inl first ↦ (rw first refl, subst (λ w. (w == n) ≡ false) ((eq_iff z m).0 first) kept)
    | inr later ↦
        let kept_head = rw kept at h in
        let (at, other) = contains-keep_other m n ns (rw later at kept_head) in
        (rw at (grind arith), other)
  ]
]

module _ {C : Type 0} (digest : C → String) (c : Files C) (n : String) (f : IsFiled digest c)
    (u : IsUnambiguous c) where
  -- The names stay apart, and this one finds the entry.
  NamesOne : CacheEntryInfo × List (Write C) → Type 0
  NamesOne out =
      IsUnambiguous (apply_all out.1 c) × (find_by_name n (apply_all out.1 c) ≡ some out.0)

  none_has :
      (i : CacheEntryInfo) (o : Option CacheEntryInfo)
      → IsEntry c.sidecars i
      → contains n i.names ≡ false
      → find_by_name n c ≡ o
      → clashes o i ≡ false
      → o ≡ none
  unfolding clashes
  none_has i none e new found free = refl
  none_has i (some j) e new found free =
      let same : j.sha256 ≡ i.sha256 = (eq_iff j.sha256 i.sha256).0 (ground arith) in
      let at : get c.sidecars i.sha256 ≡ some j =
        subst (λ m. get c.sidecars m ≡ some j) same (find_by_name-IsEntry f n j found) in
      let one : j ≡ i = let both : some j ≡ some i = sym at ∙ e in cc in
      let has : In n i.names =
        subst (λ (z : CacheEntryInfo). In n z.names) one (find_by_name-In c n j found) in
      cc

  appended-NamesOne :
      (i : CacheEntryInfo)
      → IsEntry c.sidecars i
      → IsUnused n c
      → NamesOne (append_alias i.sha256 i n none)
  unfolding append_alias NamesOne apply_all apply contains or_kept
  appended-NamesOne i e unused =
      let new : CacheEntryInfo = record i { names = i.names ++ n ∷ [] } in
      let apart : IsUnambiguous (apply (store_sidecar i.sha256 new) c) =
        store_sidecar-IsUnambiguous c i.sha256 i new u e (λ m h.
          elim (contains-snoc m n i.names h) [
            | inl old ↦ inl old
            | inr same ↦ inr (subst (λ z. IsUnused z c) same unused)
          ]) in
      let filed : IsFiled digest (apply (store_sidecar i.sha256 new) c) =
        apply-IsFiled digest (store_sidecar i.sha256 new) c f (refl, f.stored i.sha256 i e) in
      (
        apart,
        find_by_name-own digest _ n i.sha256 new filed apart
            (get-put c.sidecars i.sha256 i.sha256 new ∙ rw (eq_refl i.sha256) refl)
            (ground (arith, contains-append n i.names (n ∷ []), eq_refl n)),
      )

  alias_resolved-NamesOne :
      (i : CacheEntryInfo) (out : CacheEntryInfo × List (Write C))
      → IsEntry c.sidecars i
      → alias_resolved n c i ≡ ok out
      → NamesOne out
  unfolding alias_resolved append_alias NamesOne apply_all
  alias_resolved-NamesOne i out e run = elim (Bool-cases (contains n i.names)) [
    | inl has ↦
        subst NamesOne (ok-injective (rw has at run))
          (u, find_by_name-own digest c n i.sha256 i f u e has)
    | inr new ↦
        let refused : Error = record { class = cache_error; about = n ∷ [] } in
        let added : Result Error (CacheEntryInfo × List (Write C)) =
          ok (append_alias i.sha256 i n none) in
        let (free, done) =
          >>-eq-ok (raise_if (clashes (find_by_name n c) i) refused) added (rw new at run) in
        let unclashed : clashes (find_by_name n c) i ≡ false = raise_if-eq-ok _ refused free in
        let gone : find_by_name n c ≡ none = none_has i (find_by_name n c) e new refl unclashed in
        subst NamesOne (ok-injective done) (appended-NamesOne i e (find_by_name-IsUnused c n gone))
  ]

  -- In a cache whose files are in order and where no two entries share a name: if `add_name` succeeds, no
  -- two entries share a name afterwards, and the name finds the entry that is returned.
  pub add_name-finds :
      (identifier : String) (i : CacheEntryInfo) (ws : List (Write C))
      → add_name identifier n c ≡ ok (i, ws)
      → IsUnambiguous (apply_all ws c) × (find_by_name n (apply_all ws c) ≡ some i)
  unfolding add_name NamesOne
  add_name-finds identifier i ws run =
      let (tt', valid, rest) =
        >>=-eq-ok (validate_cache_name n) (λ u. resolve identifier c >>= alias_resolved n c) run in
      let (j, found, named) = >>=-eq-ok (resolve identifier c) (alias_resolved n c) rest in
      alias_resolved-NamesOne j (i, ws) (resolve-IsEntry f identifier j found) named

  dropped-misses :
      (old : CacheEntryInfo)
      → find_by_name n c ≡ some old
      → IsUnambiguous (apply_all (drop_name n old).1 c)
        × (find_by_name n (apply_all (drop_name n old).1 c) ≡ none)
  unfolding drop_name apply_all apply
  dropped-misses old found =
      let entry : IsEntry c.sidecars old = find_by_name-IsEntry f n old found in
      let new : CacheEntryInfo = record old { names = keep_if (λ m. not (m == n)) old.names } in
      let apart : IsUnambiguous (apply (store_sidecar old.sha256 new) c) =
        store_sidecar-IsUnambiguous c old.sha256 old new u entry
          (λ m h. inl (contains-keep_other m n old.names h).0) in
      let filed : IsFiled digest (apply (store_sidecar old.sha256 new) c) =
        apply-IsFiled digest (store_sidecar old.sha256 new) c f
          (refl, f.stored old.sha256 old entry) in
      (
        apart,
        elim (Option-cases (find_by_name n (apply (store_sidecar old.sha256 new) c))) [
          | inl (j, again) ↦
              let at : get (put c.sidecars old.sha256 new) j.sha256 ≡ some j =
                find_by_name-IsEntry filed n j again in
              let has : In n j.names = find_by_name-In _ n j again in
              let one : new ≡ j = elim (get-put_cases c.sidecars old.sha256 j.sha256 new j at) [
                | inl (key, one) ↦ one
                | inr was ↦
                    let key : old.sha256 ≡ j.sha256 =
                      u old.sha256 j.sha256 old j n entry was (find_by_name-In c n old found) has in
                    let put_there : get (put c.sidecars old.sha256 new) j.sha256 ≡ some new =
                      get-put c.sidecars old.sha256 j.sha256 new
                      ∙ rw ((eq_iff old.sha256 j.sha256).1 key) refl in
                    let both : some new ≡ some j = sym put_there ∙ at in cc
              ] in
              let other : (n == n) ≡ false =
                (contains-keep_other n n old.names
                  (subst (λ (z : CacheEntryInfo). In n z.names) (sym one) has)).1 in
              let self : (n == n) ≡ true = eq_refl n in cc
          | inr gone ↦ gone
        ],
      )

  -- In a cache whose files are in order and where no two entries share a name: if `forget_name` succeeds,
  -- no two entries share a name afterwards, and the name finds no entry.
  pub forget_name-misses :
      (i : CacheEntryInfo) (ws : List (Write C))
      → forget_name n c ≡ ok (i, ws)
      → IsUnambiguous (apply_all ws c) × (find_by_name n (apply_all ws c) ≡ none)
  unfolding forget_name
  forget_name-misses i ws run =
      let (old, found, done) =
        >>=-eq-ok (found_or_miss n (find_by_name n c)) (λ info. ok (drop_name n info)) run in
      subst
        (λ (out : CacheEntryInfo × List (Write C)).
          IsUnambiguous (apply_all out.1 c) × (find_by_name n (apply_all out.1 c) ≡ none))
        (ok-injective done)
        (dropped-misses old (found_or_miss-eq-ok n (find_by_name n c) old found))
