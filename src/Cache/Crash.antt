-- ===== src/Cache/Crash.antt =====
-- A crash between two writes of a call of the cache.
use test_range.Prelude.{
  String, ◌==◌, eq_iff, ◌≡◌, refl, sym, ap, subst, ◌∙◌, false, none, some, List, [], ◌∷◌, ◌++◌,
  Dict, get, put, get-put, if◌then◌else◌, arith, Bool-cases, inl, inr, ◌⊎◌,
}
use test_range.Cache.Storage.{
  CacheEntryInfo, Files, Write, store_bin, store_sidecar, drop_sidecar, drop_bin, unlink, apply,
  apply_all,
}

pub get-unlink :
    {V : Type 0} (d : Dict V) (k j : String)
    → get (unlink k d) j ≡ (if k == j then none else get d j)
unfolding get unlink
get-unlink [] k j = ground arith
get-unlink ((i, v) ∷ d) k j = ground (arith, eq_iff k j, eq_iff i k, eq_iff i j, get-unlink d k j)

module _ {V : Type 0} where
  pub get-put_cases :
      (d : Dict V) (k j : String) (v w : V)
      → get (put d k v) j ≡ some w
      → ((k ≡ j) × (v ≡ w)) ⊎ (get d j ≡ some w)
  get-put_cases d k j v w e = elim (Bool-cases (k == j)) [
    | inl same ↦
        let found : some v ≡ some w = sym (get-put d k j v ∙ rw same refl) ∙ e in
        inl ((eq_iff k j).0 same, cc)
    | inr other ↦ inr (sym (get-put d k j v ∙ rw other refl) ∙ e)
  ]

  pub get-unlink_cases :
      (d : Dict V) (k j : String) (w : V)
      → get (unlink k d) j ≡ some w
      → ((k == j) ≡ false) × (get d j ≡ some w)
  get-unlink_cases d k j w e = ground (arith, get-unlink d k j)

  get-put_exists :
      (d : Dict V) (k j : String) (v : V)
      → (w : V) × (get d j ≡ some w)
      → (w : V) × (get (put d k v) j ≡ some w)
  get-put_exists d k j v (w, e) = elim (Bool-cases (k == j)) [
    | inl same ↦ (v, get-put d k j v ∙ rw same refl)
    | inr other ↦ (w, get-put d k j v ∙ rw other e)
  ]

  other_of :
      (d : Dict V) (k j : String) (v : V) → get d k ≡ none → get d j ≡ some v → (k == j) ≡ false
  other_of d k j v gone e = elim (Bool-cases (k == j)) [
    | inl same ↦
        let clash : get d j ≡ none = subst (λ m. get d m ≡ none) ((eq_iff k j).0 same) gone in cc
    | inr other ↦ other
  ]

  get-unlink_exists :
      (d : Dict V) (k j : String)
      → (k == j) ≡ false
      → (w : V) × (get d j ≡ some w)
      → (w : V) × (get (unlink k d) j ≡ some w)
  get-unlink_exists d k j other (w, e) = (w, get-unlink d k j ∙ rw other e)

module _ {C : Type 0} (digest : C → String) where
  -- Each sidecar is filed under its digest beside a content, and each content has the digest in its name.
  pub record IsFiled (c : Files C) : Type 0 where
    pub filed : (k : String) (i : CacheEntryInfo) → get c.sidecars k ≡ some i → i.sha256 ≡ k
    pub stored :
        (k : String) (i : CacheEntryInfo)
        → get c.sidecars k ≡ some i
        → (x : C) × (get c.bins k ≡ some x)
    pub hashed : (k : String) (x : C) → get c.bins k ≡ some x → digest x ≡ k

  -- When a write keeps the files in order.
  abbrev pub IsSafe : Write C → Files C → Type 0
  IsSafe (store_bin k x) c = digest x ≡ k
  IsSafe (store_sidecar k i) c = (i.sha256 ≡ k) × ((x : C) × (get c.bins k ≡ some x))
  IsSafe (drop_sidecar k) c = Unit
  IsSafe (drop_bin k) c = get c.sidecars k ≡ none

  pub apply-IsFiled : (w : Write C) (c : Files C) → IsFiled c → IsSafe w c → IsFiled (apply w c)
  unfolding apply
  apply-IsFiled (store_bin k x) c f s = record {
    filed = f.filed;
    stored = λ j i e. get-put_exists c.bins k j x (f.stored j i e);
    hashed = λ j y e. elim (get-put_cases c.bins k j x y e) [
      | inl (same, at) ↦ ap digest (sym at) ∙ s ∙ same
      | inr old ↦ f.hashed j y old
    ];
  }
  apply-IsFiled (store_sidecar k i) c f s = record {
    filed = λ j i' e. elim (get-put_cases c.sidecars k j i i' e) [
      | inl (same, at) ↦ ap (λ (z : CacheEntryInfo). z.sha256) (sym at) ∙ s.0 ∙ same
      | inr old ↦ f.filed j i' old
    ];
    stored = λ j i' e. elim (get-put_cases c.sidecars k j i i' e) [
      | inl (same, at) ↦ subst (λ m. (x : C) × (get c.bins m ≡ some x)) same s.1
      | inr old ↦ f.stored j i' old
    ];
    hashed = f.hashed;
  }
  apply-IsFiled (drop_sidecar k) c f s = record {
    filed = λ j i e. f.filed j i (get-unlink_cases c.sidecars k j i e).1;
    stored = λ j i e. f.stored j i (get-unlink_cases c.sidecars k j i e).1;
    hashed = f.hashed;
  }
  apply-IsFiled (drop_bin k) c f s = record {
    filed = f.filed;
    stored = λ j i e. get-unlink_exists c.bins k j (other_of c.sidecars k j i s e) (f.stored j i e);
    hashed = λ j x e. f.hashed j x (get-unlink_cases c.bins k j x e).1;
  }

  -- Every write is safe when its turn comes.
  abbrev pub AreSafe : List (Write C) → Files C → Type 0
  AreSafe [] c = Unit
  AreSafe (w ∷ ws) c = IsSafe w c × AreSafe ws (apply w c)

  pub apply_all-IsFiled :
      (front back : List (Write C)) (c : Files C)
      → IsFiled c
      → AreSafe (front ++ back) c
      → IsFiled (apply_all front c)
  unfolding apply_all
  apply_all-IsFiled [] back c f s = f
  apply_all-IsFiled (w ∷ front) back c f s =
      apply_all-IsFiled front back (apply w c) (apply-IsFiled w c f s.0) s.1
