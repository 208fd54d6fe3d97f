-- ===== src/Cache/Overlap.antt =====
-- testrange/cache/local.py, `LocalCache.add` from several threads: a call copies the content outside the lock,
-- and reads and writes the sidecar under it, so that calls interleave step by step.
use test_range.Prelude.{
  ℕ, String, ◌==◌, eq_iff, eq_refl, ◌≡◌, refl, sym, ap, subst, ◌∙◌, Option, none, some, List, [],
  ◌∷◌, ◌++◌, Dict, get, put, get-put, contains, contains-append, In, arith, Bool-cases, inl, inr,
}
use test_range.Cache.Storage.{CacheEntryInfo, Files, store_bin, apply, apply_all}
use test_range.Cache.Local.{
  bin_or, add_content, store_missing, record_content, rename_entry, append_alias, name_list,
}

pub data AddStep (C : Type 0) : Type 0 where
  copying : C → AddStep C
  recording : String → Option String → Option String → C → String → AddStep C

-- An entry of the digest has the name.
abbrev pub HasName : Dict CacheEntryInfo → String → String → Type 0
HasName d sha n = (i : CacheEntryInfo) × (get d sha ≡ some i) × In n i.names

put-HasName :
    (d : Dict CacheEntryInfo) (k : String) (new : CacheEntryInfo) (sha n : String)
    → ((i : CacheEntryInfo) → get d k ≡ some i → In n i.names → In n new.names)
    → HasName d sha n
    → HasName (put d k new) sha n
put-HasName d k new sha n kept (i, e, h) = elim (Bool-cases (k == sha)) [
  | inl same ↦ (
    new,
    (get-put d k sha new ∙ rw same refl),
    kept i (subst (λ m. get d m ≡ some i) (sym ((eq_iff k sha).0 same)) e) h,
  )
  | inr other ↦ (i, (get-put d k sha new ∙ rw other e), h)
]

put-HasName_own :
    (d : Dict CacheEntryInfo) (k n : String) (new : CacheEntryInfo)
    → In n new.names
    → HasName (put d k new) k n
put-HasName_own d k n new h = (new, (get-put d k k new ∙ rw (eq_refl k) refl), h)

module _ {C : Type 0} (digest : C → String) (count_bytes : C → ℕ) where
  unfoldable pub add_step : AddStep C → Files C → Files C
  add_step (copying x) c = apply_all (store_missing (get c.bins (digest x)) (digest x) x) c
  add_step (recording now name description x origin) c =
      apply_all
        (record_content digest count_bytes (get c.sidecars (digest x)) now name description x origin
          c).1
        c

  unfoldable pub add_steps : List (AddStep C) → Files C → Files C
  add_steps [] c = c
  add_steps (s ∷ ss) c = add_steps ss (add_step s c)

  copied-sidecars :
      (o : Option C) (sha : String) (x : C) (c : Files C)
      → (apply_all (store_missing o sha x) c).sidecars ≡ c.sidecars
  unfolding store_missing apply_all apply
  copied-sidecars none sha x c = refl
  copied-sidecars (some y) sha x c = refl

  renamed-HasName :
      (sha : String) (info : CacheEntryInfo) (name description : Option String) (c : Files C)
      (s n : String)
      → get c.sidecars sha ≡ some info
      → HasName c.sidecars s n
      → HasName (apply_all (rename_entry {C = C} sha info name description).1 c).sidecars s n
  unfolding rename_entry append_alias apply_all apply contains
  renamed-HasName sha info none description c s n e h = h
  renamed-HasName sha info (some m) description c s n e h =
      elim (Bool-cases (contains m info.names)) [
        | inl has ↦ rw has h
        | inr new ↦ rw new (
            put-HasName c.sidecars sha _ s n
              (λ i e' old. ground (arith, contains-append n info.names (m ∷ []))) h)
      ]

  renamed-HasName_own :
      (sha : String) (info : CacheEntryInfo) (description : Option String) (c : Files C)
      (n : String)
      → get c.sidecars sha ≡ some info
      → HasName (apply_all (rename_entry {C = C} sha info (some n) description).1 c).sidecars sha n
  unfolding rename_entry append_alias apply_all apply contains
  renamed-HasName_own sha info description c n e = elim (Bool-cases (contains n info.names)) [
    | inl has ↦ rw has (info, e, has)
    | inr new ↦ rw new (
        put-HasName_own c.sidecars sha n _
          (ground (arith, contains-append n info.names (n ∷ []), eq_refl n)))
  ]

  recorded-HasName :
      (o : Option CacheEntryInfo) (now : String) (name description : Option String) (x : C)
      (origin : String) (c : Files C) (s n : String)
      → get c.sidecars (digest x) ≡ o
      → HasName c.sidecars s n
      → HasName
          (apply_all
            (record_content digest count_bytes o now name description x origin c).1
            c).sidecars
          s
          n
  unfolding record_content apply_all apply
  recorded-HasName (some info) now name description x origin c s n e h =
      renamed-HasName (digest x) info name description c s n e h
  recorded-HasName none now name description x origin c s n e h =
      put-HasName c.sidecars (digest x) _ s n (λ i e' old. let clash = sym e ∙ e' in cc) h

  recorded-HasName_own :
      (o : Option CacheEntryInfo) (now n : String) (description : Option String) (x : C)
      (origin : String) (c : Files C)
      → get c.sidecars (digest x) ≡ o
      → HasName
          (apply_all
            (record_content digest count_bytes o now (some n) description x origin c).1
            c).sidecars
          (digest x)
          n
  unfolding record_content apply_all apply name_list contains
  recorded-HasName_own (some info) now n description x origin c e =
      renamed-HasName_own (digest x) info description c n e
  recorded-HasName_own none now n description x origin c e =
      put-HasName_own c.sidecars (digest x) n _ (rw (eq_refl n) refl)

  add_step-HasName :
      (step : AddStep C) (c : Files C) (s n : String)
      → HasName c.sidecars s n
      → HasName (add_step step c).sidecars s n
  unfolding add_step
  add_step-HasName (copying x) c s n h =
      subst (λ d. HasName d s n) (sym (copied-sidecars (get c.bins (digest x)) (digest x) x c)) h
  add_step-HasName (recording now name description x origin) c s n h =
      recorded-HasName (get c.sidecars (digest x)) now name description x origin c s n refl h

  add_steps-HasName :
      (steps : List (AddStep C)) (c : Files C) (s n : String)
      → HasName c.sidecars s n
      → HasName (add_steps steps c).sidecars s n
  unfolding add_steps
  add_steps-HasName [] c s n h = h
  add_steps-HasName (t ∷ ts) c s n h =
      add_steps-HasName ts (add_step t c) s n (add_step-HasName t c s n h)

  -- However the steps of calls of `add` interleave, a name that one of them records stays with the entry
  -- of its content.
  pub add_steps-names :
      (before after : List (AddStep C)) (now n : String) (description : Option String) (x : C)
      (origin : String) (c : Files C)
      → HasName
          (add_steps (before ++ recording now (some n) description x origin ∷ after) c).sidecars
          (digest x)
          n
  unfolding add_steps add_step
  add_steps-names [] after now n description x origin c =
      add_steps-HasName after _ (digest x) n
        (recorded-HasName_own (get c.sidecars (digest x)) now n description x origin c refl)
  add_steps-names (t ∷ before) after now n description x origin c =
      add_steps-names before after now n description x origin (add_step t c)

  record_content-copied :
      (o : Option CacheEntryInfo) (now : String) (name description : Option String) (x : C)
      (origin : String) (c : Files C)
      → get c.bins (digest x) ≡ none
      → (record_content digest count_bytes o now name description x origin c).1
        ≡ (record_content digest count_bytes o now name description x origin
            (apply (store_bin (digest x) x) c)).1
  unfolding record_content apply bin_or
  record_content-copied (some info) now name description x origin c e = refl
  record_content-copied none now name description x origin c e =
      rw (e, get-put c.bins (digest x) (digest x) x, eq_refl (digest x)) refl

  add_content-copied :
      (o : Option C) (now : String) (name description : Option String) (x : C) (origin : String)
      (c : Files C)
      → get c.bins (digest x) ≡ o
      → apply_all
          (store_missing o (digest x) x
            ++ (record_content digest count_bytes
                (get c.sidecars (digest x))
                now
                name
                description
                x
                origin
                c).1)
          c
        ≡ add_step
            (recording now name description x origin)
            (apply_all (store_missing o (digest x) x) c)
  unfolding add_step store_missing apply_all apply
  add_content-copied (some y) now name description x origin c e = refl
  add_content-copied none now name description x origin c e =
      ap (λ ws. apply_all ws (apply (store_bin (digest x) x) c))
        (record_content-copied (get c.sidecars (digest x)) now name description x origin c e)

  -- A call with no other in between is its two steps.
  pub add_content-add_steps :
      (now : String) (name description : Option String) (x : C) (origin : String) (c : Files C)
      → apply_all (add_content digest count_bytes now name description x origin c).1 c
        ≡ add_steps (copying x ∷ recording now name description x origin ∷ []) c
  unfolding add_content add_steps add_step
  add_content-add_steps now name description x origin c =
      add_content-copied (get c.bins (digest x)) now name description x origin c refl
