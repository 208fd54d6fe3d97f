-- ===== src/Cache/Intact.antt =====
-- Whatever is asked of the cache, each of its writes is safe when its turn comes.
use test_range.Prelude.{
  String, ◌==◌, eq_iff, eq_refl, ◌≡◌, refl, sym, ap, subst, ◌∙◌, Bool, true, false, Option, none,
  some, List, [], ◌∷◌, ◌++◌, get, contains, get-put, Result, ok, err, ◌>>=◌, raise_if, ℕ,
  Bool-cases, inl, inr,
}
use test_range.Errors.{Error}
use test_range.Cache.Storage.{
  CacheEntryInfo, Files, Write, drop_sidecar, drop_bin, apply, apply_all, iter_entries,
  find_by_name, found_or_miss, resolve,
}
use test_range.Cache.Local.{
  drop_each, purge, store_missing, delete, drop_name, forget_name, append_alias, alias_resolved,
  add_name, clashes, merge_sidecar, record_content, write_materialized_sidecar, rename_entry,
  add_content, add_entry, check_name, same_names, add_each,
}
use test_range.Cache.Remote.{
  http_resolve, fetched, Reply, not_found, refused, body, Server, fetch_and_materialize,
  read_through, local_or_http, resolve_ref, pull, is_miss,
}
use test_range.Cache.Spelling.{validate_cache_name}
use test_range.Cache.Crash.{IsFiled, IsSafe, AreSafe, apply_all-IsFiled, get-unlink}
use test_range.Cache.Entries.{IsEntry, found_or_miss-IsEntry, resolve-IsEntry}
use test_range.Cache.Calls.{
  Call, adding, deleting, forgetting, purging, naming, resolving, pulling, writes, call_writes,
}

module _ {C : Type 0} (digest : C → String) where
  drop_each-AreSafe : (is : List CacheEntryInfo) (c : Files C) → AreSafe digest (drop_each is) c
  unfolding drop_each apply
  drop_each-AreSafe [] c = tt
  drop_each-AreSafe (i ∷ is) c =
      let gone : IsSafe digest (drop_bin i.sha256) (apply (drop_sidecar i.sha256) c) =
        get-unlink c.sidecars i.sha256 i.sha256 ∙ rw (eq_refl i.sha256) refl in
      let after : IsSafe digest (drop_bin i.sha256) (apply (drop_sidecar i.sha256) c)
          × AreSafe digest (drop_each is) _ =
        (gone, drop_each-AreSafe is _) in
      (tt, after)

  AreSafe-append :
      (ws vs : List (Write C)) (c : Files C)
      → AreSafe digest ws c
      → AreSafe digest vs (apply_all ws c)
      → AreSafe digest (ws ++ vs) c
  unfolding apply_all
  AreSafe-append [] vs c hw hv = hv
  AreSafe-append (w ∷ ws) vs c hw hv = (hw.0, AreSafe-append ws vs (apply w c) hw.1 hv)

  >>=-Safe :
      {A : Type 0} (c : Files C) (first : Result Error A)
      (next : A → Result Error (CacheEntryInfo × List (Write C)))
      → ((a : A) → first ≡ ok a → AreSafe digest (writes (next a)) c)
      → AreSafe digest (writes (first >>= next)) c
  unfolding writes
  >>=-Safe c (ok a) next h = h a refl
  >>=-Safe c (err e) next h = tt

  module _ (c : Files C) (f : IsFiled digest c) where
    delete-AreSafe : (identifier : String) → AreSafe digest (writes (delete identifier c)) c
    unfolding delete writes drop_each
    delete-AreSafe identifier =
        >>=-Safe c (resolve identifier c) _ (λ i e. drop_each-AreSafe (i ∷ []) c)

    forget_name-AreSafe : (name : String) → AreSafe digest (writes (forget_name name c)) c
    unfolding forget_name writes drop_name
    forget_name-AreSafe name =
        >>=-Safe c (found_or_miss name (find_by_name name c)) _
          (λ i e. ((refl, f.stored i.sha256 i (found_or_miss-IsEntry f name i e)), tt))

    alias_resolved-AreSafe :
        (new_name : String) (i : CacheEntryInfo)
        → IsEntry c.sidecars i
        → AreSafe digest (writes (alias_resolved new_name c i)) c
    unfolding alias_resolved append_alias writes
    alias_resolved-AreSafe new_name i e = elim (Bool-cases (contains new_name i.names)) [
      | inl has ↦ rw has tt
      | inr new ↦ rw new (
          >>=-Safe c (raise_if (clashes (find_by_name new_name c) i) _) _
            (λ u r. ((refl, f.stored i.sha256 i e), tt)))
    ]

    add_name-AreSafe :
        (identifier new_name : String) → AreSafe digest (writes (add_name identifier new_name c)) c
    unfolding add_name
    add_name-AreSafe identifier new_name = >>=-Safe c (validate_cache_name new_name) _ (λ u v.
        >>=-Safe c (resolve identifier c) _
          (λ i e. alias_resolved-AreSafe new_name i (resolve-IsEntry f identifier i e)))

    -- The content of a digest is there.
    IsStocked : String → Files C → Type 0
    IsStocked sha c' = (x : C) × (get c'.bins sha ≡ some x)

    store_missing-AreSafe :
        (x : C) (o : Option C)
        → get c.bins (digest x) ≡ o
        → AreSafe digest (store_missing o (digest x) x) c
          × IsStocked (digest x) (apply_all (store_missing o (digest x) x) c)
    unfolding store_missing IsStocked apply_all apply
    store_missing-AreSafe x (some y) e = (tt, (y, e))
    store_missing-AreSafe x none e =
        ((refl, tt), (x, get-put c.bins (digest x) (digest x) x ∙ rw (eq_refl (digest x)) refl))

    rename_entry-AreSafe :
        (c' : Files C) (sha : String) (info : CacheEntryInfo) (name description : Option String)
        → info.sha256 ≡ sha
        → IsStocked sha c'
        → AreSafe digest (rename_entry sha info name description).1 c'
    unfolding rename_entry append_alias IsStocked
    rename_entry-AreSafe c' sha info none description e st = tt
    rename_entry-AreSafe c' sha info (some n) description e st =
        elim (Bool-cases (contains n info.names)) [
          | inl has ↦ rw has tt
          | inr new ↦ rw new ((e, st), tt)
        ]

    merge_sidecar-AreSafe :
        (c' : Files C) (info : CacheEntryInfo) (o : Option CacheEntryInfo)
        → get c.sidecars info.sha256 ≡ o
        → IsStocked info.sha256 c'
        → AreSafe digest (merge_sidecar o info).1 c'
    unfolding merge_sidecar IsStocked
    merge_sidecar-AreSafe c' info none e st = ((refl, st), tt)
    merge_sidecar-AreSafe c' info (some old) e st =
        elim (Bool-cases (same_names (add_each [] (old.names ++ info.names)) old.names)) [
          | inl same ↦ rw same tt
          | inr more ↦ rw more ((f.filed info.sha256 old e, st), tt)
        ]

    pub fetched-eq-ok :
        (sha : String) (reply : Reply C) (x : C) → fetched digest sha reply ≡ ok x → digest x ≡ sha
    unfolding fetched
    fetched-eq-ok sha not_found x e = cc
    fetched-eq-ok sha refused x e = cc
    fetched-eq-ok sha (body y) x e = elim (Bool-cases (digest y == sha)) [
      | inl same ↦
          let found : ok y ≡ ok x = rw same at e in
          let at : y ≡ x = cc in ap digest (sym at) ∙ (eq_iff (digest y) sha).0 same
      | inr other ↦ let clash : ◌≡◌ {A = Result Error C} (err _) (ok x) = rw other at e in cc
    ]

    fetch_and_materialize-AreSafe :
        (info : CacheEntryInfo) (reply : Reply C)
        → AreSafe digest (writes (fetch_and_materialize digest info reply c)) c
    unfolding fetch_and_materialize write_materialized_sidecar writes apply IsStocked
    fetch_and_materialize-AreSafe info reply =
        >>=-Safe c (fetched digest info.sha256 reply) _ (λ x e. (
          fetched-eq-ok info.sha256 reply x e,
          merge_sidecar-AreSafe _ info (get c.sidecars info.sha256) refl
              (x, get-put c.bins info.sha256 info.sha256 x ∙ rw (eq_refl info.sha256) refl),
        ))

    record_content-AreSafe :
        (count_bytes : C → ℕ) (c' : Files C) (o : Option CacheEntryInfo) (now : String)
        (name description : Option String) (x : C) (origin : String)
        → get c.sidecars (digest x) ≡ o
        → IsStocked (digest x) c'
        → AreSafe digest (record_content digest count_bytes o now name description x origin c).1 c'
    unfolding record_content IsStocked
    record_content-AreSafe count_bytes c' none now name description x origin e st = ((refl, st), tt)
    record_content-AreSafe count_bytes c' (some info) now name description x origin e st =
        rename_entry-AreSafe c' (digest x) info name description (f.filed (digest x) info e) st

    add_content-AreSafe :
        (count_bytes : C → ℕ) (now : String) (name description : Option String) (x : C)
        (origin : String)
        → AreSafe digest (add_content digest count_bytes now name description x origin c).1 c
    unfolding add_content
    add_content-AreSafe count_bytes now name description x origin =
        let (safe, st) = store_missing-AreSafe x (get c.bins (digest x)) refl in
        AreSafe-append (store_missing (get c.bins (digest x)) (digest x) x) _ c safe (
          record_content-AreSafe count_bytes _ (get c.sidecars (digest x)) now name description x
            origin refl st)

    read_through-AreSafe :
        (fetch : Bool) (http : Option (Server C)) (e : Error) (identifier : String)
        → AreSafe digest (writes (read_through digest fetch http e identifier c)) c
    unfolding read_through writes
    read_through-AreSafe fetch none e identifier = tt
    read_through-AreSafe false (some http) e identifier =
        >>=-Safe c (http_resolve http identifier) _ (λ i r. tt)
    read_through-AreSafe true (some http) e identifier =
        >>=-Safe c (http_resolve http identifier) _
          (λ i r. fetch_and_materialize-AreSafe i (http.content i.sha256))

    pub local_or_http-AreSafe :
        (local : Result Error CacheEntryInfo) (fetch : Bool) (http : Option (Server C))
        (identifier : String)
        → AreSafe digest (writes (local_or_http digest local fetch http identifier c)) c
    unfolding local_or_http writes
    local_or_http-AreSafe (ok info) fetch http identifier = tt
    local_or_http-AreSafe (err e) fetch http identifier = elim (Bool-cases (is_miss e.class)) [
      | inl miss ↦ rw miss (read_through-AreSafe fetch http e identifier)
      | inr other ↦ rw other tt
    ]

    pull-AreSafe :
        (http : Option (Server C)) (identifier : String)
        → AreSafe digest (writes (pull digest http identifier c)) c
    unfolding pull writes
    pull-AreSafe none identifier = tt
    pull-AreSafe (some http) identifier =
        >>=-Safe c (http_resolve http identifier) _
          (λ i r. fetch_and_materialize-AreSafe i (http.content i.sha256))

    call-AreSafe :
        (count_bytes : C → ℕ) (call : Call C)
        → AreSafe digest (call_writes digest count_bytes call c) c
    unfolding call_writes add_entry purge writes add_content resolve_ref
    call-AreSafe count_bytes (adding now source name description) =
        >>=-Safe c (check_name name) _ (λ u v.
          >>=-Safe c source _
            (λ got r. add_content-AreSafe count_bytes now name description got.0 got.1))
    call-AreSafe count_bytes (deleting identifier) = delete-AreSafe identifier
    call-AreSafe count_bytes (forgetting name) = forget_name-AreSafe name
    call-AreSafe count_bytes purging = drop_each-AreSafe (iter_entries c) c
    call-AreSafe count_bytes (naming identifier new_name) = add_name-AreSafe identifier new_name
    call-AreSafe count_bytes (resolving fetch http identifier) =
        local_or_http-AreSafe (resolve identifier c) fetch http identifier
    call-AreSafe count_bytes (pulling http identifier) = pull-AreSafe http identifier

  -- Take files where every sidecar lies under its own digest beside a content, and every content under its
  -- digest. Whatever is asked of the cache, and after whichever of the writes of that call a crash comes,
  -- the files are so again; also when an exception is raised, or when nothing crashes.
  pub call-IsFiled :
      (count_bytes : C → ℕ) (call : Call C) (c : Files C) (front back : List (Write C))
      → IsFiled digest c
      → call_writes digest count_bytes call c ≡ front ++ back
      → IsFiled digest (apply_all front c)
  call-IsFiled count_bytes call c front back f split =
      apply_all-IsFiled digest front back c f
        (subst (λ ws. AreSafe digest ws c) split (call-AreSafe c f count_bytes call))
