-- ===== src/Cache/Fetched.antt =====
-- What `CacheManager.resolve` gives is in the local cache afterwards.
use test_range.Prelude.{
  String, eq_iff, eq_refl, ◌≡◌, refl, sym, subst, ◌∙◌, true, Option, none, some, List, [], ◌++◌,
  append-nil, get, get-put, Result, ok, err, >>=-eq-ok, ok-injective, Bool-cases, inl, inr,
}
use test_range.Errors.{Error}
use test_range.Cache.Storage.{CacheEntryInfo, Files, Write, store_bin, apply, apply_all, resolve}
use test_range.Cache.Local.{merge_sidecar, write_materialized_sidecar, same_names, add_each}
use test_range.Cache.Remote.{
  http_resolve, Reply, Server, fetched, fetch_and_materialize, read_through, local_or_http,
  resolve_ref, is_miss,
}
use test_range.Cache.Crash.{IsFiled, AreSafe, apply-IsFiled, apply_all-IsFiled}
use test_range.Cache.Entries.{IsEntry, resolve-IsEntry}
use test_range.Cache.Calls.{writes}
use test_range.Cache.Intact.{local_or_http-AreSafe, fetched-eq-ok}

module _ {C : Type 0} (digest : C → String) where
  -- The entry is filed, with a content of its digest.
  abbrev pub IsLocal : Files C → CacheEntryInfo → Type 0
  IsLocal c i =
      IsEntry c.sidecars i × ((x : C) × (get c.bins i.sha256 ≡ some x) × (digest x ≡ i.sha256))

  IsEntry-IsLocal :
      (c : Files C) (i : CacheEntryInfo) → IsFiled digest c → IsEntry c.sidecars i → IsLocal c i
  IsEntry-IsLocal c i f e =
      let (x, there) = f.stored i.sha256 i e in (e, (x, there, f.hashed i.sha256 x there))

  EntryAfter : Files C → CacheEntryInfo × List (Write C) → Type 0
  EntryAfter c out = IsEntry (apply_all out.1 c).sidecars out.0

  merge_sidecar-EntryAfter :
      (c : Files C) (info : CacheEntryInfo) (o : Option CacheEntryInfo)
      → IsFiled digest c
      → get c.sidecars info.sha256 ≡ o
      → EntryAfter c (merge_sidecar o info)
  unfolding EntryAfter merge_sidecar apply_all apply
  merge_sidecar-EntryAfter c info none f e =
      get-put c.sidecars info.sha256 info.sha256 info ∙ rw (eq_refl info.sha256) refl
  merge_sidecar-EntryAfter c info (some old) f e =
      let own : old.sha256 ≡ info.sha256 = f.filed info.sha256 old e in
      elim (Bool-cases (same_names (add_each [] (old.names ++ info.names)) old.names)) [
        | inl same ↦ rw same (subst (λ m. get c.sidecars m ≡ some old) (sym own) e)
        | inr more ↦ rw more (
            get-put c.sidecars info.sha256 old.sha256 _
            ∙ rw ((eq_iff info.sha256 old.sha256).1 (sym own)) refl)
      ]

  fetch_and_materialize-EntryAfter :
      (c : Files C) (info : CacheEntryInfo) (reply : Reply C)
      (out : CacheEntryInfo × List (Write C))
      → IsFiled digest c
      → fetch_and_materialize digest info reply c ≡ ok out
      → EntryAfter c out
  unfolding fetch_and_materialize write_materialized_sidecar EntryAfter apply_all apply
  fetch_and_materialize-EntryAfter c info reply out f run =
      let (x, got, done) = >>=-eq-ok (fetched digest info.sha256 reply) _ run in
      subst (EntryAfter c) (ok-injective done) (
        merge_sidecar-EntryAfter (apply (store_bin info.sha256 x) c) info
          (get c.sidecars info.sha256)
          (apply-IsFiled digest (store_bin info.sha256 x) c f
            (fetched-eq-ok digest c f info.sha256 reply x got))
          refl)

  read_through-EntryAfter :
      (c : Files C) (http : Option (Server C)) (e : Error) (identifier : String)
      (out : CacheEntryInfo × List (Write C))
      → IsFiled digest c
      → read_through digest true http e identifier c ≡ ok out
      → EntryAfter c out
  unfolding read_through
  read_through-EntryAfter c none e identifier out f run = cc
  read_through-EntryAfter c (some http) e identifier out f run =
      let (info, looked, done) =
        >>=-eq-ok (http_resolve http identifier)
          (λ info. fetch_and_materialize digest info (http.content info.sha256) c) run in
      fetch_and_materialize-EntryAfter c info (http.content info.sha256) out f done

  local_or_http-EntryAfter :
      (c : Files C) (local : Result Error CacheEntryInfo) (http : Option (Server C))
      (identifier : String) (out : CacheEntryInfo × List (Write C))
      → IsFiled digest c
      → resolve identifier c ≡ local
      → local_or_http digest local true http identifier c ≡ ok out
      → EntryAfter c out
  unfolding local_or_http EntryAfter apply_all
  local_or_http-EntryAfter c (ok i) http identifier out f found run =
      subst (EntryAfter c) (ok-injective run) (resolve-IsEntry f identifier i found)
  local_or_http-EntryAfter c (err e) http identifier out f found run =
      elim (Bool-cases (is_miss e.class)) [
        | inl miss ↦ read_through-EntryAfter c http e identifier out f (rw miss at run)
        | inr other ↦
            let clash : ◌≡◌ {A = Result Error (CacheEntryInfo × List (Write C))} (err e) (ok out) =
              rw other at run in
            cc
      ]

  -- In a cache whose files are in order, an identifier that `resolve` with `fetch` accepts, here or on the
  -- HTTP tier, has a filed entry afterwards, with a content that hashes to its digest.
  pub resolve_ref-IsLocal :
      (c : Files C) (http : Option (Server C)) (identifier : String) (i : CacheEntryInfo)
      (ws : List (Write C))
      → IsFiled digest c
      → resolve_ref digest true http identifier c ≡ ok (i, ws)
      → IsLocal (apply_all ws c) i
  unfolding resolve_ref EntryAfter writes
  resolve_ref-IsLocal c http identifier i ws f run =
      let safe : AreSafe digest ws c =
        subst (λ r. AreSafe digest (writes r) c) run
          (local_or_http-AreSafe digest c f (resolve identifier c) true http identifier) in
      IsEntry-IsLocal (apply_all ws c) i
        (apply_all-IsFiled digest ws [] c f
          (subst (λ vs. AreSafe digest vs c) (sym (append-nil ws)) safe))
        (local_or_http-EntryAfter c (resolve identifier c) http identifier (i, ws) f refl run)
