-- ===== src/Cache/Local.antt =====
-- testrange/cache/local.py, the calls of `LocalCache` that change it. A call gives its result and the
-- writes it makes, in their order.
use test_range.Prelude.{
  String, ◌==◌, Bool, true, false, ◌&&◌, Option, none, some, List, [], ◌∷◌, ◌++◌, get, contains,
  add, keep_if, Result, ok, ◌>>=◌, ◌>>◌, raise_if, if◌then◌else◌, not, ℕ,
}
use test_range.Errors.{Error, cache_error}
use test_range.Cache.Spelling.{validate_cache_name}
use test_range.Cache.Storage.{
  CacheEntryInfo, Files, Write, found_or_miss, iter_entries, find_by_name, resolve, store_bin,
  store_sidecar, drop_sidecar, drop_bin,
}

-- (name,) if name else ()
unfoldable pub name_list : Option String → List String
name_list none = []
name_list (some n) = n ∷ []

unfoldable pub check_name : Option String → Result Error Unit
check_name none = ok tt
check_name (some n) = validate_cache_name n

-- tuple(dict.fromkeys(names))
unfoldable pub add_each : List String → List String → List String
add_each seen [] = seen
add_each seen (n ∷ ns) = add_each (add n seen) ns

unfoldable pub same_names : List String → List String → Bool
same_names [] [] = true
same_names [] (n ∷ ns) = false
same_names (m ∷ ms) [] = false
same_names (m ∷ ms) (n ∷ ns) = m == n && same_names ms ns

unfoldable pub or_kept : Option String → Option String → Option String
or_kept none old = old
or_kept (some new) old = some new

unfoldable pub clashes : Option CacheEntryInfo → CacheEntryInfo → Bool
clashes none info = false
clashes (some clash) info = not (clash.sha256 == info.sha256)

module _ {C : Type 0} where
  unfoldable pub append_alias :
      String → CacheEntryInfo → String → Option String → CacheEntryInfo × List (Write C)
  append_alias sidecar info new_name description =
      let new_info = record info {
        names = info.names ++ new_name ∷ [];
        description = or_kept description info.description;
      } in
      (new_info, store_sidecar sidecar new_info ∷ [])

  unfoldable pub delete : String → Files C → Result Error (CacheEntryInfo × List (Write C))
  delete identifier c = resolve identifier c >>= λ info.
      ok (info, drop_sidecar info.sha256 ∷ drop_bin info.sha256 ∷ [])

  unfoldable pub drop_each : List CacheEntryInfo → List (Write C)
  drop_each [] = []
  drop_each (i ∷ is) = drop_sidecar i.sha256 ∷ drop_bin i.sha256 ∷ drop_each is

  unfoldable pub purge : Files C → List CacheEntryInfo × List (Write C)
  purge c = (iter_entries c, drop_each (iter_entries c))

  unfoldable pub alias_resolved :
      String → Files C → CacheEntryInfo → Result Error (CacheEntryInfo × List (Write C))
  unfolding append_alias
  alias_resolved new_name c info =
      if contains new_name info.names
      then ok (info, [])
      else (raise_if (clashes (find_by_name new_name c) info)
            (record { class = cache_error; about = new_name ∷ [] })
          >> ok (append_alias info.sha256 info new_name none))

  unfoldable pub add_name :
      String → String → Files C → Result Error (CacheEntryInfo × List (Write C))
  add_name identifier new_name c =
      validate_cache_name new_name >> (resolve identifier c >>= alias_resolved new_name c)

  unfoldable pub drop_name : String → CacheEntryInfo → CacheEntryInfo × List (Write C)
  drop_name name info =
      let new_info = record info { names = keep_if (λ n. not (n == name)) info.names } in
      (new_info, store_sidecar info.sha256 new_info ∷ [])

  unfoldable pub forget_name : String → Files C → Result Error (CacheEntryInfo × List (Write C))
  forget_name name c = found_or_miss name (find_by_name name c) >>= λ info. ok (drop_name name info)

  -- The names are merged into a sidecar that is there already.
  unfoldable pub merge_sidecar :
      Option CacheEntryInfo → CacheEntryInfo → CacheEntryInfo × List (Write C)
  merge_sidecar none info = (info, store_sidecar info.sha256 info ∷ [])
  merge_sidecar (some existing) info =
      let merged = add_each [] (existing.names ++ info.names) in
      let new_info = record existing { names = merged } in
      if same_names merged existing.names
      then (existing, [])
      else (new_info, store_sidecar info.sha256 new_info ∷ [])

  unfoldable pub write_materialized_sidecar :
      CacheEntryInfo → Files C → CacheEntryInfo × List (Write C)
  write_materialized_sidecar info c = merge_sidecar (get c.sidecars info.sha256) info

  -- if not bin_path.exists()
  unfoldable pub store_missing : Option C → String → C → List (Write C)
  store_missing none sha x = store_bin sha x ∷ []
  store_missing (some y) sha x = []

  unfoldable pub bin_or : Option C → C → C
  bin_or none x = x
  bin_or (some y) x = y

  unfoldable pub rename_entry :
      String → CacheEntryInfo → Option String → Option String → CacheEntryInfo × List (Write C)
  unfolding append_alias
  rename_entry sha info none description = (info, [])
  rename_entry sha info (some n) description =
      if contains n info.names then (info, []) else append_alias sha info n description

  module _ (digest : C → String) where
    module _ (count_bytes : C → ℕ) where
      -- Under the lock, with the sidecar that is there.
      unfoldable pub record_content :
          Option CacheEntryInfo
          → String
          → Option String
          → Option String
          → C
          → String
          → Files C
          → CacheEntryInfo × List (Write C)
      record_content (some info) now name description x origin c =
          rename_entry (digest x) info name description
      record_content none now name description x origin c =
          let info : CacheEntryInfo = record {
            sha256 = digest x;
            size = count_bytes (bin_or (get c.bins (digest x)) x);
            names = name_list name;
            origin = some origin;
            added_at = now;
            description = description;
          } in
          (info, store_sidecar (digest x) info ∷ [])

      -- The content is copied first, outside the lock.
      unfoldable pub add_content :
          String
          → Option String
          → Option String
          → C
          → String
          → Files C
          → CacheEntryInfo × List (Write C)
      add_content now name description x origin c =
          let (i, ws) =
            record_content (get c.sidecars (digest x)) now name description x origin c in
          (i, store_missing (get c.bins (digest x)) (digest x) x ++ ws)

      -- `source` is the content that is read or downloaded, with its origin, or the error.
      unfoldable pub add_entry :
          String
          → Result Error (C × String)
          → Option String
          → Option String
          → Files C
          → Result Error (CacheEntryInfo × List (Write C))
      add_entry now source name description c =
          check_name name >> (source >>= λ got. ok (add_content now name description got.0 got.1 c))
