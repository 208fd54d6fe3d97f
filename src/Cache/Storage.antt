-- ===== src/Cache/Storage.antt =====
-- testrange/cache/local.py, the files under `isos/` and the lookups of `LocalCache`. A write is atomic
-- (`durable_replace`, `unlink`). Sidecars that do not parse are left out; the path of an entry is given by
-- its digest.
use test_range.Prelude.{
  String, ◌==◌, Option, none, some, List, [], ◌∷◌, Dict, get, put, keys, contains, keep_if, sorted,
  Result, ok, ◌>>◌, raise_if, if◌then◌else◌, ℕ,
}
use test_range.Errors.{Error, raise, cache_error, cache_miss_error, value_error}
use test_range.Cache.Spelling.{looks_like_sha, starts_with}

pub record CacheEntryInfo : Type 0 where
  pub sha256 : String
  pub size : ℕ
  pub names : List String
  pub origin : Option String
  pub added_at : String
  pub description : Option String

-- The files `<sha>.bin` and `<sha>.json` under `isos/`, for contents of the type `C`.
pub record Files (C : Type 0) : Type 0 where
  pub bins : Dict C
  pub sidecars : Dict CacheEntryInfo

pub data Write (C : Type 0) : Type 0 where
  store_bin : String → C → Write C
  store_sidecar : String → CacheEntryInfo → Write C
  drop_sidecar drop_bin : String → Write C

-- path.unlink(missing_ok=True)
unfoldable pub unlink : {V : Type 0} → String → Dict V → Dict V
unlink k [] = []
unlink k ((j, v) ∷ d) = let rest = unlink k d in if j == k then rest else (j, v) ∷ rest

-- The entries in the order of their digests; one that cannot be read is skipped.
unfoldable pub keep_read : Option CacheEntryInfo → List CacheEntryInfo → List CacheEntryInfo
keep_read none is = is
keep_read (some i) is = i ∷ is

unfoldable pub read_each : Dict CacheEntryInfo → List String → List CacheEntryInfo
read_each d [] = []
read_each d (k ∷ ks) = keep_read (get d k) (read_each d ks)

unfoldable pub with_name : String → List CacheEntryInfo → Option CacheEntryInfo
with_name n [] = none
with_name n (i ∷ is) = if contains n i.names then some i else with_name n is

unfoldable pub only_one : String → List CacheEntryInfo → Result Error CacheEntryInfo
only_one identifier [] = raise cache_miss_error (identifier ∷ [])
only_one identifier (i ∷ []) = ok i
only_one identifier (i ∷ j ∷ is) = raise cache_error (identifier ∷ [])

unfoldable pub found_or_miss : String → Option CacheEntryInfo → Result Error CacheEntryInfo
found_or_miss name none = raise cache_miss_error (name ∷ [])
found_or_miss name (some i) = ok i

module _ {C : Type 0} where
  unfoldable pub apply : Write C → Files C → Files C
  apply (store_bin k x) c = record c { bins = put c.bins k x }
  apply (store_sidecar k i) c = record c { sidecars = put c.sidecars k i }
  apply (drop_sidecar k) c = record c { sidecars = unlink k c.sidecars }
  apply (drop_bin k) c = record c { bins = unlink k c.bins }

  unfoldable pub apply_all : List (Write C) → Files C → Files C
  apply_all [] c = c
  apply_all (w ∷ ws) c = apply_all ws (apply w c)

  unfoldable pub iter_entries : Files C → List CacheEntryInfo
  iter_entries c = read_each c.sidecars (sorted (keys c.sidecars))

  unfoldable pub find_by_name : String → Files C → Option CacheEntryInfo
  find_by_name name c = with_name name (iter_entries c)

  -- CacheEntry(identifier) raises if it is empty.
  unfoldable pub resolve : String → Files C → Result Error CacheEntryInfo
  resolve identifier c =
      raise_if (identifier == "") (record { class = value_error; about = [] })
      >> (if looks_like_sha identifier
          then only_one identifier (keep_if (λ i. starts_with identifier i.sha256) (iter_entries c))
          else found_or_miss identifier (find_by_name identifier c))
