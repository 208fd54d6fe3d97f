-- ===== src/Cache/Remote.antt =====
-- testrange/cache/http.py, what is read from the HTTP tier, and testrange/cache/manager.py, which brings
-- it into the local cache. The server is its answers; one that cannot be reached is refused.
use test_range.Prelude.{
  eqb, String, ◌==◌, Bool, true, false, ◌&&◌, Option, none, some, List, [], ◌∷◌, Result, ok, err,
  ◌>>=◌, ◌>>◌, raise_if, if◌then◌else◌,
}
use test_range.Errors.{Error, ErrorClass, raise, cache_error, cache_miss_error, value_error}
use test_range.Cache.Spelling.{looks_like_sha, count_chars}
use test_range.Cache.Storage.{CacheEntryInfo, Files, Write, resolve, store_bin}
use test_range.Cache.Local.{write_materialized_sidecar}

-- except CacheMissError
unfoldable pub is_miss : ErrorClass → Bool
is_miss cache_miss_error = true
is_miss c = false

-- An answer of the server: the status 404, another failure, or the body.
pub data Reply (A : Type 0) : Type 0 where
  not_found refused : Reply A
  body : A → Reply A

-- What the server answers under `/names`, stripped, and under `/isos`: the parsed sidecar, and the content.
pub record Server (C : Type 0) : Type 0 where
  pub pointer : String → Reply String
  pub metadata : String → Reply CacheEntryInfo
  pub content : String → Reply C

-- HttpCache._resolve_name
unfoldable pub pointed : String → Reply String → Result Error String
pointed name not_found = raise cache_miss_error (name ∷ [])
pointed name refused = raise cache_error (name ∷ [])
pointed name (body sha) =
    if looks_like_sha sha && eqb (count_chars sha) 64
    then ok sha
    else raise cache_error (name ∷ sha ∷ [])

-- HttpCache._read_sidecar
unfoldable pub read_remote : String → Reply CacheEntryInfo → Result Error CacheEntryInfo
read_remote sha not_found = raise cache_miss_error (sha ∷ [])
read_remote sha refused = raise cache_error (sha ∷ [])
read_remote sha (body info) = ok info

unfoldable pub remote_sha : {C : Type 0} → Server C → String → Result Error String
remote_sha http identifier =
    if looks_like_sha identifier && eqb (count_chars identifier) 64
    then ok identifier
    else pointed identifier (http.pointer identifier)

-- HttpCache.resolve
unfoldable pub http_resolve : {C : Type 0} → Server C → String → Result Error CacheEntryInfo
http_resolve http identifier =
    raise_if (identifier == "") (record { class = value_error; about = [] })
    >> (remote_sha http identifier >>= λ sha. read_remote sha (http.metadata sha))

module _ {C : Type 0} where
  module _ (digest : C → String) where
    -- HttpCache.fetch, before the content is promoted
    unfoldable pub fetched : String → Reply C → Result Error C
    fetched sha not_found = raise cache_miss_error (sha ∷ [])
    fetched sha refused = raise cache_error (sha ∷ [])
    fetched sha (body x) = if digest x == sha then ok x else raise cache_error (sha ∷ digest x ∷ [])

    unfoldable pub fetch_and_materialize :
        CacheEntryInfo → Reply C → Files C → Result Error (CacheEntryInfo × List (Write C))
    fetch_and_materialize info reply c = fetched info.sha256 reply >>= λ x.
        ok (let (i, ws) = write_materialized_sidecar info c in (i, store_bin info.sha256 x ∷ ws))

    unfoldable pub read_through :
        Bool
        → Option (Server C)
        → Error
        → String
        → Files C
        → Result Error (CacheEntryInfo × List (Write C))
    read_through fetch none miss identifier c = err miss
    read_through false (some http) miss identifier c =
        http_resolve http identifier >>= λ info. ok (info, [])
    read_through true (some http) miss identifier c = http_resolve http identifier >>= λ info.
        fetch_and_materialize info (http.content info.sha256) c

    unfoldable pub local_or_http :
        Result Error CacheEntryInfo
        → Bool
        → Option (Server C)
        → String
        → Files C
        → Result Error (CacheEntryInfo × List (Write C))
    local_or_http (ok info) fetch http identifier c = ok (info, [])
    local_or_http (err e) fetch http identifier c =
        if is_miss e.class then read_through fetch http e identifier c else err e

    -- CacheManager.resolve
    unfoldable pub resolve_ref :
        Bool → Option (Server C) → String → Files C → Result Error (CacheEntryInfo × List (Write C))
    resolve_ref fetch http identifier c =
        local_or_http (resolve identifier c) fetch http identifier c

    -- CacheManager.pull
    unfoldable pub pull :
        Option (Server C) → String → Files C → Result Error (CacheEntryInfo × List (Write C))
    pull none identifier c = raise cache_error []
    pull (some http) identifier c = http_resolve http identifier >>= λ info.
        fetch_and_materialize info (http.content info.sha256) c
