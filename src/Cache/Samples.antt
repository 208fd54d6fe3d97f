-- ===== src/Cache/Samples.antt =====
-- Tests of the cache, with contents that are their own digests.
use test_range.Prelude.{
  keys, contains, sorted, insert_sorted, str_le, String, ◌≡◌, refl, sym, ◌∙◌, none, some, List, [],
  ◌∷◌, get, put, ok, inl, inr,
}
use test_range.Cache.Storage.{
  CacheEntryInfo, Files, Write, store_bin, store_sidecar, apply, apply_all, find_by_name,
  found_or_miss, iter_entries, keep_read, only_one, read_each, resolve, with_name,
}
use test_range.Cache.Local.{
  add_name, add_content, add_entry, alias_resolved, append_alias, bin_or, check_name, clashes,
  drop_name, merge_sidecar, name_list, or_kept, record_content, store_missing,
  write_materialized_sidecar, forget_name,
}
use test_range.Cache.Remote.{
  http_resolve, remote_sha, pointed, read_remote, fetch_and_materialize, fetched, is_miss,
  local_or_http, read_through, resolve_ref, Server, body,
}
use test_range.Cache.Spelling.{
  validate_cache_name, is_run, before_line_feed, count_chars, is_dot, looks_like_sha, is_hex,
  starts_with,
}
use test_range.Networks.Spelling.{every, is_later, is_first, is_between, is_char, is_digit}
use test_range.Cache.Calls.{writes, adding, call_writes}
use test_range.Cache.Crash.{IsFiled, apply_all-IsFiled, get-put_cases}
use test_range.Cache.Aliases.{IsUnambiguous}
use test_range.Cache.Overlap.{copying, recording, HasName, add_steps, add_steps-names}
use test_range.Cache.Intact.{call-IsFiled}
use test_range.Cache.Naming.{add_name-finds, forget_name-misses}
use test_range.Cache.Fetched.{IsLocal, resolve_ref-IsLocal}

abbrev same_text : String → String
same_text x = x

abbrev image : CacheEntryInfo
image = record {
  sha256 = "disk";
  size = 4;
  names = "img" ∷ [];
  origin = none;
  added_at = "noon";
  description = none;
}

abbrev renamed : CacheEntryInfo
renamed = record {
  sha256 = "disk";
  size = 4;
  names = "img" ∷ "base" ∷ [];
  origin = none;
  added_at = "noon";
  description = none;
}

abbrev nameless : CacheEntryInfo
nameless = record {
  sha256 = "disk";
  size = 4;
  names = [];
  origin = none;
  added_at = "noon";
  description = none;
}

abbrev far_sha : String
far_sha = "0123456789abcdef0123456789abcdef0123456789abcdef0123456789abcdef"

abbrev remote : CacheEntryInfo
remote = record {
  sha256 = far_sha;
  size = 3;
  names = "ext" ∷ [];
  origin = none;
  added_at = "noon";
  description = none;
}

abbrev no_files : Files String
no_files = record { bins = []; sidecars = [] }

abbrev stock : List (Write String)
stock = store_bin "disk" "disk" ∷ store_sidecar "disk" image ∷ []

abbrev one_file : Files String
one_file = record { bins = ("disk", "disk") ∷ []; sidecars = ("disk", image) ∷ [] }

no_files-IsFiled : IsFiled same_text no_files
unfolding get
no_files-IsFiled = record { filed = λ k i e. cc; stored = λ k i e. cc; hashed = λ k x e. cc }

one_file-IsFiled : IsFiled same_text one_file
unfolding apply_all apply put get
one_file-IsFiled =
    apply_all-IsFiled same_text stock [] no_files no_files-IsFiled
      (refl, ((refl, ("disk", refl)), tt))

one_key : (k : String) (i : CacheEntryInfo) → get one_file.sidecars k ≡ some i → "disk" ≡ k
unfolding get put
one_key k i e = elim (get-put_cases [] "disk" k image i e) [ inl (key, one) ↦ key | inr none' ↦ cc ]

one_file-IsUnambiguous : IsUnambiguous one_file
one_file-IsUnambiguous k j i i' n e e' h h' = sym (one_key k i e) ∙ one_key j i' e'

abbrev tier : Server String
tier = record {
  pointer = λ n. body far_sha;
  metadata = λ k. body remote;
  content = λ k. body far_sha;
}

-- A crash between the copy of the content and its sidecar.
call-IsFiled_example : IsFiled same_text (apply_all (store_bin "new" "new" ∷ []) one_file)
unfolding call_writes writes add_entry check_name add_content record_content store_missing bin_or
    name_list validate_cache_name is_run before_line_feed count_chars is_dot get every is_later
    is_first is_between is_char is_digit
call-IsFiled_example =
    call-IsFiled same_text (λ x. 3) (adding "noon" (ok ("new", "web")) (some "fresh") none) one_file
      (store_bin "new" "new" ∷ [])
      (store_sidecar "new" (record {
        sha256 = "new";
        size = 3;
        names = "fresh" ∷ [];
        origin = some "web";
        added_at = "noon";
        description = none;
      })
        ∷ [])
      one_file-IsFiled refl

add_name-finds_example :
    IsUnambiguous (apply_all (store_sidecar "disk" renamed ∷ []) one_file)
    × (find_by_name "base" (apply_all (store_sidecar "disk" renamed ∷ []) one_file) ≡ some renamed)
unfolding add_name alias_resolved append_alias clashes or_kept resolve found_or_miss with_name
    iter_entries read_each keep_read only_one find_by_name get keys contains sorted insert_sorted
    str_le validate_cache_name is_run before_line_feed count_chars is_dot looks_like_sha is_hex
    starts_with every is_later is_first is_between is_char is_digit
add_name-finds_example =
    add_name-finds same_text one_file "base" one_file-IsFiled one_file-IsUnambiguous "img" renamed
      (store_sidecar "disk" renamed ∷ []) refl

forget_name-misses_example :
    IsUnambiguous (apply_all (store_sidecar "disk" nameless ∷ []) one_file)
    × (find_by_name "img" (apply_all (store_sidecar "disk" nameless ∷ []) one_file) ≡ none)
unfolding forget_name drop_name found_or_miss with_name iter_entries read_each keep_read
    find_by_name get keys contains sorted insert_sorted str_le
forget_name-misses_example =
    forget_name-misses same_text one_file "img" one_file-IsFiled one_file-IsUnambiguous nameless
      (store_sidecar "disk" nameless ∷ []) refl

resolve_ref-IsLocal_example :
    IsLocal same_text
      (apply_all (store_bin far_sha far_sha ∷ store_sidecar far_sha remote ∷ []) one_file)
      remote
unfolding http_resolve remote_sha pointed read_remote resolve_ref local_or_http read_through is_miss
    fetch_and_materialize fetched write_materialized_sidecar merge_sidecar resolve found_or_miss
    with_name iter_entries read_each keep_read only_one find_by_name get keys contains sorted
    insert_sorted str_le validate_cache_name is_run before_line_feed count_chars is_dot
    looks_like_sha is_hex starts_with every is_later is_first is_between is_char is_digit
resolve_ref-IsLocal_example =
    resolve_ref-IsLocal same_text one_file (some tier) "ext" remote
      (store_bin far_sha far_sha ∷ store_sidecar far_sha remote ∷ []) one_file-IsFiled refl

-- Two calls with the same content: both copy it, then each records its name.
add_steps-names_example :
    HasName
      (add_steps same_text
        (λ x. 3)
        (copying "new"
          ∷ copying "new"
          ∷ recording "noon" (some "left") none "new" "web"
          ∷ recording "noon" (some "right") none "new" "web"
          ∷ [])
        one_file).sidecars
      "new"
      "left"
add_steps-names_example =
    add_steps-names same_text (λ x. 3) (copying "new" ∷ copying "new" ∷ [])
      (recording "noon" (some "right") none "new" "web" ∷ []) "noon" "left" none "new" "web"
      one_file
