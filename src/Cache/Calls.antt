-- ===== src/Cache/Calls.antt =====
-- The calls of testrange/cache/manager.py as one type, with the writes that each makes to the local files.
use test_range.Prelude.{String, ℕ, Bool, Option, List, [], Result, ok, err}
use test_range.Errors.{Error}
use test_range.Cache.Storage.{CacheEntryInfo, Files, Write}
use test_range.Cache.Local.{add_entry, delete, purge, add_name, forget_name}
use test_range.Cache.Remote.{Server, resolve_ref, pull}

pub data Call (C : Type 0) : Type 0 where
  adding : String → Result Error (C × String) → Option String → Option String → Call C
  deleting forgetting : String → Call C
  purging : Call C
  naming : String → String → Call C
  resolving : Bool → Option (Server C) → String → Call C
  pulling : Option (Server C) → String → Call C

module _ {C : Type 0} where
  unfoldable pub writes : Result Error (CacheEntryInfo × List (Write C)) → List (Write C)
  writes (err e) = []
  writes (ok (i, ws)) = ws

  module _ (digest : C → String) (count_bytes : C → ℕ) where
    unfoldable pub call_writes : Call C → Files C → List (Write C)
    call_writes (adding now source name description) c =
        writes (add_entry digest count_bytes now source name description c)
    call_writes (deleting identifier) c = writes (delete identifier c)
    call_writes (forgetting name) c = writes (forget_name name c)
    call_writes purging c = (purge c).1
    call_writes (naming identifier new_name) c = writes (add_name identifier new_name c)
    call_writes (resolving fetch http identifier) c =
        writes (resolve_ref digest fetch http identifier c)
    call_writes (pulling http identifier) c = writes (pull digest http identifier c)
