-- ===== src/Dedup/Memory.antt =====
-- `InMemoryDeduplicationStore` of redis-dedup.adapter.ts: the fingerprints with their expiry times in
-- milliseconds. `Date.now()` is an argument.
pub mod Window
use junando.Common.{
  ℕ, ◌+◌, ◌*◌, String, Bool, true, false, Option, none, some, List, [], ltb, if◌then◌else◌,
}
use junando.Common.Assoc.{lookup, insert, remove}
use junando.Dedup.{DedupResult}

abbrev pub Store : Type 0
Store = List (String × ℕ)

-- `expiry !== undefined && expiry > now`
is_live : Option ℕ → ℕ → Bool
is_live none now = false
is_live (some expiry) now = ltb now expiry

unfoldable pub is_new : String → ℕ → ℕ → Store → DedupResult × Store
unfolding is_live
is_new fingerprint ttl_seconds now store =
    if is_live (lookup fingerprint store) now
    then (record { is_new = false; ttl_seconds = ttl_seconds; error = none }, store)
    else (
      record { is_new = true; ttl_seconds = ttl_seconds; error = none },
      insert fingerprint (now + ttl_seconds * 1000) store,
    )

unfoldable pub reset : String → Store → Store
reset fingerprint store = remove fingerprint store

abbrev pub clear : Store → Store
clear store = []
