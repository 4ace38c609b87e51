-- ===== src/Dedup.antt =====
-- The deduplication port of packages/core/src/domain/ports/index.ts and its adapters.
pub mod Memory
pub mod Remote
mod Tests
use junando.Common.{ℕ, String, Bool, Option}

-- `DedupResult`
pub record DedupResult : Type 0 where
  pub is_new : Bool
  pub ttl_seconds : ℕ
  pub error : Option String
