-- ===== src/Dedup/Remote.antt =====
-- `RedisDeduplicationStore` and `DynamoDBDeduplicationStore`. The services are not part of this code:
-- their replies are arguments. `failovers` is the counter `dedupFailoverTotal`.
use junando.Common.{ℕ, ◌+◌, ◌/◌, String, true, false, none, some}
use Prim.Native.String
use junando.Dedup.{DedupResult}

-- What comes back from Redis for SET with EX and NX.
pub data RedisReply : Type 0 where
  set_ok null_reply : RedisReply
  redis_failed : String → RedisReply

-- What comes back from DynamoDB for the conditional PutItem.
pub data DynamoReply : Type 0 where
  put_done condition_failed : DynamoReply
  dynamo_failed : String → DynamoReply

-- The key that Redis is asked for.
abbrev pub redis_key : String → String
redis_key fingerprint = String.◌++◌ "junando:dedup:" fingerprint

unfoldable pub redis_is_new : RedisReply → ℕ → ℕ → DedupResult × ℕ
redis_is_new set_ok ttl failovers =
    (record { is_new = true; ttl_seconds = ttl; error = none }, failovers)
redis_is_new null_reply ttl failovers =
    (record { is_new = false; ttl_seconds = ttl; error = none }, failovers)
redis_is_new (redis_failed message) ttl failovers =
    (record { is_new = true; ttl_seconds = ttl; error = some message }, failovers + 1)

-- The item that is put and the time that its condition compares with, in seconds.
abbrev pub expires_at : ℕ → ℕ → ℕ
expires_at now_ms ttl = now_ms / 1000 + ttl

unfoldable pub dynamo_is_new : DynamoReply → ℕ → ℕ → DedupResult × ℕ
dynamo_is_new put_done ttl failovers =
    (record { is_new = true; ttl_seconds = ttl; error = none }, failovers)
dynamo_is_new condition_failed ttl failovers =
    (record { is_new = false; ttl_seconds = ttl; error = none }, failovers)
dynamo_is_new (dynamo_failed message) ttl failovers =
    (record { is_new = true; ttl_seconds = ttl; error = some message }, failovers + 1)
