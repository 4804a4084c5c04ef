-- ===== src/Redis.antt =====
-- src/redis_client.py: the scripts that Redis runs, each an atomic step on the value of one key.
pub mod RateLimit
pub mod ChatTail
