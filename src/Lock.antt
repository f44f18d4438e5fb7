-- ===== src/Lock.antt =====
-- packages/relay/src/lib/services/lockService: the local lock per sender address
-- (LocalLockStrategy.ts) and the service in front of it (LockService.ts).
pub mod Strategy
pub mod Steps
pub mod Redis
pub mod KeyMaps
pub mod RedisSafety
pub mod RedisQueue
pub mod RedisProgress
pub mod Ownership
pub mod Exclusion
pub mod Eviction
mod Examples
mod RedisExamples
