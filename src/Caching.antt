-- ===== src/Caching.antt =====
-- packages/relay/src/lib/clients/cache/localLRUCache.ts: the cache in memory.
pub mod Local
pub mod Reading
mod Examples
