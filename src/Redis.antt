-- ===== src/Redis.antt =====
-- Keys with a time to live: src/common/services/redis.service.ts.
pub mod KeyStore
pub mod Memory
pub mod Refinement
