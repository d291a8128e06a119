-- ===== src/Quota.antt =====
-- Daily limits on AI actions: src/common/services/quota.service.ts.
pub mod Service
pub mod Limits
