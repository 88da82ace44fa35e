-- ===== src/System.antt =====
-- The system side of the backend, backend/src/system.
pub mod StableJson
pub mod AuditChain
