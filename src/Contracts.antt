-- ===== src/Contracts.antt =====
-- The contract side of the backend, backend/src/contracts.
pub mod VoidImpact
pub mod Validation
pub mod Billing
pub mod Lifecycle
