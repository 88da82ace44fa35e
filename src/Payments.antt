-- ===== src/Payments.antt =====
-- The payment side of the backend, backend/src/payments.
pub mod Allocation
pub mod Adjustment
pub mod RefundStatus
pub mod Store
pub mod Adjustments
pub mod Voids
