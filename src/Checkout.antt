-- ===== src/Checkout.antt =====
-- The checkout side of the backend, backend/src/checkout.
pub mod Amounts
pub mod Accounting
pub mod RentRefund
pub mod FutureBills
pub mod Reservations
pub mod Deposits
pub mod RefundWriter
pub mod Reversal
