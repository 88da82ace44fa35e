-- ===== src/Contracts/VoidImpact.antt =====
-- What the correction of a contract reverses: backend/src/contracts/contract-void-impact.ts, up to
-- `computeContractVoidImpact` and `assertBalancedContractVoidImpact`. Amounts are cents, dates
-- time stamps.
pub mod Data
pub mod Rows
pub mod Compute
pub mod Balanced
pub mod Parts
pub mod Standing
pub mod Order
mod Examples
