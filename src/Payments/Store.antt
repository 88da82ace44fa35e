-- ===== src/Payments/Store.antt =====
-- The tables that the payment services read and write (backend/prisma/schema.prisma), as lists of
-- rows in the order of their ids, and the queries that the services share. A service's transaction
-- is a function on the database: one that throws leaves no new database, as a rollback does. The
-- row locks that begin each transaction serialise it and change no row. Generated numbers, time
-- stamps of bookkeeping and message texts are left out.
pub mod Tables
pub mod Guards
pub mod Snapshot
pub mod Rows
pub mod Sweep
pub mod Counts
pub mod Rounds
pub mod Sums
pub use srms.Payments.Store.Tables.{
  ContractStatus, PaymentStatus, PaymentCategory, BillCategory, SettlementStatus, AdjustmentType,
  PrepaymentType, Contract, RentBill, Reason, BillAdjustment, Payment, PaymentAllocation,
  VoidRequest, PrepaymentTransaction, Settlement, SettlementItem, Reservation, AuditEvent, AuditLog,
  Database, AuthUser, PaymentError, update_where, or_not_found, find_bill, find_contract,
  find_adjustment, find_payment,
}
pub use srms.Payments.Store.Guards.{
  is_pending, is_void_contract, is_void_bill, is_rent_bill, is_supplemental,
  assert_contract_not_voided, is_protecting, protects, is_protected_bill, assert_bill_not_protected,
  assert_payment_not_protected, is_deposit, assert_not_automatic_deposit, latest,
  supplemental_settlement, is_completed, reopened, is_reserved, assert_no_reservation,
}
unfoldable pub use srms.Payments.Store.Guards.{
  assert_reversal_request_allowed, reopen_supplemental_balance,
}
pub use srms.Payments.Store.Snapshot.{insert_bill, amounts_of}
unfoldable pub use srms.Payments.Store.Snapshot.{sort_bills, snapshot_loop, refresh_snapshot}
