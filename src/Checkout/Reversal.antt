-- ===== src/Checkout/Reversal.antt =====
-- A completed checkout that is taken back, and an approved one that is cancelled:
-- backend/src/checkout/checkout-completed-reversal.ts and checkout-approved-cancellation.ts. The
-- generated numbers, the texts of reasons and the moments of releases are left out.
pub mod Tables
pub mod Ledgers
pub mod RentRefunds
pub mod Claims
pub mod Repaid
pub mod Rows
pub mod RoundTrip
pub mod Restoring
pub mod Entries
pub mod Undone
pub mod Extended
pub mod Recorded
pub mod Refunded
pub mod Offset
pub mod Cleared
pub mod Steps
pub mod Returned
pub mod Closed
pub mod Cancelled
mod Examples
use srms.Prelude.{
  ℕ, ◌==◌, Bool, true, false, not, ◌&&◌, if◌then◌else◌, Option, none, some, List, [], ◌∷◌, ◌++◌,
  map, filter, any, contains, length,
}
use srms.Prelude.Int.{ℤ, pos, ◌+ℤ◌}
use srms.Prelude.Fallible.{Result, ok, err, ◌>>=◌, ◌>>◌, throw_if}
use srms.Payments.RefundStatus.{ApprovalStatus, is_approved}
use srms.Payments.Store.{
  RentBill, AuditEvent, AuditLog, PaymentStatus, PaymentCategory, update_where, is_pending,
  is_supplemental,
}
use srms.Checkout.FutureBills.{
  Normalized, FutureBillError, reverse_future_checkout_bill_normalization,
  restore_legacy_future_checkout_bills,
}
use srms.Checkout.Reservations.{RentPayment, is_refundable_status, is_of_settlement}
use srms.Checkout.RefundWriter.Tables.{DepositRefund, RentClaim, WriterTables}
use srms.Checkout.RefundWriter.Checks.{is_active, claims_of}
use srms.Checkout.Reversal.Tables.{CheckoutTables, UndoError, UndoInput, future_tables, with_future}
use srms.Checkout.Reversal.Tables.UndoError.{
  refund_confirmed, supplement_collected, refund_changed, future_bill_changed,
}
use srms.Checkout.Reversal.Ledgers.{
  deposit_balance, prepaid_balance, Refunding, reverse_refunds, offsets_of, reverse_offsets,
  Offsetting, supplement_of, void_supplement, with_refunds,
}
use srms.Checkout.Reversal.RentRefunds.{restore_rent_refunds, released_claim}

abbrev pub approved_refunds : ℕ → CheckoutTables → List DepositRefund
approved_refunds settlement_id s =
    filter
      (λ (r : DepositRefund). (r.settlement_id == settlement_id) && is_approved r.approval_status)
      s.rent.deposit_refunds

-- Both functions on the future bills, one after the other, with what they restore.
pub record FutureRestored : Type 0 where
  pub tables : CheckoutTables
  pub restored : ℤ
  pub legacy_bill_ids : List ℕ

unfoldable pub restore_future :
    (ℕ → ℕ) → UndoInput → CheckoutTables → Result UndoError FutureRestored
restore_future business_day input s =
    elim (reverse_future_checkout_bill_normalization business_day input (future_tables s.rent)) [
      | err e ↦ err future_bill_changed
      | ok n ↦
          let s' = with_future s n in
          let legacy =
            restore_legacy_future_checkout_bills business_day input (future_tables s'.rent) in
          ok (record {
            tables = with_future s' legacy;
            restored = n.amount +ℤ legacy.amount;
            legacy_bill_ids = legacy.bill_ids;
          })
    ]

pub record CompletedReversal : Type 0 where
  pub tables : CheckoutTables
  pub cancelled_refund_ids : List ℕ
  pub restored_deposit_amount : ℤ
  pub restored_prepayment_amount : ℤ
  pub restored_rent_refund_amount : ℤ
  pub restored_future_bill_amount : ℤ
  pub restored_deposit_offset_amount : ℤ
  pub voided_supplemental_bill_id : Option ℕ

abbrev pub id_of_bill : Option RentBill → Option ℕ
id_of_bill none = none
id_of_bill (some bill) = some bill.id

unfoldable pub reverse_completed_checkout_accounting :
    (ℕ → ℕ) → UndoInput → CheckoutTables → Result UndoError CompletedReversal
reverse_completed_checkout_accounting business_day input s = do
  let refunds = approved_refunds input.settlement_id s
  returned ← reverse_refunds input refunds (record {
    tables = s;
    deposit_balance = deposit_balance input.contract_id s;
    prepayment_balance = prepaid_balance input.contract_id s;
    restored_deposit = pos 0;
    restored_prepayment = pos 0;
  })
  future ← restore_future business_day input returned.tables
  offset ←
      reverse_offsets input future.tables.rent.bills (offsets_of input future.tables)
        (record { tables = future.tables; balance = returned.deposit_balance; restored = pos 0 })
  voided ← void_supplement input.settlement_id offset.tables
  rent ← restore_rent_refunds input voided.rent
  ok (record {
    tables = record voided { rent = rent.tables };
    cancelled_refund_ids = map (λ (r : DepositRefund). r.id) refunds;
    restored_deposit_amount = returned.restored_deposit;
    restored_prepayment_amount = returned.restored_prepayment;
    restored_rent_refund_amount = rent.restored_amount;
    restored_future_bill_amount = future.restored;
    restored_deposit_offset_amount = offset.restored;
    voided_supplemental_bill_id = id_of_bill (supplement_of input.settlement_id offset.tables);
  })

-- The refunds of a settlement that wait or are approved.
abbrev pub is_open_refund_of : ℕ → DepositRefund → Bool
is_open_refund_of settlement_id r =
    (r.settlement_id == settlement_id)
    && (if is_pending r.approval_status then true else is_approved r.approval_status)

abbrev pub has_supplement_payment : ℕ → WriterTables → Bool
has_supplement_payment contract_id s =
    any
      (λ (p : RentPayment).
        (p.contract_id == contract_id)
        && is_supplemental p.category
        && is_refundable_status p.status)
      s.payments

abbrev pub pending_ids : List DepositRefund → List ℕ
pending_ids refunds =
    map (λ (r : DepositRefund). r.id)
      (filter (λ (r : DepositRefund). is_pending r.approval_status) refunds)

abbrev pub is_pending_of : List ℕ → DepositRefund → Bool
is_pending_of ids r = contains r.id ids && is_pending r.approval_status

unfoldable pub cancel_refunds : List ℕ → List DepositRefund → Result UndoError (List DepositRefund)
cancel_refunds ids rows =
    throw_if (not (length (filter (is_pending_of ids) rows) == length ids)) refund_changed
    >> ok (
        update_where (is_pending_of ids)
          (λ (r : DepositRefund). record r { approval_status = ApprovalStatus.cancelled }) rows)

-- The reservations of the settlement that are released.
abbrev pub release_reserved : ℕ → CheckoutTables → CheckoutTables
release_reserved settlement_id s = record s {
  rent = record s.rent {
    claims =
        update_where
          (λ (c : RentClaim).
            is_active c && is_of_settlement s.rent.items settlement_id c.reservation)
          released_claim s.rent.claims;
  };
}

pub record RolledBack : Type 0 where
  pub tables : CheckoutTables
  pub cancelled_refund_count : ℕ
  pub released_reservation_count : ℕ
  pub restored_deposit_amount : ℤ
  pub restored_legacy_future_bill_ids : List ℕ
  pub audit_log : AuditLog

unfoldable pub rollback_approved_checkout :
    (ℕ → ℕ) → UndoInput → CheckoutTables → Result UndoError RolledBack
rollback_approved_checkout business_day input s = do
  let refunds = filter (is_open_refund_of input.settlement_id) s.rent.deposit_refunds
  throw_if (any (λ (r : DepositRefund). is_approved r.approval_status) refunds) refund_confirmed
  throw_if (has_supplement_payment input.contract_id s.rent) supplement_collected
  let ids = pending_ids refunds
  cancelled ← cancel_refunds ids s.rent.deposit_refunds
  let reserved = filter is_active (claims_of s.rent input.settlement_id)
  let released = release_reserved input.settlement_id (with_refunds cancelled s)
  offset ← reverse_offsets input released.rent.bills (offsets_of input released) (record {
    tables = released;
    balance = deposit_balance input.contract_id released;
    restored = pos 0;
  })
  future ← restore_future business_day input offset.tables
  voided ← void_supplement input.settlement_id future.tables
  ok (record {
    tables = voided;
    cancelled_refund_count = length ids;
    released_reservation_count = length reserved;
    restored_deposit_amount = offset.restored;
    restored_legacy_future_bill_ids = future.legacy_bill_ids;
    audit_log = record {
      event =
          AuditEvent.approved_checkout_rolled_back input.contract_id (length ids) (length reserved)
            offset.restored future.legacy_bill_ids;
      entity_id = input.settlement_id;
      operator_id = input.operator_id;
    };
  })
