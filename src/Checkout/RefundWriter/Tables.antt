-- ===== src/Checkout/RefundWriter/Tables.antt =====
-- The tables of backend/prisma/schema.prisma that `applyCheckoutRentRefund` of
-- backend/src/checkout/checkout-rent-refund-writer.ts reads and writes, and its exceptions. A
-- reservation and a refund row of the rent refunds are seen with their ids.
use srms.Prelude.{ℕ, ◌==◌, Option, none, some, List, map, filter, find}
use srms.Prelude.Int.{ℤ}
use srms.Prelude.Fallible.{Result, ok, err}
use srms.Payments.RefundStatus as Status
use srms.Payments.RefundStatus.{ApprovalStatus, CurrentRefund, PaymentRefundStatus}
use srms.Payments.Store.{RentBill, BillAdjustment, PaymentAllocation, VoidRequest, SettlementStatus}
use srms.Checkout.Reservations.{RentPayment, RefundRow, RefundItem, RentReservation, RefundTables}

pub record RefundSettlement : Type 0 where
  pub id : ℕ
  pub contract_id : ℕ
  pub status : SettlementStatus
  pub deposit_refundable_amount : ℤ
  pub prepayment_refundable_amount : ℤ
  pub rent_refundable_amount : ℤ
  pub actual_checkout_date : Option ℕ

pub record DepositRefund : Type 0 where
  pub id : ℕ
  pub contract_id : ℕ
  pub settlement_id : ℕ
  pub refund_amount : ℤ
  pub deposit_refund_amount : ℤ
  pub prepayment_refund_amount : ℤ
  pub rent_refund_amount : ℤ
  pub approval_status : ApprovalStatus
  pub approved_by : Option ℕ

pub record RentClaim : Type 0 where
  pub id : ℕ
  pub reservation : RentReservation
  pub deposit_refund_id : Option ℕ

pub record PaymentRefundRow : Type 0 where
  pub payment_refund_id : ℕ
  pub row : RefundRow

pub record WriterTables : Type 0 where
  pub settlements : List RefundSettlement
  pub deposit_refunds : List DepositRefund
  pub items : List RefundItem
  pub claims : List RentClaim
  pub bills : List RentBill
  pub payments : List RentPayment
  pub allocations : List PaymentAllocation
  pub void_requests : List VoidRequest
  pub refund_rows : List PaymentRefundRow
  pub adjustments : List BillAdjustment
  pub next_adjustment_id : ℕ

-- The tables as the planning of a refund reads them.
abbrev pub refund_tables : WriterTables → RefundTables
refund_tables s = record {
  bills = s.bills;
  payments = s.payments;
  allocations = s.allocations;
  void_requests = s.void_requests;
  refund_rows = map (λ (r : PaymentRefundRow). r.row) s.refund_rows;
  items = s.items;
  reservations = map (λ (c : RentClaim). c.reservation) s.claims;
}

pub data WriterError : Type 0 where
  invalid_input not_found already_applied released snapshot_changed state_changed : WriterError
  plan_changed accounting_changed reference_changed capacity_changed bill_changed : WriterError
  missing_row abnormal_status claim_changed : WriterError

-- `findUniqueOrThrow`, and `get(id)!` of a map.
abbrev pub or_throw {ℓ} : {A : Type ℓ} → WriterError → Option A → Result WriterError A
or_throw e none = err e
or_throw e (some a) = ok a

abbrev pub find_allocation : ℕ → List PaymentAllocation → Option PaymentAllocation
find_allocation id xs = find (λ (a : PaymentAllocation). a.id == id) xs

abbrev pub find_rent_payment : ℕ → List RentPayment → Option RentPayment
find_rent_payment id xs = find (λ (p : RentPayment). p.id == id) xs

-- An allocation of a payment with its rows, as `calculatePaymentRefundStatus` queries them.
abbrev pub status_row : WriterTables → PaymentAllocation → Status.PaymentAllocation
status_row s a = record {
  allocated_amount = a.allocated_amount;
  refund_allocations =
      map
        (λ (r : PaymentRefundRow). record {
          payment_refund_id = r.payment_refund_id;
          reversed_amount = r.row.reversed_amount;
          approval_status = r.row.refund_status;
        })
        (filter (λ (r : PaymentRefundRow). r.row.payment_allocation_id == a.id) s.refund_rows);
  checkout_allocations =
      map
        (λ (c : RentClaim). record {
          id = c.id;
          reserved_amount = c.reservation.reserved_amount;
          status = c.reservation.status;
        })
        (filter (λ (c : RentClaim). c.reservation.payment_allocation_id == a.id) s.claims);
}

abbrev pub payment_rows : WriterTables → ℕ → List Status.PaymentAllocation
payment_rows s payment_id =
    map (status_row s)
      (filter (λ (a : PaymentAllocation). a.payment_id == payment_id) s.allocations)

-- `calculatePaymentRefundStatus` of a payment that is there.
unfoldable pub payment_refund_status :
    WriterTables → ℕ → CurrentRefund → Result WriterError PaymentRefundStatus
payment_refund_status s payment_id current =
    elim (Status.calculate_payment_refund_status (payment_rows s payment_id) current) [
      | err e ↦ err abnormal_status
      | ok status ↦ ok status
    ]
