-- ===== src/Checkout/RefundWriter/Writes.antt =====
-- What `applyCheckoutRentRefund` of backend/src/checkout/checkout-rent-refund-writer.ts writes.
use srms.Prelude.{
  ℕ, suc, ◌==◌, Bool, not, ◌&&◌, if◌then◌else◌, none, some, List, [], ◌∷◌, ◌++◌, map, filter,
  contains, length, is_some,
}
use srms.Prelude.Int.{pos, ◌+ℤ◌, ◌-ℤ◌, eqb_ℤ}
use srms.Prelude.Fallible.{Result, ok, ◌>>=◌, ◌>>◌, throw_if}
use srms.Payments.Adjustment.{AdjustmentDirection, RentBillStatus}
use srms.Payments.RefundStatus.{ApprovalStatus, ReservationStatus, RefundedStatus, CurrentRefund}
use srms.Payments.Store.{
  RentBill, PaymentAllocation, PaymentStatus, AdjustmentType, BillAdjustment, Reason, update_where,
  find_bill,
}
use srms.Checkout.Reservations.{RentPayment}
use srms.Checkout.RefundWriter.Tables.{
  RentClaim, WriterTables, WriterError, or_throw, find_allocation, payment_refund_status,
}
use srms.Checkout.RefundWriter.Tables.WriterError.{missing_row, claim_changed}
use srms.Checkout.RefundWriter.Checks.{ApplyInput, Total, amount_at, payment_of, is_active}

-- `data` of the update of a bill that `bill` has been read from.
abbrev pub refunded_bill : List Total → RentBill → RentBill → RentBill
refunded_bill totals bill b =
    let amount = amount_at bill.id totals in
    let after = bill.payable_amount -ℤ amount in
    let received = bill.received_amount -ℤ amount in
    record b {
      adjustment_amount = bill.adjustment_amount -ℤ amount;
      payable_amount = after;
      received_amount = received;
      outstanding_amount = pos 0;
      status =
          if eqb_ℤ after (pos 0) && eqb_ℤ received (pos 0)
          then RentBillStatus.refunded
          else RentBillStatus.paid;
    }

abbrev pub refund_adjustment : ApplyInput → ℕ → List Total → ℕ → RentBill → BillAdjustment
refund_adjustment input item_id totals id bill = record {
  id = id;
  rent_bill_id = bill.id;
  adjustment_type = AdjustmentType.checkout_rent_refund;
  direction = AdjustmentDirection.decrease;
  amount = amount_at bill.id totals;
  before_amount = bill.payable_amount;
  after_amount = bill.payable_amount -ℤ amount_at bill.id totals;
  reason = Reason.rent_refunded input.settlement_id;
  source_payment_id = none;
  checkout_item_id = some item_id;
  approval_status = ApprovalStatus.approved;
  submitted_by = input.approved_by;
  approved_by = some input.approved_by;
  rejected_reason = none;
  reversed_by = none;
}

unfoldable pub write_bills :
    ApplyInput
    → ℕ
    → List Total
    → List RentBill
    → List ℕ
    → WriterTables
    → Result WriterError WriterTables
write_bills input item_id totals read [] s = ok s
write_bills input item_id totals read (id ∷ ids) s =
    or_throw missing_row (find_bill id read) >>= λ bill.
    write_bills input item_id totals read ids (record s {
      bills = update_where (λ b. b.id == id) (refunded_bill totals bill) s.bills;
      adjustments =
          s.adjustments ++ refund_adjustment input item_id totals s.next_adjustment_id bill ∷ [];
      next_adjustment_id = suc s.next_adjustment_id;
    })

abbrev pub reversed_allocation :
    List Total → PaymentAllocation → PaymentAllocation → PaymentAllocation
reversed_allocation totals allocation a = record a {
  reversed_amount = allocation.reversed_amount +ℤ amount_at allocation.id totals;
}

unfoldable pub write_allocations :
    List Total
    → List PaymentAllocation
    → List ℕ
    → List PaymentAllocation
    → Result WriterError (List PaymentAllocation)
write_allocations totals read [] rows = ok rows
write_allocations totals read (id ∷ ids) rows =
    or_throw missing_row (find_allocation id read) >>= λ a.
    write_allocations totals read ids
      (update_where (λ (x : PaymentAllocation). x.id == id) (reversed_allocation totals a) rows)

-- `where` of the reservations that are claimed, and what becomes of them.
abbrev pub is_claimable : List ℕ → RentClaim → Bool
is_claimable ids c = contains c.id ids && is_active c && not (is_some c.deposit_refund_id)

abbrev pub claimed : ℕ → RentClaim → RentClaim
claimed refund_id c = record c {
  reservation = record c.reservation { status = ReservationStatus.applied };
  deposit_refund_id = some refund_id;
}

unfoldable pub claim_reservations :
    ℕ → List RentClaim → List RentClaim → Result WriterError (List RentClaim)
claim_reservations refund_id active claims =
    let ids = map (λ (c : RentClaim). c.id) active in
    throw_if (not (length (filter (is_claimable ids) claims) == length active)) claim_changed
    >> ok (update_where (is_claimable ids) (claimed refund_id) claims)

pub record NextStatus : Type 0 where
  pub payment_id : ℕ
  pub status : PaymentStatus

abbrev pub status_of : RefundedStatus → PaymentStatus
status_of RefundedStatus.partially_refunded = PaymentStatus.partially_refunded
status_of RefundedStatus.fully_refunded = PaymentStatus.fully_refunded

-- The reservations of a payment that are being applied.
abbrev pub current_claims : List RentClaim → ℕ → CurrentRefund
current_claims active payment_id =
    CurrentRefund.checkout_rent_refunds (
      map (λ (c : RentClaim). c.id) (filter (λ (c : RentClaim). payment_of c == payment_id) active))

unfoldable pub next_statuses :
    WriterTables → List RentClaim → List ℕ → Result WriterError (List NextStatus)
next_statuses s active [] = ok []
next_statuses s active (id ∷ ids) =
    payment_refund_status s id (current_claims active id) >>= λ result.
    next_statuses s active ids >>= λ rest.
    ok (record { payment_id = id; status = status_of result.status } ∷ rest)

unfoldable pub write_payments : List NextStatus → List RentPayment → List RentPayment
write_payments [] payments = payments
write_payments (n ∷ ns) payments = write_payments ns (
    update_where (λ (p : RentPayment). p.id == n.payment_id)
      (λ (p : RentPayment). record p { status = n.status }) payments)
