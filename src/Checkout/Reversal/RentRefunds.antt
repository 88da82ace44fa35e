-- ===== src/Checkout/Reversal/RentRefunds.antt =====
-- The rent of a checkout that is put back on bills, allocations and payments: the second half of
-- `reverseCompletedCheckoutAccounting` of backend/src/checkout/checkout-completed-reversal.ts.
use srms.Prelude.{
  ℕ, suc, ◌==◌, Bool, true, false, not, ◌&&◌, if◌then◌else◌, Option, none, some, List, [], ◌∷◌,
  ◌++◌, map, filter, contains, length, is_some,
}
use srms.Prelude.Int.{ℤ, pos, ◌+ℤ◌, ◌-ℤ◌, ltb_ℤ, eqb_ℤ, sum_ℤ}
use srms.Prelude.Fallible.{Result, ok, err, ◌>>=◌, ◌>>◌, throw_if}
use srms.Payments.Adjustment.{AdjustmentDirection}
use srms.Payments.RefundStatus.{
  ApprovalStatus, ReservationStatus, CurrentRefund, PaymentRefundStatus, is_approved, is_applied,
}
use srms.Payments.Store.{
  RentBill, BillAdjustment, AdjustmentType, Reason, PaymentAllocation, PaymentStatus, update_where,
  find_bill,
}
use srms.Checkout.FutureBills.{Linked, is_unclaimed}
use srms.Checkout.Reservations.{RentPayment}
use srms.Checkout.RefundWriter.Tables.{RentClaim, WriterTables, payment_refund_status}
use srms.Checkout.RefundWriter.Checks.{
  Total, add_amount, amount_at, held_amount, allocation_of, payment_of, claims_of,
}
use srms.Checkout.RefundWriter.Writes.{status_of}
use srms.Checkout.Reversal.Tables.{UndoError, UndoInput, restored_bill_status}
use srms.Checkout.Reversal.Tables.UndoError.{
  adjustment_changed, allocation_missing, allocation_short, reservation_changed, abnormal_status,
}

-- `[...new Set(ids)]`.
abbrev pub set_of : List ℕ → List ℕ
set_of [] = []
set_of (x ∷ xs) = x ∷ filter (λ y. not (x == y)) (set_of xs)

abbrev pub is_applied_claim : RentClaim → Bool
is_applied_claim c = is_applied c.reservation.status

abbrev pub applied_claims : ℕ → WriterTables → List RentClaim
applied_claims settlement_id s = filter is_applied_claim (claims_of s settlement_id)

abbrev pub item_ids_of : List RentClaim → List ℕ
item_ids_of applied = set_of (map (λ (c : RentClaim). c.reservation.item_id) applied)

abbrev pub is_rent_refund_type : AdjustmentType → Bool
is_rent_refund_type AdjustmentType.checkout_rent_refund = true
is_rent_refund_type _ = false

abbrev pub is_of_items : List ℕ → Option ℕ → Bool
is_of_items ids none = false
is_of_items ids (some id) = contains id ids

abbrev pub is_open_refund : List ℕ → BillAdjustment → Bool
is_open_refund ids a =
    is_of_items ids a.checkout_item_id
    && is_rent_refund_type a.adjustment_type
    && is_approved a.approval_status
    && not (is_some a.reversed_by)

-- The query, with the bill of each adjustment as read at the start.
abbrev pub link_bills : List RentBill → List BillAdjustment → List Linked
link_bills bills [] = []
link_bills bills (a ∷ xs) =
    let rest = link_bills bills xs in
    elim (find_bill a.rent_bill_id bills) [
      | none ↦ rest
      | some b ↦ record { adjustment = a; bill = b } ∷ rest
    ]

abbrev pub open_refunds : List ℕ → WriterTables → List Linked
open_refunds ids s = link_bills s.bills (filter (is_open_refund ids) s.adjustments)

abbrev pub refund_restoration : UndoInput → ℕ → Linked → BillAdjustment
refund_restoration input id l = record {
  id = id;
  rent_bill_id = l.bill.id;
  adjustment_type = AdjustmentType.checkout_rent_refund;
  direction = AdjustmentDirection.increase;
  amount = l.adjustment.amount;
  before_amount = l.bill.payable_amount;
  after_amount = l.bill.payable_amount +ℤ l.adjustment.amount;
  reason = Reason.refund_restored input.settlement_id;
  source_payment_id = none;
  checkout_item_id = l.adjustment.checkout_item_id;
  approval_status = ApprovalStatus.approved;
  submitted_by = input.operator_id;
  approved_by = some input.operator_id;
  rejected_reason = none;
  reversed_by = none;
}

-- `data` of the update of a bill that `bill` has been read from.
abbrev pub repaid_bill : UndoInput → ℤ → RentBill → RentBill → RentBill
repaid_bill input amount bill b =
    let after = bill.payable_amount +ℤ amount in
    let received = bill.received_amount +ℤ amount in
    let outstanding = after -ℤ received in
    record b {
      adjustment_amount = bill.adjustment_amount +ℤ amount;
      payable_amount = after;
      received_amount = received;
      outstanding_amount = outstanding;
      status = restored_bill_status received outstanding bill.due_date input.occurred_at;
    }

pub record Repaying : Type 0 where
  pub tables : WriterTables
  pub by_bill : List Total

unfoldable pub repay_bill : UndoInput → Linked → Repaying → Result UndoError Repaying
repay_bill input l t =
    let id = t.tables.next_adjustment_id in
    let booked = t.tables.adjustments ++ refund_restoration input id l ∷ [] in
    throw_if (not (length (filter (is_unclaimed l.adjustment.id) booked) == 1)) adjustment_changed
    >> ok (record {
      tables = record t.tables {
        bills =
            update_where (λ (b : RentBill). b.id == l.bill.id)
              (repaid_bill input l.adjustment.amount l.bill) t.tables.bills;
        adjustments =
            update_where (is_unclaimed l.adjustment.id)
              (λ (a : BillAdjustment). record a { reversed_by = some id }) booked;
        next_adjustment_id = suc id;
      };
      by_bill = add_amount t.by_bill l.adjustment.rent_bill_id l.adjustment.amount;
    })

unfoldable pub repay_bills : UndoInput → List Linked → Repaying → Result UndoError Repaying
repay_bills input [] t = ok t
repay_bills input (l ∷ ls) t = repay_bill input l t >>= λ t'. repay_bills input ls t'

-- `amountByAllocation` of the applied reservations.
abbrev pub allocation_totals : List RentClaim → List Total → List Total
allocation_totals [] totals = totals
allocation_totals (c ∷ cs) totals =
    allocation_totals cs (add_amount totals (allocation_of c) (held_amount c))

abbrev pub total_ids : List Total → List ℕ
total_ids totals = map (λ (t : Total). t.id) totals

-- The loop over the allocations that were read.
unfoldable pub repay_allocations :
    List Total
    → List PaymentAllocation
    → List PaymentAllocation
    → Result UndoError (List PaymentAllocation)
repay_allocations totals [] rows = ok rows
repay_allocations totals (a ∷ as') rows =
    let left = a.reversed_amount -ℤ amount_at a.id totals in
    throw_if (ltb_ℤ left (pos 0)) allocation_short
    >> repay_allocations totals as' (
        update_where (λ (x : PaymentAllocation). x.id == a.id)
          (λ (x : PaymentAllocation). record x { reversed_amount = left }) rows)

abbrev pub is_releasable : ℕ → RentClaim → Bool
is_releasable id c = (c.id == id) && is_applied_claim c

abbrev pub released_claim : RentClaim → RentClaim
released_claim c = record c {
  reservation = record c.reservation { status = ReservationStatus.released };
}

unfoldable pub release_claims : List RentClaim → List RentClaim → Result UndoError (List RentClaim)
release_claims [] rows = ok rows
release_claims (c ∷ cs) rows =
    throw_if (not (length (filter (is_releasable c.id) rows) == 1)) reservation_changed
    >> release_claims cs (update_where (is_releasable c.id) released_claim rows)

-- The status of a payment once the refunds of the checkout no longer count.
abbrev pub reopened_status : ℤ → PaymentStatus → PaymentStatus
reopened_status completed status =
    if eqb_ℤ completed (pos 0) then PaymentStatus.confirmed else status

-- `calculatePaymentRefundStatus` of a payment without a current refund.
unfoldable pub status_without_current : WriterTables → ℕ → Result UndoError PaymentRefundStatus
status_without_current s id =
    elim (payment_refund_status s id (CurrentRefund.checkout_rent_refunds [])) [
      | err e ↦ err abnormal_status
      | ok result ↦ ok result
    ]

unfoldable pub restore_payments : List ℕ → WriterTables → Result UndoError WriterTables
restore_payments [] s = ok s
restore_payments (id ∷ ids) s = status_without_current s id >>= λ result.
    restore_payments ids (record s {
      payments =
          update_where (λ (p : RentPayment). p.id == id)
            (λ (p : RentPayment). record p {
              status = reopened_status result.completed (status_of result.status);
            })
            s.payments;
    })

pub record RestoredRent : Type 0 where
  pub tables : WriterTables
  pub restored_amount : ℤ

unfoldable pub restore_rent_refunds : UndoInput → WriterTables → Result UndoError RestoredRent
restore_rent_refunds input s = do
  let applied = applied_claims input.settlement_id s
  repaid ←
      repay_bills input (open_refunds (item_ids_of applied) s) (record { tables = s; by_bill = [] })
  let totals = allocation_totals applied []
  let read =
      filter (λ (a : PaymentAllocation). contains a.id (total_ids totals)) repaid.tables.allocations
  throw_if (not (length read == length totals)) allocation_missing
  allocations ← repay_allocations totals read repaid.tables.allocations
  claims ← release_claims applied repaid.tables.claims
  tables ←
      restore_payments (set_of (map payment_of applied))
        (record repaid.tables { allocations = allocations; claims = claims })
  ok (record {
    tables = tables;
    restored_amount = sum_ℤ (map (λ (t : Total). t.amount) repaid.by_bill);
  })
