-- ===== src/Checkout/Reservations/Examples.antt =====
-- A contract with one bill paid in two payments, and the theorems at it.
use srms.Prelude.{ℕ, ◌≡◌, refl, true, [], ◌∷◌, arith}
use srms.Prelude.Int.{pos, ◌+ℤ◌, ◌-ℤ◌, max_ℤ, min_ℤ, sum_ℤ}
use srms.Prelude.Fallible.{ok}
use srms.Payments.Adjustment.{RentBillStatus}
use srms.Payments.RefundStatus.{ApprovalStatus, ReservationStatus}
use srms.Payments.Store.{RentBill, BillCategory, PaymentAllocation, PaymentCategory, PaymentStatus}
use srms.Checkout.RentRefund.{
  insert_candidate, sort_candidates, eligible_candidates, allocate_shares,
  allocate_checkout_rent_refund,
}
use srms.Checkout.Reservations.{
  RentPayment, RentReservation, RefundTables, ReserveCheckoutRentRefundInput, Reserved,
  reserve_checkout_rent_refund, release_checkout_rent_refund, plan_checkout_rent_refund,
  load_checkout_rent_refund_candidates, assert_checkout_rent_refund_reservation_matches,
}
use srms.Checkout.Reservations.Covered.{AreCovered, reserve_checkout_rent_refund-AreCovered}
use srms.Checkout.Reservations.Matches.{reserve_checkout_rent_refund-matches}

abbrev bill : RentBill
bill = record {
  id = 1;
  contract_id = 1;
  period_seq = 1;
  period_start = 738000;
  period_end = 738029;
  due_date = 738000;
  base_rent_amount = pos 100000;
  rent_free_amount = pos 0;
  discount_amount = pos 0;
  adjustment_amount = pos 0;
  payable_amount = pos 100000;
  received_amount = pos 100000;
  outstanding_amount = pos 0;
  status = RentBillStatus.paid;
  category = BillCategory.rent;
}

abbrev payment : ℕ → RentPayment
payment id = record {
  id = id;
  contract_id = 1;
  category = PaymentCategory.rent;
  status = PaymentStatus.confirmed;
  payment_date = id;
}

abbrev allocation : ℕ → PaymentAllocation
allocation id = record {
  id = id;
  payment_id = id;
  rent_bill_id = 1;
  allocated_amount = pos 50000;
  reversed_amount = pos 0;
}

-- Another settlement holds some of the second payment.
abbrev other : RentReservation
other = record {
  item_id = 3;
  payment_allocation_id = 2;
  payment_id = 2;
  rent_bill_id = 1;
  reserved_amount = pos 20000;
  status = ReservationStatus.reserved;
}

abbrev tables : RefundTables
tables = record {
  bills = bill ∷ [];
  payments = payment 1 ∷ payment 2 ∷ [];
  allocations = allocation 1 ∷ allocation 2 ∷ [];
  void_requests = [];
  refund_rows =
      record {
        payment_allocation_id = 1;
        reversed_amount = pos 10000;
        refund_status = ApprovalStatus.pending;
      }
      ∷ [];
  items =
      record { id = 3; settlement_id = 8; is_rent_refund = true; amount = pos 20000 }
      ∷ record { id = 4; settlement_id = 9; is_rent_refund = true; amount = pos 60000 }
      ∷ [];
  reservations = other ∷ [];
}

abbrev input : ReserveCheckoutRentRefundInput
input = record {
  settlement_id = 9;
  settlement_item_id = 4;
  contract_id = 1;
  actual_checkout_date = 738010;
  requested_amount = pos 60000;
}

held : (done : Reserved) × (reserve_checkout_rent_refund input tables ≡ ok done)
unfolding reserve_checkout_rent_refund release_checkout_rent_refund plan_checkout_rent_refund
    load_checkout_rent_refund_candidates allocate_checkout_rent_refund eligible_candidates
    sort_candidates insert_candidate allocate_shares ◌+ℤ◌ ◌-ℤ◌ max_ℤ min_ℤ sum_ℤ
held = (_, refl)

covered : AreCovered tables
unfolding ◌+ℤ◌ sum_ℤ
covered = record { covered = (omega arith, (omega arith, tt)); amounts = (omega arith, tt) }

reserve_checkout_rent_refund-AreCovered_example : AreCovered held.0.tables
reserve_checkout_rent_refund-AreCovered_example =
    reserve_checkout_rent_refund-AreCovered input tables held.0 (ground arith) covered held.1

reserve_checkout_rent_refund-matches_example :
    assert_checkout_rent_refund_reservation_matches 9 (pos 60000) held.0.tables ≡ ok tt
reserve_checkout_rent_refund-matches_example =
    reserve_checkout_rent_refund-matches input tables held.0
      (record { id = 4; settlement_id = 9; is_rent_refund = true; amount = pos 60000 })
      (ground arith) (omega arith) refl refl held.1
