-- ===== src/Payments/RefundStatus/Examples.antt =====
-- A payment with one approved refund and one that is being completed, and the theorem at it.
use srms.Prelude.{◌≡◌, refl, List, [], ◌∷◌}
use srms.Prelude.Int.{pos, ◌+ℤ◌}
use srms.Prelude.Fallible.{ok}
use srms.Payments.RefundStatus.{
  PaymentAllocation, PaymentRefundStatus, payment_refund, approved, pending, select_rows,
  refund_total, allocated_total, saw_current_refund, seen_checkout_ids, fully_refunded,
  calculate_payment_refund_status,
}
use srms.Payments.RefundStatus.Totals.{Describes, calculate_payment_refund_status-Describes}

abbrev rows : List PaymentAllocation
rows =
    record {
      allocated_amount = pos 500;
      refund_allocations =
          record { payment_refund_id = 1; reversed_amount = pos 200; approval_status = approved }
          ∷ record { payment_refund_id = 2; reversed_amount = pos 300; approval_status = pending }
          ∷ record { payment_refund_id = 3; reversed_amount = pos 50; approval_status = pending }
          ∷ [];
      checkout_allocations = [];
    }
    ∷ []

abbrev status : PaymentRefundStatus
status = record { allocated = pos 500; completed = pos 500; status = fully_refunded }

computes : calculate_payment_refund_status rows (payment_refund 2) ≡ ok status
unfolding calculate_payment_refund_status select_rows refund_total allocated_total
    saw_current_refund seen_checkout_ids ◌+ℤ◌
computes = refl

calculate_payment_refund_status-Describes_example : Describes rows (payment_refund 2) status
calculate_payment_refund_status-Describes_example =
    calculate_payment_refund_status-Describes rows (payment_refund 2) status computes
