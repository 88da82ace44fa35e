-- ===== src/Checkout/RentRefund/Examples.antt =====
-- Two paid months, of which 250.00 are given back, and the theorems at them.
use srms.Prelude.{ℕ, ◌≡◌, refl, List, [], ◌∷◌, arith, ◌↔◌, filter}
use srms.Prelude.Int.{pos, ◌<ℤ◌, ◌-ℤ◌, ◌+ℤ◌, min_ℤ, sum_ℤ}
use srms.Prelude.Fallible.{ok, err}
use srms.Checkout.RentRefund.{
  RentRefundCandidate, RentRefundPlan, exceeds_available, is_refundable, total_available,
  insert_candidate, sort_candidates, eligible_candidates, allocate_shares,
  allocate_checkout_rent_refund,
}
use srms.Checkout.RentRefund.Plan.{
  IsPlan, allocate_checkout_rent_refund-IsPlan, allocate_checkout_rent_refund_refusal,
}

abbrev candidate : ℕ → ℕ → ℕ → RentRefundCandidate
candidate id start end = record {
  payment_allocation_id = id;
  payment_id = 1;
  rent_bill_id = id;
  period_start = start;
  period_end = end;
  payment_date = 5;
  available_amount = pos 20000;
}

-- The first period has ended before the checkout at day 40.
abbrev candidates : List RentRefundCandidate
candidates = candidate 1 0 30 ∷ candidate 2 31 60 ∷ candidate 3 61 90 ∷ []

abbrev plan : RentRefundPlan
plan = record {
  max_refundable_amount = pos 40000;
  requested_amount = pos 25000;
  allocations =
      record { payment_allocation_id = 3; payment_id = 1; rent_bill_id = 3; amount = pos 20000 }
      ∷ record { payment_allocation_id = 2; payment_id = 1; rent_bill_id = 2; amount = pos 5000 }
      ∷ [];
}

plans : allocate_checkout_rent_refund 40 (pos 25000) candidates ≡ ok plan
unfolding allocate_checkout_rent_refund eligible_candidates sort_candidates insert_candidate
    allocate_shares sum_ℤ min_ℤ ◌+ℤ◌ ◌-ℤ◌
plans = refl

allocate_checkout_rent_refund-IsPlan_example : IsPlan 40 (pos 25000) candidates plan
allocate_checkout_rent_refund-IsPlan_example =
    allocate_checkout_rent_refund-IsPlan 40 (pos 25000) candidates plan (omega arith) plans

allocate_checkout_rent_refund_refusal_example :
    (allocate_checkout_rent_refund 40 (pos 50000) candidates
      ≡ err (exceeds_available (total_available (filter (is_refundable 40) candidates))))
    ↔ (total_available (filter (is_refundable 40) candidates) <ℤ pos 50000)
allocate_checkout_rent_refund_refusal_example =
    allocate_checkout_rent_refund_refusal 40 (pos 50000) candidates
