-- ===== src/Checkout/RefundWriter/Examples.antt =====
-- One bill paid in two payments, of which a settlement gives 600 back, and the theorems at it.
use srms.Prelude.{ℕ, ◌≡◌, ◌↔◌, refl, ap, true, false, [], ◌∷◌, arith}
use srms.Prelude.Int.{ℤ, pos, negsuc, ◌+ℤ◌, ◌-ℤ◌, max_ℤ, min_ℤ, sum_ℤ}
use srms.Prelude.Fallible.{ok, is_ok}
use srms.Prelude.Decimal.{digits, decimal, decimal-injective}
use srms.Prelude.Ids.{unique_ids}
use srms.Payments.RefundStatus.{
  select_rows, refund_total, allocated_total, saw_current_refund, seen_checkout_ids,
  calculate_payment_refund_status,
}
use srms.Checkout.RentRefund.{
  RefundShare, insert_candidate, sort_candidates, eligible_candidates, allocate_shares,
  allocate_checkout_rent_refund,
}
use srms.Checkout.Reservations.{plan_checkout_rent_refund, load_checkout_rent_refund_candidates}
use srms.Checkout.Accounting.RefundPlan.{assert_checkout_rent_refund_plan_current}
use srms.Checkout.Accounting.PlanCurrent.{
  occurrences, assert_checkout_rent_refund_plan_current-is_ok,
}
use srms.Checkout.RefundWriter.Data.{tables, input, signed_text}
use srms.Checkout.RefundWriter.{
  CheckoutRentRefundResult, assert_plan_current, book_refund, check_rows,
  apply_checkout_rent_refund,
}
use srms.Checkout.RefundWriter.Tables.{payment_refund_status}
use srms.Checkout.RefundWriter.Checks.{
  ApplyInput, active_claims, check_snapshot, add_claims, check_capacity, check_bills,
}
use srms.Checkout.RefundWriter.Writes.{
  write_bills, write_allocations, claim_reservations, next_statuses, write_payments,
}
use srms.Checkout.RefundWriter.Balance.{IsGivenBack, apply_checkout_rent_refund-IsGivenBack}
use srms.Checkout.RefundWriter.Kept.{AreKept, apply_checkout_rent_refund-AreKept}
use srms.Checkout.RefundWriter.Once.{apply_checkout_rent_refund_once}

signed_text-injective : (a b : ℤ) → signed_text a ≡ signed_text b → a ≡ b
signed_text-injective (pos m) (pos n) h =
    let same : decimal m ≡ decimal n = cc in ap pos (decimal-injective m n same)
signed_text-injective (negsuc m) (negsuc n) h =
    let same : decimal m ≡ decimal n = cc in ap negsuc (decimal-injective m n same)
signed_text-injective (pos m) (negsuc n) h =
    let same : ◌≡◌ {A = ℕ} b'+' b'-' = cc in absurd (omega (arith, same))
signed_text-injective (negsuc m) (pos n) h =
    let same : ◌≡◌ {A = ℕ} b'-' b'+' = cc in absurd (omega (arith, same))

applied :
    (r : CheckoutRentRefundResult) × (apply_checkout_rent_refund signed_text input tables ≡ ok r)
unfolding apply_checkout_rent_refund active_claims check_snapshot assert_plan_current
    plan_checkout_rent_refund load_checkout_rent_refund_candidates allocate_checkout_rent_refund
    eligible_candidates sort_candidates insert_candidate allocate_shares
    assert_checkout_rent_refund_plan_current digits check_rows add_claims check_capacity check_bills
    book_refund next_statuses calculate_payment_refund_status select_rows refund_total
    allocated_total saw_current_refund seen_checkout_ids write_bills write_allocations
    claim_reservations write_payments payment_refund_status unique_ids ◌+ℤ◌ ◌-ℤ◌ max_ℤ min_ℤ sum_ℤ
applied = (_, refl)

apply_checkout_rent_refund-IsGivenBack_example : IsGivenBack input tables applied.0
apply_checkout_rent_refund-IsGivenBack_example =
    apply_checkout_rent_refund-IsGivenBack signed_text input tables applied.0 (tt, tt)
      (ground arith) applied.1

tables-AreKept : AreKept tables
unfolding ◌+ℤ◌
tables-AreKept = record {
  bills_balanced = (record { adds_up = refl; received_nonneg = omega arith }, tt);
  allocations_within = (omega arith, (omega arith, tt));
}

apply_checkout_rent_refund-AreKept_example : AreKept applied.0.tables
apply_checkout_rent_refund-AreKept_example =
    apply_checkout_rent_refund-AreKept signed_text input tables applied.0 (tt, tt) (ground arith)
      tables-AreKept applied.1

abbrev again : ApplyInput
again = record { settlement_id = 9; deposit_refund_id = 6; approved_by = 3 }

apply_checkout_rent_refund_once_example :
    is_ok (apply_checkout_rent_refund signed_text again applied.0.tables) ≡ false
apply_checkout_rent_refund_once_example =
    apply_checkout_rent_refund_once signed_text input again tables applied.0 refl applied.1

abbrev share : ℕ → RefundShare
share id = record {
  payment_allocation_id = id;
  payment_id = id;
  rent_bill_id = 1;
  amount = pos 500;
}

assert_checkout_rent_refund_plan_current-is_ok_example :
    (is_ok (
        assert_checkout_rent_refund_plan_current signed_text
          (share 1 ∷ share 2 ∷ [])
          (share 2 ∷ share 1 ∷ []))
      ≡ true)
    ↔ ((x : RefundShare)
        → occurrences x (share 1 ∷ share 2 ∷ []) ≡ occurrences x (share 2 ∷ share 1 ∷ []))
assert_checkout_rent_refund_plan_current-is_ok_example =
    assert_checkout_rent_refund_plan_current-is_ok signed_text signed_text-injective
      (share 1 ∷ share 2 ∷ []) (share 2 ∷ share 1 ∷ [])
