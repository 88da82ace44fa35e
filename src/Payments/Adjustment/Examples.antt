-- ===== src/Payments/Adjustment/Examples.antt =====
-- A bill of 1000.00 with 200.00 received, and the theorems at it.
use srms.Prelude.{◌≡◌, refl, arith}
use srms.Prelude.Int.{pos, negsuc, ◌+ℤ◌, ◌-ℤ◌, neg_ℤ, ◌≤ℤ◌, max_ℤ}
use srms.Payments.Adjustment.{BillAmounts, decrease, increase, partial, calculate_adjusted_bill}
use srms.Payments.Adjustment.Laws.{
  IsConsistent, booked, calculate_adjusted_bill-IsConsistent, adjustment_reversal, decrease_lowers,
}

abbrev bill : BillAmounts
bill = record {
  base_rent_amount = pos 100000;
  rent_free_amount = pos 0;
  discount_amount = pos 0;
  current_adjustment_amount = pos 0;
  received_amount = pos 20000;
}

adjusts : calculate_adjusted_bill bill decrease (pos 5000) ≡ record {
  adjustment_amount = negsuc 4999;
  payable_amount = pos 95000;
  outstanding_amount = pos 75000;
  status = partial;
}
unfolding calculate_adjusted_bill ◌+ℤ◌ ◌-ℤ◌ neg_ℤ max_ℤ
adjusts = refl

calculate_adjusted_bill-IsConsistent_example :
    IsConsistent (calculate_adjusted_bill bill decrease (pos 5000)) (pos 20000)
calculate_adjusted_bill-IsConsistent_example =
    calculate_adjusted_bill-IsConsistent bill decrease (pos 5000)

adjustment_reversal_example :
    calculate_adjusted_bill
      (booked bill (calculate_adjusted_bill bill decrease (pos 5000)))
      increase
      (pos 5000)
    ≡ calculate_adjusted_bill bill increase (pos 0)
adjustment_reversal_example = adjustment_reversal bill decrease (pos 5000)

decrease_lowers_example :
    let before = calculate_adjusted_bill bill increase (pos 0) in
    let after = calculate_adjusted_bill bill decrease (pos 5000) in
    (after.payable_amount ≤ℤ before.payable_amount)
    × (after.outstanding_amount ≤ℤ before.outstanding_amount)
    × (before.payable_amount ≤ℤ after.payable_amount +ℤ pos 5000)
decrease_lowers_example = decrease_lowers bill (pos 5000) (omega arith)
