-- ===== src/Checkout/Amounts/Examples.antt =====
-- A deposit of 1000.00 against arrears of 700.00 and charges of 500.00.
use srms.Prelude.{◌≡◌, refl, none, arith}
use srms.Prelude.Int.{pos, ◌+ℤ◌, ◌-ℤ◌, min_ℤ, max_ℤ}
use srms.Checkout.Amounts.{CheckoutAmountsInput, calculate_checkout_amounts}
use srms.Checkout.Amounts.Laws.{IsSettleable, IsSettled, calculate_checkout_amounts-IsSettled}

abbrev input : CheckoutAmountsInput
input = record {
  deposit_balance = pos 100000;
  prepayment_balance = pos 2500;
  rent_outstanding = pos 70000;
  other_charges = pos 50000;
  rent_refund_amount = none;
}

calculates :
    let r = calculate_checkout_amounts input in
    (r.deposit_offset ≡ pos 70000)
    × (r.other_deduction ≡ pos 30000)
    × (r.total_refund ≡ pos 2500)
    × (r.final_receivable ≡ pos 20000)
unfolding calculate_checkout_amounts ◌+ℤ◌ ◌-ℤ◌ min_ℤ max_ℤ
calculates = (refl, refl, refl, refl)

input-IsSettleable : IsSettleable input
input-IsSettleable = omega arith

calculate_checkout_amounts-IsSettled_example : IsSettled input (calculate_checkout_amounts input)
calculate_checkout_amounts-IsSettled_example =
    calculate_checkout_amounts-IsSettled input input-IsSettleable
