-- ===== src/Checkout/Amounts/Laws.antt =====
-- How the amounts of `calculateCheckoutAmounts` fit one another.
use srms.Prelude.{◌≡◌, ◌⊎◌, inl, inr}
use srms.Prelude.Int.{ℤ, pos, ◌+ℤ◌, ◌-ℤ◌, ◌≤ℤ◌, min_ℤ, min_ℤ_parts, int_laws}
use srms.Checkout.Amounts.{
  CheckoutAmountsInput, CheckoutAmounts, amount_or_zero, calculate_checkout_amounts,
}

-- What the tenant is owed less what the tenant owes.
abbrev pub net_claim : CheckoutAmountsInput → ℤ
net_claim input =
    input.deposit_balance
    +ℤ input.prepayment_balance
    +ℤ amount_or_zero input.rent_refund_amount
    -ℤ input.rent_outstanding
    -ℤ input.other_charges

-- Balances and charges are never negative.
pub record IsSettleable (input : CheckoutAmountsInput) : Type 0 where
  pub deposit_nonneg : pos 0 ≤ℤ input.deposit_balance
  pub prepayment_nonneg : pos 0 ≤ℤ input.prepayment_balance
  pub arrears_nonneg : pos 0 ≤ℤ input.rent_outstanding
  pub charges_nonneg : pos 0 ≤ℤ input.other_charges
  pub refund_nonneg : pos 0 ≤ℤ amount_or_zero input.rent_refund_amount

pub record IsSettled (input : CheckoutAmountsInput) (r : CheckoutAmounts) : Type 0 where
  pub deposit_split :
      r.deposit_offset +ℤ r.other_deduction +ℤ r.deposit_refundable ≡ input.deposit_balance
  pub arrears_split : r.deposit_offset +ℤ r.supplemental_arrears ≡ input.rent_outstanding
  pub charges_split : r.other_deduction +ℤ r.supplemental_inspection ≡ input.other_charges
  pub net_is : r.total_refund -ℤ r.final_receivable ≡ net_claim input
  pub offset_nonneg : pos 0 ≤ℤ r.deposit_offset
  pub deduction_nonneg : pos 0 ≤ℤ r.other_deduction
  pub refundable_nonneg : pos 0 ≤ℤ r.deposit_refundable
  pub arrears_nonneg : pos 0 ≤ℤ r.supplemental_arrears
  pub inspection_nonneg : pos 0 ≤ℤ r.supplemental_inspection
  pub arrears_first :
      (r.supplemental_arrears ≡ pos 0)
      ⊎ ((r.other_deduction ≡ pos 0) × (r.deposit_refundable ≡ pos 0))
  pub refund_or_collect : (r.final_receivable ≡ pos 0) ⊎ (r.deposit_refundable ≡ pos 0)

-- On balances and charges that are not negative: the deposit is split without a remainder into
-- the offset of arrears, the deduction for charges and the refund; arrears and charges are each
-- covered by the deposit or collected; refund less receivable is what the tenant is owed net; no
-- part is negative; charges are deducted and deposit refunded only once the arrears are covered;
-- and deposit is refunded only if nothing is left to collect.
pub calculate_checkout_amounts-IsSettled :
    (input : CheckoutAmountsInput)
    → IsSettleable input
    → IsSettled input (calculate_checkout_amounts input)
unfolding calculate_checkout_amounts
calculate_checkout_amounts-IsSettled input h = record {
  deposit_split = omega int_laws;
  arrears_split = omega int_laws;
  charges_split = omega int_laws;
  net_is = omega int_laws;
  offset_nonneg = omega int_laws;
  deduction_nonneg = omega int_laws;
  refundable_nonneg = omega int_laws;
  arrears_nonneg = omega int_laws;
  inspection_nonneg = omega int_laws;
  arrears_first = elim (min_ℤ_parts deposit arrears) [
    | inl short ↦ inr (omega int_laws, omega int_laws)
    | inr enough ↦ inl (omega int_laws)
  ];
  refund_or_collect = elim (min_ℤ_parts (deposit -ℤ min_ℤ deposit arrears) charges) [
    | inl short ↦ inr (omega int_laws)
    | inr enough ↦ inl (omega int_laws)
  ];
}
  where
    open input use {
      deposit_balance as deposit, rent_outstanding as arrears, other_charges as charges,
    }
