-- ===== src/Checkout/Amounts.antt =====
-- The amounts of a checkout settlement: backend/src/checkout/checkout-calculation.ts.
pub mod Laws
mod Examples
use srms.Prelude.{Option, none, some}
use srms.Prelude.Int.{ℤ, pos, ◌+ℤ◌, ◌-ℤ◌, min_ℤ, max_ℤ}

pub record CheckoutAmountsInput : Type 0 where
  pub deposit_balance : ℤ
  pub prepayment_balance : ℤ
  pub rent_outstanding : ℤ
  pub other_charges : ℤ
  pub rent_refund_amount : Option ℤ

pub record CheckoutAmounts : Type 0 where
  pub deposit_offset : ℤ
  pub other_deduction : ℤ
  pub deposit_refundable : ℤ
  pub prepayment_refundable : ℤ
  pub rent_refundable : ℤ
  pub total_refund : ℤ
  pub supplemental_arrears : ℤ
  pub supplemental_inspection : ℤ
  pub final_receivable : ℤ

abbrev pub amount_or_zero : Option ℤ → ℤ
amount_or_zero none = pos 0
amount_or_zero (some a) = a

pub calculate_checkout_amounts : CheckoutAmountsInput → CheckoutAmounts
calculate_checkout_amounts input =
    let deposit = input.deposit_balance in
    let prepayment = input.prepayment_balance in
    let arrears = input.rent_outstanding in
    let charges = input.other_charges in
    let rent_refund = amount_or_zero input.rent_refund_amount in
    let deposit_offset = min_ℤ deposit arrears in
    let after_arrears = deposit -ℤ deposit_offset in
    let other_deduction = min_ℤ after_arrears charges in
    let deposit_refundable = after_arrears -ℤ other_deduction in
    let supplemental_arrears = max_ℤ (pos 0) (arrears -ℤ deposit_offset) in
    let supplemental_inspection = max_ℤ (pos 0) (charges -ℤ other_deduction) in
    record {
      deposit_offset = deposit_offset;
      other_deduction = other_deduction;
      deposit_refundable = deposit_refundable;
      prepayment_refundable = prepayment;
      rent_refundable = rent_refund;
      total_refund = deposit_refundable +ℤ prepayment +ℤ rent_refund;
      supplemental_arrears = supplemental_arrears;
      supplemental_inspection = supplemental_inspection;
      final_receivable = supplemental_arrears +ℤ supplemental_inspection;
    }
