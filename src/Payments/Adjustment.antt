-- ===== src/Payments/Adjustment.antt =====
-- The amounts of a rent bill after an adjustment: backend/src/payments/adjustment-calculator.ts.
pub mod Laws
mod Examples
use srms.Prelude.{Bool, true, false, if◌then◌else◌}
use srms.Prelude.Int.{ℤ, pos, ◌+ℤ◌, ◌-ℤ◌, neg_ℤ, max_ℤ, ltb_ℤ, eqb_ℤ}
use srms.Prelude.Decimals.{Decimals}

pub data AdjustmentDirection : Type 0 where
  decrease increase : AdjustmentDirection

-- `RentBillStatus` of the schema.
pub data RentBillStatus : Type 0 where
  pending partial paid overdue voided refunded : RentBillStatus

pub record BillAmounts : Type 0 where
  pub base_rent_amount : ℤ
  pub rent_free_amount : ℤ
  pub discount_amount : ℤ
  pub current_adjustment_amount : ℤ
  pub received_amount : ℤ

pub record AdjustedBill : Type 0 where
  pub adjustment_amount : ℤ
  pub payable_amount : ℤ
  pub outstanding_amount : ℤ
  pub status : RentBillStatus

abbrev pub signed_amount : AdjustmentDirection → ℤ → ℤ
signed_amount decrease amount = neg_ℤ amount
signed_amount increase amount = amount

abbrev pub status_for : ℤ → ℤ → RentBillStatus
status_for outstanding received =
    if eqb_ℤ outstanding (pos 0) then paid else if ltb_ℤ (pos 0) received then partial else pending

-- What follows from the adjustments of a bill.
abbrev pub adjusted_to : BillAmounts → ℤ → AdjustedBill
adjusted_to input adjustment =
    let payable =
      max_ℤ (pos 0)
        (input.base_rent_amount -ℤ input.rent_free_amount -ℤ input.discount_amount +ℤ adjustment) in
    let outstanding = max_ℤ (pos 0) (payable -ℤ input.received_amount) in
    record {
      adjustment_amount = adjustment;
      payable_amount = payable;
      outstanding_amount = outstanding;
      status = status_for outstanding input.received_amount;
    }

unfoldable pub calculate_adjusted_bill : BillAmounts → AdjustmentDirection → ℤ → AdjustedBill
calculate_adjusted_bill input direction amount =
    adjusted_to input (input.current_adjustment_amount +ℤ signed_amount direction amount)

-- The same for an amount of any number of places.
module _ {D : Type 0} (lib : Decimals D) where
  abbrev pub signed_decimal : AdjustmentDirection → D → D
  signed_decimal decrease amount = lib.negated amount
  signed_decimal increase amount = amount

  unfoldable pub calculate_adjusted_bill_of : BillAmounts → AdjustmentDirection → D → AdjustedBill
  calculate_adjusted_bill_of input direction amount = adjusted_to input (
      lib.to_cents
        (lib.plus (lib.of_cents input.current_adjustment_amount) (signed_decimal direction amount)))
