-- ===== src/Payments/Adjustment/Laws.antt =====
-- `calculateAdjustedBill`, once and repeated.
use srms.Prelude.{◌≡◌, ◌⊎◌, arith, Bool-cases, inl, inr}
use srms.Prelude.Int.{
  ℤ, pos, ◌+ℤ◌, ◌-ℤ◌, ◌≤ℤ◌, ◌<ℤ◌, max_ℤ, int_laws, leb_ℤ, le_of_leb_ℤ, lt_of_leb_ℤ,
}
use srms.Payments.Adjustment.{
  AdjustmentDirection, decrease, increase, BillAmounts, AdjustedBill, RentBillStatus, paid, partial,
  pending, status_for, signed_amount, calculate_adjusted_bill,
}

-- The status fits the amounts: paid when nothing is open, else partial or pending as money came in.
abbrev pub StatusFits : RentBillStatus → ℤ → ℤ → Type 0
StatusFits status outstanding received =
    ((status ≡ paid) × (outstanding ≡ pos 0))
    ⊎ (((status ≡ partial) × (pos 0 <ℤ outstanding) × (pos 0 <ℤ received))
        ⊎ ((status ≡ pending) × (pos 0 <ℤ outstanding) × (received ≤ℤ pos 0)))

-- The invariant of the amounts of a bill, for a bill on which `received` has come in: the payable
-- amount and the received one differ by the outstanding amount, unless more was received than is
-- payable, and then nothing is outstanding.
pub record IsConsistent (b : AdjustedBill) (received : ℤ) : Type 0 where
  pub payable_nonneg : pos 0 ≤ℤ b.payable_amount
  pub outstanding_nonneg : pos 0 ≤ℤ b.outstanding_amount
  pub outstanding_is :
      ((received ≤ℤ b.payable_amount) × (b.payable_amount ≡ b.outstanding_amount +ℤ received))
      ⊎ ((b.payable_amount <ℤ received) × (b.outstanding_amount ≡ pos 0))
  pub status_fits : StatusFits b.status b.outstanding_amount received

status_for-Fits :
    (outstanding received : ℤ)
    → pos 0 ≤ℤ outstanding
    → StatusFits (status_for outstanding received) outstanding received
status_for-Fits outstanding received h = grind arith

outstanding_lem :
    (payable received : ℤ)
    → let outstanding = max_ℤ (pos 0) (payable -ℤ received) in
      ((received ≤ℤ payable) × (payable ≡ outstanding +ℤ received))
      ⊎ ((payable <ℤ received) × (outstanding ≡ pos 0))
outstanding_lem payable received = elim (Bool-cases (leb_ℤ received payable)) [
  | inl within ↦ let le = le_of_leb_ℤ received payable within in inl (le, omega int_laws)
  | inr over ↦ let lt = lt_of_leb_ℤ received payable over in inr (lt, omega int_laws)
]

-- Every adjustment, of whatever amount and direction, leaves a bill whose payable and outstanding
-- amounts are not negative; the payable amount is the outstanding and the received one together,
-- unless more was received than is payable, and then nothing is outstanding; and the status fits:
-- paid if nothing is outstanding, else partial or pending as something was received or not.
pub calculate_adjusted_bill-IsConsistent :
    (input : BillAmounts) (direction : AdjustmentDirection) (amount : ℤ)
    → IsConsistent (calculate_adjusted_bill input direction amount) input.received_amount
unfolding calculate_adjusted_bill
calculate_adjusted_bill-IsConsistent input direction amount = record {
  payable_nonneg = omega int_laws;
  outstanding_nonneg = omega int_laws;
  outstanding_is =
      outstanding_lem (calculate_adjusted_bill input direction amount).payable_amount
        input.received_amount;
  status_fits =
      status_for-Fits (calculate_adjusted_bill input direction amount).outstanding_amount
        input.received_amount (omega int_laws);
}

-- The bill as it stands once an adjustment is booked on it.
abbrev pub booked : BillAmounts → AdjustedBill → BillAmounts
booked input b = record input { current_adjustment_amount = b.adjustment_amount }

abbrev pub opposite : AdjustmentDirection → AdjustmentDirection
opposite decrease = increase
opposite increase = decrease

swap_last : (x y z : ℤ) → x +ℤ y +ℤ z ≡ x +ℤ z +ℤ y
swap_last x y z = omega int_laws

module _ (input : BillAmounts) where
  signed_opposite :
      (x : ℤ) (d : AdjustmentDirection) (a : ℤ)
      → x +ℤ signed_amount d a +ℤ signed_amount (opposite d) a ≡ x +ℤ signed_amount increase (pos 0)
  signed_opposite x decrease a = omega int_laws
  signed_opposite x increase a = omega int_laws

  -- Booking the opposite adjustment of the same amount gives back the bill with no adjustment
  -- booked: its amounts and its status.
  pub adjustment_reversal :
      (d : AdjustmentDirection) (a : ℤ)
      → calculate_adjusted_bill (booked input (calculate_adjusted_bill input d a)) (opposite d) a
        ≡ calculate_adjusted_bill input increase (pos 0)
  unfolding calculate_adjusted_bill
  adjustment_reversal d a = rw (signed_opposite input.current_adjustment_amount d a)

  -- Two adjustments give one result in either order.
  adjustments_commute :
      (d e : AdjustmentDirection) (a b : ℤ)
      → calculate_adjusted_bill (booked input (calculate_adjusted_bill input d a)) e b
        ≡ calculate_adjusted_bill (booked input (calculate_adjusted_bill input e b)) d a
  unfolding calculate_adjusted_bill
  adjustments_commute d e a b =
      rw (swap_last input.current_adjustment_amount (signed_amount d a) (signed_amount e b))

  -- A decrease of a non-negative amount raises neither what is payable nor what is outstanding,
  -- and lowers what is payable by at most its amount if the bill was consistent before.
  pub decrease_lowers :
      (a : ℤ)
      → pos 0 ≤ℤ a
      → let before = calculate_adjusted_bill input increase (pos 0) in
        let after = calculate_adjusted_bill input decrease a in
        (after.payable_amount ≤ℤ before.payable_amount)
        × (after.outstanding_amount ≤ℤ before.outstanding_amount)
        × (before.payable_amount ≤ℤ after.payable_amount +ℤ a)
  unfolding calculate_adjusted_bill
  decrease_lowers a h = (omega int_laws, omega int_laws, omega int_laws)
