-- ===== src/Checkout/RefundWriter/Kept.antt =====
-- What a booking by `applyCheckoutRentRefund` of
-- backend/src/checkout/checkout-rent-refund-writer.ts keeps of bills and allocations.
use srms.Prelude.{
  ℕ, ◌≡◌, refl, sym, ◌∙◌, true, some, List, [], ◌∷◌, map, contains, Bool-cases, inl, inr, arith,
  All,
}
use srms.Prelude.Ids.{contains-unique_ids}
use srms.Prelude.Int.{ℤ, pos, ◌+ℤ◌, ◌≤ℤ◌, eqb_ℤ_iff, int_laws, le_of_leb_ℤ, +ℤ_zero}
use srms.Prelude.Fallible.{ok}
use srms.Payments.Store.{RentBill, PaymentAllocation, find_bill}
use srms.Payments.Store.Sweep.{HasKeys}
use srms.Payments.Store.Rows.{find-own}
use srms.Payments.Store.Rounds.{find-filter}
use srms.Payments.Store.Sums.{held-none}
use srms.Checkout.RefundWriter.{
  CheckoutRentRefundResult, rows_of, apply_checkout_rent_refund, allocation_ids_of,
}
use srms.Checkout.RefundWriter.Tables.{WriterTables, find_allocation}
use srms.Checkout.RefundWriter.Checks.{ApplyInput, bill_of, allocation_of, held_amount}
use srms.Checkout.RefundWriter.Checked.{check_capacity-within}
use srms.Checkout.RefundWriter.Writes.{reversed_allocation}
use srms.Checkout.RefundWriter.Written.{bill_id, allocation_id}
use srms.Checkout.RefundWriter.Parts.{Parts, apply-Parts}
use srms.Checkout.RefundWriter.Applied
use srms.Checkout.RefundWriter.Applied.{on_bill, on_allocation}
use srms.Checkout.RefundWriter.Balance

-- A bill's amounts add up, and nothing of what was received is below zero.
pub record IsBalanced (b : RentBill) : Type 0 where
  pub adds_up : b.payable_amount ≡ b.received_amount +ℤ b.outstanding_amount
  pub received_nonneg : pos 0 ≤ℤ b.received_amount

abbrev pub IsWithin : PaymentAllocation → Type 0
IsWithin a = a.reversed_amount ≤ℤ a.allocated_amount

pub record AreKept (s : WriterTables) : Type 0 where
  pub bills_balanced : All IsBalanced s.bills
  pub allocations_within : All IsWithin s.allocations

-- What holds of a row that is found by its id, holds of its image.
All-mapped :
    {A : Type 0} (F P Q : A → Type 0) (g : A → A)
    → ((a : A) → F a → P a → Q (g a))
    → (xs : List A) → All F xs
    → All P xs
    → All Q (map g xs)
All-mapped F P Q g step [] f h = tt
All-mapped F P Q g step (x ∷ xs) f h = (step x f.0 h.0, All-mapped F P Q g step xs f.1 h.1)

module _ (input : ApplyInput) (s : WriterTables) (r : CheckoutRentRefundResult)
    (parts : Parts input s r) where
  bill-IsBalanced :
      (b : RentBill)
      → find_bill b.id s.bills ≡ some b
      → IsBalanced b
      → IsBalanced (Applied.bill_after input s r parts b)
  bill-IsBalanced b found balanced = elim (Bool-cases (contains b.id (map bill_of parts.active))) [
    | inr other ↦ rw other balanced
    | inl named ↦
        let amount = on_bill b.id parts.active in
        let covered = Applied.covers-bill input s r parts b found named in
        let even : b.payable_amount ≡ b.received_amount =
          (eqb_ℤ_iff b.payable_amount b.received_amount).0 (ground arith) in
        let room = le_of_leb_ℤ amount b.received_amount (ground arith) in
        rw named
          (record { adds_up = rw even (omega int_laws); received_nonneg = omega (int_laws, room) })
  ]

  allocation-IsWithin :
      (a : PaymentAllocation)
      → find_allocation a.id s.allocations ≡ some a
      → IsWithin a
      → IsWithin (Balance.allocation_after input s r parts a)
  allocation-IsWithin a found within =
      elim (Bool-cases (contains a.id (map allocation_of parts.active))) [
        | inr other ↦
            rw
              (
                held-none allocation_of held_amount a.id parts.active other,
                +ℤ_zero a.reversed_amount,
              )
              within
        | inl named ↦
            let chosen : contains a.id (allocation_ids_of parts.active) ≡ true =
              contains-unique_ids a.id (map allocation_of parts.active) ∙ named in
            let read =
              find-filter allocation_id (reversed_allocation parts.totals.by_allocation)
                (λ x y. refl) a.id (allocation_ids_of parts.active) s.allocations chosen
              ∙ found in
            rw (sym (Applied.allocation_total-held input s r parts a.id)) (
              check_capacity-within a.id (rows_of s parts.active).allocations
                parts.totals.by_allocation a parts.checked.capacity read within)
      ]

-- On tables of bills and of allocations with distinct ids: if the amounts of every bill add up
-- with no negative receipt, and no allocation has more reversed than was allocated, then so it is
-- after a booking that succeeds.
pub apply_checkout_rent_refund-AreKept :
    (to_fixed : ℤ → List ℕ) (input : ApplyInput) (s : WriterTables) (r : CheckoutRentRefundResult)
    → HasKeys bill_id s.bills
    → HasKeys allocation_id s.allocations
    → AreKept s
    → apply_checkout_rent_refund to_fixed input s ≡ ok r
    → AreKept r.tables
apply_checkout_rent_refund-AreKept to_fixed input s r bill_keys allocation_keys kept h =
    let parts = apply-Parts to_fixed input s r h in
    record {
      bills_balanced = rw (Balance.bills-map input s r parts bill_keys) (
          All-mapped _ IsBalanced IsBalanced (Applied.bill_after input s r parts)
            (bill-IsBalanced input s r parts) s.bills (find-own bill_id s.bills bill_keys)
            kept.bills_balanced);
      allocations_within = rw (Balance.allocations-map input s r parts allocation_keys) (
          All-mapped _ IsWithin IsWithin (Balance.allocation_after input s r parts)
            (allocation-IsWithin input s r parts) s.allocations
            (find-own allocation_id s.allocations allocation_keys) kept.allocations_within);
    }
