-- ===== src/Checkout/RefundWriter/Balance.antt =====
-- The amounts after a booking by `applyCheckoutRentRefund` of
-- backend/src/checkout/checkout-rent-refund-writer.ts.
use srms.Prelude.{
  ℕ, ◌≡◌, refl, sym, ap, ◌∙◌, if◌then◌else◌, some, List, [], ◌∷◌, map, contains, Bool-cases, inl,
  inr, All,
}
use srms.Prelude.Ids.{contains-unique_ids}
use srms.Prelude.Int.{ℤ, ◌+ℤ◌, sum_ℤ, int_laws, +ℤ_zero}
use srms.Prelude.Fallible.{ok}
use srms.Payments.Store.{RentBill, PaymentAllocation, find_bill}
use srms.Payments.Store.Sweep.{HasKeys}
use srms.Payments.Store.Rows.{find-own}
use srms.Payments.Store.Rounds.{map-All}
use srms.Payments.Store.Counts.{All-map_of}
use srms.Payments.Store.Sums.{held-none, held_on-total, sum-lowered, sum-raised, total}
use srms.Checkout.RefundWriter.{
  CheckoutRentRefundResult, rows_of, apply_checkout_rent_refund, bill_ids_of, allocation_ids_of,
}
use srms.Checkout.RefundWriter.Tables.{RentClaim, WriterTables}
use srms.Checkout.RefundWriter.Checks.{ApplyInput, claims_of, bill_of, allocation_of, held_amount}
use srms.Checkout.RefundWriter.Writes.{reversed_allocation}
use srms.Checkout.RefundWriter.Written.{
  bill_id, allocation_id, write_bills-IsBilled, billed-map, reversed-map,
}
use srms.Checkout.RefundWriter.Parts.{Parts, apply-Parts, active-filter}
use srms.Checkout.RefundWriter.Applied
use srms.Checkout.RefundWriter.Applied.{
  active_of, on_bill, on_allocation, given_back, received_total, payable_total, reversed_total,
}

module _ (input : ApplyInput) (s : WriterTables) (r : CheckoutRentRefundResult)
    (parts : Parts input s r) where
  abbrev pub act : List RentClaim
  act = parts.active

  pub bills-map :
      HasKeys bill_id s.bills → r.tables.bills ≡ map (Applied.bill_after input s r parts) s.bills
  bills-map keys =
      let made = parts.booked.result_is in
      let billed =
        write_bills-IsBilled input parts.item.id parts.totals.by_bill (rows_of s act).bills
          (bill_ids_of act) s parts.booked.billed parts.booked.bills_made in
      rw made (
        billed-map input parts.item.id parts.totals.by_bill (map bill_of act) s parts.booked.billed
          keys billed
        ∙ map-All _ (Applied.bill_after input s r parts) s.bills (
            All-map_of (λ (b : RentBill). find_bill b.id s.bills ≡ some b) _
              (Applied.bill-row input s r parts) s.bills (find-own bill_id s.bills keys)))

  abbrev pub allocation_after : PaymentAllocation → PaymentAllocation
  allocation_after a = record a { reversed_amount = a.reversed_amount +ℤ on_allocation a.id act }

  allocation-row :
      (a : PaymentAllocation)
      → (if contains a.id (allocation_ids_of act)
          then reversed_allocation parts.totals.by_allocation a a
          else a)
        ≡ allocation_after a
  allocation-row a = elim (Bool-cases (contains a.id (map allocation_of act))) [
    | inl named ↦
        rw
          (
            contains-unique_ids a.id (map allocation_of act),
            named,
            Applied.allocation_total-held input s r parts a.id,
          )
          refl
    | inr other ↦
        rw
          (
            contains-unique_ids a.id (map allocation_of act),
            other,
            held-none allocation_of held_amount a.id act other,
            +ℤ_zero a.reversed_amount,
          )
          refl
  ]

  pub allocations-map :
      HasKeys allocation_id s.allocations
      → r.tables.allocations ≡ map allocation_after s.allocations
  allocations-map keys =
      let same =
        (write_bills-IsBilled input parts.item.id parts.totals.by_bill (rows_of s act).bills
          (bill_ids_of act) s parts.booked.billed parts.booked.bills_made).same_allocations in
      let made = rw same at parts.booked.allocations_made in
      rw parts.booked.result_is (
        reversed-map parts.totals.by_allocation (map allocation_of act) s.allocations
          parts.booked.allocations keys made
        ∙ map-All _ allocation_after s.allocations (
            All-map_of (λ (a : PaymentAllocation). a.id ≡ a.id) _ (λ a e. allocation-row a)
              s.allocations (every s.allocations)))
    where
      every : (as' : List PaymentAllocation) → All (λ (a : PaymentAllocation). a.id ≡ a.id) as'
      every [] = tt
      every (a ∷ as') = (refl, every as')

  pub applied-total : total bill_of held_amount act ≡ r.applied_amount
  applied-total = parts.amount_fits ∙ ap (λ x. x.applied_amount) (sym parts.booked.result_is)

  sum-bills :
      (field_of : RentBill → ℤ)
      → ((b : RentBill)
          → field_of (Applied.bill_after input s r parts b) +ℤ on_bill b.id act ≡ field_of b)
      → HasKeys bill_id s.bills
      → sum_ℤ (map field_of (map (Applied.bill_after input s r parts) s.bills)) +ℤ r.applied_amount
        ≡ sum_ℤ (map field_of s.bills)
  sum-bills field_of lowered keys =
      let there =
        All-map_of _ _ (Applied.there-bill input s r parts) act
          (Applied.added input s r parts).are_sound in
      let on_all = held_on-total bill_of held_amount bill_id act s.bills keys there in
      ap (λ t. sum_ℤ (map field_of (map (Applied.bill_after input s r parts) s.bills)) +ℤ t)
        (sym (on_all ∙ applied-total))
      ∙ sum-lowered field_of (λ (b : RentBill). on_bill b.id act)
          (Applied.bill_after input s r parts) s.bills lowered

  sum-allocations :
      HasKeys allocation_id s.allocations
      → reversed_total s.allocations +ℤ r.applied_amount
        ≡ reversed_total (map allocation_after s.allocations)
  sum-allocations keys =
      let there =
        All-map_of _ _ (Applied.there-allocation input s r parts) act
          (Applied.added input s r parts).are_sound in
      let on_all =
        held_on-total allocation_of held_amount allocation_id act s.allocations keys there in
      ap (λ t. reversed_total s.allocations +ℤ t) (sym (on_all ∙ applied-total))
      ∙ sum-raised (λ (a : PaymentAllocation). a.reversed_amount)
          (λ (a : PaymentAllocation). on_allocation a.id act) allocation_after s.allocations
          (λ a. refl)

  lowered-back :
      (b : RentBill)
      → ((Applied.bill_after input s r parts b).received_amount +ℤ on_bill b.id act
          ≡ b.received_amount)
        × ((Applied.bill_after input s r parts b).payable_amount +ℤ on_bill b.id act
            ≡ b.payable_amount)
  lowered-back b = elim (Bool-cases (contains b.id (map bill_of act))) [
    | inl named ↦ rw named (omega int_laws, omega int_laws)
    | inr other ↦
        rw (other, held-none bill_of held_amount b.id act other)
          (+ℤ_zero b.received_amount, +ℤ_zero b.payable_amount)
  ]

  pub active-same : act ≡ active_of s input.settlement_id
  active-same = active-filter (claims_of s input.settlement_id) act parts.active_found

-- The rent of the active reservations of a settlement is given back.
pub record IsGivenBack (input : ApplyInput) (s : WriterTables) (r : CheckoutRentRefundResult)
    : Type 0 where
  -- Each bill that a reservation names has what is held of it taken off.
  pub bills_lowered :
      r.tables.bills
      ≡ map
          (λ (b : RentBill).
            if contains b.id (map bill_of (active_of s input.settlement_id))
            then given_back (on_bill b.id (active_of s input.settlement_id)) b
            else b)
          s.bills
  pub allocations_reversed :
      r.tables.allocations
      ≡ map
          (λ (a : PaymentAllocation). record a {
            reversed_amount =
                a.reversed_amount +ℤ on_allocation a.id (active_of s input.settlement_id);
          })
          s.allocations
  pub received_is : received_total r.tables.bills +ℤ r.applied_amount ≡ received_total s.bills
  pub payable_is : payable_total r.tables.bills +ℤ r.applied_amount ≡ payable_total s.bills
  pub reversed_is :
      reversed_total s.allocations +ℤ r.applied_amount ≡ reversed_total r.tables.allocations

-- On tables of bills and of allocations with distinct ids: if a booking succeeds, every bill that
-- an active reservation of the settlement names has exactly what these reservations hold of it
-- taken off what is payable and received, with nothing outstanding, and is refunded if nothing of
-- the payable is left; every other bill is as before; every allocation has what is held of it
-- added to what is reversed; and the amount that is reported is what all bills have lost in
-- received and in payable amounts and what all allocations have gained in reversed ones.
pub apply_checkout_rent_refund-IsGivenBack :
    (to_fixed : ℤ → List ℕ) (input : ApplyInput) (s : WriterTables) (r : CheckoutRentRefundResult)
    → HasKeys bill_id s.bills
    → HasKeys allocation_id s.allocations
    → apply_checkout_rent_refund to_fixed input s ≡ ok r
    → IsGivenBack input s r
apply_checkout_rent_refund-IsGivenBack to_fixed input s r bill_keys allocation_keys h =
    let parts = apply-Parts to_fixed input s r h in
    let same = active-same input s r parts in
    let bills = bills-map input s r parts bill_keys in
    let allocations = allocations-map input s r parts allocation_keys in
    record {
      bills_lowered = rw (sym same) bills;
      allocations_reversed = rw (sym same) allocations;
      received_is = rw bills (
          sum-bills input s r parts (λ (b : RentBill). b.received_amount)
            (λ b. (lowered-back input s r parts b).0) bill_keys);
      payable_is = rw bills (
          sum-bills input s r parts (λ (b : RentBill). b.payable_amount)
            (λ b. (lowered-back input s r parts b).1) bill_keys);
      reversed_is = rw allocations (sum-allocations input s r parts allocation_keys);
    }
