-- ===== src/Checkout/Reservations/Covered.antt =====
-- What reservations hold of an allocation, before and after `reserveCheckoutRentRefund` of
-- backend/src/checkout/checkout-rent-refund-reservations.ts.
use srms.Prelude.{ℕ, ◌≡◌, sym, ap, ◌∙◌, List, [], ◌∷◌, ◌++◌, map, Bool-cases, inl, inr, arith, All}
use srms.Prelude.Int.{◌+ℤ◌, ◌≤ℤ◌, int_laws}
use srms.Prelude.Fallible.{ok, >>=-ok_elim, Result-cases}
use srms.Payments.Store.{PaymentAllocation}
use srms.Payments.Store.Sweep.{HasKeys}
use srms.Checkout.RentRefund.{
  RentRefundCandidate, RefundShare, RentRefundPlan, allocate_checkout_rent_refund,
}
use srms.Checkout.RentRefund.Shares.{
  amount_of, available_of, NotNegative, plan_within, allocated_plan, AreHeld, plan-AreHeld,
}
use srms.Checkout.Reservations.{
  RefundTables, ReserveCheckoutRentRefundInput, Reserved, pending_refund, has_pending_void,
  available_amount, load_checkout_rent_refund_candidates, plan_checkout_rent_refund,
  release_checkout_rent_refund, reservation, reserve_checkout_rent_refund,
}
use srms.Checkout.Reservations.Found.{allocation_id, found-NotNegative, found-available}
use srms.Checkout.Reservations.Held.{
  reserved_for, AmountsHeld, release-others, release-less, release-amounts, append_for,
  append_amounts,
}

-- What is reversed, what refunds wait for, and what is reserved, is within the allocation.
abbrev pub IsCovered : RefundTables → PaymentAllocation → Type 0
IsCovered s a =
    a.reversed_amount +ℤ pending_refund s.refund_rows a.id +ℤ reserved_for a.id s.reservations
    ≤ℤ a.allocated_amount

pub record AreCovered (s : RefundTables) : Type 0 where
  pub covered : All (IsCovered s) s.allocations
  pub amounts : AmountsHeld s.reservations

plan-allocated :
    (s : RefundTables) (input : ReserveCheckoutRentRefundInput) (plan : RentRefundPlan)
    → plan_checkout_rent_refund s input ≡ ok plan
    → allocate_checkout_rent_refund input.actual_checkout_date input.requested_amount
        (load_checkout_rent_refund_candidates s input.contract_id input.settlement_id)
      ≡ ok plan
unfolding plan_checkout_rent_refund
plan-allocated s input plan h =
    elim (Result-cases (
      allocate_checkout_rent_refund input.actual_checkout_date input.requested_amount
        (load_checkout_rent_refund_candidates s input.contract_id input.settlement_id))) [
          | inl (e, refused) ↦ absurd (ground arith)
          | inr (made, allocated) ↦ ground arith
        ]

-- The parts of a reservation that succeeds.
pub record IsReserving (input : ReserveCheckoutRentRefundInput) (s : RefundTables) (done : Reserved)
    : Type 0 where
  pub planned :
      allocate_checkout_rent_refund input.actual_checkout_date input.requested_amount (
        load_checkout_rent_refund_candidates
          (release_checkout_rent_refund input.settlement_id s)
          input.contract_id
          input.settlement_id)
      ≡ ok done.plan
  pub tables_are : done.tables ≡ record (release_checkout_rent_refund input.settlement_id s) {
    reservations =
        (release_checkout_rent_refund input.settlement_id s).reservations
        ++ map (reservation input.settlement_item_id) done.plan.allocations;
  }

pub reserve-IsReserving :
    (input : ReserveCheckoutRentRefundInput) (s : RefundTables) (done : Reserved)
    → reserve_checkout_rent_refund input s ≡ ok done
    → IsReserving input s done
unfolding reserve_checkout_rent_refund
reserve-IsReserving input s done h =
    let released = release_checkout_rent_refund input.settlement_id s in
    >>=-ok_elim (plan_checkout_rent_refund released input) _ h (λ plan made rest.
      let same : done.plan ≡ plan = ground arith in
      let tables : done.tables ≡ record released {
        reservations =
            released.reservations ++ map (reservation input.settlement_item_id) plan.allocations;
      } =
        ground arith in
      record {
        planned = plan-allocated released input plan made ∙ ap ok (sym same);
        tables_are = rw same tables;
      })

module _ (input : ReserveCheckoutRentRefundInput) (s : RefundTables) where
  abbrev released : RefundTables
  released = release_checkout_rent_refund input.settlement_id s

  -- What is available fits beside what other settlements hold.
  available-fits :
      (a : PaymentAllocation)
      → IsCovered s a
      → AmountsHeld s.reservations
      → a.reversed_amount
          +ℤ pending_refund s.refund_rows a.id
          +ℤ reserved_for a.id released.reservations
          +ℤ available_amount released input.settlement_id a
        ≤ℤ a.allocated_amount
  unfolding release_checkout_rent_refund
  available-fits a covered amounts =
      let less = release-less s.items input.settlement_id a.id s.reservations amounts in
      let others = release-others s.items input.settlement_id a.id s.reservations in
      elim (Bool-cases (has_pending_void s.void_requests a.payment_id)) [
        | inl void ↦ rw void (omega (int_laws, less, covered))
        | inr none_pending ↦ rw (none_pending, others) (omega (int_laws, less, covered))
      ]

  IsCovered-one :
      (item : ℕ) (xs : List RefundShare) (a : PaymentAllocation)
      → IsCovered s a
      → AmountsHeld s.reservations
      → amount_of a.id xs ≤ℤ available_amount released input.settlement_id a
      → a.reversed_amount
          +ℤ pending_refund s.refund_rows a.id
          +ℤ reserved_for a.id (released.reservations ++ map (reservation item) xs)
        ≤ℤ a.allocated_amount
  IsCovered-one item xs a covered amounts within =
      let fits = available-fits a covered amounts in
      rw (append_for a.id item released.reservations xs) (omega (int_laws, fits, within))

  IsCovered-all :
      (item : ℕ) (xs : List RefundShare) (cs : List RentRefundCandidate)
      (as' : List PaymentAllocation)
      → AmountsHeld s.reservations
      → ((k : ℕ) → amount_of k xs ≤ℤ available_of k cs)
      → All
          (λ (a : PaymentAllocation).
            available_of a.id cs ≤ℤ available_amount released input.settlement_id a)
          as'
      → All (IsCovered s) as'
      → All
          (IsCovered
            (record released { reservations = released.reservations ++ map (reservation item) xs }))
          as'
  unfolding release_checkout_rent_refund
  IsCovered-all item xs cs [] amounts within available covered = tt
  IsCovered-all item xs cs (a ∷ as') amounts within available covered =
      let taken = within a.id in
      let here = available.0 in
      (
        IsCovered-one item xs a covered.0 amounts (omega (arith, taken, here)),
        IsCovered-all item xs cs as' amounts within available.1 covered.1,
      )

  -- Allocation ids are distinct, no reservation is negative, and of each allocation what is
  -- reversed, what refunds wait for and what all settlements hold is within its amount: then so it
  -- is after a reservation that succeeds.
  pub reserve_checkout_rent_refund-AreCovered :
      (done : Reserved)
      → HasKeys allocation_id s.allocations
      → AreCovered s
      → reserve_checkout_rent_refund input s ≡ ok done
      → AreCovered done.tables
  unfolding release_checkout_rent_refund load_checkout_rent_refund_candidates
  reserve_checkout_rent_refund-AreCovered done keys before h =
      let parts = reserve-IsReserving input s done h in
      let cs =
        load_checkout_rent_refund_candidates released input.contract_id input.settlement_id in
      let xs = done.plan.allocations in
      let shares =
        allocated_plan input.actual_checkout_date input.requested_amount cs done.plan
          parts.planned in
      let fine : NotNegative cs =
        found-NotNegative released input.contract_id input.settlement_id s.allocations in
      let within : (k : ℕ) → amount_of k xs ≤ℤ available_of k cs =
        λ k. rw shares (plan_within k input.actual_checkout_date input.requested_amount cs fine) in
      let held : AreHeld xs =
        rw shares (plan-AreHeld input.actual_checkout_date input.requested_amount cs) in
      rw parts.tables_are (record {
        covered =
            IsCovered-all input.settlement_item_id xs cs s.allocations before.amounts within
              (found-available released input.contract_id input.settlement_id s.allocations keys)
              before.covered;
        amounts =
            append_amounts input.settlement_item_id released.reservations xs
              (release-amounts s.items input.settlement_id s.reservations before.amounts) held;
      })
