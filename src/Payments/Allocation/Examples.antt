-- ===== src/Payments/Allocation/Examples.antt =====
-- Three bills and a payment of 250.00, and the theorems at them.
use srms.Prelude.{◌≡◌, refl, none, some, List, [], ◌∷◌, true, false}
use srms.Prelude.Int.{pos, ◌+ℤ◌, ◌-ℤ◌, min_ℤ, sum_ℤ}
use srms.Prelude.Fallible.{err, is_ok}
use srms.Payments.Allocation.{
  AllocatableBill, Allocation, AllocationPlan, admin, super_admin, cannot_skip_earlier,
  allocate_loop, allocate_payment, resolve_allocation_plan,
}
use srms.Payments.Allocation.Waterfall.{
  amounts, waterfall, enumerate, allocate_payment_conserves, allocate_payment-waterfall,
}
use srms.Payments.Allocation.Policy.{
  oldest_first, resolve_allocation_plan-is_ok, resolve_allocation_plan-oldest_first,
}

abbrev bills : List AllocatableBill
bills =
    record { id = 7; outstanding_amount = pos 10000 }
    ∷ record { id = 8; outstanding_amount = pos 0 }
    ∷ record { id = 9; outstanding_amount = pos 20000 }
    ∷ []

-- The second bill owes nothing and is passed over.
allocates :
    (allocate_payment (pos 25000) bills).allocations
    ≡ record { rent_bill_id = 7; amount = pos 10000; allocation_order = 1 }
      ∷ record { rent_bill_id = 9; amount = pos 15000; allocation_order = 2 }
      ∷ []
unfolding allocate_payment allocate_loop min_ℤ ◌-ℤ◌
allocates = refl

refuses_skipping :
    resolve_allocation_plan bills (pos 25000) (some (9 ∷ [])) admin none ≡ err cannot_skip_earlier
unfolding resolve_allocation_plan
refuses_skipping = refl

abbrev plan : AllocationPlan
plan = record {
  result = allocate_payment (pos 25000) (record { id = 7; outstanding_amount = pos 10000 } ∷ []);
  manual_override = false;
  allocation_type = srms.Payments.Allocation.AllocationType.auto_oldest_first;
}

allocate_payment_conserves_example :
    sum_ℤ (amounts (allocate_payment (pos 25000) bills).allocations)
      +ℤ (allocate_payment (pos 25000) bills).prepayment_amount
    ≡ pos 25000
allocate_payment_conserves_example = allocate_payment_conserves (pos 25000) bills

allocate_payment-waterfall_example :
    (allocate_payment (pos 25000) bills).allocations
    ≡ enumerate 1 (waterfall (pos 25000) (pos 0) bills)
allocate_payment-waterfall_example = allocate_payment-waterfall (pos 25000) bills

resolve_allocation_plan-is_ok_example :
    is_ok (resolve_allocation_plan bills (pos 25000) (some (9 ∷ [])) super_admin (some (65 ∷ [])))
    ≡ true
resolve_allocation_plan-is_ok_example =
    resolve_allocation_plan-is_ok bills (pos 25000) (some (9 ∷ [])) super_admin (some (65 ∷ []))

resolve_allocation_plan-oldest_first_example :
    plan ≡ oldest_first (pos 25000) (record { id = 7; outstanding_amount = pos 10000 } ∷ [])
unfolding resolve_allocation_plan
resolve_allocation_plan-oldest_first_example =
    resolve_allocation_plan-oldest_first bills (pos 25000) (some (7 ∷ [])) admin none plan refl refl
      refl
