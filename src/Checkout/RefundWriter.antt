-- ===== src/Checkout/RefundWriter.antt =====
-- The rent that a settlement gives back, booked on bills, allocations and payments:
-- backend/src/checkout/checkout-rent-refund-writer.ts. Ids are natural numbers, the moment of the
-- booking is left out with the numbers made from it, and the locks change no row.
pub mod Tables
pub mod Checks
pub mod Writes
pub mod Checked
pub mod Written
pub mod Parts
pub mod Applied
pub mod Balance
pub mod Kept
pub mod Once
pub mod Data
mod Examples
use srms.Prelude.{ℕ, ◌==◌, Bool, not, ◌&&◌, ◌||◌, List, [], map, filter, find, contains, length}
use srms.Prelude.Int.{ℤ}
use srms.Prelude.Fallible.{Result, ok, err, ◌>>=◌, ◌>>◌, throw_if}
use srms.Prelude.Ids.{unique_ids}
use srms.Payments.Store.{RentBill, PaymentAllocation}
use srms.Checkout.RentRefund.{RefundShare, RentRefundPlan}
use srms.Checkout.Reservations.{
  RentPayment, RefundItem, ReserveCheckoutRentRefundInput, plan_checkout_rent_refund,
}
use srms.Checkout.Accounting.RefundPlan.{assert_checkout_rent_refund_plan_current}
use srms.Checkout.RefundWriter.Tables.{
  RefundSettlement, DepositRefund, RentClaim, WriterTables, WriterError, refund_tables, or_throw,
}
use srms.Checkout.RefundWriter.Tables.WriterError.{
  invalid_input, not_found, plan_changed, accounting_changed, reference_changed, state_changed,
}
use srms.Checkout.RefundWriter.Checks.{
  ApplyInput, Snapshot, Rows, Totals, bill_of, allocation_of, payment_of, held_amount, claims_of,
  active_claims, state_fits, check_snapshot, add_claims, check_capacity, check_bills,
}
use srms.Checkout.RefundWriter.Writes.{
  write_bills, write_allocations, claim_reservations, next_statuses, write_payments,
}

abbrev pub share_of : RentClaim → RefundShare
share_of c = record {
  payment_allocation_id = allocation_of c;
  payment_id = payment_of c;
  rent_bill_id = bill_of c;
  amount = held_amount c;
}

-- The refund is planned again over the locked rows; a refusal is translated.
abbrev pub plan_again :
    WriterTables → RefundSettlement → Snapshot → Result WriterError RentRefundPlan
plan_again s settlement snapshot =
    elim (plan_checkout_rent_refund (refund_tables s) (record {
      settlement_id = settlement.id;
      settlement_item_id = snapshot.item.id;
      contract_id = settlement.contract_id;
      actual_checkout_date = snapshot.checkout_date;
      requested_amount = settlement.rent_refundable_amount;
    })) [ err e ↦ err plan_changed | ok plan ↦ ok plan ]

-- The plan is made and compared with the reservations.
unfoldable pub assert_plan_current :
    (ℤ → List ℕ)
    → WriterTables
    → RefundSettlement
    → Snapshot
    → List RentClaim
    → Result WriterError (Unit {0})
assert_plan_current to_fixed s settlement snapshot active =
    plan_again s settlement snapshot >>= λ plan.
    elim (assert_checkout_rent_refund_plan_current to_fixed (map share_of active)
      plan.allocations) [ err e ↦ err accounting_changed | ok done ↦ ok done ]

-- The ids of what the reservations name, in order, and the rows with these ids.
abbrev pub bill_ids_of : List RentClaim → List ℕ
bill_ids_of active = unique_ids (map bill_of active)

abbrev pub allocation_ids_of : List RentClaim → List ℕ
allocation_ids_of active = unique_ids (map allocation_of active)

abbrev pub payment_ids_of : List RentClaim → List ℕ
payment_ids_of active = unique_ids (map payment_of active)

abbrev pub rows_of : WriterTables → List RentClaim → Rows
rows_of s active = record {
  bills = filter (λ (b : RentBill). contains b.id (bill_ids_of active)) s.bills;
  allocations =
      filter (λ (a : PaymentAllocation). contains a.id (allocation_ids_of active)) s.allocations;
  payments = filter (λ (p : RentPayment). contains p.id (payment_ids_of active)) s.payments;
}

abbrev pub are_all_there : List RentClaim → Rows → Bool
are_all_there active rows =
    (length rows.bills == length (bill_ids_of active))
    && (length rows.allocations == length (allocation_ids_of active))
    && (length rows.payments == length (payment_ids_of active))

pub record CheckoutRentRefundResult : Type 0 where
  pub tables : WriterTables
  pub applied_amount : ℤ
  pub affected_bill_ids : List ℕ
  pub affected_payment_ids : List ℕ

-- The writes, once the checks have passed.
unfoldable pub book_refund :
    ApplyInput
    → RefundSettlement
    → RefundItem
    → List RentClaim
    → Rows
    → Totals
    → WriterTables
    → Result WriterError CheckoutRentRefundResult
book_refund input settlement item active rows totals s = do
  statuses ← next_statuses s active (payment_ids_of active)
  billed ← write_bills input item.id totals.by_bill rows.bills (bill_ids_of active) s
  allocations ←
      write_allocations totals.by_allocation rows.allocations (allocation_ids_of active)
        billed.allocations
  claims ← claim_reservations input.deposit_refund_id active billed.claims
  ok (record {
    tables = record billed {
      allocations = allocations;
      claims = claims;
      payments = write_payments statuses billed.payments;
    };
    applied_amount = settlement.rent_refundable_amount;
    affected_bill_ids = bill_ids_of active;
    affected_payment_ids = payment_ids_of active;
  })

-- The checks of the rows that the reservations name.
unfoldable pub check_rows :
    RefundSettlement → RefundItem → List RentClaim → Rows → Result WriterError Totals
check_rows settlement item active rows = do
  throw_if (not (are_all_there active rows)) reference_changed
  totals ←
      add_claims settlement.contract_id item rows active
        (record { by_bill = []; by_allocation = [] })
  check_capacity rows.allocations totals.by_allocation
  check_bills rows.bills totals.by_bill
  ok totals

abbrev pub rent_items : WriterTables → ℕ → List RefundItem
rent_items s settlement_id =
    filter (λ (i : RefundItem). (i.settlement_id == settlement_id) && i.is_rent_refund) s.items

unfoldable pub apply_checkout_rent_refund :
    (ℤ → List ℕ) → ApplyInput → WriterTables → Result WriterError CheckoutRentRefundResult
apply_checkout_rent_refund to_fixed input s = do
  throw_if
      ((input.settlement_id == 0) || (input.deposit_refund_id == 0) || (input.approved_by == 0))
      invalid_input
  settlement ←
      or_throw not_found
        (find (λ (x : RefundSettlement). x.id == input.settlement_id) s.settlements)
  refund ←
      or_throw not_found
        (find (λ (x : DepositRefund). x.id == input.deposit_refund_id) s.deposit_refunds)
  active ← active_claims (claims_of s input.settlement_id)
  throw_if (not (state_fits input settlement refund)) state_changed
  snapshot ← check_snapshot settlement refund (rent_items s input.settlement_id) active
  assert_plan_current to_fixed s settlement snapshot active
  let rows = rows_of s active
  totals ← check_rows settlement snapshot.item active rows
  book_refund input settlement snapshot.item active rows totals s
