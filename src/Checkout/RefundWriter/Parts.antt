-- ===== src/Checkout/RefundWriter/Parts.antt =====
-- The parts of a booking by `applyCheckoutRentRefund` of
-- backend/src/checkout/checkout-rent-refund-writer.ts that succeeds.
use srms.Prelude.{
  ℕ, ◌==◌, ◌≡◌, sym, true, not, ◌||◌, Option, none, some, List, [], ◌∷◌, filter, find, Option-cases,
  inl, inr, arith,
}
use srms.Prelude.Int.{ℤ, eqb_ℤ_iff}
use srms.Prelude.Fallible.{ok, throw_if, >>=-ok_elim}
use srms.Checkout.Reservations.{RefundItem}
use srms.Checkout.RefundWriter.{
  CheckoutRentRefundResult, rows_of, rent_items, are_all_there, assert_plan_current, check_rows,
  book_refund, apply_checkout_rent_refund, bill_ids_of, allocation_ids_of, payment_ids_of,
}
use srms.Checkout.RefundWriter.Tables.{
  RefundSettlement, DepositRefund, RentClaim, WriterTables, WriterError, or_throw,
}
use srms.Payments.Store.{PaymentAllocation}
use srms.Checkout.RefundWriter.Checks.{
  ApplyInput, Snapshot, Totals, Rows, claims_of, active_claims, is_active, state_fits,
  reserved_total, amounts_fit, check_snapshot, add_claims, check_capacity, check_bills,
}
use srms.Checkout.RefundWriter.Writes.{
  NextStatus, next_statuses, write_bills, write_allocations, claim_reservations, write_payments,
}

or_throw-found :
    {A : Type 0} {a : A} (e : WriterError) (o : Option A) → or_throw e o ≡ ok a → o ≡ some a
or_throw-found e none h = absurd (cc)
or_throw-found e (some b) h = cc

-- The active reservations are some, and all of those of the settlement that are reserved.
pub active-filter :
    (claims active : List RentClaim)
    → active_claims claims ≡ ok active
    → (active ≡ filter is_active claims)
unfolding active_claims
active-filter claims active h = ground arith

pub record IsChecked (settlement : RefundSettlement) (item : RefundItem) (active : List RentClaim)
    (rows : Rows) (totals : Totals) : Type 0 where
  pub added :
      add_claims settlement.contract_id item rows active
        (record { by_bill = []; by_allocation = [] })
      ≡ ok totals
  pub capacity : check_capacity rows.allocations totals.by_allocation ≡ ok tt
  pub bills_cover : check_bills rows.bills totals.by_bill ≡ ok tt

check_rows-IsChecked :
    (settlement : RefundSettlement) (item : RefundItem) (active : List RentClaim) (rows : Rows)
    (totals : Totals)
    → check_rows settlement item active rows ≡ ok totals
    → IsChecked settlement item active rows totals
unfolding check_rows
check_rows-IsChecked settlement item active rows totals h =
    >>=-ok_elim (throw_if (not (are_all_there active rows)) WriterError.reference_changed) _ h
      (λ _ there h1.
        >>=-ok_elim
          (add_claims settlement.contract_id item rows active
            (record { by_bill = []; by_allocation = [] }))
          _ h1
          (λ t added h2.
            >>=-ok_elim (check_capacity rows.allocations t.by_allocation) _ h2 (λ _ capacity h3.
              >>=-ok_elim (check_bills rows.bills t.by_bill) _ h3 (λ _ bills h4.
                let same : t ≡ totals = cc in
                rw (sym same)
                  (record { added = added; capacity = capacity; bills_cover = bills })))))

pub record IsBooked (input : ApplyInput) (settlement : RefundSettlement) (item : RefundItem)
    (active : List RentClaim) (rows : Rows) (totals : Totals) (s : WriterTables)
    (r : CheckoutRentRefundResult) : Type 0 where
  pub statuses : List NextStatus
  pub billed : WriterTables
  pub allocations : List PaymentAllocation
  pub claims : List RentClaim
  pub statuses_made : next_statuses s active (payment_ids_of active) ≡ ok statuses
  pub bills_made :
      write_bills input item.id totals.by_bill rows.bills (bill_ids_of active) s ≡ ok billed
  pub allocations_made :
      write_allocations totals.by_allocation rows.allocations
        (allocation_ids_of active)
        billed.allocations
      ≡ ok allocations
  pub claims_made : claim_reservations input.deposit_refund_id active billed.claims ≡ ok claims
  pub result_is : r ≡ record {
    tables = record billed {
      allocations = allocations;
      claims = claims;
      payments = write_payments statuses billed.payments;
    };
    applied_amount = settlement.rent_refundable_amount;
    affected_bill_ids = bill_ids_of active;
    affected_payment_ids = payment_ids_of active;
  }

book_refund-IsBooked :
    (input : ApplyInput) (settlement : RefundSettlement) (item : RefundItem)
    (active : List RentClaim) (rows : Rows) (totals : Totals) (s : WriterTables)
    (r : CheckoutRentRefundResult)
    → book_refund input settlement item active rows totals s ≡ ok r
    → IsBooked input settlement item active rows totals s r
unfolding book_refund
book_refund-IsBooked input settlement item active rows totals s r h =
    >>=-ok_elim (next_statuses s active (payment_ids_of active)) _ h (λ statuses e1 h1.
      >>=-ok_elim (write_bills input item.id totals.by_bill rows.bills (bill_ids_of active) s) _ h1
        (λ billed e2 h2.
          >>=-ok_elim
            (write_allocations totals.by_allocation rows.allocations (allocation_ids_of active)
              billed.allocations)
            _ h2
            (λ allocations e3 h3.
              >>=-ok_elim (claim_reservations input.deposit_refund_id active billed.claims) _ h3
                (λ claims e4 h4. record {
                  statuses = statuses;
                  billed = billed;
                  allocations = allocations;
                  claims = claims;
                  statuses_made = e1;
                  bills_made = e2;
                  allocations_made = e3;
                  claims_made = e4;
                  result_is = ground arith;
                }))))

pub record Parts (input : ApplyInput) (s : WriterTables) (r : CheckoutRentRefundResult)
    : Type 0 where
  pub settlement : RefundSettlement
  pub item : RefundItem
  pub active : List RentClaim
  pub totals : Totals
  pub settlement_found :
      find (λ (x : RefundSettlement). x.id == input.settlement_id) s.settlements ≡ some settlement
  pub active_found : active_claims (claims_of s input.settlement_id) ≡ ok active
  pub amount_fits : reserved_total active ≡ settlement.rent_refundable_amount
  pub checked : IsChecked settlement item active (rows_of s active) totals
  pub booked : IsBooked input settlement item active (rows_of s active) totals s r

snapshot-amount :
    (settlement : RefundSettlement) (refund : DepositRefund) (items : List RefundItem)
    (active : List RentClaim) (snapshot : Snapshot)
    → check_snapshot settlement refund items active ≡ ok snapshot
    → reserved_total active ≡ settlement.rent_refundable_amount
unfolding check_snapshot
snapshot-amount settlement refund [] active snapshot h = absurd (cc)
snapshot-amount settlement refund (x ∷ y ∷ items) active snapshot h = absurd (cc)
snapshot-amount settlement refund (x ∷ []) active snapshot h =
    elim (Option-cases settlement.actual_checkout_date) [
      | inl undated ↦ absurd (ground arith)
      | inr (date, dated) ↦
          let fits : amounts_fit settlement refund x active ≡ true = ground arith in
          (eqb_ℤ_iff (reserved_total active) settlement.rent_refundable_amount).0 (ground arith)
    ]

pub apply-Parts :
    (to_fixed : ℤ → List ℕ) (input : ApplyInput) (s : WriterTables) (r : CheckoutRentRefundResult)
    → apply_checkout_rent_refund to_fixed input s ≡ ok r
    → Parts input s r
unfolding apply_checkout_rent_refund
apply-Parts to_fixed input s r h =
    >>=-ok_elim
      (throw_if
        ((input.settlement_id == 0) || (input.deposit_refund_id == 0) || (input.approved_by == 0))
        WriterError.invalid_input)
      _ h
      (λ _ valid h1.
        >>=-ok_elim
          (or_throw WriterError.not_found
            (find (λ (x : RefundSettlement). x.id == input.settlement_id) s.settlements))
          _ h1
          (λ settlement e1 h2.
            >>=-ok_elim
              (or_throw WriterError.not_found
                (find (λ (x : DepositRefund). x.id == input.deposit_refund_id) s.deposit_refunds))
              _ h2
              (λ refund e2 h3.
                >>=-ok_elim (active_claims (claims_of s input.settlement_id)) _ h3 (λ active e3 h4.
                  >>=-ok_elim
                    (throw_if (not (state_fits input settlement refund)) WriterError.state_changed)
                    _ h4
                    (λ _ fits h5.
                      >>=-ok_elim
                        (check_snapshot settlement refund (rent_items s input.settlement_id) active)
                        _ h5
                        (λ snapshot e4 h6.
                          >>=-ok_elim (assert_plan_current to_fixed s settlement snapshot active) _
                            h6
                            (λ _ planned h7.
                              >>=-ok_elim
                                (check_rows settlement snapshot.item active (rows_of s active)) _ h7
                                (λ totals e5 h8. record {
                                  settlement = settlement;
                                  item = snapshot.item;
                                  active = active;
                                  totals = totals;
                                  settlement_found =
                                      or_throw-found WriterError.not_found
                                        (find
                                          (λ (x : RefundSettlement). x.id == input.settlement_id)
                                          s.settlements)
                                        e1;
                                  active_found = e3;
                                  amount_fits =
                                      snapshot-amount settlement refund
                                        (rent_items s input.settlement_id) active snapshot e4;
                                  checked =
                                      check_rows-IsChecked settlement snapshot.item active
                                        (rows_of s active) totals e5;
                                  booked =
                                      book_refund-IsBooked input settlement snapshot.item active
                                        (rows_of s active) totals s r h8;
                                }))))))))
