-- ===== src/Checkout/RefundWriter/Written.antt =====
-- The loops of `applyCheckoutRentRefund` of
-- backend/src/checkout/checkout-rent-refund-writer.ts that write, as maps over the tables.
use srms.Prelude.{
  ℕ, suc, ◌≡◌, refl, sym, ◌∙◌, if◌then◌else◌, none, some, List, [], ◌∷◌, ◌++◌, map, filter,
  contains, arith,
}
use mathlib.Core.List.{append-nil, append_assoc}
use srms.Prelude.Ids.{unique_ids, has_duplicates-unique_ids}
use srms.Prelude.Fallible.{ok, >>=-ok_elim}
use srms.Payments.Store.{RentBill, BillAdjustment, PaymentAllocation, find_bill}
use srms.Payments.Store.Sweep.{HasKeys}
use srms.Payments.Store.Rounds.{round, rounds, rounds-map, rounds-filter, All-contains}
use srms.Checkout.RefundWriter.Tables.{WriterTables, WriterError, or_throw, find_allocation}
use srms.Checkout.RefundWriter.Checks.{ApplyInput, Total}
use srms.Checkout.RefundWriter.Writes.{
  refunded_bill, refund_adjustment, write_bills, reversed_allocation, write_allocations,
}

abbrev pub bill_id : RentBill → ℕ
bill_id b = b.id

abbrev pub allocation_id : PaymentAllocation → ℕ
allocation_id a = a.id

module _ (input : ApplyInput) (item_id : ℕ) (totals : List Total) where
  -- The adjustments of the bills with some ids, with ids of their own from `next` on.
  abbrev pub bookings : List RentBill → ℕ → List ℕ → List BillAdjustment
  bookings read next [] = []
  bookings read next (id ∷ ids) = elim (find_bill id read) [
    | none ↦ bookings read next ids
    | some b ↦ refund_adjustment input item_id totals next b ∷ bookings read (suc next) ids
  ]

  abbrev bill_rounds : List RentBill → List ℕ → List RentBill → List RentBill
  bill_rounds read ids rows = rounds bill_id (refunded_bill totals) (λ a x. refl) read ids rows

  pub record IsBilled (read : List RentBill) (ids : List ℕ) (s s' : WriterTables) : Type 0 where
    pub billed : s'.bills ≡ bill_rounds read ids s.bills
    pub booked : s'.adjustments ≡ s.adjustments ++ bookings read s.next_adjustment_id ids
    pub same_settlements : s'.settlements ≡ s.settlements
    pub same_items : s'.items ≡ s.items
    pub same_claims : s'.claims ≡ s.claims
    pub same_payments : s'.payments ≡ s.payments
    pub same_allocations : s'.allocations ≡ s.allocations
    pub same_refund_rows : s'.refund_rows ≡ s.refund_rows

  pub write_bills-IsBilled :
      (read : List RentBill) (ids : List ℕ) (s s' : WriterTables)
      → write_bills input item_id totals read ids s ≡ ok s'
      → IsBilled read ids s s'
  unfolding write_bills
  write_bills-IsBilled read [] s s' h =
      let same : s' ≡ s = ground arith in
      rw same (record {
        billed = refl;
        booked = sym (append-nil s.adjustments);
        same_settlements = refl;
        same_items = refl;
        same_claims = refl;
        same_payments = refl;
        same_allocations = refl;
        same_refund_rows = refl;
      })
  write_bills-IsBilled read (id ∷ ids) s s' h =
      >>=-ok_elim (or_throw WriterError.missing_row (find_bill id read)) _ h (λ b there next.
        let found : find_bill id read ≡ some b = ground arith in
        let rest = write_bills-IsBilled read ids _ s' next in
        record {
          billed = rw (round, found) rest.billed;
          booked =
              rw (bookings, found)
                (rest.booked
                  ∙ append_assoc s.adjustments
                      (refund_adjustment input item_id totals s.next_adjustment_id b ∷ [])
                      (bookings read (suc s.next_adjustment_id) ids));
          same_settlements = rest.same_settlements;
          same_items = rest.same_items;
          same_claims = rest.same_claims;
          same_payments = rest.same_payments;
          same_allocations = rest.same_allocations;
          same_refund_rows = rest.same_refund_rows;
        })

  -- Each bill that is named is written once.
  pub billed-map :
      (named : List ℕ) (s s' : WriterTables)
      → HasKeys bill_id s.bills
      → IsBilled
          (filter (λ (b : RentBill). contains b.id (unique_ids named)) s.bills)
          (unique_ids named)
          s
          s'
      → s'.bills
        ≡ map
            (λ b. if contains b.id (unique_ids named) then refunded_bill totals b b else b)
            s.bills
  billed-map named s s' keys written =
      let ids = unique_ids named in
      written.billed
      ∙ rounds-filter bill_id (refunded_bill totals) (λ a x. refl) ids s.bills ids s.bills
          (All-contains ids)
      ∙ rounds-map bill_id (refunded_bill totals) (λ a x. refl) s.bills ids keys
          (has_duplicates-unique_ids named)

module _ (totals : List Total) where
  abbrev allocation_rounds :
      List PaymentAllocation → List ℕ → List PaymentAllocation → List PaymentAllocation
  allocation_rounds read ids rows =
      rounds allocation_id (reversed_allocation totals) (λ a x. refl) read ids rows

  write_allocations-rounds :
      (read : List PaymentAllocation) (ids : List ℕ) (rows rows' : List PaymentAllocation)
      → write_allocations totals read ids rows ≡ ok rows'
      → rows' ≡ allocation_rounds read ids rows
  unfolding write_allocations
  write_allocations-rounds read [] rows rows' h = ground arith
  write_allocations-rounds read (id ∷ ids) rows rows' h =
      >>=-ok_elim (or_throw WriterError.missing_row (find_allocation id read)) _ h (λ a there next.
        let found : find_allocation id read ≡ some a = ground arith in
        rw (round, found) (write_allocations-rounds read ids _ rows' next))

  -- Each allocation that is named is written once.
  pub reversed-map :
      (named : List ℕ) (rows rows' : List PaymentAllocation)
      → HasKeys allocation_id rows
      → write_allocations totals
          (filter (λ (a : PaymentAllocation). contains a.id (unique_ids named)) rows)
          (unique_ids named)
          rows
        ≡ ok rows'
      → rows'
        ≡ map
            (λ a. if contains a.id (unique_ids named) then reversed_allocation totals a a else a)
            rows
  reversed-map named rows rows' keys h =
      let ids = unique_ids named in
      write_allocations-rounds (filter (λ (a : PaymentAllocation). contains a.id ids) rows) ids rows
        rows' h
      ∙ rounds-filter allocation_id (reversed_allocation totals) (λ a x. refl) ids rows ids rows
          (All-contains ids)
      ∙ rounds-map allocation_id (reversed_allocation totals) (λ a x. refl) rows ids keys
          (has_duplicates-unique_ids named)
