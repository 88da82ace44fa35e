-- ===== src/Checkout/Reversal/Entries.antt =====
-- The adjustments of a booking of rent refunds, as the reversal in
-- backend/src/checkout/checkout-completed-reversal.ts finds them.
use srms.Prelude.{
  ℕ, ◌≡◌, refl, sym, ap, ◌∙◌, Bool, true, false, List, [], ◌∷◌, ◌++◌, map, filter, contains,
  Option-cases, inl, inr, arith, All, ==_refl,
}
use srms.Payments.Store.{find_bill}
use srms.Payments.Store.Rounds.{All-contains}
use srms.Checkout.Reservations.{RefundItem}
use srms.Payments.Store.Counts.{All-map_of}
use srms.Checkout.RefundWriter.{CheckoutRentRefundResult, rows_of, bill_ids_of}
use srms.Checkout.RefundWriter.Tables.{RentClaim, WriterTables, find_allocation, find_rent_payment}
use srms.Checkout.RefundWriter.Checks.{
  ApplyInput, Rows, bill_of, allocation_of, claims_of, is_sound, payment_of,
}
use srms.Checkout.RefundWriter.Writes.{claimed}
use srms.Checkout.RefundWriter.Written.{write_bills-IsBilled}
use srms.Checkout.RefundWriter.Parts.{Parts, active-filter}
use srms.Checkout.RefundWriter.Once.{active-some}
use srms.Checkout.RefundWriter.Applied
use srms.Checkout.RefundWriter.Applied.{active_of, on_allocation}
use srms.Checkout.Reversal.RentRefunds.{item_ids_of, is_open_refund}
use srms.Checkout.Reversal.Repaid.{booked-filter, booked-open}
use srms.Checkout.Reversal.RoundTrip

pub items-claimed :
    (refund_id : ℕ) (cs : List RentClaim)
    → map (λ (c : RentClaim). c.reservation.item_id) (map (claimed refund_id) cs)
      ≡ map (λ (c : RentClaim). c.reservation.item_id) cs
items-claimed refund_id [] = refl
items-claimed refund_id (c ∷ cs) =
    ap (λ xs. c.reservation.item_id ∷ xs) (items-claimed refund_id cs)

sound-item :
    (contract_id : ℕ) (item : RefundItem) (rows : Rows) (c : RentClaim)
    → is_sound contract_id item rows c ≡ true
    → c.reservation.item_id ≡ item.id
sound-item contract_id item rows c sound =
    elim (Option-cases (find_allocation (allocation_of c) rows.allocations)) [
      | inl no_allocation ↦ absurd (ground arith)
      | inr (a, allocation) ↦ elim (Option-cases (find_bill (bill_of c) rows.bills)) [
        | inl no_bill ↦ absurd (ground arith)
        | inr (b, bill) ↦ elim (Option-cases (find_rent_payment (payment_of c) rows.payments)) [
          | inl no_payment ↦ absurd (ground arith)
          | inr (p, payment) ↦ ground arith
        ]
      ]
    ]

contains-first :
    (item_id : ℕ) (c : RentClaim) (cs : List RentClaim)
    → c.reservation.item_id ≡ item_id
    → contains item_id (item_ids_of (c ∷ cs)) ≡ true
contains-first item_id c cs same = rw (sym same, ==_refl c.reservation.item_id) refl

filter-append-none :
    {A : Type 0} (p : A → Bool) (xs ys : List A)
    → All (λ x. p x ≡ false) xs
    → filter p (xs ++ ys) ≡ filter p ys
filter-append-none p [] ys h = refl
filter-append-none p (x ∷ xs) ys h = rw h.0 (filter-append-none p xs ys h.1)

module _ (input : ApplyInput) (s : WriterTables) (r : CheckoutRentRefundResult)
    (parts : Parts input s r) where
  abbrev act : List RentClaim
  act = parts.active

  item-listed : contains parts.item.id (item_ids_of act) ≡ true
  item-listed =
      let claims = claims_of s input.settlement_id in
      let (c, cs, first) = active-some claims act parts.active_found in
      let same : act ≡ c ∷ cs = active-filter claims act parts.active_found ∙ first in
      let items =
        All-map_of _ (λ (x : RentClaim). x.reservation.item_id ≡ parts.item.id)
          (λ x sound. sound-item parts.settlement.contract_id parts.item (rows_of s act) x sound)
          act (Applied.added input s r parts).are_sound in
      rw same (contains-first parts.item.id c cs (rw same at items).0)

  entries-booked : r.tables.adjustments ≡ s.adjustments ++ RoundTrip.entries input s r parts
  entries-booked =
      let ids = bill_ids_of act in
      let billed =
        write_bills-IsBilled input parts.item.id parts.totals.by_bill (rows_of s act).bills ids s
          parts.booked.billed parts.booked.bills_made in
      ap (λ x. x.tables.adjustments) parts.booked.result_is
      ∙ billed.booked
      ∙ ap (λ xs. s.adjustments ++ xs)
          (booked-filter input parts.item.id parts.totals.by_bill ids s.bills s.next_adjustment_id
            ids (All-contains ids))

  pub open-entries :
      All (λ a. is_open_refund (item_ids_of act) a ≡ false) s.adjustments
      → filter (is_open_refund (item_ids_of act)) r.tables.adjustments
        ≡ RoundTrip.entries input s r parts
  open-entries none_open = rw entries-booked (
      filter-append-none (is_open_refund (item_ids_of act)) s.adjustments
        (RoundTrip.entries input s r parts) none_open
      ∙ booked-open input parts.item.id parts.totals.by_bill (item_ids_of act) s.bills
          s.next_adjustment_id (bill_ids_of act) item-listed)
