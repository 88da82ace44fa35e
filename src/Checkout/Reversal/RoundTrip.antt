-- ===== src/Checkout/Reversal/RoundTrip.antt =====
-- A rent refund that is booked and then taken back: `applyCheckoutRentRefund` of
-- backend/src/checkout/checkout-rent-refund-writer.ts, and what
-- backend/src/checkout/checkout-completed-reversal.ts does to its rows.
use srms.Prelude.{
  ℕ, ◌==◌, ◌≡◌, refl, sym, ap, ◌∙◌, true, false, if◌then◌else◌, some, List, [], ◌∷◌, map, any,
  contains, Bool-cases, inl, inr, All,
}
use srms.Prelude.Ids.{contains-unique_ids, has_duplicates-unique_ids}
use srms.Prelude.Int.{sum_ℤ}
use srms.Payments.Store.{RentBill, BillAdjustment, find_bill}
use srms.Payments.Store.Rounds.{map_ext, All-contains, All-keys}
use srms.Payments.Store.Counts.{All-map_of}
use srms.Payments.Store.Sums.{held_on-total}
use srms.Checkout.RefundWriter.{CheckoutRentRefundResult, rows_of, bill_ids_of}
use srms.Checkout.RefundWriter.Tables.{RentClaim, WriterTables}
use srms.Checkout.RefundWriter.Checks.{ApplyInput, Total, amount_at, bill_of, held_amount}
use srms.Checkout.RefundWriter.Written.{bill_id}
use srms.Checkout.RefundWriter.Parts.{Parts}
use srms.Checkout.RefundWriter.Applied
use srms.Checkout.RefundWriter.Applied.{active_of, on_bill, on_allocation, given_back}
use srms.Checkout.RefundWriter.Balance
use srms.Checkout.Reversal.Tables.{UndoInput}
use srms.Checkout.Reversal.RentRefunds.{repaid_bill}
use srms.Checkout.Reversal.Repaid.{booked, booked_sum, booked-filter}
use srms.Checkout.Reversal.Rows.{
  repaid-given_back, written-found, booked_sum-found, keys-distinct, any-contains,
}

module _ (input : ApplyInput) (s : WriterTables) (r : CheckoutRentRefundResult)
    (parts : Parts input s r) where
  abbrev pub act : List RentClaim
  act = parts.active

  abbrev pub totals : List Total
  totals = parts.totals.by_bill

  abbrev pub ids : List ℕ
  ids = bill_ids_of act

  abbrev pub after : RentBill → RentBill
  after b = Applied.bill_after input s r parts b

  pub after-id : (b : RentBill) → bill_id (after b) ≡ bill_id b
  after-id b = elim (Bool-cases (contains b.id (map bill_of act))) [
    | inl named ↦ rw named refl
    | inr other ↦ rw other refl
  ]

  -- The adjustments that a booking adds have its amount in all.
  abbrev pub entries : List BillAdjustment
  entries = booked input parts.item.id totals s.bills s.next_adjustment_id ids

  named-ids : All (λ (c : RentClaim). any (λ k. k == bill_of c) ids ≡ true) act
  named-ids =
      All-map_of (λ (c : RentClaim). contains (bill_of c) (map bill_of act) ≡ true) _
        (λ c listed.
          any-contains (bill_of c) ids (contains-unique_ids (bill_of c) (map bill_of act) ∙ listed))
        act (All-keys bill_of act)

  pub entries-sum : booked_sum entries ≡ r.applied_amount
  entries-sum =
      let read = (rows_of s act).bills in
      let found =
        written-found input parts.item.id totals read ids s parts.booked.billed
          parts.booked.bills_made in
      let once = keys-distinct ids (has_duplicates-unique_ids (map bill_of act)) in
      ap booked_sum (
        sym (
          booked-filter input parts.item.id totals ids s.bills s.next_adjustment_id ids
            (All-contains ids)))
      ∙ booked_sum-found input parts.item.id totals read s.next_adjustment_id ids found
      ∙ ap sum_ℤ (
          map_ext (λ id. amount_at id totals) (λ id. on_bill id act)
            (Applied.bill_total-held input s r parts) ids)
      ∙ held_on-total bill_of held_amount (λ (k : ℕ). k) act ids once named-ids
      ∙ Balance.applied-total input s r parts

  -- The bills after both.
  module _ (undo : UndoInput) where
    abbrev pub write : RentBill → RentBill → RentBill
    write a x = repaid_bill undo (amount_at a.id totals) a x

    abbrev pub put_back : RentBill → RentBill
    put_back a = if contains a.id ids then write a a else a

    put_back-row : (b : RentBill) → find_bill b.id s.bills ≡ some b → put_back (after b) ≡ b
    put_back-row b found = elim (Bool-cases (contains b.id (map bill_of act))) [
      | inr other ↦
          let unlisted : contains b.id ids ≡ false =
            contains-unique_ids b.id (map bill_of act) ∙ other in
          rw (other, unlisted) refl
      | inl named ↦
          let listed : contains b.id ids ≡ true =
            contains-unique_ids b.id (map bill_of act) ∙ named in
          rw (named, listed, Applied.bill_total-held input s r parts b.id)
            (repaid-given_back undo (on_bill b.id act) b
              (Applied.covers-bill input s r parts b found named))
    ]

    pub put_back-all :
        (rows : List RentBill)
        → All (λ (b : RentBill). find_bill b.id s.bills ≡ some b) rows
        → map put_back (map after rows) ≡ rows
    put_back-all [] found = refl
    put_back-all (b ∷ rows) found =
        rw (put_back-row b found.0) (ap (λ bs. b ∷ bs) (put_back-all rows found.1))
