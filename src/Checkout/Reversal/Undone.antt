-- ===== src/Checkout/Reversal/Undone.antt =====
-- A rent refund that is booked by backend/src/checkout/checkout-rent-refund-writer.ts, and then
-- taken back by backend/src/checkout/checkout-completed-reversal.ts.
use mathlib.Core.Path.{subst}
use srms.Prelude.{ℕ, ◌≡◌, refl, sym, ap, ◌∙◌, false, List, [], ◌∷◌, map, All}
use srms.Prelude.Ids.{has_duplicates-unique_ids}
use srms.Prelude.Int.{ℤ, ◌-ℤ◌, sum_ℤ, +ℤ_zero, zero_+ℤ}
use srms.Prelude.Fallible.{ok}
use srms.Payments.Store.{RentBill, PaymentAllocation}
use srms.Payments.Store.Sweep.{HasKeys, map-HasKeys}
use srms.Payments.Store.Rows.{find-own}
use srms.Payments.Store.Rounds.{rounds-map}
use srms.Checkout.RefundWriter.{CheckoutRentRefundResult, bill_ids_of, apply_checkout_rent_refund}
use srms.Checkout.RefundWriter.Tables.{RentClaim, WriterTables}
use srms.Checkout.RefundWriter.Checks.{ApplyInput, Total, amount_at}
use srms.Checkout.RefundWriter.Writes.{claimed}
use srms.Checkout.RefundWriter.Written.{bill_id, allocation_id}
use srms.Checkout.RefundWriter.Parts.{Parts, apply-Parts}
use srms.Checkout.RefundWriter.Applied.{active_of, on_allocation}
use srms.Checkout.RefundWriter.Balance
use srms.Checkout.Reversal.Tables.{UndoInput}
use srms.Checkout.Reversal.RentRefunds.{
  set_of, item_ids_of, is_open_refund, open_refunds, link_bills, applied_claims, repay_bills,
  allocation_totals, restore_rent_refunds, RestoredRent,
}
use srms.Checkout.Reversal.Claims.{
  applied_claims-after, allocation_totals-held, repay_allocations-map,
}
use srms.Checkout.Reversal.Repaid
use srms.Checkout.Reversal.Repaid.{booked-filter, booked-open, repay_bills-IsRepaid}
use srms.Checkout.Reversal.Rows.{gain_back}
use srms.Checkout.Reversal.RoundTrip
use srms.Checkout.Reversal.Restoring.{IsRestoring, restore-IsRestoring}
use srms.Checkout.Reversal.Entries.{items-claimed, open-entries}

module _ (input : ApplyInput) (s : WriterTables) (r : CheckoutRentRefundResult)
    (parts : Parts input s r) where
  abbrev act : List RentClaim
  act = parts.active

  module _ (undo : UndoInput) (same : undo.settlement_id ≡ input.settlement_id)
      (bill_keys : HasKeys bill_id s.bills)
      (none_open : All (λ a. is_open_refund (item_ids_of act) a ≡ false) s.adjustments) where
    applied-same :
        applied_claims undo.settlement_id r.tables ≡ map (claimed input.deposit_refund_id) act
    applied-same = ap (λ k. applied_claims k r.tables) same ∙ applied_claims-after input s r parts

    items-same : item_ids_of (applied_claims undo.settlement_id r.tables) ≡ item_ids_of act
    items-same = ap item_ids_of applied-same ∙ ap set_of (items-claimed input.deposit_refund_id act)

    abbrev after : List RentBill
    after = map (RoundTrip.after input s r parts) s.bills

    links-same :
        open_refunds (item_ids_of (applied_claims undo.settlement_id r.tables)) r.tables
        ≡ link_bills after (RoundTrip.entries input s r parts)
    links-same =
        ap (λ items. open_refunds items r.tables) items-same
        ∙ ap (λ xs. link_bills r.tables.bills xs) (open-entries input s r parts none_open)
        ∙ ap (λ bills. link_bills bills (RoundTrip.entries input s r parts))
            (Balance.bills-map input s r parts bill_keys)

    module _ (back : RestoredRent) (parts' : IsRestoring undo r.tables back) where
      bills-repaid :
          Repaid.IsRepaid input parts.item.id parts.totals.by_bill undo
            (RoundTrip.after input s r parts)
            (RoundTrip.after-id input s r parts)
            s.bills
            s.next_adjustment_id
            (bill_ids_of act)
            (record { tables = r.tables; by_bill = [] })
            parts'.repaid
      bills-repaid =
          repay_bills-IsRepaid input parts.item.id parts.totals.by_bill undo
            (RoundTrip.after input s r parts) (RoundTrip.after-id input s r parts) s.bills
            s.next_adjustment_id (bill_ids_of act) (record { tables = r.tables; by_bill = [] })
            parts'.repaid
            (ap (λ ls. repay_bills undo ls (record { tables = r.tables; by_bill = [] }))
                (sym links-same)
              ∙ parts'.repaid_made)

      bills-back : back.tables.bills ≡ s.bills
      bills-back =
          parts'.bills_are
          ∙ bills-repaid.bills_are
          ∙ ap
              (Repaid.repaid_rounds input parts.item.id parts.totals.by_bill undo
                (RoundTrip.after input s r parts) (RoundTrip.after-id input s r parts) s.bills
                (bill_ids_of act))
              (Balance.bills-map input s r parts bill_keys)
          ∙ rounds-map bill_id (RoundTrip.write input s r parts undo) (λ a x. refl) after
              (bill_ids_of act)
              (map-HasKeys bill_id (RoundTrip.after input s r parts)
                (RoundTrip.after-id input s r parts) s.bills bill_keys)
              (has_duplicates-unique_ids _)
          ∙ RoundTrip.put_back-all input s r parts undo s.bills (find-own bill_id s.bills bill_keys)

      amount-back : back.restored_amount ≡ r.applied_amount
      unfolding sum_ℤ
      amount-back =
          parts'.amount_is ∙ bills-repaid.sum_is ∙ zero_+ℤ _ ∙ RoundTrip.entries-sum input s r parts

      abbrev sums : List Total
      sums = allocation_totals (applied_claims undo.settlement_id r.tables) []

      sums-held : (k : ℕ) → amount_at k sums ≡ on_allocation k act
      sums-held k =
          ap (λ cs. amount_at k (allocation_totals cs [])) applied-same
          ∙ allocation_totals-held input.deposit_refund_id k act []
          ∙ +ℤ_zero (on_allocation k act)

      abbrev raised : PaymentAllocation → PaymentAllocation
      raised a = Balance.allocation_after input s r parts a

      put_back-allocations :
          (rows : List PaymentAllocation)
          → map
              (λ (a : PaymentAllocation). record a {
                reversed_amount = a.reversed_amount -ℤ amount_at a.id sums;
              })
              (map raised rows)
            ≡ rows
      put_back-allocations [] = refl
      put_back-allocations (a ∷ rows) =
          rw (sums-held a.id, gain_back a.reversed_amount (on_allocation a.id act))
            (ap (λ xs. a ∷ xs) (put_back-allocations rows))

      allocations-back :
          HasKeys allocation_id s.allocations → back.tables.allocations ≡ s.allocations
      allocations-back keys =
          let rows : parts'.repaid.tables.allocations ≡ map raised s.allocations =
            bills-repaid.same_allocations ∙ Balance.allocations-map input s r parts keys in
          let keys' : HasKeys allocation_id parts'.repaid.tables.allocations =
            subst (HasKeys allocation_id) (sym rows)
              (map-HasKeys allocation_id raised (λ a. refl) s.allocations keys) in
          parts'.allocations_are
          ∙ repay_allocations-map sums parts'.repaid.tables.allocations parts'.allocations keys'
              parts'.allocations_made
          ∙ ap
              (map (λ (a : PaymentAllocation). record a {
                reversed_amount = a.reversed_amount -ℤ amount_at a.id sums;
              }))
              rows
          ∙ put_back-allocations s.allocations

pub record IsUndone (s : WriterTables) (r : CheckoutRentRefundResult) (back : RestoredRent)
    : Type 0 where
  pub same_bills : back.tables.bills ≡ s.bills
  pub same_allocations : back.tables.allocations ≡ s.allocations
  pub same_amount : back.restored_amount ≡ r.applied_amount

-- On tables of bills and of allocations with distinct ids, where no adjustment of a rent refund of
-- the settlement's items stands: if a booking succeeds, and then the reversal of the rent refunds
-- of the same settlement, then every bill and every allocation is again as it was before the
-- booking, in all columns, and the amount that is restored is the one that was applied.
pub restore_rent_refunds-IsUndone :
    (to_fixed : ℤ → List ℕ) (input : ApplyInput) (undo : UndoInput) (s : WriterTables)
    (r : CheckoutRentRefundResult) (back : RestoredRent)
    → undo.settlement_id ≡ input.settlement_id
    → HasKeys bill_id s.bills
    → HasKeys allocation_id s.allocations
    → All
        (λ a. is_open_refund (item_ids_of (active_of s input.settlement_id)) a ≡ false)
        s.adjustments
    → apply_checkout_rent_refund to_fixed input s ≡ ok r
    → restore_rent_refunds undo r.tables ≡ ok back
    → IsUndone s r back
restore_rent_refunds-IsUndone to_fixed input undo s r back same bill_keys keys none_open h h' =
    let parts = apply-Parts to_fixed input s r h in
    let parts' = restore-IsRestoring undo r.tables back h' in
    let act = Balance.active-same input s r parts in
    let none_open' =
      subst
        (λ (cs : List RentClaim).
          All (λ a. is_open_refund (item_ids_of cs) a ≡ false) s.adjustments)
        (sym act) none_open in
    record {
      same_bills = bills-back input s r parts undo same bill_keys none_open' back parts';
      same_allocations =
          allocations-back input s r parts undo same bill_keys none_open' back parts' keys;
      same_amount = amount-back input s r parts undo same bill_keys none_open' back parts';
    }
