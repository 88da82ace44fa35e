-- ===== src/Checkout/Reversal/Restoring.antt =====
-- The parts of a reversal of rent refunds by
-- backend/src/checkout/checkout-completed-reversal.ts that succeeds.
use srms.Prelude.{ℕ, ◌==◌, ◌≡◌, ap, ◌∙◌, not, List, [], ◌∷◌, map, filter, contains, length, arith}
use srms.Prelude.Fallible.{ok, throw_if, >>=-ok_elim}
use srms.Payments.Store.{PaymentAllocation}
use srms.Checkout.RefundWriter.Tables.{WriterTables}
use srms.Checkout.RefundWriter.Checks.{payment_of}
use srms.Checkout.Reversal.Tables.{UndoInput, UndoError}
use srms.Checkout.Reversal.RentRefunds.{
  set_of, item_ids_of, open_refunds, applied_claims, Repaying, repay_bills, allocation_totals,
  total_ids, repay_allocations, release_claims, restore_payments, status_without_current,
  restore_rent_refunds, RestoredRent,
}
use srms.Checkout.Reversal.Repaid
use srms.Checkout.Reversal.Repaid.{booked-filter, booked-open, repay_bills-IsRepaid}
use srms.Checkout.FutureBills.{Linked}
use srms.Checkout.Reversal.RentRefunds.{repay_bill}

-- The parts of a reversal of rent refunds that succeeds.
pub record IsRestoring (undo : UndoInput) (s : WriterTables) (r : RestoredRent) : Type 0 where
  pub repaid : Repaying
  pub allocations : List PaymentAllocation
  pub repaid_made :
      repay_bills undo
        (open_refunds (item_ids_of (applied_claims undo.settlement_id s)) s)
        (record { tables = s; by_bill = [] })
      ≡ ok repaid
  pub allocations_made :
      repay_allocations
        (allocation_totals (applied_claims undo.settlement_id s) [])
        (filter
          (λ (a : PaymentAllocation).
            contains a.id (total_ids (allocation_totals (applied_claims undo.settlement_id s) [])))
          repaid.tables.allocations)
        repaid.tables.allocations
      ≡ ok allocations
  pub bills_are : r.tables.bills ≡ repaid.tables.bills
  pub allocations_are : r.tables.allocations ≡ allocations
  pub amount_is : r.restored_amount ≡ Repaid.totals_sum repaid.by_bill
  pub refunds_are : r.tables.deposit_refunds ≡ s.deposit_refunds

restore_payments-rows :
    (ids : List ℕ) (s s' : WriterTables)
    → restore_payments ids s ≡ ok s'
    → (s'.bills ≡ s.bills)
      × (s'.allocations ≡ s.allocations)
      × (s'.deposit_refunds ≡ s.deposit_refunds)
unfolding restore_payments
restore_payments-rows [] s s' h = (ground arith, ground arith, ground arith)
restore_payments-rows (id ∷ ids) s s' h =
    >>=-ok_elim (status_without_current s id) _ h
      (λ result made rest. restore_payments-rows ids _ s' rest)

repay_bills-refunds :
    (input : UndoInput) (ls : List Linked) (t t' : Repaying)
    → repay_bills input ls t ≡ ok t'
    → t'.tables.deposit_refunds ≡ t.tables.deposit_refunds
unfolding repay_bills repay_bill
repay_bills-refunds input [] t t' h = ground arith
repay_bills-refunds input (l ∷ ls) t t' h =
    >>=-ok_elim (repay_bill input l t) (repay_bills input ls) h (λ u first others.
      let one : u.tables.deposit_refunds ≡ t.tables.deposit_refunds = ground arith in
      repay_bills-refunds input ls u t' others ∙ one)

pub restore-IsRestoring :
    (undo : UndoInput) (s : WriterTables) (r : RestoredRent)
    → restore_rent_refunds undo s ≡ ok r
    → IsRestoring undo s r
unfolding restore_rent_refunds
restore-IsRestoring undo s r h =
    let applied = applied_claims undo.settlement_id s in
    let totals = allocation_totals applied [] in
    >>=-ok_elim
      (repay_bills undo (open_refunds (item_ids_of applied) s)
        (record { tables = s; by_bill = [] }))
      _ h
      (λ repaid e1 h1.
        let read =
          filter (λ (a : PaymentAllocation). contains a.id (total_ids totals))
            repaid.tables.allocations in
        >>=-ok_elim (throw_if (not (length read == length totals)) UndoError.allocation_missing) _
          h1
          (λ _ there h2.
            >>=-ok_elim (repay_allocations totals read repaid.tables.allocations) _ h2
              (λ allocations e2 h3.
                >>=-ok_elim (release_claims applied repaid.tables.claims) _ h3 (λ claims e3 h4.
                  >>=-ok_elim
                    (restore_payments (set_of (map payment_of applied))
                      (record repaid.tables { allocations = allocations; claims = claims }))
                    _ h4
                    (λ tables e4 h5.
                      let (bills, rows, refunds) =
                        restore_payments-rows (set_of (map payment_of applied)) _ tables e4 in
                      let done : r ≡ record {
                        tables = tables;
                        restored_amount = Repaid.totals_sum repaid.by_bill;
                      } =
                        ground arith in
                      record {
                        repaid = repaid;
                        allocations = allocations;
                        repaid_made = e1;
                        allocations_made = e2;
                        bills_are = ap (λ x. x.tables.bills) done ∙ bills;
                        allocations_are = ap (λ x. x.tables.allocations) done ∙ rows;
                        amount_is = ap (λ x. x.restored_amount) done;
                        refunds_are =
                            ap (λ x. x.tables.deposit_refunds) done
                            ∙ refunds
                            ∙ repay_bills-refunds undo (open_refunds (item_ids_of applied) s)
                                (record { tables = s; by_bill = [] }) repaid e1;
                      })))))
