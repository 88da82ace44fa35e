-- ===== src/Checkout/Reversal/Returned.antt =====
-- What `reverseCompletedCheckoutAccounting` of
-- backend/src/checkout/checkout-completed-reversal.ts gives back to the deposit and to what was
-- prepaid.
use srms.Prelude.{ℕ, ◌==◌, ◌≡◌, refl, sym, ap, ◌∙◌, List, [], map, filter}
use mathlib.Core.Path.{subst}
use srms.Prelude.Int.{ℤ, ◌+ℤ◌, zero_+ℤ}
use srms.Prelude.Fallible.{ok}
use srms.Checkout.RefundWriter.Tables.{DepositRefund}
use srms.Checkout.Reversal.{
  CompletedReversal, approved_refunds, reverse_completed_checkout_accounting,
}
use srms.Checkout.Reversal.Tables.{CheckoutTables, UndoInput}
use srms.Checkout.Reversal.Ledgers.{
  deposit_balance, prepaid_balance, offsets_of, descending, is_offset,
}
use srms.Checkout.Reversal.Extended.{
  DepositGoesOn, DepositGoesOn-none, DepositGoesOn-trans, returned,
}
use srms.Checkout.Reversal.Recorded.{PrepaidGoesOn}
use srms.Checkout.Reversal.Refunded.{cancel_each}
use srms.Checkout.Reversal.Offset.{offset_total}
use srms.Checkout.Reversal.Cleared.{offsets-appended, cancel_each-none}
use srms.Checkout.Reversal.Steps.{SameLedgers-goes_on, IsStepwise, reverse-IsStepwise}

-- The deposit and what was prepaid after a reversal.
pub record IsReversed (input : UndoInput) (s : CheckoutTables) (r : CompletedReversal)
    : Type 0 where
  pub deposit_ledger :
      DepositGoesOn
        (deposit_balance input.contract_id s)
        (deposit_balance input.contract_id s
          +ℤ r.restored_deposit_amount
          +ℤ r.restored_deposit_offset_amount)
        s
        r.tables
  pub prepaid_ledger :
      PrepaidGoesOn
        (prepaid_balance input.contract_id s)
        (prepaid_balance input.contract_id s +ℤ r.restored_prepayment_amount)
        s
        r.tables
  pub deposit_is :
      r.restored_deposit_amount
      ≡ returned
          (λ (x : DepositRefund). x.deposit_refund_amount)
          (approved_refunds input.settlement_id s)
  pub prepaid_is :
      r.restored_prepayment_amount
      ≡ returned
          (λ (x : DepositRefund). x.prepayment_refund_amount)
          (approved_refunds input.settlement_id s)
  pub offset_is : r.restored_deposit_offset_amount ≡ offset_total (offsets_of input s)
  pub ids_are :
      r.cancelled_refund_ids
      ≡ map (λ (x : DepositRefund). x.id) (approved_refunds input.settlement_id s)
  pub none_approved : approved_refunds input.settlement_id r.tables ≡ []

module _ (input : UndoInput) (s : CheckoutTables) (r : CompletedReversal)
    (steps : IsStepwise input s r) where
  abbrev refunds : List DepositRefund
  refunds = approved_refunds input.settlement_id s

  abbrev deposit : ℤ
  deposit = deposit_balance input.contract_id s

  abbrev prepaid : ℤ
  prepaid = prepaid_balance input.contract_id s

  found : offsets_of input steps.future.tables ≡ offsets_of input s
  found =
      ap (λ xs. descending (filter (is_offset input.settlement_id) xs))
        (steps.same_future.same_deposits ∙ steps.back.deposit_goes_on.appended)
      ∙ ap descending (
          offsets-appended input.settlement_id s.deposits steps.back.deposit_goes_on.rows
            steps.back.deposit_goes_on.no_offsets)

  deposit-amount :
      r.restored_deposit_amount ≡ returned (λ (x : DepositRefund). x.deposit_refund_amount) refunds
  deposit-amount = steps.deposit_amount_is ∙ steps.back.deposit_restored ∙ zero_+ℤ _

  prepaid-amount :
      r.restored_prepayment_amount
      ≡ returned (λ (x : DepositRefund). x.prepayment_refund_amount) refunds
  prepaid-amount = steps.prepayment_amount_is ∙ steps.back.prepaid_restored ∙ zero_+ℤ _

  offset-amount :
      r.restored_deposit_offset_amount ≡ offset_total (offsets_of input steps.future.tables)
  offset-amount = steps.offset_amount_is ∙ steps.offset_made.restored_is ∙ zero_+ℤ _

  deposit-grown :
      steps.offset.balance
      ≡ deposit +ℤ r.restored_deposit_amount +ℤ r.restored_deposit_offset_amount
  deposit-grown =
      rw (deposit-amount, offset-amount)
        (steps.offset_made.balance_is
          ∙ ap (λ x. x +ℤ offset_total (offsets_of input steps.future.tables))
              steps.back.deposit_grows)

  deposit-ledger :
      DepositGoesOn deposit
        (deposit +ℤ r.restored_deposit_amount +ℤ r.restored_deposit_offset_amount)
        s
        r.tables
  deposit-ledger =
      let middle = steps.refunding.deposit_balance in
      let last = steps.offset.balance in
      let offset =
        DepositGoesOn-trans middle last last steps.future.tables steps.offset.tables r.tables
          steps.offset_made.deposit_goes_on
          (DepositGoesOn-none last steps.offset.tables r.tables steps.same_deposits) in
      subst (λ (x : ℤ). DepositGoesOn deposit x s r.tables) deposit-grown
        (DepositGoesOn-trans deposit middle last s steps.refunding.tables r.tables
          steps.back.deposit_goes_on
          (DepositGoesOn-trans middle middle last steps.refunding.tables steps.future.tables
            r.tables
            (SameLedgers-goes_on middle steps.refunding.tables steps.future.tables
              steps.same_future)
            offset))

  prepaid-ledger : PrepaidGoesOn prepaid (prepaid +ℤ r.restored_prepayment_amount) s r.tables
  prepaid-ledger =
      let grown : steps.refunding.prepayment_balance ≡ prepaid +ℤ r.restored_prepayment_amount =
        rw prepaid-amount steps.back.prepaid_grows in
      record {
        rows = steps.back.prepaid_goes_on.rows;
        appended =
            steps.same_prepayments ∙ steps.offset_made.same_prepayments
            ∙ steps.same_future.same_prepayments ∙ steps.back.prepaid_goes_on.appended;
        goes_on = rw (sym grown) steps.back.prepaid_goes_on.goes_on;
      }

  refunds-cancelled : approved_refunds input.settlement_id r.tables ≡ []
  refunds-cancelled =
      let cancelled : r.tables.rent.deposit_refunds ≡ cancel_each refunds s.rent.deposit_refunds =
        steps.same_refunds ∙ steps.offset_made.same_refunds ∙ steps.same_future.same_refunds
        ∙ steps.gone in
      rw cancelled (
        cancel_each-none (λ (x : DepositRefund). x.settlement_id == input.settlement_id)
          (λ x status. refl) s.rent.deposit_refunds)

-- The reversal of a completed checkout that succeeds gives back every approved refund of the
-- settlement and every offset of its deposit: the transactions of the deposit are those from
-- before with rows added, each of which has the balance before it with its amount, from the
-- contract's balance on; these rows add up to what is reported for refunds and for offsets, which
-- are the sums of the positive refunded amounts and of the offsets; so do the rows added to what
-- was prepaid; no refund of the settlement is approved any more, and the ids of those that were are
-- reported.
pub reverse_completed_checkout_accounting-IsReversed :
    (business_day : ℕ → ℕ) (input : UndoInput) (s : CheckoutTables) (r : CompletedReversal)
    → reverse_completed_checkout_accounting business_day input s ≡ ok r
    → IsReversed input s r
reverse_completed_checkout_accounting-IsReversed business_day input s r h =
    let steps = reverse-IsStepwise business_day input s r h in
    record {
      deposit_ledger = deposit-ledger input s r steps;
      prepaid_ledger = prepaid-ledger input s r steps;
      deposit_is = deposit-amount input s r steps;
      prepaid_is = prepaid-amount input s r steps;
      offset_is = offset-amount input s r steps ∙ ap offset_total (found input s r steps);
      ids_are = steps.ids_are;
      none_approved = refunds-cancelled input s r steps;
    }
