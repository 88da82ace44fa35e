-- ===== src/Checkout/Reversal/Cancelled.antt =====
-- What `rollbackApprovedCheckout` of backend/src/checkout/checkout-approved-cancellation.ts leaves.
use mathlib.Core.Path.{subst}
use srms.Prelude.{ℕ, ◌≡◌, refl, sym, ap, ◌∙◌, false, List, [], filter, any, length, arith}
use srms.Prelude.Int.{ℤ, pos, ◌+ℤ◌, zero_+ℤ}
use srms.Prelude.Fallible.{ok, throw_if, >>=-ok_elim}
use srms.Payments.RefundStatus.{is_approved}
use srms.Checkout.RefundWriter.Tables.{DepositRefund}
use srms.Checkout.RefundWriter.Checks.{is_active, claims_of}
use srms.Checkout.Reversal.{
  RolledBack, is_open_refund_of, has_supplement_payment, pending_ids, cancel_refunds,
  release_reserved, restore_future, rollback_approved_checkout,
}
use srms.Payments.Store.{AuditEvent}
use srms.Checkout.Reversal.Tables.{CheckoutTables, UndoError, UndoInput}
use srms.Checkout.Reversal.Ledgers.{
  deposit_balance, reverse_offsets, offsets_of, void_supplement, Offsetting, with_refunds,
}
use srms.Checkout.Reversal.Extended.{DepositGoesOn, DepositGoesOn-none, DepositGoesOn-trans}
use srms.Checkout.Reversal.Offset.{
  SameLedgers, SameLedgers-trans, IsOffset, offset_total, reverse_offsets-IsOffset,
  void_supplement-SameLedgers,
}
use srms.Checkout.Reversal.Steps.{restore_future-SameLedgers, SameLedgers-goes_on}
use srms.Checkout.Reversal.Closed.{with_cancelled, kept-none, all-pending, none-reserved}

abbrev open_of : UndoInput → CheckoutTables → List DepositRefund
open_of input s = filter (is_open_refund_of input.settlement_id) s.rent.deposit_refunds

abbrev released_with : UndoInput → List DepositRefund → CheckoutTables → CheckoutTables
released_with input cancelled s = release_reserved input.settlement_id (with_refunds cancelled s)

abbrev offsetting : UndoInput → List DepositRefund → CheckoutTables → Offsetting
offsetting input cancelled s = record {
  tables = released_with input cancelled s;
  balance = deposit_balance input.contract_id s;
  restored = pos 0;
}

pub record IsRolledBack (input : UndoInput) (s : CheckoutTables) (r : RolledBack) : Type 0 where
  pub deposit_ledger :
      DepositGoesOn
        (deposit_balance input.contract_id s)
        (deposit_balance input.contract_id s +ℤ r.restored_deposit_amount)
        s
        r.tables
  pub offset_is : r.restored_deposit_amount ≡ offset_total (offsets_of input s)
  pub none_open : filter (is_open_refund_of input.settlement_id) r.tables.rent.deposit_refunds ≡ []
  pub none_reserved : filter is_active (claims_of r.tables.rent input.settlement_id) ≡ []

-- What each part of a cancellation that succeeds does to the deposit, the refunds and the
-- reservations.
record IsStepwise (input : UndoInput) (s : CheckoutTables) (r : RolledBack) : Type 0 where
  cancelled : List DepositRefund
  offset : Offsetting
  none_approved :
      any (λ (x : DepositRefund). is_approved x.approval_status) (open_of input s) ≡ false
  cancelled_are : cancelled ≡ with_cancelled (pending_ids (open_of input s)) s.rent.deposit_refunds
  offset_made :
      IsOffset
        (offsets_of input (released_with input cancelled s))
        (offsetting input cancelled s)
        offset
  same : SameLedgers offset.tables r.tables
  amount_is : r.restored_deposit_amount ≡ offset.restored

rollback-IsStepwise :
    (business_day : ℕ → ℕ) (input : UndoInput) (s : CheckoutTables) (r : RolledBack)
    → rollback_approved_checkout business_day input s ≡ ok r
    → IsStepwise input s r
unfolding rollback_approved_checkout cancel_refunds
rollback-IsStepwise business_day input s r h =
    let refunds = open_of input s in
    let ids = pending_ids refunds in
    >>=-ok_elim
      (throw_if (any (λ (x : DepositRefund). is_approved x.approval_status) refunds)
        UndoError.refund_confirmed)
      _ h
      (λ _ waiting h1.
        >>=-ok_elim
          (throw_if (has_supplement_payment input.contract_id s.rent)
            UndoError.supplement_collected)
          _ h1
          (λ _ uncollected h2.
            >>=-ok_elim (cancel_refunds ids s.rent.deposit_refunds) _ h2 (λ cancelled e1 h3.
              let released = released_with input cancelled s in
              let ds = offsets_of input released in
              >>=-ok_elim
                (reverse_offsets input released.rent.bills ds (offsetting input cancelled s)) _ h3
                (λ o e2 h4.
                  >>=-ok_elim (restore_future business_day input o.tables) _ h4 (λ f e3 h5.
                    >>=-ok_elim (void_supplement input.settlement_id f.tables) _ h5 (λ v e4 h6.
                      let result : r ≡ record {
                        tables = v;
                        cancelled_refund_count = length ids;
                        released_reservation_count =
                            length (filter is_active (claims_of s.rent input.settlement_id));
                        restored_deposit_amount = o.restored;
                        restored_legacy_future_bill_ids = f.legacy_bill_ids;
                        audit_log = record {
                          event =
                              AuditEvent.approved_checkout_rolled_back input.contract_id
                                (length ids)
                                (length (filter is_active (claims_of s.rent input.settlement_id)))
                                o.restored f.legacy_bill_ids;
                          entity_id = input.settlement_id;
                          operator_id = input.operator_id;
                        };
                      } =
                        cc in
                      rw result (record {
                        cancelled = cancelled;
                        offset = o;
                        none_approved = ground arith;
                        cancelled_are = ground arith;
                        offset_made =
                            reverse_offsets-IsOffset input released.rent.bills ds
                              (offsetting input cancelled s) o e2;
                        same =
                            SameLedgers-trans o.tables f.tables v
                              (restore_future-SameLedgers business_day input o.tables f e3)
                              (void_supplement-SameLedgers input.settlement_id f.tables v e4);
                        amount_is = refl;
                      })))))))

-- The cancellation of an approved checkout that succeeds gives back every offset of its deposit:
-- the transactions of the deposit are those from before with rows added, each of which has the
-- balance before it with its amount, from the contract's balance on, and which add up to the
-- offsets of the settlement, as is reported; no refund of the settlement waits or is approved any
-- more, and none of its reservations holds anything.
pub rollback_approved_checkout-IsRolledBack :
    (business_day : ℕ → ℕ) (input : UndoInput) (s : CheckoutTables) (r : RolledBack)
    → rollback_approved_checkout business_day input s ≡ ok r
    → IsRolledBack input s r
rollback_approved_checkout-IsRolledBack business_day input s r h =
    let steps = rollback-IsStepwise business_day input s r h in
    let deposit = deposit_balance input.contract_id s in
    let middle = released_with input steps.cancelled s in
    let made = steps.offset_made in
    let balance : steps.offset.balance ≡ deposit +ℤ r.restored_deposit_amount =
      made.balance_is
      ∙ ap (λ x. deposit +ℤ x) (sym (steps.amount_is ∙ made.restored_is ∙ zero_+ℤ _)) in
    let ledger : DepositGoesOn deposit steps.offset.balance s r.tables =
      DepositGoesOn-trans deposit deposit steps.offset.balance s middle r.tables
        (DepositGoesOn-none deposit s middle refl)
        (DepositGoesOn-trans deposit steps.offset.balance steps.offset.balance middle
          steps.offset.tables r.tables made.deposit_goes_on
          (SameLedgers-goes_on steps.offset.balance steps.offset.tables r.tables steps.same)) in
    let refunds_are = steps.same.same_refunds ∙ made.same_refunds in
    let claims_are = steps.same.same_claims ∙ made.same_claims in
    let items_are = steps.same.same_items ∙ made.same_items in
    record {
      deposit_ledger = subst (λ (x : ℤ). DepositGoesOn deposit x s r.tables) balance ledger;
      offset_is = steps.amount_is ∙ made.restored_is ∙ zero_+ℤ _;
      none_open =
          rw (refunds_are, steps.cancelled_are)
            (kept-none input.settlement_id (pending_ids (open_of input s)) s.rent.deposit_refunds
              (all-pending input.settlement_id s.rent.deposit_refunds steps.none_approved));
      none_reserved =
          rw (claims_are, items_are) (none-reserved s.rent.items input.settlement_id s.rent.claims);
    }
