-- ===== src/Checkout/Reversal/Steps.antt =====
-- The parts of `reverseCompletedCheckoutAccounting` of
-- backend/src/checkout/checkout-completed-reversal.ts, and what each does to the ledgers.
use srms.Prelude.{ℕ, ◌≡◌, refl, ◌∙◌, map, inl, inr, arith}
use srms.Prelude.Int.{ℤ, pos}
use srms.Prelude.Fallible.{ok, >>=-ok_elim, Result-cases}
use srms.Checkout.FutureBills.{reverse_future_checkout_bill_normalization}
use srms.Checkout.RefundWriter.Tables.{DepositRefund}
use srms.Checkout.Reversal.{
  CompletedReversal, FutureRestored, approved_refunds, restore_future,
  reverse_completed_checkout_accounting, id_of_bill,
}
use srms.Checkout.Reversal.Tables.{CheckoutTables, UndoInput, future_tables}
use srms.Checkout.Reversal.Ledgers.{
  deposit_balance, prepaid_balance, reverse_refunds, reverse_offsets, offsets_of, supplement_of,
  void_supplement, Refunding, Offsetting,
}
use srms.Checkout.Reversal.RentRefunds.{restore_rent_refunds}
use srms.Checkout.Reversal.Extended.{DepositGoesOn, DepositGoesOn-none}
use srms.Checkout.Reversal.Refunded.{IsReturned, reverse_refunds-IsReturned, cancel_each}
use srms.Checkout.Reversal.Restoring.{restore-IsRestoring}
use srms.Checkout.Reversal.Offset.{
  SameLedgers, IsOffset, reverse_offsets-IsOffset, void_supplement-SameLedgers,
}

pub restore_future-SameLedgers :
    (business_day : ℕ → ℕ) (input : UndoInput) (s : CheckoutTables) (r : FutureRestored)
    → restore_future business_day input s ≡ ok r
    → SameLedgers s r.tables
unfolding restore_future
restore_future-SameLedgers business_day input s r h =
    elim (Result-cases
      (reverse_future_checkout_bill_normalization business_day input (future_tables s.rent))) [
        | inl (e, refused) ↦ absurd (ground arith)
        | inr (n, done) ↦ record {
          same_deposits = ground arith;
          same_prepayments = ground arith;
          same_refunds = ground arith;
          same_claims = ground arith;
          same_items = ground arith;
        }
      ]

pub SameLedgers-goes_on :
    (balance : ℤ) (s s' : CheckoutTables) → SameLedgers s s' → DepositGoesOn balance balance s s'
SameLedgers-goes_on balance s s' same = DepositGoesOn-none balance s s' same.same_deposits

abbrev pub start : UndoInput → CheckoutTables → Refunding
start input s = record {
  tables = s;
  deposit_balance = deposit_balance input.contract_id s;
  prepayment_balance = prepaid_balance input.contract_id s;
  restored_deposit = pos 0;
  restored_prepayment = pos 0;
}

abbrev pub offsetting : FutureRestored → Refunding → Offsetting
offsetting f t = record { tables = f.tables; balance = t.deposit_balance; restored = pos 0 }

-- What each part of a reversal that succeeds does to the two ledgers and to the refunds.
pub record IsStepwise (input : UndoInput) (s : CheckoutTables) (r : CompletedReversal)
    : Type 0 where
  pub refunding : Refunding
  pub future : FutureRestored
  pub offset : Offsetting
  pub back : IsReturned (approved_refunds input.settlement_id s) (start input s) refunding
  pub gone :
      refunding.tables.rent.deposit_refunds
      ≡ cancel_each (approved_refunds input.settlement_id s) s.rent.deposit_refunds
  pub same_future : SameLedgers refunding.tables future.tables
  pub offset_made : IsOffset (offsets_of input future.tables) (offsetting future refunding) offset
  pub same_deposits : r.tables.deposits ≡ offset.tables.deposits
  pub same_prepayments : r.tables.prepayments ≡ offset.tables.prepayments
  pub same_refunds : r.tables.rent.deposit_refunds ≡ offset.tables.rent.deposit_refunds
  pub deposit_amount_is : r.restored_deposit_amount ≡ refunding.restored_deposit
  pub prepayment_amount_is : r.restored_prepayment_amount ≡ refunding.restored_prepayment
  pub offset_amount_is : r.restored_deposit_offset_amount ≡ offset.restored
  pub ids_are :
      r.cancelled_refund_ids
      ≡ map (λ (x : DepositRefund). x.id) (approved_refunds input.settlement_id s)

pub reverse-IsStepwise :
    (business_day : ℕ → ℕ) (input : UndoInput) (s : CheckoutTables) (r : CompletedReversal)
    → reverse_completed_checkout_accounting business_day input s ≡ ok r
    → IsStepwise input s r
unfolding reverse_completed_checkout_accounting
reverse-IsStepwise business_day input s r h =
    let refunds = approved_refunds input.settlement_id s in
    >>=-ok_elim (reverse_refunds input refunds (start input s)) _ h (λ t e1 h1.
      >>=-ok_elim (restore_future business_day input t.tables) _ h1 (λ f e2 h2.
        let ds = offsets_of input f.tables in
        >>=-ok_elim (reverse_offsets input f.tables.rent.bills ds (offsetting f t)) _ h2 (λ o e3 h3.
          >>=-ok_elim (void_supplement input.settlement_id o.tables) _ h3 (λ v e4 h4.
            >>=-ok_elim (restore_rent_refunds input v.rent) _ h4 (λ b e5 h5.
              let result : r ≡ record {
                tables = record v { rent = b.tables };
                cancelled_refund_ids = map (λ (x : DepositRefund). x.id) refunds;
                restored_deposit_amount = t.restored_deposit;
                restored_prepayment_amount = t.restored_prepayment;
                restored_rent_refund_amount = b.restored_amount;
                restored_future_bill_amount = f.restored;
                restored_deposit_offset_amount = o.restored;
                voided_supplemental_bill_id =
                    id_of_bill (supplement_of input.settlement_id o.tables);
              } =
                cc in
              let (back, gone) = reverse_refunds-IsReturned input refunds (start input s) t e1 in
              let voided = void_supplement-SameLedgers input.settlement_id o.tables v e4 in
              let rent = (restore-IsRestoring input v.rent b e5).refunds_are in
              rw result (record {
                refunding = t;
                future = f;
                offset = o;
                back = back;
                gone = gone;
                same_future = restore_future-SameLedgers business_day input t.tables f e2;
                offset_made =
                    reverse_offsets-IsOffset input f.tables.rent.bills ds (offsetting f t) o e3;
                same_deposits = voided.same_deposits;
                same_prepayments = voided.same_prepayments;
                same_refunds = rent ∙ voided.same_refunds;
                deposit_amount_is = refl;
                prepayment_amount_is = refl;
                offset_amount_is = refl;
                ids_are = refl;
              }))))))
