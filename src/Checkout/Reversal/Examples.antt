-- ===== src/Checkout/Reversal/Examples.antt =====
-- A checkout that gave rent and a deposit back, taken back, and one that is cancelled.
use srms.Prelude.{ℕ, ◌≡◌, refl, none, some, [], ◌∷◌, arith}
use srms.Prelude.Int.{ℤ, pos, ◌+ℤ◌, ◌-ℤ◌, max_ℤ, min_ℤ, sum_ℤ}
use srms.Prelude.Fallible.{ok}
use srms.Prelude.Decimal.{digits}
use srms.Prelude.Ids.{unique_ids}
use srms.Payments.RefundStatus.{
  ApprovalStatus, select_rows, refund_total, allocated_total, saw_current_refund, seen_checkout_ids,
  calculate_payment_refund_status,
}
use srms.Checkout.RentRefund.{
  insert_candidate, sort_candidates, eligible_candidates, allocate_shares,
  allocate_checkout_rent_refund,
}
use srms.Checkout.Reservations.{plan_checkout_rent_refund, load_checkout_rent_refund_candidates}
use srms.Checkout.Deposits.{DepositTransactionType}
use srms.Checkout.FutureBills.{
  reverse_cancellations, reverse_future_checkout_bill_normalization, restore_bills,
  restore_legacy_future_checkout_bills, open_cancellations,
}
use srms.Checkout.Accounting.RefundPlan.{assert_checkout_rent_refund_plan_current}
use srms.Checkout.RefundWriter.{
  CheckoutRentRefundResult, assert_plan_current, book_refund, check_rows,
  apply_checkout_rent_refund,
}
use srms.Checkout.RefundWriter.Data.{tables, input, signed_text}
use srms.Checkout.RefundWriter.Tables.{payment_refund_status}
use srms.Checkout.RefundWriter.Checks.{
  active_claims, check_snapshot, add_claims, check_capacity, check_bills,
}
use srms.Checkout.RefundWriter.Writes.{
  write_bills, write_allocations, claim_reservations, next_statuses, write_payments,
}
use srms.Checkout.Reversal.{
  CompletedReversal, RolledBack, restore_future, cancel_refunds,
  reverse_completed_checkout_accounting, rollback_approved_checkout,
}
use srms.Checkout.Reversal.Tables.{CheckoutTables, DepositRow, UndoInput}
use srms.Checkout.Reversal.Ledgers.{
  reverse_refund, reverse_refunds, unpay_bill, reverse_offset, reverse_offsets, void_supplement,
}
use srms.Checkout.Reversal.RentRefunds.{
  RestoredRent, repay_bill, repay_bills, repay_allocations, release_claims, status_without_current,
  restore_payments, restore_rent_refunds,
}
use srms.Checkout.Reversal.Undone.{IsUndone, restore_rent_refunds-IsUndone}
use srms.Checkout.Reversal.Returned.{IsReversed, reverse_completed_checkout_accounting-IsReversed}
use srms.Checkout.Reversal.Cancelled.{IsRolledBack, rollback_approved_checkout-IsRolledBack}

abbrev undo : UndoInput
undo = record {
  settlement_id = 9;
  contract_id = 1;
  actual_checkout_date = 738010;
  operator_id = 3;
  occurred_at = 738015;
}

applied :
    (r : CheckoutRentRefundResult) × (apply_checkout_rent_refund signed_text input tables ≡ ok r)
unfolding apply_checkout_rent_refund active_claims check_snapshot assert_plan_current
    plan_checkout_rent_refund load_checkout_rent_refund_candidates allocate_checkout_rent_refund
    eligible_candidates sort_candidates insert_candidate allocate_shares
    assert_checkout_rent_refund_plan_current digits check_rows add_claims check_capacity check_bills
    book_refund next_statuses calculate_payment_refund_status select_rows refund_total
    allocated_total saw_current_refund seen_checkout_ids write_bills write_allocations
    claim_reservations write_payments payment_refund_status unique_ids ◌+ℤ◌ ◌-ℤ◌ max_ℤ min_ℤ sum_ℤ
applied = (_, refl)

restored : (back : RestoredRent) × (restore_rent_refunds undo applied.0.tables ≡ ok back)
unfolding applied restore_rent_refunds repay_bills repay_bill repay_allocations release_claims
    restore_payments status_without_current payment_refund_status calculate_payment_refund_status
    select_rows refund_total allocated_total saw_current_refund seen_checkout_ids ◌+ℤ◌ ◌-ℤ◌ sum_ℤ
    unique_ids
restored = (_, refl)

restore_rent_refunds-IsUndone_example : IsUndone tables applied.0 restored.0
restore_rent_refunds-IsUndone_example =
    restore_rent_refunds-IsUndone signed_text input undo tables applied.0 restored.0 refl (tt, tt)
      (ground arith) tt applied.1 restored.1

abbrev deposit : ℕ → DepositTransactionType → ℤ → ℤ → DepositRow
deposit id type amount balance = record {
  id = id;
  transaction = record {
    contract_id = 1;
    transaction_type = type;
    amount = amount;
    balance_after = balance;
    payment_id = none;
  };
  settlement_id = some 9;
  rent_bill_id = none;
  deposit_refund_id = none;
}

-- The deposit of 500 was used for 300 of charges, and 200 of it was given back.
abbrev completed : CheckoutTables
completed = record {
  rent = applied.0.tables;
  deposits =
      deposit 1 DepositTransactionType.receipt (pos 500) (pos 500)
      ∷ deposit 2 DepositTransactionType.offset_settlement (pos 300) (pos 200)
      ∷ deposit 3 DepositTransactionType.refund (pos 200) (pos 0)
      ∷ [];
  next_deposit_id = 4;
  prepayments = [];
  next_prepayment_id = 1;
  supplements = [];
}

abbrev day : ℕ → ℕ
day t = t

reversed :
    (r : CompletedReversal) × (reverse_completed_checkout_accounting day undo completed ≡ ok r)
unfolding applied reverse_completed_checkout_accounting reverse_refunds reverse_refund
    restore_future reverse_future_checkout_bill_normalization reverse_cancellations
    open_cancellations restore_legacy_future_checkout_bills restore_bills reverse_offsets
    reverse_offset unpay_bill void_supplement restore_rent_refunds repay_bills repay_bill
    repay_allocations release_claims restore_payments status_without_current payment_refund_status
    calculate_payment_refund_status select_rows refund_total allocated_total saw_current_refund
    seen_checkout_ids unique_ids ◌+ℤ◌ ◌-ℤ◌ sum_ℤ
reversed = (_, refl)

reverse_completed_checkout_accounting-IsReversed_example : IsReversed undo completed reversed.0
reverse_completed_checkout_accounting-IsReversed_example =
    reverse_completed_checkout_accounting-IsReversed day undo completed reversed.0 reversed.1

-- The settlement is approved, and its refund still waits.
abbrev approved : CheckoutTables
approved = record completed {
  rent = record tables {
    deposit_refunds =
        record {
          id = 5;
          contract_id = 1;
          settlement_id = 9;
          refund_amount = pos 800;
          deposit_refund_amount = pos 200;
          prepayment_refund_amount = pos 0;
          rent_refund_amount = pos 600;
          approval_status = ApprovalStatus.pending;
          approved_by = none;
        }
        ∷ [];
  };
}

rolled_back : (r : RolledBack) × (rollback_approved_checkout day undo approved ≡ ok r)
unfolding applied rollback_approved_checkout cancel_refunds restore_future
    reverse_future_checkout_bill_normalization reverse_cancellations open_cancellations
    restore_legacy_future_checkout_bills restore_bills reverse_offsets reverse_offset unpay_bill
    void_supplement ◌+ℤ◌ ◌-ℤ◌ sum_ℤ
rolled_back = (_, refl)

rollback_approved_checkout-IsRolledBack_example : IsRolledBack undo approved rolled_back.0
rollback_approved_checkout-IsRolledBack_example =
    rollback_approved_checkout-IsRolledBack day undo approved rolled_back.0 rolled_back.1
