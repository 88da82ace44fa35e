-- ===== src/Checkout/Reversal/Tables.antt =====
-- The tables that backend/src/checkout/checkout-completed-reversal.ts and
-- checkout-approved-cancellation.ts read and write, and their exceptions. A transaction of a
-- deposit is seen with what it refers to, and the bill of a settlement's supplement by their ids.
use srms.Prelude.{ℕ, suc, ltb, if◌then◌else◌, Option, none, some, List, [], ◌∷◌, ◌++◌}
use srms.Prelude.Int.{ℤ, pos, ltb_ℤ, eqb_ℤ}
use srms.Payments.Adjustment.{RentBillStatus}
use srms.Payments.Store.{PrepaymentTransaction, PrepaymentType, Database}
use srms.Checkout.Deposits.{DepositTransaction, DepositTransactionType}
use srms.Checkout.FutureBills.{NormalizationInput, Normalized}
use srms.Checkout.RefundWriter.Tables.{WriterTables}

pub record DepositRow : Type 0 where
  pub id : ℕ
  pub transaction : DepositTransaction
  pub settlement_id : Option ℕ
  pub rent_bill_id : Option ℕ
  pub deposit_refund_id : Option ℕ

pub record SupplementalBill : Type 0 where
  pub settlement_id : ℕ
  pub bill_id : ℕ

pub record CheckoutTables : Type 0 where
  pub rent : WriterTables
  pub deposits : List DepositRow
  pub next_deposit_id : ℕ
  pub prepayments : List PrepaymentTransaction
  pub next_prepayment_id : ℕ
  pub supplements : List SupplementalBill

pub data UndoError : Type 0 where
  refund_confirmed supplement_collected refund_changed arrears_short : UndoError
  supplement_received adjustment_changed allocation_missing allocation_short : UndoError
  reservation_changed abnormal_status missing_row : UndoError
  future_bill_changed : UndoError

-- `CompletedCheckoutReversalInput` and `ApprovedCheckoutCancellationInput`, which the functions on
-- the future bills take too.
abbrev pub UndoInput : Type 0
UndoInput = NormalizationInput

-- `restoredBillStatus`, which both files declare.
abbrev pub restored_bill_status : ℤ → ℤ → ℕ → ℕ → RentBillStatus
restored_bill_status received outstanding due occurred =
    if eqb_ℤ outstanding (pos 0)
    then RentBillStatus.paid
    else if ltb_ℤ (pos 0) received
    then RentBillStatus.partial
    else if ltb due occurred
    then RentBillStatus.overdue
    else RentBillStatus.pending

-- The bills and adjustments, as the functions on the future bills take them, and put back.
abbrev pub future_tables : WriterTables → Database
future_tables s = record {
  contracts = [];
  bills = s.bills;
  adjustments = s.adjustments;
  next_adjustment_id = s.next_adjustment_id;
  payments = [];
  allocations = s.allocations;
  void_requests = s.void_requests;
  next_void_request_id = 0;
  prepayments = [];
  next_prepayment_id = 0;
  settlements = [];
  settlement_items = [];
  reservations = [];
  audit_logs = [];
}

abbrev pub with_future : CheckoutTables → Normalized → CheckoutTables
with_future s n = record s {
  rent = record s.rent {
    bills = n.db.bills;
    adjustments = n.db.adjustments;
    next_adjustment_id = n.db.next_adjustment_id;
  };
}

-- A row of type REVERSAL of the contract's deposit.
abbrev pub deposit_reversal : UndoInput → ℕ → ℤ → ℤ → Option ℕ → Option ℕ → DepositRow
deposit_reversal input id amount balance bill_id refund_id = record {
  id = id;
  transaction = record {
    contract_id = input.contract_id;
    transaction_type = DepositTransactionType.reversal;
    amount = amount;
    balance_after = balance;
    payment_id = none;
  };
  settlement_id = some input.settlement_id;
  rent_bill_id = bill_id;
  deposit_refund_id = refund_id;
}

abbrev pub add_deposit : UndoInput → ℤ → ℤ → Option ℕ → Option ℕ → CheckoutTables → CheckoutTables
add_deposit input amount balance bill_id refund_id s = record s {
  deposits =
      s.deposits ++ deposit_reversal input s.next_deposit_id amount balance bill_id refund_id ∷ [];
  next_deposit_id = suc s.next_deposit_id;
}

abbrev pub add_prepayment : UndoInput → ℤ → ℤ → CheckoutTables → CheckoutTables
add_prepayment input amount balance s = record s {
  prepayments =
      s.prepayments
      ++ record {
        id = s.next_prepayment_id;
        contract_id = input.contract_id;
        transaction_type = PrepaymentType.reversal;
        amount = amount;
        balance_after = balance;
        payment_id = none;
      }
        ∷ [];
  next_prepayment_id = suc s.next_prepayment_id;
}
