-- ===== src/Checkout/Reversal/Ledgers.antt =====
-- The refunds and offsets of the deposit that an undone checkout gives back to it: the loops of
-- backend/src/checkout/checkout-completed-reversal.ts over refunds and offsets, and the loop over
-- offsets of checkout-approved-cancellation.ts.
use srms.Prelude.{
  ℕ, ◌==◌, Bool, true, false, not, ◌&&◌, if◌then◌else◌, Option, none, some, List, [], ◌∷◌, ◌++◌,
  filter, find, length,
}
use srms.Prelude.Int.{ℤ, pos, ◌+ℤ◌, ◌-ℤ◌, ltb_ℤ}
use srms.Prelude.Fallible.{Result, ok, ◌>>=◌, ◌>>◌, throw_if}
use srms.Payments.Adjustment.{RentBillStatus}
use srms.Payments.RefundStatus.{ApprovalStatus, is_approved}
use srms.Payments.Store.{RentBill, PrepaymentTransaction, update_where, find_bill, latest}
use srms.Checkout.Deposits.{DepositTransactionType}
use srms.Checkout.RefundWriter.Tables.{DepositRefund}
use srms.Checkout.Reversal.Tables.{
  DepositRow, SupplementalBill, CheckoutTables, UndoError, UndoInput, restored_bill_status,
  add_deposit, add_prepayment,
}
use srms.Checkout.Reversal.Tables.UndoError.{refund_changed, arrears_short, supplement_received}

-- The balance after the latest transaction of the contract.
abbrev pub deposit_balance : ℕ → CheckoutTables → ℤ
deposit_balance contract_id s =
    elim (latest (λ (d : DepositRow). d.id)
      (filter (λ (d : DepositRow). d.transaction.contract_id == contract_id) s.deposits)) [
        | none ↦ pos 0
        | some d ↦ d.transaction.balance_after
      ]

abbrev pub prepaid_balance : ℕ → CheckoutTables → ℤ
prepaid_balance contract_id s =
    elim (latest (λ (p : PrepaymentTransaction). p.id)
      (filter (λ (p : PrepaymentTransaction). p.contract_id == contract_id) s.prepayments)) [
        | none ↦ pos 0
        | some p ↦ p.balance_after
      ]

pub record Refunding : Type 0 where
  pub tables : CheckoutTables
  pub deposit_balance : ℤ
  pub prepayment_balance : ℤ
  pub restored_deposit : ℤ
  pub restored_prepayment : ℤ

abbrev pub return_deposit : UndoInput → DepositRefund → Refunding → Refunding
return_deposit input refund t =
    let amount = refund.deposit_refund_amount in
    let balance = t.deposit_balance +ℤ amount in
    if ltb_ℤ (pos 0) amount
    then record t {
      tables = add_deposit input amount balance none (some refund.id) t.tables;
      deposit_balance = balance;
      restored_deposit = t.restored_deposit +ℤ amount;
    }
    else t

abbrev pub return_prepayment : UndoInput → DepositRefund → Refunding → Refunding
return_prepayment input refund t =
    let amount = refund.prepayment_refund_amount in
    let balance = t.prepayment_balance +ℤ amount in
    if ltb_ℤ (pos 0) amount
    then record t {
      tables = add_prepayment input amount balance t.tables;
      prepayment_balance = balance;
      restored_prepayment = t.restored_prepayment +ℤ amount;
    }
    else t

-- `where` of the refund that is cancelled.
abbrev pub is_cancellable : ℕ → DepositRefund → Bool
is_cancellable id r = (r.id == id) && is_approved r.approval_status

abbrev pub with_refunds : List DepositRefund → CheckoutTables → CheckoutTables
with_refunds refunds s = record s { rent = record s.rent { deposit_refunds = refunds } }

unfoldable pub reverse_refund : UndoInput → DepositRefund → Refunding → Result UndoError Refunding
reverse_refund input refund t =
    let done = return_prepayment input refund (return_deposit input refund t) in
    let rows = done.tables.rent.deposit_refunds in
    throw_if (not (length (filter (is_cancellable refund.id) rows) == 1)) refund_changed
    >> ok (record done {
      tables =
          with_refunds
            (update_where (is_cancellable refund.id)
              (λ (r : DepositRefund). record r { approval_status = ApprovalStatus.cancelled }) rows)
            done.tables;
    })

unfoldable pub reverse_refunds :
    UndoInput → List DepositRefund → Refunding → Result UndoError Refunding
reverse_refunds input [] t = ok t
reverse_refunds input (r ∷ rs) t = reverse_refund input r t >>= λ t'. reverse_refunds input rs t'

-- `orderBy: { id: 'desc' }` of rows that are in the order of their ids.
abbrev pub descending {ℓ} : {A : Type ℓ} → List A → List A
descending [] = []
descending (x ∷ xs) = descending xs ++ x ∷ []

abbrev pub is_offset_type : DepositTransactionType → Bool
is_offset_type DepositTransactionType.offset_arrears = true
is_offset_type DepositTransactionType.offset_settlement = true
is_offset_type _ = false

abbrev pub is_arrears_type : DepositTransactionType → Bool
is_arrears_type DepositTransactionType.offset_arrears = true
is_arrears_type _ = false

abbrev pub is_for : ℕ → Option ℕ → Bool
is_for id none = false
is_for id (some k) = k == id

abbrev pub is_offset : ℕ → DepositRow → Bool
is_offset settlement_id d =
    is_for settlement_id d.settlement_id && is_offset_type d.transaction.transaction_type

pub record Offsetting : Type 0 where
  pub tables : CheckoutTables
  pub balance : ℤ
  pub restored : ℤ

abbrev pub with_bills : List RentBill → CheckoutTables → CheckoutTables
with_bills bills s = record s { rent = record s.rent { bills = bills } }

-- `data` of the update of a bill that `bill` has been read from.
abbrev pub unpaid_bill : UndoInput → ℤ → RentBill → RentBill → RentBill
unpaid_bill input amount bill b =
    let received = bill.received_amount -ℤ amount in
    let outstanding = bill.payable_amount -ℤ received in
    record b {
      received_amount = received;
      outstanding_amount = outstanding;
      status = restored_bill_status received outstanding bill.due_date input.occurred_at;
    }

-- The bill of an offset of arrears, as it was read with the offset.
abbrev pub offset_bill : List RentBill → DepositRow → Option RentBill
offset_bill read d =
    if is_arrears_type d.transaction.transaction_type
    then elim d.rent_bill_id [ none ↦ none | some id ↦ find_bill id read ]
    else none

unfoldable pub unpay_bill :
    UndoInput → ℤ → Option RentBill → CheckoutTables → Result UndoError CheckoutTables
unpay_bill input amount none s = ok s
unpay_bill input amount (some bill) s =
    throw_if (ltb_ℤ (bill.received_amount -ℤ amount) (pos 0)) arrears_short
    >> ok (
        with_bills
          (update_where (λ (b : RentBill). b.id == bill.id) (unpaid_bill input amount bill)
            s.rent.bills)
          s)

unfoldable pub reverse_offset :
    UndoInput → List RentBill → DepositRow → Offsetting → Result UndoError Offsetting
reverse_offset input read d t =
    let amount = d.transaction.amount in
    let balance = t.balance +ℤ amount in
    unpay_bill input amount (offset_bill read d) t.tables >>= λ s. ok (record {
      tables = add_deposit input amount balance d.rent_bill_id none s;
      balance = balance;
      restored = t.restored +ℤ amount;
    })

unfoldable pub reverse_offsets :
    UndoInput → List RentBill → List DepositRow → Offsetting → Result UndoError Offsetting
reverse_offsets input read [] t = ok t
reverse_offsets input read (d ∷ ds) t =
    reverse_offset input read d t >>= λ t'. reverse_offsets input read ds t'

abbrev pub offsets_of : UndoInput → CheckoutTables → List DepositRow
offsets_of input s = descending (filter (is_offset input.settlement_id) s.deposits)

-- The bill of the supplement is voided, unless something was received for it.
abbrev pub supplement_of : ℕ → CheckoutTables → Option RentBill
supplement_of settlement_id s =
    elim (find (λ (x : SupplementalBill). x.settlement_id == settlement_id) s.supplements) [
      | none ↦ none
      | some x ↦ find_bill x.bill_id s.rent.bills
    ]

unfoldable pub void_supplement : ℕ → CheckoutTables → Result UndoError CheckoutTables
void_supplement settlement_id s = elim (supplement_of settlement_id s) [
  | none ↦ ok s
  | some bill ↦
      throw_if (ltb_ℤ (pos 0) bill.received_amount) supplement_received
      >> ok (
          with_bills
            (update_where (λ (b : RentBill). b.id == bill.id)
              (λ (b : RentBill). record b {
                outstanding_amount = pos 0;
                status = RentBillStatus.voided;
              })
              s.rent.bills)
            s)
]
