-- ===== src/Payments/Voids/Steps.antt =====
-- The loop over the allocations of a voided payment, and its prepayment:
-- backend/src/payments/void-requests.service.ts.
use srms.Prelude.{ℕ, suc, ◌==◌, Bool, false, if◌then◌else◌, none, some, List, [], ◌∷◌, ◌++◌, filter}
use srms.Prelude.Int.{ℤ, pos, ◌+ℤ◌, ◌-ℤ◌, leb_ℤ, ltb_ℤ}
use srms.Prelude.Fallible.{Result, ok, err, ◌>>=◌}
use srms.Payments.Adjustment.{RentBillStatus}
use srms.Payments.Store.{
  PrepaymentType, RentBill, PaymentAllocation, PrepaymentTransaction, Database, PaymentError,
  update_where, find_bill, latest,
}
use srms.Payments.Store.Tables.PaymentError.{prepayment_short, missing_bill_state}

-- What the loop over the allocations changes.
pub record Reversing : Type 0 where
  pub bills : List RentBill
  pub allocations : List PaymentAllocation
  pub reversed_total : ℤ

abbrev pub unpaid : RentBill → ℤ → RentBill → RentBill
unpaid state amount b =
    let received = state.received_amount -ℤ amount in
    record b {
      adjustment_amount = state.adjustment_amount;
      payable_amount = state.payable_amount;
      received_amount = received;
      outstanding_amount = state.payable_amount -ℤ received;
      status = if ltb_ℤ (pos 0) received then RentBillStatus.partial else RentBillStatus.pending;
    }

unfoldable pub reverse_allocation :
    List RentBill → PaymentAllocation → Reversing → Result PaymentError Reversing
reverse_allocation states a s =
    let amount = a.allocated_amount -ℤ a.reversed_amount in
    if leb_ℤ amount (pos 0) then ok s else elim (find_bill a.rent_bill_id states) [
      | none ↦ err missing_bill_state
      | some state ↦ ok (record {
        bills = update_where (λ b. b.id == state.id) (unpaid state amount) s.bills;
        allocations =
            update_where (λ x. x.id == a.id)
              (λ x. record x { reversed_amount = a.reversed_amount +ℤ amount }) s.allocations;
        reversed_total = s.reversed_total +ℤ amount;
      })
    ]

unfoldable pub reverse_allocations :
    List RentBill → List PaymentAllocation → Reversing → Result PaymentError Reversing
reverse_allocations states [] s = ok s
reverse_allocations states (a ∷ xs) s =
    reverse_allocation states a s >>= λ s'. reverse_allocations states xs s'

abbrev pub signed_prepayment : PrepaymentTransaction → ℤ
signed_prepayment t = elim t.transaction_type [
  | PrepaymentType.credit_receipt ↦ t.amount
  | PrepaymentType.reversal ↦ pos 0 -ℤ t.amount
  | _ ↦ pos 0
]

abbrev pub is_of_payment : ℕ → PrepaymentTransaction → Bool
is_of_payment payment_id t = elim t.payment_id [ none ↦ false | some p ↦ p == payment_id ]

-- What of the payment still stands as prepayment, and the contract's balance.
unfoldable pub active_prepayment : ℕ → List PrepaymentTransaction → ℤ
active_prepayment payment_id [] = pos 0
active_prepayment payment_id (t ∷ ts) =
    (if is_of_payment payment_id t then signed_prepayment t else pos 0)
    +ℤ active_prepayment payment_id ts

unfoldable pub prepayment_balance : ℕ → List PrepaymentTransaction → ℤ
prepayment_balance contract_id ts =
    elim (latest (λ t. t.id) (filter (λ t. t.contract_id == contract_id) ts)) [
      | none ↦ pos 0
      | some t ↦ t.balance_after
    ]

unfoldable pub reverse_prepayment : ℕ → ℕ → Database → Result PaymentError Database
reverse_prepayment contract_id payment_id db =
    let active = active_prepayment payment_id db.prepayments in
    let balance = prepayment_balance contract_id db.prepayments in
    if leb_ℤ active (pos 0)
    then ok db
    else if ltb_ℤ balance active
    then err prepayment_short
    else ok (record db {
      prepayments =
          db.prepayments
          ++ record {
            id = db.next_prepayment_id;
            contract_id = contract_id;
            transaction_type = PrepaymentType.reversal;
            amount = active;
            balance_after = balance -ℤ active;
            payment_id = some payment_id;
          }
            ∷ [];
      next_prepayment_id = suc db.next_prepayment_id;
    })
