-- ===== src/Checkout/Reversal/Rows.antt =====
-- A rent refund that is booked and then taken back: `applyCheckoutRentRefund` of
-- backend/src/checkout/checkout-rent-refund-writer.ts, and what
-- backend/src/checkout/checkout-completed-reversal.ts does to its rows.
use srms.Prelude.{
  ℕ, suc, ◌==◌, ◌≡◌, refl, sym, ap, ◌∙◌, true, false, List, [], ◌∷◌, map, any, contains,
  has_duplicates, is_some, Option-cases, inl, inr, arith, All,
}
use srms.Prelude.Int.{ℤ, pos, ◌+ℤ◌, ◌-ℤ◌, sum_ℤ, int_laws, eqb_ℤ_iff}
use srms.Prelude.Fallible.{ok, >>=-ok_elim}
use srms.Payments.Adjustment.{RentBillStatus}
use srms.Payments.Store.{RentBill, find_bill}
use srms.Payments.Store.Sweep.{HasKeys}
use srms.Payments.Store.Rows.{find-id}
use srms.Checkout.RefundWriter.Tables.{WriterTables, WriterError, or_throw}
use srms.Checkout.RefundWriter.Checks.{ApplyInput, Total, amount_at, covers, is_paid}
use srms.Checkout.RefundWriter.Writes.{write_bills}
use srms.Checkout.RefundWriter.Written.{bill_id}
use srms.Checkout.RefundWriter.Applied.{given_back}
use srms.Checkout.Reversal.Tables.{UndoInput, restored_bill_status}
use srms.Checkout.Reversal.RentRefunds.{repaid_bill}
use srms.Checkout.Reversal.Repaid.{booked, booked_sum, booked-one}

cancel_out : (x a : ℤ) → x -ℤ a +ℤ a ≡ x
cancel_out x a = omega int_laws

pub gain_back : (x a : ℤ) → x +ℤ a -ℤ a ≡ x
gain_back x a = omega int_laws

same_bill :
    (b : RentBill) (adjustment payable received outstanding : ℤ) (status : RentBillStatus)
    → adjustment ≡ b.adjustment_amount
    → payable ≡ b.payable_amount
    → received ≡ b.received_amount
    → outstanding ≡ b.outstanding_amount
    → status ≡ b.status
    → ◌≡◌ {A = RentBill}
        (record b {
          adjustment_amount = adjustment;
          payable_amount = payable;
          received_amount = received;
          outstanding_amount = outstanding;
          status = status;
        })
        b
same_bill b adjustment payable received outstanding status e1 e2 e3 e4 e5 =
    rw (e1, e2, e3, e4, e5) refl

paid-status : (st : RentBillStatus) → is_paid st ≡ true → RentBillStatus.paid ≡ st
paid-status st h = ground arith

-- A paid bill that has been given something back, with this put back.
pub repaid-given_back :
    (undo : UndoInput) (amount : ℤ) (b : RentBill)
    → covers b amount ≡ true
    → repaid_bill undo amount (given_back amount b) (given_back amount b) ≡ b
repaid-given_back undo amount b covered =
    let even : b.payable_amount ≡ b.received_amount =
      (eqb_ℤ_iff b.payable_amount b.received_amount).0 (ground arith) in
    let settled : b.outstanding_amount ≡ pos 0 =
      (eqb_ℤ_iff b.outstanding_amount (pos 0)).0 (ground arith) in
    let paid : is_paid b.status ≡ true = ground arith in
    let payable = cancel_out b.payable_amount amount in
    let received = cancel_out b.received_amount amount in
    let nothing : b.payable_amount -ℤ amount +ℤ amount -ℤ (b.received_amount -ℤ amount +ℤ amount)
        ≡ pos 0 =
      rw even (omega int_laws) in
    same_bill b (b.adjustment_amount -ℤ amount +ℤ amount) (b.payable_amount -ℤ amount +ℤ amount)
      (b.received_amount -ℤ amount +ℤ amount)
      (b.payable_amount -ℤ amount +ℤ amount -ℤ (b.received_amount -ℤ amount +ℤ amount))
      (restored_bill_status (b.received_amount -ℤ amount +ℤ amount)
        (b.payable_amount -ℤ amount +ℤ amount -ℤ (b.received_amount -ℤ amount +ℤ amount)) b.due_date
        undo.occurred_at)
      (cancel_out b.adjustment_amount amount) payable received (nothing ∙ sym settled)
      (rw nothing (paid-status b.status paid))

-- What is booked, over bills that are found.
pub written-found :
    (input : ApplyInput) (item_id : ℕ) (totals : List Total) (read : List RentBill) (ids : List ℕ)
    (s s' : WriterTables)
    → write_bills input item_id totals read ids s ≡ ok s'
    → All (λ id. is_some (find_bill id read) ≡ true) ids
unfolding write_bills
written-found input item_id totals read [] s s' h = tt
written-found input item_id totals read (id ∷ ids) s s' h =
    >>=-ok_elim (or_throw WriterError.missing_row (find_bill id read)) _ h
      (λ b there next. (ground arith, written-found input item_id totals read ids _ s' next))

pub booked_sum-found :
    (input : ApplyInput) (item_id : ℕ) (totals : List Total) (read : List RentBill) (next : ℕ)
    (ids : List ℕ)
    → All (λ id. is_some (find_bill id read) ≡ true) ids
    → booked_sum (booked input item_id totals read next ids)
      ≡ sum_ℤ (map (λ id. amount_at id totals) ids)
unfolding sum_ℤ
booked_sum-found input item_id totals read next [] h = refl
booked_sum-found input item_id totals read next (id ∷ ids) h =
    elim (Option-cases (find_bill id read)) [
      | inl missing ↦ absurd (ground arith)
      | inr (b, found) ↦
          let key : b.id ≡ id = find-id bill_id id read b found in
          ap booked_sum (booked-one input item_id totals next id ids read b found)
          ∙ rw (key, booked_sum-found input item_id totals read (suc next) ids h.1) refl
    ]

pub keys-distinct : (ids : List ℕ) → has_duplicates ids ≡ false → HasKeys (λ (k : ℕ). k) ids
keys-distinct [] h = tt
keys-distinct (id ∷ ids) h = (apart id ids (ground arith), keys-distinct ids (ground arith))
  where
    apart : (k : ℕ) (xs : List ℕ) → contains k xs ≡ false → All (λ x. (x == k) ≡ false) xs
    apart k [] e = tt
    apart k (x ∷ xs) e = (ground arith, apart k xs (ground arith))

pub any-contains : (k : ℕ) (ids : List ℕ) → contains k ids ≡ true → any (λ x. x == k) ids ≡ true
any-contains k [] h = h
any-contains k (x ∷ ids) h = ground (arith, any-contains k ids)
