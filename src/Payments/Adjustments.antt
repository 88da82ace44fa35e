-- ===== src/Payments/Adjustments.antt =====
-- Adjustments of bills and their approval: backend/src/payments/adjustments.service.ts.
pub mod Approval
mod Examples
use srms.Prelude.{
  ℕ, suc, ◌+◌, ◌==◌, Bool, true, false, not, ◌||◌, if◌then◌else◌, Option, none, some, List, [], ◌∷◌,
  ◌++◌, filter,
}
use srms.Prelude.Int.{ℤ, pos, eqb_ℤ}
use srms.Prelude.Decimals.{Decimals}
use srms.Prelude.Fallible.{Result, ok, err, ◌>>=◌, ◌>>◌, throw_if}
use srms.Payments.Adjustment.{
  AdjustmentDirection, AdjustedBill, calculate_adjusted_bill, calculate_adjusted_bill_of,
}
use srms.Payments.RefundStatus.{ApprovalStatus}
use srms.Payments.Store.{
  AdjustmentType, RentBill, Reason, BillAdjustment, Database, AuthUser, PaymentError, update_where,
  or_not_found, find_bill, find_contract, find_adjustment, is_pending, is_void_bill, is_rent_bill,
  assert_contract_not_voided, assert_bill_not_protected, sort_bills, snapshot_loop,
  refresh_snapshot, amounts_of,
}
use srms.Payments.Store.Tables.PaymentError.{
  amount_not_positive, supplemental_bill, bill_voided, not_pending,
}

-- The amount is any decimal.
pub record SubmitAdjustment (D : Type 0) : Type 0 where
  pub rent_bill_id : ℕ
  pub adjustment_type : AdjustmentType
  pub direction : AdjustmentDirection
  pub amount : D
  pub reason : List ℕ
  pub source_payment_id : Option ℕ

unfoldable pub submit :
    {D : Type 0}
    → Decimals D
    → SubmitAdjustment D
    → AuthUser
    → Database
    → Result PaymentError Database
submit lib dto user db = do
  throw_if (not (lib.is_finite dto.amount) || lib.lte_zero dto.amount) amount_not_positive
  bill ← or_not_found (find_bill dto.rent_bill_id db.bills)
  contract ← or_not_found (find_contract bill.contract_id db.contracts)
  throw_if (not (is_rent_bill bill.category)) supplemental_bill
  assert_bill_not_protected db bill.id
  throw_if (is_void_bill bill.status) bill_voided
  assert_contract_not_voided contract.status
  let preview = calculate_adjusted_bill_of lib (amounts_of bill) dto.direction dto.amount
  ok (record db {
    adjustments =
        db.adjustments
        ++ record {
          id = db.next_adjustment_id;
          rent_bill_id = dto.rent_bill_id;
          adjustment_type = dto.adjustment_type;
          direction = dto.direction;
          amount = lib.stored dto.amount;
          before_amount = bill.payable_amount;
          after_amount = preview.payable_amount;
          reason = Reason.given dto.reason;
          source_payment_id = dto.source_payment_id;
          approval_status = ApprovalStatus.pending;
          submitted_by = user.id;
          approved_by = none;
          rejected_reason = none;
          checkout_item_id = none;
          reversed_by = none;
        }
          ∷ [];
    next_adjustment_id = suc db.next_adjustment_id;
  })

-- `data: next` of the bill's update.
abbrev pub with_amounts : AdjustedBill → RentBill → RentBill
with_amounts next b = record b {
  adjustment_amount = next.adjustment_amount;
  payable_amount = next.payable_amount;
  outstanding_amount = next.outstanding_amount;
  status = next.status;
}

abbrev pub approved_with : AuthUser → ℤ → ℤ → BillAdjustment → BillAdjustment
approved_with user before after a = record a {
  approval_status = ApprovalStatus.approved;
  approved_by = some user.id;
  before_amount = before;
  after_amount = after;
}

-- This service's copy of the snapshot loop throws at a supplemental bill; its query has none.
abbrev pub assert_rent_bills : List RentBill → Result PaymentError (Unit {0})
assert_rent_bills [] = ok tt
assert_rent_bills (b ∷ bs) =
    let later = assert_rent_bills bs in
    if not (is_rent_bill b.category)
    then err supplemental_bill
    else if is_void_bill b.status
    then later
    else if eqb_ℤ b.outstanding_amount (pos 0)
    then later
    else ok tt

unfoldable pub refresh : Database → ℕ → Result PaymentError Database
refresh db contract_id =
    assert_rent_bills (
      sort_bills (
        filter (λ b. if b.contract_id == contract_id then is_rent_bill b.category else false)
          db.bills))
    >> ok (refresh_snapshot db contract_id)

unfoldable pub approve : ℕ → AuthUser → Database → Result PaymentError Database
approve id user db = do
  adjustment ← or_not_found (find_adjustment id db.adjustments)
  bill ← or_not_found (find_bill adjustment.rent_bill_id db.bills)
  contract ← or_not_found (find_contract bill.contract_id db.contracts)
  throw_if (not (is_rent_bill bill.category)) supplemental_bill
  assert_bill_not_protected db adjustment.rent_bill_id
  throw_if (not (is_pending adjustment.approval_status)) not_pending
  throw_if (is_void_bill bill.status) bill_voided
  assert_contract_not_voided contract.status
  let next = calculate_adjusted_bill (amounts_of bill) adjustment.direction adjustment.amount
  refresh
      (record db {
        bills = update_where (λ b. b.id == adjustment.rent_bill_id) (with_amounts next) db.bills;
        adjustments =
            update_where (λ a. a.id == id)
              (approved_with user bill.payable_amount next.payable_amount) db.adjustments;
      })
      bill.contract_id

unfoldable pub reject : ℕ → List ℕ → AuthUser → Database → Result PaymentError Database
reject id reason user db = do
  adjustment ← or_not_found (find_adjustment id db.adjustments)
  bill ← or_not_found (find_bill adjustment.rent_bill_id db.bills)
  contract ← or_not_found (find_contract bill.contract_id db.contracts)
  throw_if (not (is_pending adjustment.approval_status)) not_pending
  assert_contract_not_voided contract.status
  ok (record db {
    adjustments =
        update_where (λ a. a.id == id)
          (λ a. record a {
            approval_status = ApprovalStatus.rejected;
            rejected_reason = some reason;
            approved_by = some user.id;
          })
          db.adjustments;
  })
