-- ===== src/Payments/Adjustments/Approval.antt =====
-- The rows before and after `AdjustmentsService.approve`.
use srms.Prelude.{
  ℕ, ◌==◌, ◌≡◌, ◌≢◌, refl, ap, ◌∙◌, true, false, some, Option-cases, inl, inr, arith,
}
use srms.Prelude.Fallible.{ok}
use srms.Prelude.Int.{ℤ, pos, ◌+ℤ◌, ◌-ℤ◌, max_ℤ, int_laws}
use srms.Payments.Adjustment.{
  AdjustmentDirection, decrease, increase, AdjustedBill, signed_amount, calculate_adjusted_bill,
}
use srms.Payments.RefundStatus.{ApprovalStatus}
use srms.Payments.Adjustment.Laws.{StatusFits, calculate_adjusted_bill-IsConsistent}
use srms.Payments.Store.{
  RentBill, Contract, BillAdjustment, Database, AuthUser, update_where, find_bill, find_contract,
  find_adjustment, is_pending, is_rent_bill, is_protected_bill, refresh_snapshot, amounts_of,
}
use srms.Payments.Store.Rows.{map_option, find-update_self, find-update_ne}
use srms.Payments.Adjustments.{with_amounts, approved_with, refresh, approve}

-- The new amounts of a bill under an adjustment.
abbrev pub adjusted : RentBill → BillAdjustment → AdjustedBill
adjusted b a = calculate_adjusted_bill (amounts_of b) a.direction a.amount

abbrev pub booked : ℕ → AuthUser → Database → BillAdjustment → RentBill → Database
booked id user db a b = record db {
  bills = update_where (λ x. x.id == a.rent_bill_id) (with_amounts (adjusted b a)) db.bills;
  adjustments =
      update_where (λ x. x.id == id)
        (approved_with user b.payable_amount (adjusted b a).payable_amount) db.adjustments;
}

-- The rows that an approval has read, and the database that it has left.
record Approval (id : ℕ) (user : AuthUser) (db db' : Database) : Type 0 where
  pub adjustment : BillAdjustment
  pub bill : RentBill
  contract : Contract
  pub adjustment_found : find_adjustment id db.adjustments ≡ some adjustment
  pub bill_found : find_bill adjustment.rent_bill_id db.bills ≡ some bill
  contract_found : find_contract bill.contract_id db.contracts ≡ some contract
  was_rent : is_rent_bill bill.category ≡ true
  was_unprotected : is_protected_bill db adjustment.rent_bill_id ≡ false
  pub was_pending : is_pending adjustment.approval_status ≡ true
  result : db' ≡ refresh_snapshot (booked id user db adjustment bill) bill.contract_id

refresh-eq : (db db' : Database) (c : ℕ) → refresh db c ≡ ok db' → db' ≡ refresh_snapshot db c
unfolding refresh
refresh-eq db db' c h = ground arith

approve-Approval :
    (id : ℕ) (user : AuthUser) (db db' : Database)
    → approve id user db ≡ ok db'
    → Approval id user db db'
unfolding approve
approve-Approval id user db db' h = elim (Option-cases (find_adjustment id db.adjustments)) [
  | inl no_row ↦ absurd (ground arith)
  | inr (a, fa) ↦ elim (Option-cases (find_bill a.rent_bill_id db.bills)) [
    | inl no_bill ↦ absurd (ground arith)
    | inr (b, fb) ↦ elim (Option-cases (find_contract b.contract_id db.contracts)) [
      | inl no_contract ↦ absurd (ground arith)
      | inr (c, fc) ↦ record {
        adjustment = a;
        bill = b;
        contract = c;
        adjustment_found = fa;
        bill_found = fb;
        contract_found = fc;
        was_rent = ground arith;
        was_unprotected = ground arith;
        was_pending = ground arith;
        result = ground (arith, refresh-eq (booked id user db a b) db' b.contract_id);
      }
    ]
  ]
]

-- `refresh_snapshot` writes the contracts alone.
refresh_snapshot-bills : (db : Database) (c : ℕ) → (refresh_snapshot db c).bills ≡ db.bills
unfolding refresh_snapshot
refresh_snapshot-bills db c = refl

refresh_snapshot-adjustments :
    (db : Database) (c : ℕ) → (refresh_snapshot db c).adjustments ≡ db.adjustments
unfolding refresh_snapshot
refresh_snapshot-adjustments db c = refl

-- What an adjustment adds to the adjustments of its bill.
abbrev pub change : AdjustmentDirection → ℤ → ℤ
change decrease amount = pos 0 -ℤ amount
change increase amount = amount

-- A bill before and after an adjustment is booked on it: its four columns that follow from it, and
-- all others as they were.
pub record IsRestated (a : BillAdjustment) (before after : RentBill) : Type 0 where
  pub adjustment_is :
      after.adjustment_amount ≡ before.adjustment_amount +ℤ change a.direction a.amount
  pub payable_is :
      after.payable_amount
      ≡ max_ℤ (pos 0) (
          before.base_rent_amount -ℤ before.rent_free_amount -ℤ before.discount_amount
          +ℤ after.adjustment_amount)
  pub outstanding_is :
      after.outstanding_amount ≡ max_ℤ (pos 0) (after.payable_amount -ℤ before.received_amount)
  pub status_fits : StatusFits after.status after.outstanding_amount before.received_amount
  pub rest_kept :
      record after {
        adjustment_amount = before.adjustment_amount;
        payable_amount = before.payable_amount;
        outstanding_amount = before.outstanding_amount;
        status = before.status;
      }
      ≡ before

change_lem : (x : ℤ) (d : AdjustmentDirection) (a : ℤ) → x +ℤ signed_amount d a ≡ x +ℤ change d a
change_lem x decrease a = omega int_laws
change_lem x increase a = refl

restate-IsRestated :
    (a : BillAdjustment) (b : RentBill) → IsRestated a b (with_amounts (adjusted b a) b)
unfolding calculate_adjusted_bill
restate-IsRestated a b = record {
  adjustment_is = change_lem b.adjustment_amount a.direction a.amount;
  payable_is = refl;
  outstanding_is = refl;
  status_fits =
      (calculate_adjusted_bill-IsConsistent (amounts_of b) a.direction a.amount).status_fits;
  rest_kept = refl;
}

-- What the approval of an adjustment leaves of the tables.
pub record IsBooked (id : ℕ) (user : AuthUser) (db db' : Database) : Type 0 where
  pub adjustment : BillAdjustment
  pub bill : RentBill
  pub restated : RentBill
  pub adjustment_found : find_adjustment id db.adjustments ≡ some adjustment
  pub bill_found : find_bill adjustment.rent_bill_id db.bills ≡ some bill
  pub was_pending : is_pending adjustment.approval_status ≡ true
  pub bill_restated : find_bill adjustment.rent_bill_id db'.bills ≡ some restated
  pub is_restated : IsRestated adjustment bill restated
  pub others_kept :
      (j : ℕ)
      → (j == adjustment.rent_bill_id) ≡ false
      → find_bill j db'.bills ≡ find_bill j db.bills
  pub adjustment_marked :
      find_adjustment id db'.adjustments
      ≡ some (record adjustment {
        approval_status = ApprovalStatus.approved;
        approved_by = some user.id;
        before_amount = bill.payable_amount;
        after_amount = restated.payable_amount;
      })
  pub adjustments_kept :
      (j : ℕ)
      → (j == id) ≡ false
      → find_adjustment j db'.adjustments ≡ find_adjustment j db.adjustments

-- A successful approval found its adjustment pending. Its bill then has the adjustment's amount
-- added to its adjustments, or taken off for a decrease; what is payable is the rent less what is
-- free and discounted with the adjustments, what is outstanding is the payable less the received,
-- neither below 0, and the status fits; all other columns and all other bills are as before. The
-- adjustment is approved by the user with the payable amounts before and after, all other
-- adjustments as before.
pub approve-IsBooked :
    (id : ℕ) (user : AuthUser) (db db' : Database)
    → approve id user db ≡ ok db'
    → IsBooked id user db db'
approve-IsBooked id user db db' h =
    let r = approve-Approval id user db db' h in
    let a = r.adjustment in
    let b = r.bill in
    let after = booked id user db a b in
    let bills_are = ap (λ d. d.bills) r.result ∙ refresh_snapshot-bills after b.contract_id in
    let adjustments_are =
      ap (λ d. d.adjustments) r.result ∙ refresh_snapshot-adjustments after b.contract_id in
    let restate : RentBill → RentBill = with_amounts (adjusted b a) in
    let mark : BillAdjustment → BillAdjustment =
      approved_with user b.payable_amount (adjusted b a).payable_amount in
    record {
      adjustment = a;
      bill = b;
      restated = restate b;
      adjustment_found = r.adjustment_found;
      bill_found = r.bill_found;
      was_pending = r.was_pending;
      bill_restated =
          ap (find_bill a.rent_bill_id) bills_are
          ∙ find-update_self (λ x. x.id) restate (λ x. refl) a.rent_bill_id db.bills
          ∙ ap (map_option restate) r.bill_found;
      is_restated = restate-IsRestated a b;
      others_kept = λ j other.
          ap (find_bill j) bills_are
          ∙ find-update_ne (λ x. x.id) restate (λ x. refl) a.rent_bill_id j db.bills other;
      adjustment_marked =
          ap (find_adjustment id) adjustments_are
          ∙ find-update_self (λ x. x.id) mark (λ x. refl) id db.adjustments
          ∙ ap (map_option mark) r.adjustment_found;
      adjustments_kept = λ j other.
          ap (find_adjustment j) adjustments_are
          ∙ find-update_ne (λ x. x.id) mark (λ x. refl) id j db.adjustments other;
    }

-- An adjustment that is not pending is not approved.
not_pending-approve :
    (id : ℕ) (user : AuthUser) (db db' : Database) (a : BillAdjustment)
    → find_adjustment id db.adjustments ≡ some a
    → is_pending a.approval_status ≡ false
    → approve id user db ≢ ok db'
not_pending-approve id user db db' a found settled h =
    let r = approve-Approval id user db db' h in absurd (cc)

-- After a successful approval no second one of the same adjustment succeeds, whoever asks for it.
approve_once :
    (id : ℕ) (user user' : AuthUser) (db db' db'' : Database)
    → approve id user db ≡ ok db'
    → approve id user' db' ≢ ok db''
approve_once id user user' db db' db'' h =
    not_pending-approve id user' db' db'' _ (approve-IsBooked id user db db' h).adjustment_marked
      refl
