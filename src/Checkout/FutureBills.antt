-- ===== src/Checkout/FutureBills.antt =====
-- What a checkout does to the rent bills from its date on, and how that is taken back:
-- backend/src/checkout/checkout-future-bill-normalization.ts.
pub mod Cancelled
pub mod Closed
pub mod Links
pub mod Claims
pub mod Booked
pub mod Restored
mod Examples
use srms.Prelude.{
  ℕ, suc, ◌==◌, ltb, leb, Bool, true, false, not, ◌&&◌, ◌||◌, if◌then◌else◌, Option, none, some,
  List, [], ◌∷◌, ◌++◌, filter, is_some, length,
}
use srms.Prelude.Int.{ℤ, pos, ◌+ℤ◌, ◌-ℤ◌, leb_ℤ, ltb_ℤ, eqb_ℤ}
use srms.Prelude.Fallible.{Result, ok, err, ◌>>=◌, ◌>>◌, throw_if}
use srms.Prelude.Decimal.{decimal}
use srms.Prelude.TextOrder.{same_text}
use srms.Payments.Adjustment.{AdjustmentDirection, RentBillStatus}
use srms.Payments.RefundStatus.{ApprovalStatus, is_approved}
use srms.Payments.Store.{
  RentBill, Reason, AdjustmentType, BillAdjustment, Database, update_where, find_bill, is_rent_bill,
  is_void_bill,
}

pub record NormalizationInput : Type 0 where
  pub settlement_id : ℕ
  pub contract_id : ℕ
  pub actual_checkout_date : ℕ
  pub operator_id : ℕ
  pub occurred_at : ℕ

pub data FutureBillError : Type 0 where
  amounts_differ : ℕ → FutureBillError
  state_changed : FutureBillError

abbrev pub is_refunded : RentBillStatus → Bool
is_refunded RentBillStatus.refunded = true
is_refunded _ = false

-- The `where` of the bills from the checkout on.
abbrev pub is_future : NormalizationInput → RentBill → Bool
is_future input b =
    (b.contract_id == input.contract_id)
    && is_rent_bill b.category
    && leb input.actual_checkout_date b.period_start
    && not (is_refunded b.status)

-- The result of a function: the tables, the ids of the bills and the total.
pub record Normalized : Type 0 where
  pub db : Database
  pub bill_ids : List ℕ
  pub amount : ℤ

-- `data` of the update of a bill that `bill` has been read from.
abbrev pub cancel : RentBill → RentBill → RentBill
cancel bill b =
    let received = bill.received_amount in
    record b {
      adjustment_amount = bill.adjustment_amount -ℤ bill.outstanding_amount;
      payable_amount = bill.payable_amount -ℤ bill.outstanding_amount;
      outstanding_amount = pos 0;
      status = if eqb_ℤ received (pos 0) then RentBillStatus.voided else RentBillStatus.paid;
    }

abbrev pub cancellation : NormalizationInput → ℕ → RentBill → BillAdjustment
cancellation input id bill = record {
  id = id;
  rent_bill_id = bill.id;
  adjustment_type = AdjustmentType.correction;
  direction = AdjustmentDirection.decrease;
  amount = bill.outstanding_amount;
  before_amount = bill.payable_amount;
  after_amount = bill.payable_amount -ℤ bill.outstanding_amount;
  reason = Reason.future_rent_cancelled input.settlement_id;
  source_payment_id = none;
  approval_status = ApprovalStatus.approved;
  submitted_by = input.operator_id;
  approved_by = some input.operator_id;
  rejected_reason = none;
  checkout_item_id = none;
  reversed_by = none;
}

unfoldable pub normalize_bill :
    NormalizationInput → RentBill → Normalized → Result FutureBillError Normalized
normalize_bill input bill s =
    let after = bill.payable_amount -ℤ bill.outstanding_amount in
    if leb_ℤ bill.outstanding_amount (pos 0)
    then ok s
    else if ltb_ℤ after (pos 0) || not (eqb_ℤ after bill.received_amount)
    then err (amounts_differ bill.id)
    else ok (record {
      db = record s.db {
        bills = update_where (λ b. b.id == bill.id) (cancel bill) s.db.bills;
        adjustments = s.db.adjustments ++ cancellation input s.db.next_adjustment_id bill ∷ [];
        next_adjustment_id = suc s.db.next_adjustment_id;
      };
      bill_ids = s.bill_ids ++ bill.id ∷ [];
      amount = s.amount +ℤ bill.outstanding_amount;
    })

unfoldable pub normalize_bills :
    NormalizationInput → List RentBill → Normalized → Result FutureBillError Normalized
normalize_bills input [] s = ok s
normalize_bills input (bill ∷ bills) s =
    normalize_bill input bill s >>= λ s'. normalize_bills input bills s'

unfoldable pub normalize_future_checkout_bills :
    NormalizationInput → Database → Result FutureBillError Normalized
normalize_future_checkout_bills input db =
    normalize_bills input (filter (is_future input) db.bills)
      (record { db = db; bill_ids = []; amount = pos 0 })

-- `normalizationReason` as a text, which a user may have given too.
abbrev pub normalization_reason : ℕ → List ℕ
normalization_reason settlement =
    (36864 ∷ 31199 ∷ 32467 ∷ 31639 ∷ 32 ∷ [])
    ++ (decimal settlement
        ++ 32 ∷ 26680 ∷ 38144 ∷ 26410 ∷ 26469 ∷ 26410 ∷ 25910 ∷ 31199 ∷ 37329 ∷ [])

abbrev pub is_cancellation_reason : ℕ → Reason → Bool
is_cancellation_reason settlement (Reason.future_rent_cancelled id) = id == settlement
is_cancellation_reason settlement (Reason.given text) =
    same_text text (normalization_reason settlement)
is_cancellation_reason settlement _ = false

abbrev pub is_correction : AdjustmentType → Bool
is_correction AdjustmentType.correction = true
is_correction _ = false

abbrev pub is_decrease : AdjustmentDirection → Bool
is_decrease AdjustmentDirection.decrease = true
is_decrease AdjustmentDirection.increase = false

abbrev pub is_open_cancellation : NormalizationInput → BillAdjustment → Bool
is_open_cancellation input a =
    is_correction a.adjustment_type
    && is_decrease a.direction
    && is_cancellation_reason input.settlement_id a.reason
    && is_approved a.approval_status
    && not (is_some a.reversed_by)

-- The query of the reversal: each adjustment with its bill as read at the start.
pub record Linked : Type 0 where
  pub adjustment : BillAdjustment
  pub bill : RentBill

unfoldable pub open_cancellations :
    NormalizationInput → List RentBill → List BillAdjustment → List Linked
open_cancellations input bills [] = []
open_cancellations input bills (a ∷ xs) =
    let rest = open_cancellations input bills xs in
    if is_open_cancellation input a
    then elim (find_bill a.rent_bill_id bills) [
      | none ↦ rest
      | some b ↦
          if b.contract_id == input.contract_id
          then record { adjustment = a; bill = b } ∷ rest
          else rest
    ]
    else rest

abbrev pub restoration : NormalizationInput → ℕ → Linked → BillAdjustment
restoration input id l = record {
  id = id;
  rent_bill_id = l.bill.id;
  adjustment_type = AdjustmentType.correction;
  direction = AdjustmentDirection.increase;
  amount = l.adjustment.amount;
  before_amount = l.bill.payable_amount;
  after_amount = l.bill.payable_amount +ℤ l.adjustment.amount;
  reason = Reason.future_rent_restored input.settlement_id;
  source_payment_id = none;
  approval_status = ApprovalStatus.approved;
  submitted_by = input.operator_id;
  approved_by = some input.operator_id;
  rejected_reason = none;
  checkout_item_id = none;
  reversed_by = none;
}

-- The rows that `updateMany` with `reversedByAdjustmentId: null` claims.
abbrev pub is_unclaimed : ℕ → BillAdjustment → Bool
is_unclaimed id a = (a.id == id) && not (is_some a.reversed_by)

-- The day of a time in the contracts' time zone is the runtime's.
module _ (business_day : ℕ → ℕ) where
  abbrev pub restored_status : ℤ → ℤ → ℕ → ℕ → RentBillStatus
  restored_status received outstanding due occurred =
      if eqb_ℤ outstanding (pos 0)
      then RentBillStatus.paid
      else if ltb_ℤ (pos 0) received
      then RentBillStatus.partial
      else if ltb (business_day due) (business_day occurred)
      then RentBillStatus.overdue
      else RentBillStatus.pending

  abbrev pub restore : NormalizationInput → ℤ → RentBill → RentBill → RentBill
  restore input amount bill b =
      let after = bill.payable_amount +ℤ amount in
      let outstanding = after -ℤ bill.received_amount in
      record b {
        adjustment_amount = bill.adjustment_amount +ℤ amount;
        payable_amount = after;
        outstanding_amount = outstanding;
        status = restored_status bill.received_amount outstanding bill.due_date input.occurred_at;
      }

  unfoldable pub reverse_cancellation :
      NormalizationInput → Linked → Normalized → Result FutureBillError Normalized
  reverse_cancellation input l s =
      let id = s.db.next_adjustment_id in
      let booked = s.db.adjustments ++ restoration input id l ∷ [] in
      throw_if (not (length (filter (is_unclaimed l.adjustment.id) booked) == 1)) state_changed
      >> ok (record {
        db = record s.db {
          bills =
              update_where (λ b. b.id == l.bill.id) (restore input l.adjustment.amount l.bill)
                s.db.bills;
          adjustments =
              update_where (is_unclaimed l.adjustment.id) (λ a. record a { reversed_by = some id })
                booked;
          next_adjustment_id = suc id;
        };
        bill_ids = s.bill_ids ++ l.bill.id ∷ [];
        amount = s.amount +ℤ l.adjustment.amount;
      })

  unfoldable pub reverse_cancellations :
      NormalizationInput → List Linked → Normalized → Result FutureBillError Normalized
  reverse_cancellations input [] s = ok s
  reverse_cancellations input (l ∷ ls) s =
      reverse_cancellation input l s >>= λ s'. reverse_cancellations input ls s'

  unfoldable pub reverse_future_checkout_bill_normalization :
      NormalizationInput → Database → Result FutureBillError Normalized
  reverse_future_checkout_bill_normalization input db =
      reverse_cancellations input (open_cancellations input db.bills db.adjustments)
        (record { db = db; bill_ids = []; amount = pos 0 })

  -- Bills that an older release voided without an adjustment.
  abbrev pub is_legacy : NormalizationInput → RentBill → Bool
  is_legacy input b =
      (b.contract_id == input.contract_id)
      && is_rent_bill b.category
      && leb input.actual_checkout_date b.period_start
      && is_void_bill b.status
      && eqb_ℤ b.received_amount (pos 0)
      && eqb_ℤ b.outstanding_amount (pos 0)
      && ltb_ℤ (pos 0) b.payable_amount

  abbrev pub reopen : NormalizationInput → RentBill → RentBill → RentBill
  reopen input bill b = record b {
    outstanding_amount = bill.payable_amount;
    status = restored_status (pos 0) bill.payable_amount bill.due_date input.occurred_at;
  }

  unfoldable pub restore_bills : NormalizationInput → List RentBill → Normalized → Normalized
  restore_bills input [] s = s
  restore_bills input (bill ∷ bills) s = restore_bills input bills (record {
    db = record s.db { bills = update_where (λ b. b.id == bill.id) (reopen input bill) s.db.bills };
    bill_ids = s.bill_ids ++ bill.id ∷ [];
    amount = s.amount +ℤ bill.payable_amount;
  })

  unfoldable pub restore_legacy_future_checkout_bills : NormalizationInput → Database → Normalized
  restore_legacy_future_checkout_bills input db =
      restore_bills input (filter (is_legacy input) db.bills)
        (record { db = db; bill_ids = []; amount = pos 0 })
