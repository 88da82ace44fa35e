-- ===== src/Checkout/Accounting.antt =====
-- Checks that a settlement's items still agree with the bills:
-- backend/src/checkout/checkout-accounting-validation.ts, and the cutoff of
-- checkout-accounting-cutoff.ts. A date is its time stamp, of which only the order is used.
pub mod Complete
pub mod RefundPlan
pub mod PlanCurrent
mod Examples
use srms.Prelude.{
  ℕ, ◌==◌, ltb, Bool, true, false, not, ◌&&◌, ◌||◌, if◌then◌else◌, Option, none, some, List, [],
  ◌∷◌, filter, any, find, contains, length,
}
use srms.Prelude.Int.{ℤ, pos, ltb_ℤ, eqb_ℤ}
use srms.Prelude.Fallible.{Result, ok, err, ◌>>=◌, ◌>>◌, throw_if}
use srms.Payments.Adjustment.{RentBillStatus}

pub data SettlementStatus : Type 0 where
  draft pending approved rejected completed cancelled : SettlementStatus

-- `ACTIVE_CHECKOUT_CUTOFF_STATUSES`.
abbrev pub is_cutoff_status : SettlementStatus → Bool
is_cutoff_status SettlementStatus.completed = false
is_cutoff_status SettlementStatus.cancelled = false
is_cutoff_status _ = true

pub record CutoffSettlement : Type 0 where
  pub status : SettlementStatus
  pub actual_checkout_date : Option ℕ

-- The first row of an active settlement with a date.
abbrev pub resolve_checkout_cutoff : List CutoffSettlement → Option ℕ
resolve_checkout_cutoff [] = none
resolve_checkout_cutoff (row ∷ rows) = elim row.actual_checkout_date [
  | none ↦ resolve_checkout_cutoff rows
  | some date ↦ if is_cutoff_status row.status then some date else resolve_checkout_cutoff rows
]

abbrev pub is_rent_bill_performed : ℕ → Option ℕ → Bool
is_rent_bill_performed period_start none = true
is_rent_bill_performed period_start (some cutoff) = ltb period_start cutoff

abbrev pub is_closed : RentBillStatus → Bool
is_closed RentBillStatus.voided = true
is_closed RentBillStatus.refunded = true
is_closed _ = false

pub data EffectiveStatus : Type 0 where
  as_stored : RentBillStatus → EffectiveStatus
  pending_checkout_review : EffectiveStatus

abbrev pub effective_rent_bill_status : RentBillStatus → ℕ → Option ℕ → EffectiveStatus
effective_rent_bill_status status period_start cutoff =
    if is_closed status
    then as_stored status
    else if is_rent_bill_performed period_start cutoff
    then as_stored status
    else pending_checkout_review

-- `itemType`, of which only the value `RENT_ARREARS` is told apart here.
pub data ItemType : Type 0 where
  rent_arrears other_item : ItemType

abbrev pub is_arrears : ItemType → Bool
is_arrears rent_arrears = true
is_arrears other_item = false

pub record LinkedItem : Type 0 where
  pub item_type : ItemType
  pub rent_bill_id : Option ℕ
  pub amount : ℤ

pub data BillCategory : Type 0 where
  rent checkout_supplemental : BillCategory

pub record CheckedBill : Type 0 where
  pub id : ℕ
  pub period_start : ℕ
  pub category : BillCategory
  pub status : RentBillStatus
  pub outstanding_amount : ℤ

pub data AccountingError : Type 0 where
  accounting_changed settled_bill_included : AccountingError
  missing_bill amount_differs : ℕ → AccountingError

abbrev pub links_to : ℕ → LinkedItem → Bool
links_to id item = elim item.rent_bill_id [ none ↦ false | some linked ↦ linked == id ]

abbrev pub find_bill : Option ℕ → List CheckedBill → Option CheckedBill
find_bill none bills = none
find_bill (some id) bills = find (λ b. b.id == id) bills

-- What one item does to the set `arrearsIds`.
abbrev pub check_item :
    List CheckedBill → Bool → LinkedItem → List ℕ → Result AccountingError (List ℕ)
check_item bills check_outstanding item seen =
    if not (is_arrears item.item_type)
      && not (elim item.rent_bill_id [ none ↦ false | some _ ↦ true ])
    then ok seen
    else elim (find_bill item.rent_bill_id bills) [
      | none ↦ err accounting_changed
      | some bill ↦
          if not (is_arrears item.item_type)
          then ok seen
          else if contains bill.id seen
              || (check_outstanding && ltb_ℤ bill.outstanding_amount item.amount)
          then err accounting_changed
          else ok (bill.id ∷ seen)
    ]

-- The loop of `assertCheckoutBillItemsCurrent`.
pub assert_items_current :
    List CheckedBill → Bool → List ℕ → List LinkedItem → Result AccountingError (Unit {0})
assert_items_current bills check_outstanding seen [] = ok tt
assert_items_current bills check_outstanding seen (item ∷ items) =
    check_item bills check_outstanding item seen >>= λ seen'.
    assert_items_current bills check_outstanding seen' items

abbrev pub arrears_of : List LinkedItem → List LinkedItem
arrears_of items = filter (λ item. is_arrears item.item_type) items

abbrev pub outstanding_of : List CheckedBill → List CheckedBill
outstanding_of bills = filter (λ b. ltb_ℤ (pos 0) b.outstanding_amount) bills

-- The loop over the outstanding bills.
pub assert_each_settled : List LinkedItem → List CheckedBill → Result AccountingError (Unit {0})
assert_each_settled arrears [] = ok tt
assert_each_settled arrears (bill ∷ bills) = elim (find (links_to bill.id) arrears) [
  | none ↦ err (missing_bill bill.id)
  | some item ↦
      throw_if (not (eqb_ℤ item.amount bill.outstanding_amount)) (amount_differs bill.id)
      >> assert_each_settled arrears bills
]

pub assert_arrears_complete : List LinkedItem → List CheckedBill → Result AccountingError (Unit {0})
assert_arrears_complete items bills = do
  assert_items_current bills true [] items
  assert_each_settled (arrears_of items) (outstanding_of bills)
  throw_if (not (length (arrears_of items) == length (outstanding_of bills))) settled_bill_included

abbrev pub is_rent : BillCategory → Bool
is_rent rent = true
is_rent checkout_supplemental = false

abbrev pub effective_bills : List CheckedBill → List CheckedBill
effective_bills bills = filter (λ b. not (is_closed b.status)) bills

abbrev pub performed_bills : ℕ → List CheckedBill → List CheckedBill
performed_bills cutoff bills =
    filter (λ b. is_rent b.category && is_rent_bill_performed b.period_start (some cutoff)) bills

abbrev pub is_still_open : ℕ → CheckedBill → Bool
is_still_open cutoff b =
    (not (is_rent b.category) || is_rent_bill_performed b.period_start (some cutoff))
    && ltb_ℤ (pos 0) b.outstanding_amount

pub assert_final_accounting_current :
    List LinkedItem → List CheckedBill → ℕ → Result AccountingError (Unit {0})
assert_final_accounting_current items bills cutoff = do
  assert_items_current (performed_bills cutoff (effective_bills bills)) false [] items
  throw_if (any (is_still_open cutoff) (effective_bills bills)) accounting_changed
