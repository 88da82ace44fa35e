-- ===== src/Checkout/FutureBills/Closed.antt =====
-- What `normalizeFutureCheckoutBills` of
-- backend/src/checkout/checkout-future-bill-normalization.ts is meant to make of the bills from a
-- checkout on, beside what it does.
use srms.Prelude.{
  ℕ, suc, ◌+◌, ◌==◌, ◌≡◌, refl, sym, ap, ◌∙◌, Bool, true, false, if◌then◌else◌, none, some, List,
  [], ◌∷◌, ◌++◌, map, filter, all, length, ltb, not, ◌&&◌, ◌||◌, Bool-cases, inl, inr, arith,
}
use mathlib.Core.Path.{fun_ext}
use srms.Prelude.Int.{pos, ◌+ℤ◌, ◌-ℤ◌, ltb_ℤ, eqb_ℤ, sum_ℤ, int_laws, int_tests, zero_+ℤ, eqb_ℤ_iff}
use srms.Prelude.Fallible.{ok, is_ok}
use srms.Payments.Adjustment.{AdjustmentDirection, RentBillStatus}
use srms.Payments.RefundStatus.{ApprovalStatus}
use srms.Payments.Store.{RentBill, BillAdjustment, AdjustmentType, Reason, Database, is_rent_bill}
use srms.Payments.Store.Sweep.{HasKeys}
use srms.Checkout.FutureBills.{
  NormalizationInput, Normalized, is_refunded, is_future, cancel, cancellation,
  normalize_future_checkout_bills,
}
use srms.Checkout.FutureBills.Cancelled.{
  id_of, is_settled, adds_up, cancelled, cancellations, next_after, open_amount, total_open,
  normalize_future_checkout_bills-IsSwept, normalize_future_checkout_bills-is_ok,
}

-- A rent bill of the contract, whose period does not start before the checkout, and which was not
-- refunded.
abbrev pub is_affected : NormalizationInput → RentBill → Bool
is_affected input b =
    if ltb b.period_start input.actual_checkout_date
    then false
    else if is_refunded b.status
    then false
    else if is_rent_bill b.category
    then b.contract_id == input.contract_id
    else false

abbrev pub is_owed : RentBill → Bool
is_owed b = ltb_ℤ (pos 0) b.outstanding_amount

abbrev pub owed_bills : NormalizationInput → List RentBill → List RentBill
owed_bills input bills = filter is_owed (filter (is_affected input) bills)

-- A bill of which no more is to be paid than has come in.
abbrev pub closed : RentBill → RentBill
closed b = record b {
  adjustment_amount = b.adjustment_amount -ℤ b.outstanding_amount;
  payable_amount = b.received_amount;
  outstanding_amount = pos 0;
  status = if ltb_ℤ (pos 0) b.received_amount then RentBillStatus.paid else RentBillStatus.voided;
}

abbrev pub decrease : NormalizationInput → ℕ → RentBill → BillAdjustment
decrease input id b = record {
  id = id;
  rent_bill_id = b.id;
  adjustment_type = AdjustmentType.correction;
  direction = AdjustmentDirection.decrease;
  amount = b.outstanding_amount;
  before_amount = b.payable_amount;
  after_amount = b.received_amount;
  reason = Reason.future_rent_cancelled input.settlement_id;
  source_payment_id = none;
  approval_status = ApprovalStatus.approved;
  submitted_by = input.operator_id;
  approved_by = some input.operator_id;
  rejected_reason = none;
  checkout_item_id = none;
  reversed_by = none;
}

-- The adjustments for some bills, with ids from `next` on.
abbrev pub decreases : NormalizationInput → ℕ → List RentBill → List BillAdjustment
decreases input next [] = []
decreases input next (b ∷ bs) = decrease input next b ∷ decreases input (suc next) bs

pub record IsNormalized (input : NormalizationInput) (db : Database) (s : Normalized) : Type 0 where
  pub bills_closed :
      s.db.bills
      ≡ map (λ b. if is_affected input b then (if is_owed b then closed b else b) else b) db.bills
  pub decreases_booked :
      s.db.adjustments
      ≡ db.adjustments ++ decreases input db.next_adjustment_id (owed_bills input db.bills)
  pub next_is : s.db.next_adjustment_id ≡ db.next_adjustment_id + length (owed_bills input db.bills)
  pub amount_is : s.amount ≡ sum_ℤ (map (λ b. b.outstanding_amount) (owed_bills input db.bills))

affected_lem : (input : NormalizationInput) (b : RentBill) → is_future input b ≡ is_affected input b
affected_lem input b = ground arith

owed_lem : (b : RentBill) → is_settled b ≡ not (is_owed b)
owed_lem b = ground arith

-- What the tests of the loop say of a bill's amounts.
module _ (b : RentBill) (owed : is_owed b ≡ true) (sums : is_settled b || adds_up b ≡ true) where
  payable_lem : b.payable_amount -ℤ b.outstanding_amount ≡ b.received_amount
  payable_lem =
      let same : b.payable_amount ≡ b.received_amount +ℤ b.outstanding_amount =
        (eqb_ℤ_iff b.payable_amount (b.received_amount +ℤ b.outstanding_amount)).0 (ground arith) in
      rw same (omega int_laws)

  status_lem :
      (if eqb_ℤ b.received_amount (pos 0) then RentBillStatus.voided else RentBillStatus.paid)
      ≡ (if ltb_ℤ (pos 0) b.received_amount then RentBillStatus.paid else RentBillStatus.voided)
  status_lem = ground arith

  closed_lem : cancel b b ≡ closed b
  closed_lem = rw (payable_lem, status_lem) refl

  decrease_lem :
      (input : NormalizationInput) (next : ℕ) → cancellation input next b ≡ decrease input next b
  decrease_lem input next = rw payable_lem refl

-- The same for the bills of a table.
module _ (input : NormalizationInput) where
  abbrev SumsUp : List RentBill → Type 0
  SumsUp bs = all (λ b. is_settled b || adds_up b) bs ≡ true

  closed-map :
      (bs : List RentBill)
      → SumsUp (filter (is_affected input) bs)
      → map (λ b. if is_affected input b then cancelled b else b) bs
        ≡ map (λ b. if is_affected input b then (if is_owed b then closed b else b) else b) bs
  closed-map [] h = refl
  closed-map (b ∷ bs) h = elim (Bool-cases (is_affected input b)) [
    | inr other ↦ rw other (ap (λ xs. b ∷ xs) (closed-map bs (rw other at h)))
    | inl own ↦
        let here : (is_settled b || adds_up b)
              && all (λ x. is_settled x || adds_up x) (filter (is_affected input) bs)
            ≡ true =
          rw own at h in
        let rest = closed-map bs (ground arith) in
        elim (Bool-cases (is_owed b)) [
          | inl owed ↦
              rw (own, owed_lem b, owed, closed_lem b owed (ground arith))
                (ap (λ xs. closed b ∷ xs) rest)
          | inr settled ↦ rw (own, owed_lem b, settled) (ap (λ xs. b ∷ xs) rest)
        ]
  ]

  decreases-booked :
      (next : ℕ) (bs : List RentBill)
      → SumsUp bs
      → cancellations input next bs ≡ decreases input next (filter is_owed bs)
  decreases-booked next [] h = refl
  decreases-booked next (b ∷ bs) h =
      let rest : SumsUp bs = ground arith in
      elim (Bool-cases (is_owed b)) [
        | inl owed ↦
            rw (owed_lem b, owed, decrease_lem b owed (ground arith) input next)
              (ap (λ xs. decrease input next b ∷ xs) (decreases-booked (suc next) bs rest))
        | inr settled ↦ rw (owed_lem b, settled) (decreases-booked next bs rest)
      ]

next-length :
    (next : ℕ) (bs : List RentBill) → next_after next bs ≡ next + length (filter is_owed bs)
next-length next [] = omega arith
next-length next (b ∷ bs) = elim (Bool-cases (is_owed b)) [
  | inl owed ↦ rw (owed_lem b, owed) (next-length (suc next) bs ∙ omega arith)
  | inr settled ↦ rw (owed_lem b, settled) (next-length next bs)
]

total-owed :
    (bs : List RentBill)
    → total_open bs ≡ sum_ℤ (map (λ b. b.outstanding_amount) (filter is_owed bs))
unfolding sum_ℤ
total-owed [] = refl
total-owed (b ∷ bs) = elim (Bool-cases (is_owed b)) [
  | inl owed ↦
      let same : open_amount b ≡ b.outstanding_amount = omega (int_tests, owed) in
      rw (owed, same) (ap (λ t. b.outstanding_amount +ℤ t) (total-owed bs))
  | inr settled ↦
      let same : open_amount b ≡ pos 0 = omega (int_tests, settled) in
      rw (settled, same) (zero_+ℤ (total_open bs) ∙ total-owed bs)
]

-- On a table of bills with distinct ids: if the normalization succeeds, each rent bill of the
-- contract that does not start before the checkout, was not refunded and has something outstanding
-- is left with what it has received as its payable amount, with that difference taken off its
-- adjustments and nothing outstanding, and is paid, or voided if it has received nothing; every
-- other bill and column is as before; one approved decrease is booked for each bill changed, in
-- their order, and the amount reported is the sum of what was outstanding on them.
pub normalize_future_checkout_bills-IsNormalized :
    (input : NormalizationInput) (db : Database) (s : Normalized)
    → HasKeys id_of db.bills
    → normalize_future_checkout_bills input db ≡ ok s
    → IsNormalized input db s
normalize_future_checkout_bills-IsNormalized input db s keys h =
    let swept = normalize_future_checkout_bills-IsSwept input db s keys h in
    let same = fun_ext (affected_lem input) in
    let read : filter (is_future input) db.bills ≡ filter (is_affected input) db.bills =
      ap (λ (p : (RentBill → Bool)). filter p db.bills) same in
    let sums : SumsUp input (filter (is_affected input) db.bills) =
      ap (all (λ b. is_settled b || adds_up b)) (sym read)
      ∙ sym (normalize_future_checkout_bills-is_ok input db)
      ∙ ap is_ok h in
    record {
      bills_closed =
          swept.bills_cancelled
          ∙ ap (λ (p : (RentBill → Bool)). map (λ b. if p b then cancelled b else b) db.bills) same
          ∙ closed-map input db.bills sums;
      decreases_booked =
          swept.adjustments_booked
          ∙ ap (λ bs. db.adjustments ++ cancellations input db.next_adjustment_id bs) read
          ∙ ap (λ xs. db.adjustments ++ xs)
              (decreases-booked input db.next_adjustment_id (filter (is_affected input) db.bills)
                sums);
      next_is =
          swept.next_is
          ∙ ap (next_after db.next_adjustment_id) read
          ∙ next-length db.next_adjustment_id (filter (is_affected input) db.bills);
      amount_is =
          swept.amount_is ∙ ap total_open read ∙ total-owed (filter (is_affected input) db.bills);
    }
