-- ===== src/Payments/Voids/Undo.antt =====
-- The loop over the adjustments that a payment is the source of, as its void is approved:
-- backend/src/payments/void-requests.service.ts.
use srms.Prelude.{
  ℕ, suc, ◌==◌, Bool, false, not, ◌&&◌, ◌||◌, if◌then◌else◌, none, some, List, [], ◌∷◌, ◌++◌,
  is_some,
}
use srms.Payments.Adjustment.{AdjustmentDirection, AdjustedBill, calculate_adjusted_bill}
use srms.Payments.RefundStatus.{ApprovalStatus, is_approved}
use srms.Payments.Store.{
  RentBill, Reason, AdjustmentType, BillAdjustment, PaymentAllocation, Database, AuthUser,
  update_where, find_bill, is_pending, amounts_of,
}

-- The map `billStates`: the bills of the payment's allocations, by id.
abbrev pub bill_states : List PaymentAllocation → List RentBill → List RentBill
bill_states [] bills = []
bill_states (a ∷ xs) bills = elim (find_bill a.rent_bill_id bills) [
  | none ↦ bill_states xs bills
  | some b ↦ b ∷ bill_states xs bills
]

-- What the assignments to `bill` change: not the status, nor what was received.
abbrev pub restated : AdjustedBill → RentBill → RentBill
restated next b = record b {
  adjustment_amount = next.adjustment_amount;
  payable_amount = next.payable_amount;
  outstanding_amount = next.outstanding_amount;
}

-- The state of the loop over the payment's adjustments.
pub record Undoing : Type 0 where
  pub db : Database
  pub states : List RentBill

-- The booking of one reversal against a bill whose state is known.
unfoldable pub reverse_adjustment : ℕ → AuthUser → BillAdjustment → RentBill → Undoing → Undoing
reverse_adjustment payment_id user a bill s =
    let next = calculate_adjusted_bill (amounts_of bill) AdjustmentDirection.increase a.amount in
    let id = s.db.next_adjustment_id in
    let booked : List BillAdjustment =
      s.db.adjustments
      ++ record {
        id = id;
        rent_bill_id = a.rent_bill_id;
        adjustment_type = AdjustmentType.correction;
        direction = AdjustmentDirection.increase;
        amount = a.amount;
        before_amount = bill.payable_amount;
        after_amount = next.payable_amount;
        reason = Reason.payment_voided payment_id a.id;
        source_payment_id = some payment_id;
        approval_status = ApprovalStatus.approved;
        submitted_by = user.id;
        approved_by = some user.id;
        rejected_reason = none;
        checkout_item_id = none;
        reversed_by = none;
      }
        ∷ [] in
    record {
      db = record s.db {
        adjustments =
            update_where (λ x. x.id == a.id) (λ x. record x { reversed_by = some id }) booked;
        next_adjustment_id = suc id;
      };
      states = update_where (λ b. b.id == bill.id) (restated next) s.states;
    }

unfoldable pub undo_adjustment : ℕ → AuthUser → BillAdjustment → Undoing → Undoing
undo_adjustment payment_id user a s =
    if is_pending a.approval_status
    then record s {
      db = record s.db {
        adjustments =
            update_where (λ x. x.id == a.id)
              (λ x. record x { approval_status = ApprovalStatus.cancelled }) s.db.adjustments;
      };
    }
    else elim (find_bill a.rent_bill_id s.states) [
      | none ↦ s
      | some bill ↦ reverse_adjustment payment_id user a bill s
    ]

abbrev pub is_live : ℕ → BillAdjustment → Bool
is_live payment_id a =
    elim a.source_payment_id [ none ↦ false | some source ↦ source == payment_id ]
    && (is_pending a.approval_status || is_approved a.approval_status)
    && not (is_some a.reversed_by)

unfoldable pub undo_adjustments : ℕ → AuthUser → List BillAdjustment → Undoing → Undoing
undo_adjustments payment_id user [] s = s
undo_adjustments payment_id user (a ∷ xs) s =
    undo_adjustments payment_id user xs (undo_adjustment payment_id user a s)
