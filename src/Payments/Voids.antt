-- ===== src/Payments/Voids.antt =====
-- Requests to void a payment, and what their approval reverses:
-- backend/src/payments/void-requests.service.ts.
pub mod Undo
pub mod Steps
pub mod Kept
pub mod Approval
pub mod Prepayment
pub mod Reversal
mod Examples
use srms.Prelude.{
  ℕ, suc, ◌+◌, ◌==◌, Bool, true, false, not, ◌&&◌, ◌||◌, if◌then◌else◌, Option, none, some, List,
  [], ◌∷◌, ◌++◌, filter, map, any, find, is_some,
}
use srms.Prelude.Int.{ℤ, pos, ◌+ℤ◌, ◌-ℤ◌, leb_ℤ, ltb_ℤ}
use srms.Prelude.Fallible.{Result, ok, err, ◌>>=◌, ◌>>◌, throw_if}
use srms.Payments.Adjustment.{
  AdjustmentDirection, RentBillStatus, AdjustedBill, calculate_adjusted_bill,
}
use srms.Payments.RefundStatus.{ApprovalStatus, is_approved}
use srms.Payments.Allocation.{UserRole, is_super_admin}
use srms.Payments.Store.{
  AuditEvent, PaymentStatus, PrepaymentType, RentBill, Reason, AdjustmentType, BillAdjustment,
  Payment, PaymentAllocation, VoidRequest, PrepaymentTransaction, Database, AuthUser, PaymentError,
  update_where, or_not_found, find_bill, find_contract, find_payment, is_pending, is_supplemental,
  assert_contract_not_voided, assert_payment_not_protected, assert_not_automatic_deposit,
  assert_reversal_request_allowed, reopen_supplemental_balance, assert_no_reservation, latest,
  refresh_snapshot, amounts_of,
}
use srms.Payments.Store.Tables.PaymentError.{
  forbidden, not_pending, not_confirmed, already_requested, prepayment_short, missing_bill_state,
}
use srms.Payments.Voids.Undo.{
  bill_states, restated, Undoing, reverse_adjustment, undo_adjustment, is_live, undo_adjustments,
}
use srms.Payments.Voids.Steps.{
  Reversing, unpaid, reverse_allocation, reverse_allocations, signed_prepayment, is_of_payment,
  active_prepayment, prepayment_balance, reverse_prepayment,
}

abbrev pub is_confirmed : PaymentStatus → Bool
is_confirmed PaymentStatus.confirmed = true
is_confirmed _ = false

abbrev pub is_admin : UserRole → Bool
is_admin UserRole.visitor = false
is_admin _ = true

abbrev pub find_request : ℕ → List VoidRequest → Option VoidRequest
find_request id xs = find (λ r. r.id == id) xs

unfoldable pub submit : ℕ → List ℕ → AuthUser → Database → Result PaymentError Database
submit payment_id reason user db = do
  throw_if (not (is_admin user.role)) forbidden
  payment ← or_not_found (find_payment payment_id db.payments)
  contract ← or_not_found (find_contract payment.contract_id db.contracts)
  throw_if (not (is_confirmed payment.status)) not_confirmed
  assert_not_automatic_deposit payment
  assert_contract_not_voided contract.status
  assert_no_reservation db payment.id
  assert_reversal_request_allowed db payment
  throw_if
      (any (λ r. (r.payment_id == payment_id) && is_pending r.approval_status) db.void_requests)
      already_requested
  ok (record db {
    void_requests =
        db.void_requests
        ++ record {
          id = db.next_void_request_id;
          payment_id = payment.id;
          reason = reason;
          approval_status = ApprovalStatus.pending;
          submitted_by = user.id;
          approved_by = none;
          rejected_reason = none;
        }
          ∷ [];
    next_void_request_id = suc db.next_void_request_id;
  })

abbrev pub allocations_of : ℕ → Database → List PaymentAllocation
allocations_of payment_id db = filter (λ a. a.payment_id == payment_id) db.allocations

-- Everything that an approval does once its guards have passed.
unfoldable pub reverse_payment :
    VoidRequest → Payment → AuthUser → Database → Result PaymentError Database
reverse_payment request payment user db = do
  let allocations = allocations_of payment.id db
  let undone =
      undo_adjustments payment.id user (filter (is_live payment.id) db.adjustments)
        (record { db = db; states = bill_states allocations db.bills })
  reversed ← reverse_allocations undone.states allocations (record {
    bills = undone.db.bills;
    allocations = undone.db.allocations;
    reversed_total = pos 0;
  })
  repaid ←
      reverse_prepayment payment.contract_id payment.id
        (record undone.db { bills = reversed.bills; allocations = reversed.allocations })
  reopened ←
      reopen_supplemental_balance
        (record repaid {
          payments =
              update_where (λ p. p.id == payment.id)
                (λ p. record p {
                  status = PaymentStatus.voided;
                  void_reason = some request.reason;
                  voided_by = some user.id;
                })
                repaid.payments;
        })
        payment.contract_id payment.category reversed.reversed_total
  ok (
      refresh_snapshot
        (record reopened {
          audit_logs =
              reopened.audit_logs
              ++ record {
                event = AuditEvent.payment_void_approved request.reason payment.id;
                entity_id = request.id;
                operator_id = user.id;
              }
                ∷ [];
        })
        payment.contract_id)

unfoldable pub approve : ℕ → AuthUser → Database → Result PaymentError Database
approve id user db = do
  throw_if (not (is_super_admin user.role)) forbidden
  request ← or_not_found (find_request id db.void_requests)
  payment ← or_not_found (find_payment request.payment_id db.payments)
  contract ← or_not_found (find_contract payment.contract_id db.contracts)
  throw_if (not (is_pending request.approval_status)) not_pending
  throw_if (not (is_confirmed payment.status)) not_confirmed
  assert_contract_not_voided contract.status
  assert_no_reservation db request.payment_id
  if is_supplemental payment.category
      then ok tt
      else assert_payment_not_protected db request.payment_id
  done ← reverse_payment request payment user db
  ok (record done {
    void_requests =
        update_where (λ r. r.id == id)
          (λ r. record r { approval_status = ApprovalStatus.approved; approved_by = some user.id })
          done.void_requests;
  })

unfoldable pub reject : ℕ → List ℕ → AuthUser → Database → Result PaymentError Database
reject id reason user db = do
  throw_if (not (is_super_admin user.role)) forbidden
  request ← or_not_found (find_request id db.void_requests)
  payment ← or_not_found (find_payment request.payment_id db.payments)
  contract ← or_not_found (find_contract payment.contract_id db.contracts)
  throw_if (not (is_pending request.approval_status)) not_pending
  assert_contract_not_voided contract.status
  ok (record db {
    void_requests =
        update_where (λ r. r.id == id)
          (λ r. record r {
            approval_status = ApprovalStatus.rejected;
            rejected_reason = some reason;
            approved_by = some user.id;
          })
          db.void_requests;
  })
