-- ===== src/Payments/Voids/Examples.antt =====
-- A confirmed payment of 900.00, of which 600.00 went to two bills and 300.00 to the prepayment
-- account, and the theorems at it.
use srms.Prelude.{ℕ, ◌≡◌, ◌⊎◌, refl, false, none, some, [], ◌∷◌}
use srms.Prelude.Int.{pos, ◌+ℤ◌, ◌-ℤ◌, ◌≤ℤ◌}
use srms.Prelude.Fallible.{ok}
use srms.Payments.Allocation.{UserRole}
use srms.Payments.Adjustment.{RentBillStatus}
use srms.Payments.RefundStatus.{ApprovalStatus}
use srms.Payments.Store.{
  RentBill, BillCategory, ContractStatus, PaymentStatus, PaymentCategory, PaymentAllocation,
  PrepaymentType, Database, AuthUser, reopen_supplemental_balance,
}
use srms.Payments.Voids.{approve, reverse_payment}
use srms.Payments.Voids.Undo.{undo_adjustments}
use srms.Payments.Voids.Steps.{
  Reversing, active_prepayment, prepayment_balance, reverse_allocation, reverse_allocations,
  reverse_prepayment,
}
use srms.Payments.Voids.Prepayment.{IsRepaid, reverse_prepayment-cases}
use srms.Payments.Voids.Approval.{IsVoided, approve-IsVoided}

abbrev bill : ℕ → RentBill
bill id = record {
  id = id;
  contract_id = 1;
  period_seq = id;
  period_start = 738000;
  period_end = 738030;
  due_date = 738000;
  base_rent_amount = pos 30000;
  rent_free_amount = pos 0;
  discount_amount = pos 0;
  adjustment_amount = pos 0;
  payable_amount = pos 30000;
  received_amount = pos 30000;
  outstanding_amount = pos 0;
  status = RentBillStatus.paid;
  category = BillCategory.rent;
}

abbrev share : ℕ → PaymentAllocation
share id = record {
  id = id;
  payment_id = 8;
  rent_bill_id = id;
  allocated_amount = pos 30000;
  reversed_amount = pos 0;
}

abbrev db : Database
db = record {
  contracts =
      record {
        id = 1;
        status = ContractStatus.active;
        paid_through_date = some 738030;
        next_due_date = none;
      }
      ∷ [];
  bills = bill 1 ∷ bill 2 ∷ [];
  adjustments = [];
  next_adjustment_id = 1;
  payments =
      record {
        id = 8;
        contract_id = 1;
        category = PaymentCategory.rent;
        is_initial_deposit = false;
        status = PaymentStatus.confirmed;
        void_reason = none;
        voided_by = none;
      }
      ∷ [];
  allocations = share 1 ∷ share 2 ∷ [];
  void_requests =
      record {
        id = 4;
        payment_id = 8;
        reason = 65 ∷ [];
        approval_status = ApprovalStatus.pending;
        submitted_by = 2;
        approved_by = none;
        rejected_reason = none;
      }
      ∷ [];
  next_void_request_id = 5;
  prepayments =
      record {
        id = 6;
        contract_id = 1;
        transaction_type = PrepaymentType.credit_receipt;
        amount = pos 30000;
        balance_after = pos 45000;
        payment_id = some 8;
      }
      ∷ [];
  next_prepayment_id = 7;
  settlements = [];
  settlement_items = [];
  reservations = [];
  audit_logs = [];
}

abbrev owner : AuthUser
owner = record { id = 3; role = UserRole.super_admin }

abbrev start : Reversing
start = record { bills = db.bills; allocations = db.allocations; reversed_total = pos 0 }

repaid : (db' : Database) × (reverse_prepayment 1 8 db ≡ ok db')
unfolding reverse_prepayment active_prepayment prepayment_balance ◌+ℤ◌ ◌-ℤ◌
repaid = (_, refl)

voided : (db' : Database) × (approve 4 owner db ≡ ok db')
unfolding approve reverse_payment undo_adjustments reverse_allocations reverse_allocation
    reverse_prepayment active_prepayment prepayment_balance reopen_supplemental_balance ◌-ℤ◌ ◌+ℤ◌
voided = (_, refl)

reverse_prepayment-cases_example :
    ((active_prepayment 8 db.prepayments ≤ℤ pos 0) × (repaid.0 ≡ db)) ⊎ IsRepaid 1 8 db repaid.0
reverse_prepayment-cases_example = reverse_prepayment-cases 1 8 db repaid.0 (refl, tt) repaid.1

approve-IsVoided_example : IsVoided 4 owner db voided.0
approve-IsVoided_example = approve-IsVoided 4 owner db voided.0 ((refl, tt), (tt, tt)) voided.1
