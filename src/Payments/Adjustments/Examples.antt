-- ===== src/Payments/Adjustments/Examples.antt =====
-- A database with one contract, two bills and a pending adjustment, and the theorems at it.
use srms.Prelude.{ℕ, ◌≡◌, refl, none, [], ◌∷◌}
use srms.Prelude.Int.{pos}
use srms.Prelude.Fallible.{ok}
use srms.Payments.Allocation.{UserRole}
use srms.Payments.Adjustment.{RentBillStatus, AdjustmentDirection}
use srms.Payments.RefundStatus.{ApprovalStatus}
use srms.Payments.Store.{
  RentBill, BillCategory, ContractStatus, BillAdjustment, AdjustmentType, Reason, Database,
  AuthUser, sort_bills,
}
use srms.Payments.Adjustments.{approve, refresh}
use srms.Payments.Adjustments.Approval.{IsBooked, approve-IsBooked}

abbrev bill : ℕ → RentBill
bill id = record {
  id = id;
  contract_id = 1;
  period_seq = id;
  period_start = 738000;
  period_end = 738030;
  due_date = 738000;
  base_rent_amount = pos 100000;
  rent_free_amount = pos 0;
  discount_amount = pos 0;
  adjustment_amount = pos 0;
  payable_amount = pos 100000;
  received_amount = pos 20000;
  outstanding_amount = pos 80000;
  status = RentBillStatus.partial;
  category = BillCategory.rent;
}

abbrev waiver : BillAdjustment
waiver = record {
  id = 5;
  rent_bill_id = 2;
  adjustment_type = AdjustmentType.waiver;
  direction = AdjustmentDirection.decrease;
  amount = pos 30000;
  before_amount = pos 100000;
  after_amount = pos 70000;
  reason = Reason.given [];
  source_payment_id = none;
  approval_status = ApprovalStatus.pending;
  submitted_by = 3;
  approved_by = none;
  rejected_reason = none;
  checkout_item_id = none;
  reversed_by = none;
}

abbrev db : Database
db = record {
  contracts =
      record {
        id = 1;
        status = ContractStatus.active;
        paid_through_date = none;
        next_due_date = none;
      }
      ∷ [];
  bills = bill 1 ∷ bill 2 ∷ [];
  adjustments = waiver ∷ [];
  next_adjustment_id = 6;
  payments = [];
  allocations = [];
  void_requests = [];
  next_void_request_id = 1;
  prepayments = [];
  next_prepayment_id = 1;
  settlements = [];
  settlement_items = [];
  reservations = [];
  audit_logs = [];
}

abbrev admin : AuthUser
admin = record { id = 3; role = UserRole.super_admin }

approved : (db' : Database) × (approve 5 admin db ≡ ok db')
unfolding approve refresh sort_bills
approved = (_, refl)

approve-IsBooked_example : IsBooked 5 admin db approved.0
approve-IsBooked_example = approve-IsBooked 5 admin db approved.0 approved.1
