-- ===== src/Checkout/RefundWriter/Data.antt =====
-- One bill paid in two payments, of which a settlement gives 600 back: test data of
-- backend/src/checkout/checkout-rent-refund-writer.ts.
use srms.Prelude.{ℕ, true, none, some, List, [], ◌∷◌}
use srms.Prelude.Int.{ℤ, pos, negsuc}
use srms.Prelude.Decimal.{decimal}
use srms.Payments.Adjustment.{RentBillStatus}
use srms.Payments.RefundStatus.{ApprovalStatus, ReservationStatus}
use srms.Payments.Store.{
  RentBill, BillCategory, PaymentAllocation, PaymentCategory, PaymentStatus, SettlementStatus,
}
use srms.Checkout.Reservations.{RentPayment}
use srms.Checkout.RefundWriter.Tables.{RentClaim, WriterTables}
use srms.Checkout.RefundWriter.Checks.{ApplyInput}

abbrev pub bill : RentBill
bill = record {
  id = 1;
  contract_id = 1;
  period_seq = 1;
  period_start = 738000;
  period_end = 738029;
  due_date = 738000;
  base_rent_amount = pos 1000;
  rent_free_amount = pos 0;
  discount_amount = pos 0;
  adjustment_amount = pos 0;
  payable_amount = pos 1000;
  received_amount = pos 1000;
  outstanding_amount = pos 0;
  status = RentBillStatus.paid;
  category = BillCategory.rent;
}

abbrev pub payment : ℕ → RentPayment
payment id = record {
  id = id;
  contract_id = 1;
  category = PaymentCategory.rent;
  status = PaymentStatus.confirmed;
  payment_date = id;
}

abbrev pub allocation : ℕ → PaymentAllocation
allocation id = record {
  id = id;
  payment_id = id;
  rent_bill_id = 1;
  allocated_amount = pos 500;
  reversed_amount = pos 0;
}

abbrev pub claim : ℕ → ℕ → ℕ → RentClaim
claim id of amount = record {
  id = id;
  reservation = record {
    item_id = 4;
    payment_allocation_id = of;
    payment_id = of;
    rent_bill_id = 1;
    reserved_amount = pos amount;
    status = ReservationStatus.reserved;
  };
  deposit_refund_id = none;
}

abbrev pub tables : WriterTables
tables = record {
  settlements =
      record {
        id = 9;
        contract_id = 1;
        status = SettlementStatus.approved;
        deposit_refundable_amount = pos 200;
        prepayment_refundable_amount = pos 0;
        rent_refundable_amount = pos 600;
        actual_checkout_date = some 738010;
      }
      ∷ [];
  deposit_refunds =
      record {
        id = 5;
        contract_id = 1;
        settlement_id = 9;
        refund_amount = pos 800;
        deposit_refund_amount = pos 200;
        prepayment_refund_amount = pos 0;
        rent_refund_amount = pos 600;
        approval_status = ApprovalStatus.approved;
        approved_by = some 2;
      }
      ∷ [];
  items = record { id = 4; settlement_id = 9; is_rent_refund = true; amount = pos 600 } ∷ [];
  claims = claim 1 2 500 ∷ claim 2 1 100 ∷ [];
  bills = bill ∷ [];
  payments = payment 1 ∷ payment 2 ∷ [];
  allocations = allocation 1 ∷ allocation 2 ∷ [];
  void_requests = [];
  refund_rows = [];
  adjustments = [];
  next_adjustment_id = 1;
}

abbrev pub input : ApplyInput
input = record { settlement_id = 9; deposit_refund_id = 5; approved_by = 2 }

-- An amount with its sign.
abbrev pub signed_text : ℤ → List ℕ
signed_text (pos n) = b'+' ∷ decimal n
signed_text (negsuc n) = b'-' ∷ decimal n
