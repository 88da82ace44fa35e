-- ===== src/Contracts/VoidImpact/Examples.antt =====
-- The impact of a contract with one bill and one deposit payment.
use srms.Prelude.{◌≡◌, Bool, not, none, some, [], ◌∷◌}
use srms.Prelude.Int.{ℤ, pos, leb_ℤ}
use srms.Prelude.Fallible.{ok}
use srms.Payments.Adjustment.{RentBillStatus}
use srms.Contracts.VoidImpact.Data.{
  ImpactInput, PaymentStatus, PaymentCategory, ContractStatus, RoomStatus,
}
use srms.Contracts.VoidImpact.Compute.{compute_contract_void_impact, assert_balanced_impact}
use srms.Contracts.VoidImpact.Balanced.{compute_contract_void_impact_balanced}
use srms.Contracts.VoidImpact.Parts.{parts, StandsFor}
use srms.Contracts.VoidImpact.Order.{AreInOrder, compute_contract_void_impact_rows}

abbrev above_zero : ℤ → Bool
above_zero a = not (leb_ℤ a (pos 0))

abbrev input : ImpactInput
input = record {
  contract = record { id = 4; status = ContractStatus.active; room_id = 12 };
  bills =
      record {
        id = 21;
        status = RentBillStatus.partial;
        payable_amount = pos 90000;
        received_amount = pos 40000;
        outstanding_amount = pos 50000;
        occurred_at = some 738900;
      }
      ∷ [];
  payments =
      record {
        id = 31;
        status = PaymentStatus.confirmed;
        category = some PaymentCategory.rent_payment;
        amount = pos 40000;
        allocated_amount = pos 40000;
        refunded_amount = pos 5000;
        prepayment_net = pos 0;
        occurred_at = some 738901;
      }
      ∷ record {
        id = 32;
        status = PaymentStatus.confirmed;
        category = some PaymentCategory.deposit_payment;
        amount = pos 80000;
        allocated_amount = pos 0;
        refunded_amount = pos 0;
        prepayment_net = pos 0;
        occurred_at = some 738899;
      }
      ∷ [];
  refunds = none;
  checkout_rent_refunds = [];
  prepayment_balance = pos 0;
  deposit_balance = pos 80000;
  pending = record {
    adjustments = 9 ∷ 7 ∷ [];
    refunds = [];
    void_requests = [];
    deposit_refunds = [];
    changes = [];
    rebates = [];
    checkouts = [];
  };
  completed_checkout_ids = [];
  later_contract_ids = [];
  current_room_status = RoomStatus.rented;
}

compute_contract_void_impact_balanced_example :
    assert_balanced_impact (compute_contract_void_impact above_zero input) ≡ ok tt
compute_contract_void_impact_balanced_example =
    compute_contract_void_impact_balanced above_zero input

compute_contract_void_impact_rows_example :
    AreInOrder (compute_contract_void_impact above_zero input).rows
    × StandsFor (compute_contract_void_impact above_zero input).rows (parts above_zero input)
compute_contract_void_impact_rows_example = compute_contract_void_impact_rows above_zero input
