-- ===== src/Checkout/FutureBills/Examples.antt =====
-- A checkout in the second of three months, and the theorems at it.
use srms.Prelude.{ℕ, ◌≡◌, ◌/◌, ◌*◌, ◌+◌, refl, [], ◌∷◌, arith}
use srms.Prelude.Int.{pos, ◌-ℤ◌}
use srms.Prelude.Fallible.{ok}
use srms.Payments.Adjustment.{RentBillStatus}
use srms.Payments.Store.{RentBill, BillCategory, Database}
use srms.Checkout.FutureBills.{
  NormalizationInput, Normalized, reverse_future_checkout_bill_normalization, normalize_bill,
  normalize_bills, normalize_future_checkout_bills,
}
use srms.Checkout.FutureBills.Closed.{IsNormalized, normalize_future_checkout_bills-IsNormalized}
use srms.Checkout.FutureBills.Restored.{
  IsRestored, reverse_future_checkout_bill_normalization-IsRestored,
}

abbrev bill : ℕ → ℕ → ℕ → RentBillStatus → RentBill
bill id received outstanding status = record {
  id = id;
  contract_id = 1;
  period_seq = id;
  period_start = 738000 + 30 * id;
  period_end = 738029 + 30 * id;
  due_date = 738000 + 30 * id;
  base_rent_amount = pos 100000;
  rent_free_amount = pos 0;
  discount_amount = pos 0;
  adjustment_amount = pos 0;
  payable_amount = pos 100000;
  received_amount = pos received;
  outstanding_amount = pos outstanding;
  status = status;
  category = BillCategory.rent;
}

abbrev db : Database
db = record {
  contracts = [];
  bills =
      bill 1 100000 0 RentBillStatus.paid
      ∷ bill 2 20000 80000 RentBillStatus.partial
      ∷ bill 3 0 100000 RentBillStatus.pending
      ∷ [];
  adjustments = [];
  next_adjustment_id = 1;
  payments = [];
  allocations = [];
  void_requests = [];
  next_void_request_id = 1;
  prepayments = [];
  next_prepayment_id = 1;
  settlements = [];
  settlement_items = [];
  reservations = [];
  audit_logs = [];
}

abbrev input : NormalizationInput
input = record {
  settlement_id = 7;
  contract_id = 1;
  actual_checkout_date = 738055;
  operator_id = 3;
  occurred_at = 738050;
}

normalized : (s : Normalized) × (normalize_future_checkout_bills input db ≡ ok s)
unfolding normalize_future_checkout_bills normalize_bills normalize_bill ◌-ℤ◌
normalized = (_, refl)

normalize_future_checkout_bills-IsNormalized_example : IsNormalized input db normalized.0
normalize_future_checkout_bills-IsNormalized_example =
    normalize_future_checkout_bills-IsNormalized input db normalized.0 (ground arith) normalized.1

-- The checkout is cancelled two days later.
abbrev cancelling : NormalizationInput
cancelling = record input { operator_id = 4; occurred_at = 738052 }

abbrev day_of : ℕ → ℕ
day_of t = t / 1

reverse_future_checkout_bill_normalization-IsRestored_example :
    (r : Normalized) × (reverse_future_checkout_bill_normalization day_of cancelling normalized.0.db
      ≡ ok r)
    × IsRestored day_of input cancelling db normalized.0 r
reverse_future_checkout_bill_normalization-IsRestored_example =
    reverse_future_checkout_bill_normalization-IsRestored day_of input cancelling db normalized.0
      (ground arith) normalized.1 refl refl tt tt
