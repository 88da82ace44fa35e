-- ===== src/Contracts/VoidImpact/Compute.antt =====
-- The computation. `is_positive` is the library's test of an amount's sign, which the code asks of
-- the two balances; nothing is assumed of it.
use srms.Prelude.{
  ℕ, Bool, true, false, not, ◌&&◌, ◌||◌, if◌then◌else◌, Option, none, some, List, [], ◌∷◌, ◌++◌,
  map, filter, contains,
}
use srms.Prelude.Int.{ℤ, pos, ◌+ℤ◌, ◌-ℤ◌, neg_ℤ, max_ℤ, eqb_ℤ, sum_ℤ}
use srms.Prelude.Fallible.{Result, ok, ◌>>◌, throw_if}
use srms.Payments.RefundStatus.{ApprovalStatus, is_approved, is_applied}
use srms.Contracts.VoidImpact.Data.{
  ReversalCategory, EntityType, PaymentStatus, PaymentCategory, ImpactBill, ImpactPayment,
  ImpactRefund, ImpactRentRefund, ImpactInput, bill_data, payment_data, refund_data,
  rent_refund_data, net_contribution, completed_workflow, no_data, room_data, ImpactRow,
  keep_current_status, recalculate, Impact,
}
use srms.Contracts.VoidImpact.Rows.{
  sorted_ids, sort_rows, monetary_row, indicator_row, workflow_rows, pending_rows,
}

abbrev pub is_voided : PaymentStatus → Bool
is_voided PaymentStatus.voided = true
is_voided _ = false

abbrev pub is_deposit : Option PaymentCategory → Bool
is_deposit (some PaymentCategory.deposit_payment) = true
is_deposit _ = false

abbrev pub payment_ids : List ImpactPayment → List ℕ
payment_ids ps = map (λ p. p.id) ps

unfoldable pub traceable_payments : ImpactInput → List ImpactPayment
traceable_payments input = filter (λ p. not (is_voided p.status)) input.payments

unfoldable pub cash_payments : ImpactInput → List ImpactPayment
unfolding traceable_payments
cash_payments input = filter (λ p. not (is_deposit p.category)) (traceable_payments input)

-- The refunds given, or else one derived from each payment with a refunded amount.
unfoldable pub approved_refunds : ImpactInput → List ImpactRefund
unfolding traceable_payments
approved_refunds input = elim input.refunds [
  | some refunds ↦
      filter
        (λ r.
          is_approved r.approval_status
          && contains r.payment_id (payment_ids (traceable_payments input)))
        refunds
  | none ↦
      map
        (λ p. record {
          id = p.id;
          payment_id = p.id;
          approval_status = ApprovalStatus.approved;
          amount = p.refunded_amount;
          occurred_at = p.occurred_at;
          derived = true;
        })
        (filter (λ p. not (eqb_ℤ p.refunded_amount (pos 0))) (traceable_payments input))
]

unfoldable pub approved_rent_refunds : ImpactInput → List ImpactRentRefund
unfolding traceable_payments
approved_rent_refunds input =
    filter
      (λ r. is_applied r.status && contains r.payment_id (payment_ids (traceable_payments input)))
      input.checkout_rent_refunds

abbrev pub refund_sum : List ImpactRefund → ℤ
refund_sum rs = sum_ℤ (map (λ r. r.amount) rs)

abbrev pub rent_refund_sum : List ImpactRentRefund → ℤ
rent_refund_sum rs = sum_ℤ (map (λ r. r.amount) rs)

unfoldable pub gross_payment : ImpactInput → ℤ
gross_payment input = sum_ℤ (map (λ p. p.amount) (cash_payments input))

unfoldable pub refund_net : ImpactInput → ℤ
refund_net input =
    refund_sum (approved_refunds input) +ℤ rent_refund_sum (approved_rent_refunds input)

unfoldable pub cash_refund_net : ImpactInput → ℤ
cash_refund_net input =
    refund_sum (
      filter (λ r. contains r.payment_id (payment_ids (cash_payments input)))
        (approved_refunds input))
    +ℤ rent_refund_sum (
        filter (λ r. contains r.payment_id (payment_ids (cash_payments input)))
          (approved_rent_refunds input))

unfoldable pub unrepresented_prepayment : ImpactInput → ℤ
unrepresented_prepayment input =
    max_ℤ (input.prepayment_balance -ℤ sum_ℤ (map (λ p. p.prepayment_net) (cash_payments input)))
      (pos 0)

unfoldable pub effective_payment : ImpactInput → ℤ
effective_payment input =
    gross_payment input
    -ℤ cash_refund_net input
    +ℤ input.deposit_balance
    +ℤ unrepresented_prepayment input

abbrev pub bill_row : ImpactBill → ImpactRow
bill_row b =
    monetary_row ReversalCategory.rent_bill EntityType.rent_bill_entity (some b.id) b.payable_amount
      b.occurred_at false (bill_data b.status b.received_amount b.outstanding_amount)

abbrev pub payment_row : ImpactPayment → ImpactRow
payment_row p =
    monetary_row ReversalCategory.payment EntityType.payment_entity (some p.id) p.amount
      p.occurred_at (not (is_deposit p.category))
      (payment_data p.status p.category p.allocated_amount p.refunded_amount p.prepayment_net)

abbrev pub refund_row : ImpactRefund → ImpactRow
refund_row r =
    monetary_row ReversalCategory.refund EntityType.payment_refund (some r.id) (neg_ℤ r.amount)
      r.occurred_at true (refund_data r.payment_id r.derived)

abbrev pub rent_refund_row : ImpactRentRefund → ImpactRow
rent_refund_row r =
    monetary_row ReversalCategory.refund EntityType.checkout_rent_refund_allocation (some r.id)
      (neg_ℤ r.amount) r.occurred_at true
      (rent_refund_data r.payment_id r.payment_allocation_id r.rent_bill_id
        r.checkout_settlement_item_id r.deposit_refund_id)

abbrev pub has_any : List ℕ → Bool
has_any [] = false
has_any (x ∷ xs) = true

module _ (is_positive : ℤ → Bool) where
  unfoldable pub deposit_rows : ImpactInput → List ImpactRow
  deposit_rows input =
      if is_positive input.deposit_balance
      then monetary_row ReversalCategory.deposit EntityType.contract_deposit_balance
          (some input.contract.id) input.deposit_balance none true no_data
        ∷ []
      else []

  unfoldable pub prepayment_rows : ImpactInput → List ImpactRow
  prepayment_rows input =
      if is_positive input.prepayment_balance
      then monetary_row ReversalCategory.prepayment EntityType.contract_prepayment_balance
          (some input.contract.id) input.prepayment_balance none
          (not (eqb_ℤ (unrepresented_prepayment input) (pos 0)))
          (net_contribution (unrepresented_prepayment input))
        ∷ []
      else []

  unfoldable pub impact_rows : ImpactInput → List ImpactRow
  impact_rows input =
      map bill_row input.bills
      ++ (map payment_row (traceable_payments input)
          ++ (map refund_row (approved_refunds input)
              ++ (map rent_refund_row (approved_rent_refunds input)
                  ++ (deposit_rows input
                      ++ (prepayment_rows input
                          ++ (pending_rows input.pending
                              ++ (workflow_rows ReversalCategory.checkout
                                    EntityType.checkout_settlement completed_workflow
                                    input.completed_checkout_ids
                                  ++ indicator_row ReversalCategory.room_status EntityType.room
                                      (some input.contract.room_id)
                                      (room_data input.current_room_status
                                        (sorted_ids input.later_contract_ids))
                                    ∷ [])))))))

  unfoldable pub compute_contract_void_impact : ImpactInput → Impact
  compute_contract_void_impact input = record {
    contract = input.contract;
    summary = record {
      rent_bill_payable = sum_ℤ (map (λ b. b.payable_amount) input.bills);
      effective_payment = effective_payment input;
      deposit_balance = input.deposit_balance;
      prepayment_balance = input.prepayment_balance;
      refund_net = refund_net input;
      current_net_impact = effective_payment input;
      planned_reversal = neg_ℤ (effective_payment input);
      post_reversal_net_impact = pos 0;
    };
    rows = sort_rows (impact_rows input);
    pending = record {
      adjustments = sorted_ids input.pending.adjustments;
      refunds = sorted_ids input.pending.refunds;
      void_requests = sorted_ids input.pending.void_requests;
      deposit_refunds = sorted_ids input.pending.deposit_refunds;
      changes = sorted_ids input.pending.changes;
      rebates = sorted_ids input.pending.rebates;
      checkouts = sorted_ids input.pending.checkouts;
    };
    completed_checkout_ids = sorted_ids input.completed_checkout_ids;
    room_status = input.current_room_status;
    room_action = if has_any input.later_contract_ids then keep_current_status else recalculate;
    has_pending_workflows =
        has_any (sorted_ids input.pending.adjustments)
        || has_any (sorted_ids input.pending.refunds)
        || has_any (sorted_ids input.pending.void_requests)
        || has_any (sorted_ids input.pending.changes)
        || has_any (sorted_ids input.pending.rebates)
        || has_any (sorted_ids input.pending.deposit_refunds)
        || has_any (sorted_ids input.pending.checkouts);
    has_completed_checkout = has_any input.completed_checkout_ids;
    has_later_contract = has_any input.later_contract_ids;
  }

-- The two ways in which an impact is out of balance.
pub data BalanceError : Type 0 where
  unbalanced_row : ReversalCategory → BalanceError
  unbalanced_total : BalanceError

-- `null` balances are passed over.
abbrev pub row_balances : ImpactRow → Bool
row_balances r = elim r.balance_before [
  | none ↦ true
  | some before ↦ elim r.balance_after [
    | none ↦ true
    | some after ↦ eqb_ℤ (before +ℤ r.amount) after
  ]
]

unfoldable pub assert_rows_balanced : List ImpactRow → Result BalanceError (Unit {0})
assert_rows_balanced [] = ok tt
assert_rows_balanced (r ∷ rs) =
    throw_if (not (row_balances r)) (unbalanced_row r.category) >> assert_rows_balanced rs

unfoldable pub assert_balanced_impact : Impact → Result BalanceError (Unit {0})
assert_balanced_impact impact = do
  assert_rows_balanced (sort_rows impact.rows)
  throw_if
      (not (
        eqb_ℤ (impact.summary.current_net_impact +ℤ impact.summary.planned_reversal)
          impact.summary.post_reversal_net_impact))
      unbalanced_total
