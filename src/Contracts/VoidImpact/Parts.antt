-- ===== src/Contracts/VoidImpact/Parts.antt =====
-- The rows of an impact beside an independent description of what they stand for: of every part of
-- the contract, what it is, its id, and the amount that reverses it.
use srms.Prelude.{
  ℕ, ◌==◌, Bool, true, false, ◌&&◌, not, Option, some, none, List, [], ◌∷◌, ◌++◌, map, filter, any,
}
use mathlib.Core.List.{Perm}
use srms.Prelude.Int.{ℤ, pos, neg_ℤ, eqb_ℤ}
use srms.Payments.RefundStatus.{is_approved, is_applied}
use srms.Contracts.VoidImpact.Data.{
  EntityType, PaymentStatus, ImpactBill, ImpactPayment, ImpactRefund, ImpactRentRefund,
  PendingWorkflows, ImpactInput, ImpactRow,
}

abbrev pub Part : Type 0
Part = EntityType × (Option ℕ × ℤ)

abbrev pub part_of : ImpactRow → Part
part_of r = (r.entity_type, (r.entity_id, r.amount))

-- The payment was not voided.
abbrev pub is_standing : PaymentStatus → Bool
is_standing PaymentStatus.confirmed = true
is_standing PaymentStatus.voided = false
is_standing PaymentStatus.partially_refunded = true
is_standing PaymentStatus.fully_refunded = true

abbrev pub stands : ImpactPayment → Bool
stands p = is_standing p.status

abbrev pub has_standing : ImpactInput → ℕ → Bool
has_standing input id = any (λ (p : ImpactPayment). stands p && (p.id == id)) input.payments

abbrev pub workflows : EntityType → List ℕ → List Part
workflows entity ids = map (λ id. (entity, (some id, pos 0))) ids

abbrev pub refund_parts : ImpactInput → List Part
refund_parts input = elim input.refunds [
  | some refunds ↦
      map (λ (r : ImpactRefund). (EntityType.payment_refund, (some r.id, r.amount)))
        (filter
          (λ (r : ImpactRefund). is_approved r.approval_status && has_standing input r.payment_id)
          refunds)
  | none ↦
      map (λ (p : ImpactPayment). (EntityType.payment_refund, (some p.id, p.refunded_amount)))
        (filter (λ (p : ImpactPayment). stands p && not (eqb_ℤ p.refunded_amount (pos 0)))
          input.payments)
]

abbrev pub pending_parts : PendingWorkflows → List Part
pending_parts p =
    workflows EntityType.bill_adjustment p.adjustments
    ++ (workflows EntityType.payment_refund p.refunds
        ++ (workflows EntityType.payment_void_request p.void_requests
            ++ (workflows EntityType.contract_change p.changes
                ++ (workflows EntityType.pricing_rebate_entity p.rebates
                    ++ (workflows EntityType.checkout_settlement p.checkouts
                        ++ workflows EntityType.deposit_refund p.deposit_refunds)))))

abbrev pub balance_part : Bool → EntityType → ℕ → ℤ → List Part
balance_part true entity id balance = (entity, (some id, neg_ℤ balance)) ∷ []
balance_part false entity id balance = []

-- Every bill and payment is taken off, every refund put back, the balances are taken off, and a
-- workflow and the room only mentioned.
abbrev pub parts : (ℤ → Bool) → ImpactInput → List Part
parts is_positive input =
    map (λ (b : ImpactBill). (EntityType.rent_bill_entity, (some b.id, neg_ℤ b.payable_amount)))
      input.bills
    ++ (map (λ (p : ImpactPayment). (EntityType.payment_entity, (some p.id, neg_ℤ p.amount)))
          (filter stands input.payments)
        ++ (refund_parts input
            ++ (map
                  (λ (r : ImpactRentRefund).
                    (EntityType.checkout_rent_refund_allocation, (some r.id, r.amount)))
                  (filter
                    (λ (r : ImpactRentRefund).
                      is_applied r.status && has_standing input r.payment_id)
                    input.checkout_rent_refunds)
                ++ (balance_part (is_positive input.deposit_balance)
                      EntityType.contract_deposit_balance input.contract.id input.deposit_balance
                    ++ (balance_part (is_positive input.prepayment_balance)
                          EntityType.contract_prepayment_balance input.contract.id
                          input.prepayment_balance
                        ++ (pending_parts input.pending
                            ++ (workflows EntityType.checkout_settlement
                                  input.completed_checkout_ids
                                ++ (EntityType.room, (some input.contract.room_id, pos 0))
                                  ∷ [])))))))

-- Rows that stand for some parts.
abbrev pub StandsFor : List ImpactRow → List Part → Type 0
StandsFor rows ps = Perm (map part_of rows) ps
