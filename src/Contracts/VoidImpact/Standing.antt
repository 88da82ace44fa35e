-- ===== src/Contracts/VoidImpact/Standing.antt =====
-- The rows that backend/src/contracts/contract-void-impact.ts makes stand for the parts of the
-- contract.
use srms.Prelude.{
  ℕ, ◌==◌, ◌≡◌, refl, ap, ◌∙◌, Bool, true, ◌&&◌, not, some, none, List, [], ◌∷◌, ◌++◌, map, filter,
  any, contains, leb, Bool-cases, inl, inr, arith, Option-cases,
}
use mathlib.Core.Path.{fun_ext}
use mathlib.Core.List.{Perm, map-append}
use mathlib.Core.List.Perm
use srms.Prelude.Int.{ℤ, pos, neg_ℤ, eqb_ℤ, int_laws}
use srms.Payments.RefundStatus.{ApprovalStatus, is_approved, is_applied}
use srms.Contracts.VoidImpact.Data.{
  EntityType, ReversalCategory, Metadata, pending_workflow, completed_workflow, PaymentStatus,
  ImpactPayment, ImpactRefund, ImpactRentRefund, PendingWorkflows, ImpactInput, ImpactRow,
}
use srms.Contracts.VoidImpact.Rows.{
  insert_id, sorted_ids, workflow_rows, indicator_row, pending_rows,
}
use srms.Contracts.VoidImpact.Compute.{
  payment_ids, is_voided, traceable_payments, approved_refunds, approved_rent_refunds, bill_row,
  payment_row, refund_row, rent_refund_row, deposit_rows, prepayment_rows, impact_rows,
}
use srms.Contracts.VoidImpact.Parts.{
  Part, part_of, is_standing, stands, has_standing, workflows, refund_parts, pending_parts,
  balance_part, parts, StandsFor,
}

StandsFor-append :
    (rows rows' : List ImpactRow) (ps ps' : List Part)
    → StandsFor rows ps
    → StandsFor rows' ps'
    → StandsFor (rows ++ rows') (ps ++ ps')
StandsFor-append rows rows' ps ps' h k = rw (map-append part_of rows rows') (Perm.append h k)

StandsFor-map :
    {A : Type 0} (row : A → ImpactRow) (part : A → Part)
    → ((a : A) → part_of (row a) ≡ part a)
    → (xs : List A) → StandsFor (map row xs) (map part xs)
StandsFor-map row part same [] = Perm.refl []
StandsFor-map row part same (x ∷ xs) =
    rw (same x) (Perm.cons (part x) (StandsFor-map row part same xs))

insert_id-perm : (id : ℕ) (ids : List ℕ) → Perm (insert_id id ids) (id ∷ ids)
insert_id-perm id [] = Perm.refl (id ∷ [])
insert_id-perm id (x ∷ xs) = elim (Bool-cases (leb id x)) [
  | inl first ↦ rw first (Perm.refl (id ∷ x ∷ xs))
  | inr later ↦ rw later (Perm.trans (Perm.cons x (insert_id-perm id xs)) (Perm.swap id x xs))
]

sorted_ids-perm : (ids : List ℕ) → Perm (sorted_ids ids) ids
unfolding sorted_ids
sorted_ids-perm [] = Perm.refl []
sorted_ids-perm (id ∷ ids) =
    Perm.trans (insert_id-perm id (sorted_ids ids)) (Perm.cons id (sorted_ids-perm ids))

StandsFor-workflows :
    (category : ReversalCategory) (entity : EntityType) (metadata : Metadata) (ids : List ℕ)
    → StandsFor (workflow_rows category entity metadata ids) (workflows entity ids)
StandsFor-workflows category entity metadata ids =
    Perm.trans
      (StandsFor-map (λ id. indicator_row category entity (some id) metadata)
        (λ id. (entity, (some id, pos 0))) (λ id. refl) (sorted_ids ids))
      (Perm.map (λ id. (entity, (some id, pos 0))) (sorted_ids-perm ids))

StandsFor-pending : (p : PendingWorkflows) → StandsFor (pending_rows p) (pending_parts p)
unfolding pending_rows
StandsFor-pending p =
    StandsFor-append _ _ _ _
      (StandsFor-workflows ReversalCategory.adjustment EntityType.bill_adjustment pending_workflow
        p.adjustments)
      (StandsFor-append _ _ _ _
        (StandsFor-workflows ReversalCategory.refund EntityType.payment_refund pending_workflow
          p.refunds)
        (StandsFor-append _ _ _ _
          (StandsFor-workflows ReversalCategory.payment EntityType.payment_void_request
            pending_workflow p.void_requests)
          (StandsFor-append _ _ _ _
            (StandsFor-workflows ReversalCategory.rent_bill EntityType.contract_change
              pending_workflow p.changes)
            (StandsFor-append _ _ _ _
              (StandsFor-workflows ReversalCategory.pricing_rebate EntityType.pricing_rebate_entity
                pending_workflow p.rebates)
              (StandsFor-append _ _ _ _
                (StandsFor-workflows ReversalCategory.checkout EntityType.checkout_settlement
                  pending_workflow p.checkouts)
                (StandsFor-workflows ReversalCategory.deposit EntityType.deposit_refund
                  pending_workflow p.deposit_refunds))))))

neg_back : (a : ℤ) → neg_ℤ (neg_ℤ a) ≡ a
neg_back a = omega int_laws

standing_lem : (s : PaymentStatus) → not (is_voided s) ≡ is_standing s
standing_lem PaymentStatus.confirmed = refl
standing_lem PaymentStatus.voided = refl
standing_lem PaymentStatus.partially_refunded = refl
standing_lem PaymentStatus.fully_refunded = refl

stands_lem : (p : ImpactPayment) → not (is_voided p.status) ≡ stands p
stands_lem p = standing_lem p.status

standing_ids :
    (id : ℕ) (ps : List ImpactPayment)
    → contains id (payment_ids (filter (λ p. not (is_voided p.status)) ps))
      ≡ any (λ (p : ImpactPayment). stands p && (p.id == id)) ps
standing_ids id [] = refl
standing_ids id (p ∷ ps) = elim (Bool-cases (stands p)) [
  | inl standing ↦ rw (stands_lem p, standing) (ground (arith, standing_ids id ps))
  | inr gone ↦ rw (stands_lem p, gone) (standing_ids id ps)
]

filter_twice :
    {A : Type 0} (p q : A → Bool) (xs : List A)
    → filter q (filter p xs) ≡ filter (λ x. p x && q x) xs
filter_twice p q [] = refl
filter_twice p q (x ∷ xs) = elim (Bool-cases (p x)) [
  | inl hit ↦ elim (Bool-cases (q x)) [
    | inl both ↦ rw (hit, both) (ap (λ ys. x ∷ ys) (filter_twice p q xs))
    | inr first ↦ rw (hit, first) (filter_twice p q xs)
  ]
  | inr miss ↦ rw miss (filter_twice p q xs)
]

abbrev derived_refund : ImpactPayment → ImpactRefund
derived_refund p = record {
  id = p.id;
  payment_id = p.id;
  approval_status = ApprovalStatus.approved;
  amount = p.refunded_amount;
  occurred_at = p.occurred_at;
  derived = true;
}

StandsFor-derived :
    (ps : List ImpactPayment)
    → StandsFor (map refund_row (map derived_refund ps)) (
        map (λ (p : ImpactPayment). (EntityType.payment_refund, (some p.id, p.refunded_amount))) ps)
StandsFor-derived [] = Perm.refl []
StandsFor-derived (p ∷ ps) = rw (neg_back p.refunded_amount) (Perm.cons _ (StandsFor-derived ps))

module _ (input : ImpactInput) where
  traceable_lem : traceable_payments input ≡ filter stands input.payments
  unfolding traceable_payments
  traceable_lem = ap (λ (q : (ImpactPayment → Bool)). filter q input.payments) (fun_ext stands_lem)

  traceable_ids :
      (id : ℕ) → contains id (payment_ids (traceable_payments input)) ≡ has_standing input id
  unfolding traceable_payments
  traceable_ids id = standing_ids id input.payments

  abbrev is_counted : ImpactRefund → Bool
  is_counted r = is_approved r.approval_status && has_standing input r.payment_id

  given_lem :
      (refunds : List ImpactRefund)
      → input.refunds ≡ some refunds
      → approved_refunds input ≡ filter is_counted refunds
  unfolding approved_refunds
  given_lem refunds given = rw given (
      ap (λ (q : (ImpactRefund → Bool)). filter q refunds)
        (fun_ext (λ r. ap (λ b. is_approved r.approval_status && b) (traceable_ids r.payment_id))))

  abbrev is_refunded_part : ImpactPayment → Bool
  is_refunded_part p = not (eqb_ℤ p.refunded_amount (pos 0))

  derived_lem :
      input.refunds ≡ none
      → approved_refunds input
        ≡ map derived_refund (filter (λ p. stands p && is_refunded_part p) input.payments)
  unfolding approved_refunds
  derived_lem derived = rw derived (
      ap (λ ps. map derived_refund (filter is_refunded_part ps)) traceable_lem
      ∙ ap (map derived_refund) (filter_twice stands is_refunded_part input.payments))

  StandsFor-refunds : StandsFor (map refund_row (approved_refunds input)) (refund_parts input)
  StandsFor-refunds = elim (Option-cases input.refunds) [
    | inl derived ↦
        rw (derived_lem derived, derived)
          (StandsFor-derived (filter (λ p. stands p && is_refunded_part p) input.payments))
    | inr (refunds, given) ↦
        rw (given_lem refunds given, given)
          (StandsFor-map refund_row (λ r. (EntityType.payment_refund, (some r.id, r.amount)))
            (λ r. ap (λ a. (EntityType.payment_refund, (some r.id, a))) (neg_back r.amount))
            (filter is_counted refunds))
  ]

  rent_refund_lem :
      approved_rent_refunds input
      ≡ filter
          (λ (r : ImpactRentRefund). is_applied r.status && has_standing input r.payment_id)
          input.checkout_rent_refunds
  unfolding approved_rent_refunds
  rent_refund_lem =
      ap (λ (q : (ImpactRentRefund → Bool)). filter q input.checkout_rent_refunds)
        (fun_ext (λ r. ap (λ b. is_applied r.status && b) (traceable_ids r.payment_id)))

  module _ (is_positive : ℤ → Bool) where
    StandsFor-deposit : StandsFor (deposit_rows is_positive input) (
        balance_part
          (is_positive input.deposit_balance)
          EntityType.contract_deposit_balance
          input.contract.id
          input.deposit_balance)
    unfolding deposit_rows
    StandsFor-deposit = elim (Bool-cases (is_positive input.deposit_balance)) [
      | inl held ↦ rw held (Perm.refl _)
      | inr bare ↦ rw bare (Perm.refl [])
    ]

    StandsFor-prepayment : StandsFor (prepayment_rows is_positive input) (
        balance_part
          (is_positive input.prepayment_balance)
          EntityType.contract_prepayment_balance
          input.contract.id
          input.prepayment_balance)
    unfolding prepayment_rows
    StandsFor-prepayment = elim (Bool-cases (is_positive input.prepayment_balance)) [
      | inl held ↦ rw held (Perm.refl _)
      | inr bare ↦ rw bare (Perm.refl [])
    ]

    pub impact_rows-StandsFor : StandsFor (impact_rows is_positive input) (parts is_positive input)
    unfolding impact_rows
    impact_rows-StandsFor =
        rw (rent_refund_lem, traceable_lem)
          (StandsFor-append _ _ _ _
            (StandsFor-map bill_row
              (λ b. (EntityType.rent_bill_entity, (some b.id, neg_ℤ b.payable_amount))) (λ b. refl)
              input.bills)
            (StandsFor-append _ _ _ _
              (StandsFor-map payment_row
                (λ p. (EntityType.payment_entity, (some p.id, neg_ℤ p.amount))) (λ p. refl)
                (filter stands input.payments))
              (StandsFor-append _ _ _ _ StandsFor-refunds (
                StandsFor-append _ _ _ _
                  (StandsFor-map rent_refund_row
                    (λ r. (EntityType.checkout_rent_refund_allocation, (some r.id, r.amount)))
                    (λ r.
                      ap (λ a. (EntityType.checkout_rent_refund_allocation, (some r.id, a)))
                        (neg_back r.amount))
                    (filter
                      (λ (r : ImpactRentRefund).
                        is_applied r.status && has_standing input r.payment_id)
                      input.checkout_rent_refunds))
                  (StandsFor-append _ _ _ _ StandsFor-deposit (
                    StandsFor-append _ _ _ _ StandsFor-prepayment (
                      StandsFor-append _ _ _ _ (StandsFor-pending input.pending) (
                        StandsFor-append _ _ _ _
                          (StandsFor-workflows ReversalCategory.checkout
                            EntityType.checkout_settlement completed_workflow
                            input.completed_checkout_ids)
                          (Perm.refl _)))))))))
