-- ===== src/Contracts/VoidImpact/Balanced.antt =====
-- `assertBalancedContractVoidImpact` on a computed impact, row by row and in total.
use srms.Prelude.{◌≡◌, refl, Bool, true, List, [], ◌∷◌, ◌++◌, map, All, Bool-cases, inl, inr, ℕ}
use srms.Prelude.Int.{ℤ, pos, ◌+ℤ◌, neg_ℤ, eqb_ℤ, eqb_ℤ_iff, int_laws}
use srms.Prelude.Fallible.{ok}
use srms.Contracts.VoidImpact.Data.{
  ReversalCategory, EntityType, PendingWorkflows, ImpactInput, Metadata, ImpactRow,
}
use srms.Contracts.VoidImpact.Compute.{
  bill_row, payment_row, refund_row, rent_refund_row, traceable_payments, approved_refunds,
  approved_rent_refunds, deposit_rows, prepayment_rows, impact_rows, compute_contract_void_impact,
  effective_payment, row_balances, assert_rows_balanced, assert_balanced_impact,
}
use srms.Contracts.VoidImpact.Rows.{
  workflow_rows, sorted_ids, row_before, insert_row, sort_rows, pending_rows,
}

abbrev AllBalanced : List ImpactRow → Type 0
AllBalanced rs = All (λ r. row_balances r ≡ true) rs

negation_balances : (a : ℤ) → eqb_ℤ (a +ℤ neg_ℤ a) (pos 0) ≡ true
negation_balances a = (eqb_ℤ_iff (a +ℤ neg_ℤ a) (pos 0)).1 (omega int_laws)

append-AllBalanced :
    (xs ys : List ImpactRow) → AllBalanced xs → AllBalanced ys → AllBalanced (xs ++ ys)
append-AllBalanced [] ys h k = k
append-AllBalanced (x ∷ xs) ys h k = (h.0, append-AllBalanced xs ys h.1 k)

map-AllBalanced :
    {A : Type 0} (f : A → ImpactRow) (xs : List A)
    → ((x : A) → row_balances (f x) ≡ true)
    → AllBalanced (map f xs)
map-AllBalanced f [] h = tt
map-AllBalanced f (x ∷ xs) h = (h x, map-AllBalanced f xs h)

workflow-AllBalanced :
    (c : ReversalCategory) (e : EntityType) (m : Metadata) (ids : List ℕ)
    → AllBalanced (workflow_rows c e m ids)
workflow-AllBalanced c e m ids = map-AllBalanced _ (sorted_ids ids) (λ id. refl)

pending-AllBalanced : (p : PendingWorkflows) → AllBalanced (pending_rows p)
unfolding pending_rows
pending-AllBalanced p = search (append-AllBalanced, workflow-AllBalanced) depth 16

insert-AllBalanced :
    (r : ImpactRow) (rs : List ImpactRow)
    → row_balances r ≡ true
    → AllBalanced rs
    → AllBalanced (insert_row r rs)
unfolding insert_row
insert-AllBalanced r [] h k = (h, tt)
insert-AllBalanced r (x ∷ xs) h k = elim (Bool-cases (row_before r x)) [
  | inl first ↦ rw first (h, k)
  | inr later ↦ rw later (k.0, insert-AllBalanced r xs h k.1)
]

sort-AllBalanced : (rs : List ImpactRow) → AllBalanced rs → AllBalanced (sort_rows rs)
unfolding sort_rows
sort-AllBalanced [] h = tt
sort-AllBalanced (r ∷ rs) h = insert-AllBalanced r (sort_rows rs) h.0 (sort-AllBalanced rs h.1)

assert_rows-AllBalanced : (rs : List ImpactRow) → AllBalanced rs → assert_rows_balanced rs ≡ ok tt
unfolding assert_rows_balanced
assert_rows-AllBalanced [] h = refl
assert_rows-AllBalanced (r ∷ rs) h = rw (h.0, assert_rows-AllBalanced rs h.1)

module _ (is_positive : ℤ → Bool) (input : ImpactInput) where
  deposit-AllBalanced : AllBalanced (deposit_rows is_positive input)
  unfolding deposit_rows
  deposit-AllBalanced = elim (Bool-cases (is_positive input.deposit_balance)) [
    | inl some_left ↦ rw some_left (negation_balances input.deposit_balance, tt)
    | inr none_left ↦ rw none_left tt
  ]

  prepayment-AllBalanced : AllBalanced (prepayment_rows is_positive input)
  unfolding prepayment_rows
  prepayment-AllBalanced = elim (Bool-cases (is_positive input.prepayment_balance)) [
    | inl some_left ↦ rw some_left (negation_balances input.prepayment_balance, tt)
    | inr none_left ↦ rw none_left tt
  ]

  impact_rows-AllBalanced : AllBalanced (impact_rows is_positive input)
  unfolding impact_rows
  impact_rows-AllBalanced =
      append-AllBalanced (map bill_row input.bills) _
        (map-AllBalanced bill_row input.bills (λ b. negation_balances b.payable_amount))
        (append-AllBalanced (map payment_row (traceable_payments input)) _
          (map-AllBalanced payment_row (traceable_payments input) (λ p. negation_balances p.amount))
          (append-AllBalanced (map refund_row (approved_refunds input)) _
            (map-AllBalanced refund_row (approved_refunds input)
              (λ r. negation_balances (neg_ℤ r.amount)))
            (append-AllBalanced (map rent_refund_row (approved_rent_refunds input)) _
              (map-AllBalanced rent_refund_row (approved_rent_refunds input)
                (λ r. negation_balances (neg_ℤ r.amount)))
              (append-AllBalanced (deposit_rows is_positive input) _ deposit-AllBalanced (
                append-AllBalanced (prepayment_rows is_positive input) _ prepayment-AllBalanced (
                  append-AllBalanced (pending_rows input.pending) _
                    (pending-AllBalanced input.pending)
                    (append-AllBalanced _ _
                      (workflow-AllBalanced _ _ _ input.completed_checkout_ids) (refl, tt))))))))

  -- The balance check passes on every impact that is computed, whatever the contract's history and
  -- however the library tells the sign of the balances.
  pub compute_contract_void_impact_balanced :
      assert_balanced_impact (compute_contract_void_impact is_positive input) ≡ ok tt
  unfolding assert_balanced_impact compute_contract_void_impact
  compute_contract_void_impact_balanced =
      rw
        (
          assert_rows-AllBalanced _ (
              sort-AllBalanced _
                (sort-AllBalanced (impact_rows is_positive input) impact_rows-AllBalanced)),
          negation_balances (effective_payment input),
        )
        refl
