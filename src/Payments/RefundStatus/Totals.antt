-- ===== src/Payments/RefundStatus/Totals.antt =====
-- The totals of a payment's refunds, with and without the filters of the query.
use srms.Prelude.{
  ◌≡◌, refl, ◌↔◌, List, [], ◌∷◌, ◌++◌, map, filter, Bool-cases, sym, ◌∙◌, inl, inr, arith,
  if◌then◌else◌,
}
use mathlib.Core.Bool.{false≢true}
use srms.Prelude.Int.{ℤ, pos, ◌≤ℤ◌, ◌<ℤ◌, eqb_ℤ, eqb_ℤ_iff, sum_ℤ, sum_ℤ-append}
use srms.Prelude.Fallible.{ok}
use srms.Payments.RefundStatus.{
  PaymentAllocation, RefundAllocation, CheckoutRentRefundAllocation, CurrentRefund, select_rows,
  ordinary_where, checkout_where, ordinary_refund, checkout_refund, refund_total, allocated_total,
  PaymentRefundStatus, fully_refunded, partially_refunded, calculate_payment_refund_status,
}

-- The amounts that count as completed: of approved refunds, of applied checkout refunds, and of
-- the refund that is being completed.
abbrev pub completed_refunds : CurrentRefund → List RefundAllocation → List ℤ
completed_refunds current rs = map (λ r. r.reversed_amount) (filter (ordinary_where current) rs)

abbrev pub completed_checkouts : CurrentRefund → List CheckoutRentRefundAllocation → List ℤ
completed_checkouts current cs = map (λ c. c.reserved_amount) (filter (checkout_where current) cs)

abbrev pub completed_amounts : CurrentRefund → List PaymentAllocation → List ℤ
completed_amounts current [] = []
completed_amounts current (a ∷ xs) =
    completed_refunds current a.refund_allocations
    ++ completed_checkouts current a.checkout_allocations
    ++ completed_amounts current xs

module _ (current : CurrentRefund) where
  ordinary_refund-filter :
      (rs : List RefundAllocation)
      → ordinary_refund current (filter (ordinary_where current) rs)
        ≡ sum_ℤ (completed_refunds current rs)
  unfolding sum_ℤ
  ordinary_refund-filter [] = refl
  ordinary_refund-filter (r ∷ rs) = elim (Bool-cases (ordinary_where current r)) [
    | inl counts ↦ rw (counts, counts, ordinary_refund-filter rs)
    | inr passed ↦ rw passed (ordinary_refund-filter rs)
  ]

  checkout_refund-filter :
      (cs : List CheckoutRentRefundAllocation)
      → checkout_refund current (filter (checkout_where current) cs)
        ≡ sum_ℤ (completed_checkouts current cs)
  unfolding sum_ℤ
  checkout_refund-filter [] = refl
  checkout_refund-filter (c ∷ cs) = elim (Bool-cases (checkout_where current c)) [
    | inl counts ↦ rw (counts, counts, checkout_refund-filter cs)
    | inr passed ↦ rw passed (checkout_refund-filter cs)
  ]

  refund_total-eq :
      (xs : List PaymentAllocation)
      → refund_total current (map (select_rows current) xs) ≡ sum_ℤ (completed_amounts current xs)
  unfolding refund_total select_rows sum_ℤ
  refund_total-eq [] = refl
  refund_total-eq (a ∷ xs) =
      rw
        (
          ordinary_refund-filter a.refund_allocations,
          checkout_refund-filter a.checkout_allocations,
          refund_total-eq xs,
          sum_ℤ-append,
          sum_ℤ-append,
        )
        refl

  allocated_total-eq :
      (xs : List PaymentAllocation)
      → allocated_total (map (select_rows current) xs) ≡ allocated_total xs
  unfolding allocated_total select_rows
  allocated_total-eq [] = refl
  allocated_total-eq (a ∷ xs) = rw (allocated_total-eq xs)

-- What a computed status says of the payment's rows.
pub record Describes (rows : List PaymentAllocation) (current : CurrentRefund)
    (s : PaymentRefundStatus) : Type 0 where
  pub allocated_is : s.allocated ≡ allocated_total rows
  pub completed_is : s.completed ≡ sum_ℤ (completed_amounts current rows)
  pub allocated_pos : pos 0 <ℤ s.allocated
  pub completed_nonneg : pos 0 ≤ℤ s.completed
  pub completed_fits : s.completed ≤ℤ s.allocated
  pub status_is : (s.status ≡ fully_refunded) ↔ (s.completed ≡ s.allocated)

status_iff :
    (a b : ℤ)
    → ((if eqb_ℤ a b then fully_refunded else partially_refunded) ≡ fully_refunded) ↔ (a ≡ b)
status_iff a b = elim (Bool-cases (eqb_ℤ a b)) [
  | inl same ↦ (λ _. (eqb_ℤ_iff a b).0 same, λ _. rw same)
  | inr differ ↦ rw differ (λ h. cc, λ h. absurd (false≢true (sym differ ∙ (eqb_ℤ_iff a b).1 h)))
]

-- A status is computed only for a payment with a positive allocated amount. Its totals are those
-- of all the allocations, each approved, applied or current refund counted in full; they fit one
-- another, and the status is "fully refunded" exactly when they are equal.
pub calculate_payment_refund_status-Describes :
    (rows : List PaymentAllocation) (current : CurrentRefund) (s : PaymentRefundStatus)
    → calculate_payment_refund_status rows current ≡ ok s
    → Describes rows current s
unfolding calculate_payment_refund_status
calculate_payment_refund_status-Describes rows current s h = ground (
  arith,
  allocated_total-eq current rows,
  refund_total-eq current rows,
  status_iff (refund_total current (map (select_rows current) rows))
      (allocated_total (map (select_rows current) rows)),
)
