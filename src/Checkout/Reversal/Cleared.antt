-- ===== src/Checkout/Reversal/Cleared.antt =====
-- Which offsets and approved refunds the queries of
-- backend/src/checkout/checkout-completed-reversal.ts find after its loop over refunds.
use mathlib.Core.Path.{subst}
use srms.Prelude.{
  ℕ, ◌≡◌, refl, sym, ap, Bool, false, not, ◌&&◌, List, [], ◌∷◌, ◌++◌, map, filter, contains,
  Bool-cases, inl, inr, arith, All,
}
use srms.Payments.RefundStatus.{ApprovalStatus, is_approved}
use srms.Checkout.RefundWriter.Tables.{DepositRefund}
use srms.Checkout.Reversal.Tables.{DepositRow}
use srms.Checkout.Reversal.Ledgers.{is_offset, is_cancellable}
use srms.Checkout.Reversal.Extended.{IsNoOffset}
use srms.Checkout.Reversal.Refunded.{cancel_refund, cancel_each}

-- Rows that are no offsets do not change which offsets are found.
pub offsets-appended :
    (settlement_id : ℕ) (ds rows : List DepositRow)
    → All IsNoOffset rows
    → filter (is_offset settlement_id) (ds ++ rows) ≡ filter (is_offset settlement_id) ds
offsets-appended settlement_id [] [] h = refl
offsets-appended settlement_id [] (d ∷ rows) h =
    let passed : is_offset settlement_id d ≡ false = ground (arith, h.0) in
    rw passed (offsets-appended settlement_id [] rows h.1)
offsets-appended settlement_id (d ∷ ds) rows h = elim (Bool-cases (is_offset settlement_id d)) [
  | inl found ↦ rw found (ap (λ xs. d ∷ xs) (offsets-appended settlement_id ds rows h))
  | inr passed ↦ rw passed (offsets-appended settlement_id ds rows h)
]

-- An approved refund of the settlement whose id is not among some.
abbrev is_left : (DepositRefund → Bool) → List DepositRefund → DepositRefund → Bool
is_left own rs r =
    own r
    && is_approved r.approval_status
    && not (contains r.id (map (λ (x : DepositRefund). x.id) rs))

module _ (own : DepositRefund → Bool)
    (own_same : (r : DepositRefund) (status : ApprovalStatus)
      → own (record r { approval_status = status }) ≡ own r) where
  left-cancel :
      (r : DepositRefund) (rs rows : List DepositRefund)
      → All (λ x. is_left own (r ∷ rs) x ≡ false) rows
      → All (λ x. is_left own rs x ≡ false) (cancel_refund r.id rows)
  left-cancel r rs [] h = tt
  left-cancel r rs (x ∷ rows) h =
      let rest = left-cancel r rs rows h.1 in
      elim (Bool-cases (is_cancellable r.id x)) [
        | inl hit ↦ rw hit (ground arith, rest)
        | inr miss ↦ rw miss (ground (arith, h.0), rest)
      ]

  left-none :
      (rows : List DepositRefund)
      → All (λ x. is_left own [] x ≡ false) rows
      → filter (λ r. own r && is_approved r.approval_status) rows ≡ []
  left-none [] h = refl
  left-none (x ∷ rows) h =
      let passed : own x && is_approved x.approval_status ≡ false = ground (arith, h.0) in
      rw passed (left-none rows h.1)

  left-each :
      (rs rows : List DepositRefund)
      → All (λ x. is_left own rs x ≡ false) rows
      → filter (λ r. own r && is_approved r.approval_status) (cancel_each rs rows) ≡ []
  left-each [] rows h = left-none rows h
  left-each (r ∷ rs) rows h = left-each rs (cancel_refund r.id rows) (left-cancel r rs rows h)

  left-more :
      (r : DepositRefund) (rs rows : List DepositRefund)
      → All (λ x. is_left own rs x ≡ false) rows
      → All (λ x. is_left own (r ∷ rs) x ≡ false) rows
  left-more r rs [] h = tt
  left-more r rs (x ∷ rows) h = (ground (arith, h.0), left-more r rs rows h.1)

  left-start :
      (rows : List DepositRefund)
      → All
          (λ x. is_left own (filter (λ r. own r && is_approved r.approval_status) rows) x ≡ false)
          rows
  left-start [] = tt
  left-start (r ∷ rows) =
      let rest = left-start rows in
      let own_rows = filter (λ (x : DepositRefund). own x && is_approved x.approval_status) rows in
      elim (Bool-cases (own r && is_approved r.approval_status)) [
        | inl chosen ↦
            let listed : filter (λ (x : DepositRefund). own x && is_approved x.approval_status)
                  (r ∷ rows)
                ≡ r ∷ own_rows =
              rw chosen refl in
            subst (λ (rs : List DepositRefund). All (λ x. is_left own rs x ≡ false) (r ∷ rows))
              (sym listed) (ground arith, left-more r own_rows rows rest)
        | inr passed ↦
            let listed : filter (λ (x : DepositRefund). own x && is_approved x.approval_status)
                  (r ∷ rows)
                ≡ own_rows =
              rw passed refl in
            subst (λ (rs : List DepositRefund). All (λ x. is_left own rs x ≡ false) (r ∷ rows))
              (sym listed) (ground arith, rest)
      ]

  -- After the loop over all approved refunds of a settlement none of them is approved.
  pub cancel_each-none :
      (rows : List DepositRefund)
      → filter
          (λ r. own r && is_approved r.approval_status)
          (cancel_each (filter (λ r. own r && is_approved r.approval_status) rows) rows)
        ≡ []
  cancel_each-none rows =
      left-each (filter (λ r. own r && is_approved r.approval_status) rows) rows (left-start rows)
