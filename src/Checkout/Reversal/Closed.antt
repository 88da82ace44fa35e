-- ===== src/Checkout/Reversal/Closed.antt =====
-- The refunds and reservations of a settlement after the updates of
-- backend/src/checkout/checkout-approved-cancellation.ts.
use mathlib.Core.Path.{subst}
use srms.Prelude.{
  ℕ, ◌≡◌, refl, sym, Bool, true, false, not, ◌&&◌, List, [], ◌∷◌, filter, any, Bool-cases, inl, inr,
  arith, All,
}
use srms.Payments.RefundStatus.{ApprovalStatus, is_approved}
use srms.Payments.Store.{update_where, is_pending}
use srms.Checkout.Reservations.{RefundItem, is_of_settlement}
use srms.Checkout.RefundWriter.Tables.{DepositRefund, RentClaim}
use srms.Checkout.RefundWriter.Checks.{is_active}
use srms.Checkout.Reversal.{is_open_refund_of, pending_ids, is_pending_of}
use srms.Checkout.Reversal.RentRefunds.{released_claim}

abbrev pub with_cancelled : List ℕ → List DepositRefund → List DepositRefund
with_cancelled ids rows =
    update_where (is_pending_of ids)
      (λ (r : DepositRefund). record r { approval_status = ApprovalStatus.cancelled }) rows

module _ (settlement_id : ℕ) where
  abbrev is_open : DepositRefund → Bool
  is_open r = is_open_refund_of settlement_id r

  -- An open refund that the update does not cancel.
  abbrev is_kept : List ℕ → DepositRefund → Bool
  is_kept ids r = is_open r && not (is_pending_of ids r)

  pub kept-none :
      (ids : List ℕ) (rows : List DepositRefund)
      → All (λ r. is_kept ids r ≡ false) rows
      → filter is_open (with_cancelled ids rows) ≡ []
  kept-none ids [] h = refl
  kept-none ids (r ∷ rows) h =
      let rest = kept-none ids rows h.1 in
      elim (Bool-cases (is_pending_of ids r)) [
        | inl hit ↦
            let gone : is_open (record r { approval_status = ApprovalStatus.cancelled }) ≡ false =
              ground arith in
            rw (hit, gone) rest
        | inr miss ↦ let closed : is_open r ≡ false = ground (arith, h.0) in rw (miss, closed) rest
      ]

  kept-more :
      (id : ℕ) (ids : List ℕ) (rows : List DepositRefund)
      → All (λ r. is_kept ids r ≡ false) rows
      → All (λ r. is_kept (id ∷ ids) r ≡ false) rows
  kept-more id ids [] h = tt
  kept-more id ids (r ∷ rows) h = (ground (arith, h.0), kept-more id ids rows h.1)

  pub all-pending :
      (rows : List DepositRefund)
      → any (λ (r : DepositRefund). is_approved r.approval_status) (filter is_open rows) ≡ false
      → All (λ r. is_kept (pending_ids (filter is_open rows)) r ≡ false) rows
  all-pending [] h = tt
  all-pending (r ∷ rows) h = elim (Bool-cases (is_open r)) [
    | inr closed ↦
        let rest = all-pending rows (ground arith) in
        let same : pending_ids (filter is_open (r ∷ rows)) ≡ pending_ids (filter is_open rows) =
          rw closed refl in
        subst (λ (ids : List ℕ). All (λ x. is_kept ids x ≡ false) (r ∷ rows)) (sym same)
          (rw closed refl, rest)
    | inl opened ↦
        let rest = all-pending rows (ground arith) in
        let waits : is_pending r.approval_status ≡ true = ground arith in
        let same : pending_ids (filter is_open (r ∷ rows))
            ≡ r.id ∷ pending_ids (filter is_open rows) =
          rw (opened, waits) refl in
        subst (λ (ids : List ℕ). All (λ x. is_kept ids x ≡ false) (r ∷ rows)) (sym same)
          (ground arith, kept-more r.id (pending_ids (filter is_open rows)) rows rest)
  ]

-- Released reservations are not reserved.
pub none-reserved :
    (items : List RefundItem) (settlement_id : ℕ) (claims : List RentClaim)
    → filter is_active (
        filter
          (λ (c : RentClaim). is_of_settlement items settlement_id c.reservation)
          (update_where
            (λ (c : RentClaim). is_active c && is_of_settlement items settlement_id c.reservation)
            released_claim
            claims))
      ≡ []
none-reserved items settlement_id [] = refl
none-reserved items settlement_id (c ∷ cs) =
    let rest = none-reserved items settlement_id cs in
    elim (Bool-cases (is_active c)) [
      | inr free ↦ elim (Bool-cases (is_of_settlement items settlement_id c.reservation)) [
        | inl own ↦ rw (free, own, free) rest
        | inr other ↦ rw (free, other) rest
      ]
      | inl held ↦ elim (Bool-cases (is_of_settlement items settlement_id c.reservation)) [
        | inl own ↦ rw (held, own, own) rest
        | inr other ↦ rw (held, other, other) rest
      ]
    ]
