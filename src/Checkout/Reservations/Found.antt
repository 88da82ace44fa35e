-- ===== src/Checkout/Reservations/Found.antt =====
-- What the candidates of `loadCheckoutRentRefundCandidates` have of an allocation:
-- backend/src/checkout/checkout-rent-refund-reservations.ts.
use srms.Prelude.{
  ℕ, ◌==◌, ◌≡◌, ◌⊎◌, refl, false, Option-cases, List, [], ◌∷◌, find, Bool-cases, inl, inr, arith,
  All, ==_refl,
}
use srms.Prelude.Int.{pos, ◌≤ℤ◌, sum_ℤ, int_laws}
use srms.Payments.Store.{RentBill, PaymentAllocation, find_bill}
use srms.Payments.Store.Sweep.{HasKeys, Without}
use srms.Checkout.RentRefund.{RentRefundCandidate}
use srms.Checkout.RentRefund.Shares.{available_of, NotNegative}
use srms.Checkout.Reservations.{
  RentPayment, RefundTables, has_pending_void, available_amount, candidate, candidates_of,
  is_rent_allocation,
}

abbrev pub allocation_id : PaymentAllocation → ℕ
allocation_id a = a.id

-- The candidates of one allocation.
module _ (s : RefundTables) (contract_id settlement_id : ℕ) where
  abbrev pub found : List PaymentAllocation → List RentRefundCandidate
  found as' = candidates_of s contract_id settlement_id as'

  -- An allocation is a candidate, or is passed over.
  pub found-cases :
      (a : PaymentAllocation) (as' : List PaymentAllocation)
      → (found (a ∷ as') ≡ found as')
        ⊎ ((p : RentPayment) × (b : RentBill) × (found (a ∷ as')
              ≡ candidate s settlement_id a p b ∷ found as'))
  found-cases a as' =
      elim (Option-cases (find (λ (p : RentPayment). p.id == a.payment_id) s.payments)) [
        | inl no_payment ↦ inl (ground arith)
        | inr (p, payment) ↦ elim (Option-cases (find_bill a.rent_bill_id s.bills)) [
          | inl no_bill ↦ inl (ground arith)
          | inr (b, bill) ↦ elim (Bool-cases (is_rent_allocation contract_id p b)) [
            | inl rent ↦ inr (p, b, ground arith)
            | inr other ↦ inl (ground arith)
          ]
        ]
      ]

  available_nonneg : (a : PaymentAllocation) → pos 0 ≤ℤ available_amount s settlement_id a
  available_nonneg a = elim (Bool-cases (has_pending_void s.void_requests a.payment_id)) [
    | inl void ↦ rw void (omega arith)
    | inr none_pending ↦ rw none_pending (omega int_laws)
  ]

  pub found-NotNegative : (as' : List PaymentAllocation) → NotNegative (found as')
  found-NotNegative [] = tt
  found-NotNegative (a ∷ as') = elim (found-cases a as') [
    | inl passed ↦ rw passed (found-NotNegative as')
    | inr (p, b, taken) ↦ rw taken (available_nonneg a, found-NotNegative as')
  ]

  found-Without :
      (k : ℕ) (as' : List PaymentAllocation)
      → Without allocation_id k as'
      → available_of k (found as') ≡ pos 0
  unfolding sum_ℤ
  found-Without k [] h = refl
  found-Without k (a ∷ as') h = elim (found-cases a as') [
    | inl passed ↦ rw passed (found-Without k as' h.1)
    | inr (p, b, taken) ↦ rw (taken, h.0) (found-Without k as' h.1)
  ]

  found-later :
      (a : PaymentAllocation) (as' xs : List PaymentAllocation)
      → Without allocation_id a.id xs
      → All
          (λ (x : PaymentAllocation).
            available_of x.id (found as') ≤ℤ available_amount s settlement_id x)
          xs
      → All
          (λ (x : PaymentAllocation).
            available_of x.id (found (a ∷ as')) ≤ℤ available_amount s settlement_id x)
          xs
  unfolding sum_ℤ
  found-later a as' [] apart h = tt
  found-later a as' (x ∷ xs) apart h =
      let other : (a.id == x.id) ≡ false = ground (arith, apart.0) in
      let rest = found-later a as' xs apart.1 h.1 in
      elim (found-cases a as') [
        | inl passed ↦ (rw passed h.0, rest)
        | inr (p, b, taken) ↦ (rw (taken, other) h.0, rest)
      ]

  -- On a table with keys, the candidates have no more of an allocation than is available of it.
  pub found-available :
      (as' : List PaymentAllocation)
      → HasKeys allocation_id as'
      → All
          (λ (x : PaymentAllocation).
            available_of x.id (found as') ≤ℤ available_amount s settlement_id x)
          as'
  unfolding sum_ℤ
  found-available [] keys = tt
  found-available (a ∷ as') keys =
      let rest = found-later a as' as' keys.0 (found-available as' keys.1) in
      let nothing = found-Without a.id as' keys.0 in
      elim (found-cases a as') [
        | inl passed ↦ (rw (passed, nothing) (available_nonneg a), rest)
        | inr (p, b, taken) ↦ (rw (taken, ==_refl a.id, nothing) (omega int_laws), rest)
      ]
