-- ===== src/Checkout/FutureBills/Links.antt =====
-- What the query of `reverseFutureCheckoutBillNormalization` finds after a normalization.
use srms.Prelude.{
  ℕ, suc, ◌==◌, ◌≡◌, refl, ap, ◌∙◌, Bool, true, false, if◌then◌else◌, some, List, [], ◌∷◌, ◌++◌,
  map, filter, Bool-cases, inl, inr, arith, All, ==_refl,
}
use srms.Payments.Store.{RentBill, BillAdjustment, find_bill}
use srms.Payments.Store.Sweep.{HasKeys, Without}
use srms.Checkout.FutureBills.{
  NormalizationInput, is_future, cancel, cancellation, is_open_cancellation, Linked,
  open_cancellations,
}
use srms.Checkout.FutureBills.Cancelled.{id_of, is_settled, cancelled, cancellations}

-- Each adjustment that the normalization of bills books, with the bill as it leaves it.
abbrev pub links : NormalizationInput → ℕ → List RentBill → List Linked
links input next [] = []
links input next (b ∷ bs) =
    let skipped = links input next bs in
    let linked =
      record { adjustment = cancellation input next b; bill = cancel b b }
      ∷ links input (suc next) bs in
    if is_settled b then skipped else linked

find-skip :
    (g : RentBill → RentBill) (same : (b : RentBill) → (g b).id ≡ b.id) (b : RentBill)
    (rows xs : List RentBill)
    → Without id_of b.id xs
    → All (λ x. find_bill x.id (map g rows) ≡ some (g x)) xs
    → All (λ x. find_bill x.id (g b ∷ map g rows) ≡ some (g x)) xs
find-skip g same b rows [] apart h = tt
find-skip g same b rows (x ∷ xs) apart h =
    let other : (b.id == x.id) ≡ false = ground (arith, apart.0) in
    (rw (same b, other) h.0, find-skip g same b rows xs apart.1 h.1)

pub find_key :
    (g : RentBill → RentBill) (same : (b : RentBill) → (g b).id ≡ b.id) (rows : List RentBill)
    → HasKeys id_of rows
    → All (λ b. find_bill b.id (map g rows) ≡ some (g b)) rows
find_key g same [] keys = tt
find_key g same (b ∷ rows) keys = (
  rw (same b, ==_refl b.id) refl,
  find-skip g same b rows rows keys.0 (find_key g same rows keys.1),
)

pub All-filter :
    (P : RentBill → Type 0) (p : RentBill → Bool) (xs : List RentBill)
    → All P xs
    → All (λ x. P x × (p x ≡ true)) (filter p xs)
All-filter P p [] h = tt
All-filter P p (x ∷ xs) h = elim (Bool-cases (p x)) [
  | inl kept ↦ rw kept ((h.0, kept), All-filter P p xs h.1)
  | inr dropped ↦ rw dropped (All-filter P p xs h.1)
]

module _ (input input' : NormalizationInput)
    (same_settlement : input.settlement_id ≡ input'.settlement_id)
    (same_contract : input.contract_id ≡ input'.contract_id) where
  pub open_cancellations-append :
      (bills : List RentBill) (xs ys : List BillAdjustment)
      → All (λ a. is_open_cancellation input' a ≡ false) xs
      → open_cancellations input' bills (xs ++ ys) ≡ open_cancellations input' bills ys
  unfolding open_cancellations
  open_cancellations-append bills [] ys h = refl
  open_cancellations-append bills (a ∷ xs) ys h = rw h.0 (open_cancellations-append bills xs ys h.1)

  -- A bill that the loop cancels is found as the loop leaves it.
  abbrev pub IsFound : List RentBill → RentBill → Type 0
  IsFound bills b = (find_bill b.id bills ≡ some (cancelled b)) × (is_future input b ≡ true)

  open_cancellations-one :
      (bills : List RentBill) (next : ℕ) (b : RentBill) (xs : List BillAdjustment)
      → is_settled b ≡ false
      → IsFound bills b
      → open_cancellations input' bills (cancellation input next b ∷ xs)
        ≡ record { adjustment = cancellation input next b; bill = cancel b b }
          ∷ open_cancellations input' bills xs
  unfolding open_cancellations
  open_cancellations-one bills next b xs unsettled (found, future) =
      let own : (b.contract_id == input'.contract_id) ≡ true =
        ground (arith, future, same_contract) in
      let here : find_bill b.id bills ≡ some (cancel b b) = found ∙ ap some (rw unsettled refl) in
      let settlement : (input.settlement_id == input'.settlement_id) ≡ true =
        ground (arith, same_settlement) in
      ground (arith, here, own, settlement)

  pub open_cancellations-links :
      (bills : List RentBill) (next : ℕ) (bs : List RentBill)
      → All (IsFound bills) bs
      → open_cancellations input' bills (cancellations input next bs) ≡ links input next bs
  open_cancellations-links bills next [] h = unfold open_cancellations in refl
  open_cancellations-links bills next (b ∷ bs) h = elim (Bool-cases (is_settled b)) [
    | inl settled ↦ rw settled (open_cancellations-links bills next bs h.1)
    | inr unsettled ↦ rw unsettled (
        open_cancellations-one bills next b (cancellations input (suc next) bs) unsettled h.0
        ∙ ap (λ ls. record { adjustment = cancellation input next b; bill = cancel b b } ∷ ls)
            (open_cancellations-links bills (suc next) bs h.1))
  ]
