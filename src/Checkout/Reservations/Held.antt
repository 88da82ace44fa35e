-- ===== src/Checkout/Reservations/Held.antt =====
-- What the reservations of backend/src/checkout/checkout-rent-refund-reservations.ts hold of an
-- allocation, after a release and with new ones.
use srms.Prelude.{
  ℕ, ◌==◌, ◌≡◌, refl, sym, ap, ◌∙◌, Bool, true, false, not, ◌&&◌, List, [], ◌∷◌, ◌++◌, map, filter,
  Bool-cases, inl, inr, arith, All,
}
use srms.Prelude.Int.{ℤ, pos, ◌+ℤ◌, ◌≤ℤ◌, sum_ℤ, int_laws, zero_+ℤ, +ℤ_assoc}
use srms.Payments.RefundStatus.{ReservationStatus}
use srms.Payments.Store.{update_where, is_reserved}
use srms.Checkout.RentRefund.{RefundShare}
use srms.Checkout.RentRefund.Shares.{amount_of, AreHeld}
use srms.Checkout.Reservations.{RentReservation, RefundItem, is_of_settlement, reservation}

-- What the reservations of all settlements hold of an allocation.
abbrev pub reserved_for : ℕ → List RentReservation → ℤ
reserved_for k rs = sum_ℤ (
    map (λ (r : RentReservation). r.reserved_amount)
      (filter (λ (r : RentReservation). (r.payment_allocation_id == k) && is_reserved r.status) rs))

abbrev pub AmountsHeld : List RentReservation → Type 0
AmountsHeld rs = All (λ (r : RentReservation). pos 0 ≤ℤ r.reserved_amount) rs

module _ (items : List RefundItem) (settlement_id : ℕ) where
  abbrev pub is_released : RentReservation → Bool
  is_released r = is_reserved r.status && is_of_settlement items settlement_id r

  abbrev pub freed : RentReservation → RentReservation
  freed r = record r { status = ReservationStatus.released }

  abbrev pub release : List RentReservation → List RentReservation
  release rs = update_where is_released freed rs

  abbrev pub for_others : ℕ → List RentReservation → ℤ
  for_others k rs = sum_ℤ (
      map (λ (r : RentReservation). r.reserved_amount)
        (filter
          (λ (r : RentReservation).
            (r.payment_allocation_id == k)
            && is_reserved r.status
            && not (is_of_settlement items settlement_id r))
          rs))

  -- After a release only other settlements hold reservations.
  pub release-others :
      (k : ℕ) (rs : List RentReservation) → for_others k (release rs) ≡ reserved_for k (release rs)
  unfolding sum_ℤ
  release-others k [] = refl
  release-others k (r ∷ rs) =
      let rest = release-others k rs in
      elim (Bool-cases (is_reserved r.status)) [
        | inr free ↦ elim (Bool-cases (r.payment_allocation_id == k)) [
          | inl own ↦ rw (free, own, free) rest
          | inr not_own ↦ rw (free, not_own) rest
        ]
        | inl held ↦ elim (Bool-cases (is_of_settlement items settlement_id r)) [
          | inl ours ↦ elim (Bool-cases (r.payment_allocation_id == k)) [
            | inl own ↦ rw (held, ours, own) rest
            | inr not_own ↦ rw (held, ours, not_own) rest
          ]
          | inr theirs ↦ elim (Bool-cases (r.payment_allocation_id == k)) [
            | inl own ↦ rw (held, theirs, own, held, theirs) (ap (λ t. r.reserved_amount +ℤ t) rest)
            | inr not_own ↦ rw (held, theirs, not_own) rest
          ]
        ]
      ]

  pub release-less :
      (k : ℕ) (rs : List RentReservation)
      → AmountsHeld rs
      → reserved_for k (release rs) ≤ℤ reserved_for k rs
  unfolding sum_ℤ
  release-less k [] h = omega arith
  release-less k (r ∷ rs) h =
      let rest = release-less k rs h.1 in
      elim (Bool-cases (is_released r)) [
        | inl ours ↦ elim (Bool-cases ((r.payment_allocation_id == k) && is_reserved r.status)) [
          | inl own ↦
              let same : (r.payment_allocation_id == k) ≡ true = ground arith in
              let held : is_reserved r.status ≡ true = ground arith in
              rw (ours, same, held) (omega (int_laws, rest, h.0))
          | inr not_own ↦
              let held : is_reserved r.status ≡ true = ground arith in
              let other : (r.payment_allocation_id == k) ≡ false = ground arith in
              rw (ours, other) rest
        ]
        | inr kept ↦ elim (Bool-cases ((r.payment_allocation_id == k) && is_reserved r.status)) [
          | inl own ↦ rw (kept, own) (omega (int_laws, rest))
          | inr not_own ↦ rw (kept, not_own) rest
        ]
      ]

  pub release-amounts : (rs : List RentReservation) → AmountsHeld rs → AmountsHeld (release rs)
  release-amounts [] h = tt
  release-amounts (r ∷ rs) h = elim (Bool-cases (is_released r)) [
    | inl ours ↦ rw ours (h.0, release-amounts rs h.1)
    | inr kept ↦ rw kept (h.0, release-amounts rs h.1)
  ]

shares_for :
    (k item : ℕ) (xs : List RefundShare)
    → reserved_for k (map (reservation item) xs) ≡ amount_of k xs
unfolding sum_ℤ
shares_for k item [] = refl
shares_for k item (x ∷ xs) = elim (Bool-cases (x.payment_allocation_id == k)) [
  | inl own ↦ rw own (ap (λ t. x.amount +ℤ t) (shares_for k item xs))
  | inr other ↦ rw other (shares_for k item xs)
]

pub append_for :
    (k item : ℕ) (rs : List RentReservation) (xs : List RefundShare)
    → reserved_for k (rs ++ map (reservation item) xs) ≡ reserved_for k rs +ℤ amount_of k xs
unfolding sum_ℤ
append_for k item [] xs = shares_for k item xs ∙ sym (zero_+ℤ (amount_of k xs))
append_for k item (r ∷ rs) xs =
    elim (Bool-cases ((r.payment_allocation_id == k) && is_reserved r.status)) [
      | inl own ↦ rw own (
          ap (λ t. r.reserved_amount +ℤ t) (append_for k item rs xs)
          ∙ sym (+ℤ_assoc r.reserved_amount (reserved_for k rs) (amount_of k xs)))
      | inr other ↦ rw other (append_for k item rs xs)
    ]

pub append_amounts :
    (item : ℕ) (rs : List RentReservation) (xs : List RefundShare)
    → AmountsHeld rs
    → AreHeld xs
    → AmountsHeld (rs ++ map (reservation item) xs)
append_amounts item [] [] h hx = tt
append_amounts item [] (x ∷ xs) h hx = (omega (arith, hx.0), append_amounts item [] xs tt hx.1)
append_amounts item (r ∷ rs) xs h hx = (h.0, append_amounts item rs xs h.1 hx)
