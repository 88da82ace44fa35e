-- ===== src/Payments/Allocation/Waterfall.antt =====
-- The loop of `allocatePayment` beside an independent description: each bill gets what the bills
-- before it leave of the payment, at most what it owes.
use srms.Prelude.{
  ℕ, ◌+◌, ◌≡◌, refl, true, false, ◌⊎◌, inl, inr, List, [], ◌∷◌, map, arith, if◌then◌else◌,
  Bool-cases,
}
use srms.Prelude.Int.{
  ℤ, pos, pos_part, neg_part, ◌+ℤ◌, ◌-ℤ◌, ◌≤ℤ◌, ◌<ℤ◌, min_ℤ, max_ℤ, ltb_ℤ, leb_ℤ, int_laws,
  parts_of_eq, ltb_ℤ-true, ltb_ℤ-false, sum_ℤ, int_tests,
}
use srms.Payments.Allocation.{AllocatableBill, Allocation, allocate_loop, allocate_payment}

abbrev pub amounts : List Allocation → List ℤ
amounts xs = map (λ a. a.amount) xs

-- What a bill can take.
abbrev pub due : AllocatableBill → ℤ
due b = max_ℤ (pos 0) b.outstanding_amount

-- What a bill gets of `amount` when the bills before it can take `prior`.
abbrev pub share : ℤ → ℤ → AllocatableBill → ℤ
share amount prior b = min_ℤ (due b) (amount -ℤ prior)

abbrev pub waterfall : ℤ → ℤ → List AllocatableBill → List (ℕ × ℤ)
waterfall amount prior [] = []
waterfall amount prior (b ∷ bs) =
    if ltb_ℤ (pos 0) (share amount prior b)
    then (b.id, share amount prior b) ∷ waterfall amount (prior +ℤ due b) bs
    else waterfall amount (prior +ℤ due b) bs

-- Adding a part back to what remains without it.
add_back : (s p r a : ℤ) → s +ℤ p ≡ r -ℤ a → a +ℤ s +ℤ p ≡ r
add_back s p r a h = omega (int_laws, parts_of_eq (s +ℤ p) (r -ℤ a) h)

loop_conserves :
    (remaining : ℤ) (count : ℕ) (bills : List AllocatableBill)
    → let r = allocate_loop remaining count bills in
      sum_ℤ (amounts r.allocations) +ℤ r.prepayment_amount ≡ remaining
unfolding allocate_loop sum_ℤ
loop_conserves remaining count [] = omega int_laws
loop_conserves remaining count (b ∷ bs) = elim (Bool-cases (leb_ℤ remaining (pos 0))) [
  | inl spent ↦ rw spent (omega int_laws)
  | inr left ↦ elim (Bool-cases (leb_ℤ b.outstanding_amount (pos 0))) [
    | inl settled ↦ rw (left, settled) (loop_conserves remaining count bs)
    | inr owed ↦
        rw (left, owed)
          (add_back _ _ remaining (min_ℤ remaining b.outstanding_amount)
            (loop_conserves (remaining -ℤ min_ℤ remaining b.outstanding_amount) (count + 1) bs))
  ]
]

-- Nothing is lost: the allocated amounts and the prepayment add up to the payment.
pub allocate_payment_conserves :
    (amount : ℤ) (bills : List AllocatableBill)
    → let r = allocate_payment amount bills in
      sum_ℤ (amounts r.allocations) +ℤ r.prepayment_amount ≡ amount
unfolding allocate_payment
allocate_payment_conserves amount bills = loop_conserves amount 0 bills

-- What is left of the payment, seen from the bills that came before.
abbrev IsLeft : ℤ → ℤ → ℤ → Type 0
IsLeft amount prior remaining =
    ((remaining ≤ℤ pos 0) × (amount ≤ℤ prior))
    ⊎ ((pos 0 <ℤ remaining)
        × (pos_part remaining + neg_part (amount -ℤ prior)
            ≡ neg_part remaining + pos_part (amount -ℤ prior)))

module _ (amount prior : ℤ) (b : AllocatableBill) where
  share_spent : amount ≤ℤ prior → ltb_ℤ (pos 0) (share amount prior b) ≡ false
  share_spent h = ltb_ℤ-false (pos 0) (share amount prior b) (omega int_laws)

  share_settled : b.outstanding_amount ≤ℤ pos 0 → ltb_ℤ (pos 0) (share amount prior b) ≡ false
  share_settled h = ltb_ℤ-false (pos 0) (share amount prior b) (omega int_laws)

  module _ (remaining : ℤ) (left : pos 0 <ℤ remaining) (owed : pos 0 <ℤ b.outstanding_amount)
      (h : IsLeft amount prior remaining) where
    share_paid : share amount prior b ≡ min_ℤ remaining b.outstanding_amount
    share_paid = omega int_laws

    share_pos : ltb_ℤ (pos 0) (share amount prior b) ≡ true
    share_pos = ltb_ℤ-true (pos 0) (share amount prior b) (omega int_laws)

    IsLeft-step : IsLeft amount (prior +ℤ due b) (remaining -ℤ min_ℤ remaining b.outstanding_amount)
    IsLeft-step = grind int_laws

  IsLeft-skip :
      (remaining : ℤ)
      → b.outstanding_amount ≤ℤ pos 0
      → IsLeft amount prior remaining
      → IsLeft amount (prior +ℤ due b) remaining
  IsLeft-skip remaining settled h = grind int_laws

waterfall_spent :
    (amount prior : ℤ) (bills : List AllocatableBill)
    → amount ≤ℤ prior
    → waterfall amount prior bills ≡ []
waterfall_spent amount prior [] h = refl
waterfall_spent amount prior (b ∷ bs) h =
    rw (share_spent amount prior b h) (waterfall_spent amount (prior +ℤ due b) bs (omega int_laws))

-- The allocations in order, numbered from `n`.
abbrev pub enumerate : ℕ → List (ℕ × ℤ) → List Allocation
enumerate n [] = []
enumerate n ((id, amount) ∷ xs) =
    record { rent_bill_id = id; amount = amount; allocation_order = n } ∷ enumerate (n + 1) xs

loop-waterfall :
    (amount prior remaining : ℤ) (count : ℕ) (bills : List AllocatableBill)
    → IsLeft amount prior remaining
    → (allocate_loop remaining count bills).allocations
      ≡ enumerate (count + 1) (waterfall amount prior bills)
unfolding allocate_loop
loop-waterfall amount prior remaining count [] h = refl
loop-waterfall amount prior remaining count (b ∷ bs) h =
    elim (Bool-cases (leb_ℤ remaining (pos 0))) [
      | inl spent ↦ rw (spent, waterfall_spent amount prior (b ∷ bs) (ground arith))
      | inr left ↦ elim (Bool-cases (leb_ℤ b.outstanding_amount (pos 0))) [
        | inl settled ↦
            rw (left, settled, share_settled amount prior b (ground arith))
              (loop-waterfall amount (prior +ℤ due b) remaining count bs
                (IsLeft-skip amount prior b remaining (ground arith) h))
        | inr owed ↦
            rw (left, owed, share_pos amount prior b remaining (ground arith) (ground arith) h)
              (cc (
                share_paid amount prior b remaining (ground arith) (ground arith) h,
                loop-waterfall amount (prior +ℤ due b)
                    (remaining -ℤ min_ℤ remaining b.outstanding_amount) (count + 1) bs
                    (IsLeft-step amount prior b remaining (ground arith) (ground arith) h),
              ))
      ]
    ]

-- The allocations of a payment are exactly those of the waterfall, numbered from 1.
pub allocate_payment-waterfall :
    (amount : ℤ) (bills : List AllocatableBill)
    → (allocate_payment amount bills).allocations ≡ enumerate 1 (waterfall amount (pos 0) bills)
unfolding allocate_payment
allocate_payment-waterfall amount bills =
    loop-waterfall amount (pos 0) amount 0 bills (grind int_laws)

abbrev total_due : List AllocatableBill → ℤ
total_due bills = sum_ℤ (map due bills)

total_due_nonneg : (bills : List AllocatableBill) → pos 0 ≤ℤ total_due bills
unfolding sum_ℤ
total_due_nonneg [] = omega arith
total_due_nonneg (b ∷ bs) = omega (int_laws, total_due_nonneg bs)

loop_prepayment :
    (remaining : ℤ) (count : ℕ) (bills : List AllocatableBill)
    → pos 0 ≤ℤ remaining
    → (allocate_loop remaining count bills).prepayment_amount
      ≡ max_ℤ (pos 0) (remaining -ℤ total_due bills)
unfolding allocate_loop sum_ℤ
loop_prepayment remaining count [] h = omega int_laws
loop_prepayment remaining count (b ∷ bs) h = elim (Bool-cases (leb_ℤ remaining (pos 0))) [
  | inl spent ↦ rw spent (omega (int_tests, spent, total_due_nonneg bs))
  | inr left ↦ elim (Bool-cases (leb_ℤ b.outstanding_amount (pos 0))) [
    | inl settled ↦
        rw (left, settled, loop_prepayment remaining count bs h) (omega (int_tests, settled))
    | inr owed ↦
        rw
          (
            left,
            owed,
            loop_prepayment (remaining -ℤ min_ℤ remaining b.outstanding_amount) (count + 1) bs
                (omega int_laws),
          )
          (omega (int_tests, owed, total_due_nonneg bs))
  ]
]

-- A payment leaves a prepayment exactly by what it exceeds all that the bills can take.
allocate_payment_prepayment :
    (amount : ℤ) (bills : List AllocatableBill)
    → pos 0 ≤ℤ amount
    → (allocate_payment amount bills).prepayment_amount ≡ max_ℤ (pos 0) (amount -ℤ total_due bills)
unfolding allocate_payment
allocate_payment_prepayment amount bills h = loop_prepayment amount 0 bills h
