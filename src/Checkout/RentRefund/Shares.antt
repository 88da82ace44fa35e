-- ===== src/Checkout/RentRefund/Shares.antt =====
-- How much of one allocation the shares of a plan take: `allocateCheckoutRentRefund` of
-- backend/src/checkout/checkout-rent-refund-allocation.ts.
use srms.Prelude.{
  ℕ, ◌==◌, ◌≡◌, refl, ap, ◌∙◌, Bool, true, List, [], ◌∷◌, map, filter, Bool-cases, inl, inr, arith,
  All,
}
use srms.Prelude.Int.{
  ℤ, pos, ◌+ℤ◌, ◌-ℤ◌, ◌≤ℤ◌, ◌<ℤ◌, min_ℤ, leb_ℤ, ltb_ℤ, sum_ℤ, int_laws, int_tests, lt_of_leb_ℤ,
}
use srms.Checkout.RentRefund.{
  RentRefundCandidate, RefundShare, comes_before, insert_candidate, sort_candidates,
  is_current_or_future_period, eligible_candidates, allocate_shares, RentRefundPlan,
  allocate_checkout_rent_refund,
}
use srms.Checkout.RentRefund.Order.{eligible-refundable, Every, Every-sort}
use srms.Checkout.RentRefund.Plan.{refundable-positive}
use srms.Prelude.Fallible.{ok}

abbrev pub amount_of : ℕ → List RefundShare → ℤ
amount_of k xs = sum_ℤ (
    map (λ (x : RefundShare). x.amount)
      (filter (λ (x : RefundShare). x.payment_allocation_id == k) xs))

abbrev pub available_of : ℕ → List RentRefundCandidate → ℤ
available_of k cs = sum_ℤ (
    map (λ (c : RentRefundCandidate). c.available_amount)
      (filter (λ (c : RentRefundCandidate). c.payment_allocation_id == k) cs))

abbrev pub NotNegative : List RentRefundCandidate → Type 0
NotNegative cs = All (λ (c : RentRefundCandidate). pos 0 ≤ℤ c.available_amount) cs

pub available_nonneg :
    (k : ℕ) (cs : List RentRefundCandidate) → NotNegative cs → pos 0 ≤ℤ available_of k cs
unfolding sum_ℤ
available_nonneg k [] h = omega arith
available_nonneg k (c ∷ cs) h = elim (Bool-cases (c.payment_allocation_id == k)) [
  | inl own ↦ rw own (omega (int_laws, h.0, available_nonneg k cs h.1))
  | inr other ↦ rw other (available_nonneg k cs h.1)
]

pub shares_within :
    (k : ℕ) (remaining : ℤ) (cs : List RentRefundCandidate)
    → NotNegative cs
    → amount_of k (allocate_shares remaining cs) ≤ℤ available_of k cs
unfolding allocate_shares sum_ℤ
shares_within k remaining [] h = omega arith
shares_within k remaining (c ∷ cs) h = elim (Bool-cases (leb_ℤ remaining (pos 0))) [
  | inl spent ↦ rw spent (available_nonneg k (c ∷ cs) h)
  | inr left ↦
      let rest = shares_within k (remaining -ℤ min_ℤ remaining c.available_amount) cs h.1 in
      elim (Bool-cases (c.payment_allocation_id == k)) [
        | inl own ↦ rw (left, own) (omega (int_laws, rest))
        | inr other ↦ rw (left, other) rest
      ]
]

insert_available :
    (k : ℕ) (c : RentRefundCandidate) (ds : List RentRefundCandidate)
    → available_of k (insert_candidate c ds) ≡ available_of k (c ∷ ds)
unfolding insert_candidate sum_ℤ
insert_available k c [] = refl
insert_available k c (d ∷ ds) = elim (Bool-cases (comes_before c d)) [
  | inl first ↦ rw first refl
  | inr later ↦ elim (Bool-cases (d.payment_allocation_id == k)) [
    | inr other ↦ elim (Bool-cases (c.payment_allocation_id == k)) [
      | inl own ↦ rw (later, other, insert_available k c ds, own) refl
      | inr not_own ↦ rw (later, other, insert_available k c ds, not_own) refl
    ]
    | inl same ↦ elim (Bool-cases (c.payment_allocation_id == k)) [
      | inl own ↦ rw (later, same, insert_available k c ds, own) (omega int_laws)
      | inr not_own ↦ rw (later, same, insert_available k c ds, not_own) refl
    ]
  ]
]

pub sort_available :
    (k : ℕ) (cs : List RentRefundCandidate)
    → available_of k (sort_candidates cs) ≡ available_of k cs
unfolding sort_candidates sum_ℤ
sort_available k [] = refl
sort_available k (c ∷ cs) =
    insert_available k c (sort_candidates cs) ∙ elim (Bool-cases (c.payment_allocation_id == k)) [
      | inl own ↦ rw own (ap (λ t. c.available_amount +ℤ t) (sort_available k cs))
      | inr other ↦ rw other (sort_available k cs)
    ]

insert_nonneg :
    (c : RentRefundCandidate) (ds : List RentRefundCandidate)
    → pos 0 ≤ℤ c.available_amount
    → NotNegative ds
    → NotNegative (insert_candidate c ds)
unfolding insert_candidate
insert_nonneg c [] h hs = (h, tt)
insert_nonneg c (d ∷ ds) h hs = elim (Bool-cases (comes_before c d)) [
  | inl first ↦ rw first (h, (hs.0, hs.1))
  | inr later ↦ rw later (hs.0, insert_nonneg c ds h hs.1)
]

sort_nonneg : (cs : List RentRefundCandidate) → NotNegative cs → NotNegative (sort_candidates cs)
unfolding sort_candidates
sort_nonneg [] h = tt
sort_nonneg (c ∷ cs) h = insert_nonneg c (sort_candidates cs) h.0 (sort_nonneg cs h.1)

filter_available :
    (k : ℕ) (p : RentRefundCandidate → Bool) (cs : List RentRefundCandidate)
    → NotNegative cs
    → (available_of k (filter p cs) ≤ℤ available_of k cs) × NotNegative (filter p cs)
unfolding sum_ℤ
filter_available k p [] h = (omega arith, tt)
filter_available k p (c ∷ cs) h =
    let (below, rest) = filter_available k p cs h.1 in
    elim (Bool-cases (p c)) [
      | inl kept ↦ elim (Bool-cases (c.payment_allocation_id == k)) [
        | inl own ↦ rw (kept, own) (omega (int_laws, below), (h.0, rest))
        | inr other ↦ rw (kept, other) (below, (h.0, rest))
      ]
      | inr dropped ↦ elim (Bool-cases (c.payment_allocation_id == k)) [
        | inl own ↦ rw (dropped, own) (omega (int_laws, below, h.0), rest)
        | inr other ↦ rw (dropped, other) (below, rest)
      ]
    ]

-- The shares of a plan take no more of an allocation than its candidates have.
pub plan_within :
    (k checkout : ℕ) (requested : ℤ) (cs : List RentRefundCandidate)
    → NotNegative cs
    → amount_of k (allocate_shares requested (eligible_candidates checkout cs)) ≤ℤ available_of k cs
unfolding eligible_candidates
plan_within k checkout requested cs h =
    let current = filter (is_current_or_future_period checkout) cs in
    let chosen = filter (λ (c : RentRefundCandidate). ltb_ℤ (pos 0) c.available_amount) current in
    let (within, fine) = filter_available k (is_current_or_future_period checkout) cs h in
    let (within', fine') =
      filter_available k (λ (c : RentRefundCandidate). ltb_ℤ (pos 0) c.available_amount) current
        fine in
    let shares = shares_within k requested (sort_candidates chosen) (sort_nonneg chosen fine') in
    let shares' = rw (sort_available k chosen) at shares in
    omega (int_laws, shares', within', within)

-- Each share takes something.
abbrev pub AreHeld : List RefundShare → Type 0
AreHeld xs = All (λ (x : RefundShare). pos 0 <ℤ x.amount) xs

shares-AreHeld :
    (remaining : ℤ) (cs : List RentRefundCandidate)
    → All (λ (c : RentRefundCandidate). pos 0 <ℤ c.available_amount) cs
    → AreHeld (allocate_shares remaining cs)
unfolding allocate_shares
shares-AreHeld remaining [] h = tt
shares-AreHeld remaining (c ∷ cs) h = elim (Bool-cases (leb_ℤ remaining (pos 0))) [
  | inl spent ↦ rw spent tt
  | inr left ↦ rw left (
    omega (int_tests, lt_of_leb_ℤ remaining (pos 0) left, h.0),
    shares-AreHeld (remaining -ℤ min_ℤ remaining c.available_amount) cs h.1,
  )
]

-- A plan that is made has the shares of its candidates.
pub allocated_plan :
    (checkout : ℕ) (requested : ℤ) (cs : List RentRefundCandidate) (plan : RentRefundPlan)
    → allocate_checkout_rent_refund checkout requested cs ≡ ok plan
    → plan.allocations ≡ allocate_shares requested (eligible_candidates checkout cs)
unfolding allocate_checkout_rent_refund
allocated_plan checkout requested cs plan h = ground arith

pub plan-AreHeld :
    (checkout : ℕ) (requested : ℤ) (cs : List RentRefundCandidate)
    → AreHeld (allocate_shares requested (eligible_candidates checkout cs))
plan-AreHeld checkout requested cs = shares-AreHeld requested (eligible_candidates checkout cs) (
    refundable-positive checkout (eligible_candidates checkout cs)
      (eligible-refundable checkout cs))

-- What holds of the ids of every candidate, holds of those of every share.
module _ (p : ℕ → ℕ → ℕ → Bool) where
  abbrev pub of_candidate : RentRefundCandidate → Bool
  of_candidate c = p c.payment_allocation_id c.payment_id c.rent_bill_id

  abbrev pub AllShares : List RefundShare → Type 0
  AllShares xs =
      All (λ (x : RefundShare). p x.payment_allocation_id x.payment_id x.rent_bill_id ≡ true) xs

  filter-Every :
      (q : RentRefundCandidate → Bool) (cs : List RentRefundCandidate)
      → Every of_candidate cs
      → Every of_candidate (filter q cs)
  filter-Every q [] h = tt
  filter-Every q (c ∷ cs) h = elim (Bool-cases (q c)) [
    | inl kept ↦ rw kept (h.0, filter-Every q cs h.1)
    | inr dropped ↦ rw dropped (filter-Every q cs h.1)
  ]

  allocate-AllShares :
      (remaining : ℤ) (cs : List RentRefundCandidate)
      → Every of_candidate cs
      → AllShares (allocate_shares remaining cs)
  unfolding allocate_shares
  allocate-AllShares remaining [] h = tt
  allocate-AllShares remaining (c ∷ cs) h = elim (Bool-cases (leb_ℤ remaining (pos 0))) [
    | inl spent ↦ rw spent tt
    | inr left ↦
        rw left (h.0, allocate-AllShares (remaining -ℤ min_ℤ remaining c.available_amount) cs h.1)
  ]

  pub plan-AllShares :
      (checkout : ℕ) (requested : ℤ) (cs : List RentRefundCandidate)
      → Every of_candidate cs
      → AllShares (allocate_shares requested (eligible_candidates checkout cs))
  unfolding eligible_candidates
  plan-AllShares checkout requested cs h =
      let current = filter (is_current_or_future_period checkout) cs in
      let chosen = filter (λ (c : RentRefundCandidate). ltb_ℤ (pos 0) c.available_amount) current in
      allocate-AllShares requested (sort_candidates chosen) (
        Every-sort of_candidate chosen (
          filter-Every (λ (c : RentRefundCandidate). ltb_ℤ (pos 0) c.available_amount) current
            (filter-Every (is_current_or_future_period checkout) cs h)))
