-- ===== src/Checkout/RentRefund/Plan.antt =====
-- The plans of `allocateCheckoutRentRefund`, and when there is none.
use srms.Prelude.{ℕ, ◌≡◌, ◌↔◌, refl, List, [], ◌∷◌, filter, Bool-cases, ◌⊎◌, inl, inr, All, arith}
use mathlib.Core.List.{Perm}
use srms.Prelude.Int.{
  ℤ, pos, ◌-ℤ◌, ◌≤ℤ◌, ◌<ℤ◌, min_ℤ, min_ℤ_parts, leb_ℤ, sum_ℤ, int_laws, int_tests,
}
use srms.Prelude.Fallible.{ok, err}
use srms.Checkout.RentRefund.{
  RentRefundCandidate, RefundShare, RentRefundPlan, exceeds_available, is_refundable,
  eligible_candidates, total_available, allocate_shares, allocate_checkout_rent_refund,
}
use srms.Checkout.RentRefund.Order.{
  total_shares, max_is, Every, eligible-refundable, eligible-perm, IsSorted, sort-IsSorted,
}

-- The shares go to the first candidates, one each: all of what is available but for the last.
abbrev pub Follows : List RentRefundCandidate → List RefundShare → Type 0
Follows cs [] = Unit
Follows [] (x ∷ xs) = ⊥
Follows (c ∷ cs) (x ∷ xs) =
    (x.payment_allocation_id ≡ c.payment_allocation_id)
    × (x.payment_id ≡ c.payment_id)
    × (x.rent_bill_id ≡ c.rent_bill_id)
    × (pos 0 <ℤ x.amount)
    × (x.amount ≤ℤ c.available_amount)
    × ((xs ≡ []) ⊎ (x.amount ≡ c.available_amount))
    × Follows cs xs

abbrev pub AllPositive : List RentRefundCandidate → Type 0
AllPositive cs = All (λ c. pos 0 <ℤ c.available_amount) cs

pub refundable-positive :
    (checkout : ℕ) (cs : List RentRefundCandidate)
    → Every (is_refundable checkout) cs
    → AllPositive cs
refundable-positive checkout [] e = tt
refundable-positive checkout (c ∷ cs) e = (ground arith, refundable-positive checkout cs e.1)

allocate_nothing :
    (remaining : ℤ) (cs : List RentRefundCandidate)
    → remaining ≤ℤ pos 0
    → allocate_shares remaining cs ≡ []
unfolding allocate_shares
allocate_nothing remaining [] h = refl
allocate_nothing remaining (c ∷ cs) h = ground arith

allocate-Follows :
    (remaining : ℤ) (cs : List RentRefundCandidate)
    → AllPositive cs
    → Follows cs (allocate_shares remaining cs)
unfolding allocate_shares
allocate-Follows remaining [] e = tt
allocate-Follows remaining (c ∷ cs) e = elim (Bool-cases (leb_ℤ remaining (pos 0))) [
  | inl spent ↦ rw spent tt
  | inr left ↦ rw left (
    refl,
    refl,
    refl,
    omega (int_tests, left),
    omega int_laws,
    elim (min_ℤ_parts remaining c.available_amount) [
      | inl last ↦
          inl
            (allocate_nothing (remaining -ℤ min_ℤ remaining c.available_amount) cs (omega int_laws))
      | inr whole ↦ inr (omega int_laws)
    ],
    allocate-Follows (remaining -ℤ min_ℤ remaining c.available_amount) cs e.1,
  )
]

total_nonneg : (cs : List RentRefundCandidate) → AllPositive cs → pos 0 ≤ℤ total_available cs
unfolding sum_ℤ
total_nonneg [] e = omega arith
total_nonneg (c ∷ cs) e = omega (int_laws, total_nonneg cs e.1)

allocate_total :
    (remaining : ℤ) (cs : List RentRefundCandidate)
    → AllPositive cs
    → pos 0 ≤ℤ remaining
    → remaining ≤ℤ total_available cs
    → total_shares (allocate_shares remaining cs) ≡ remaining
unfolding allocate_shares sum_ℤ
allocate_total remaining [] e h fits = omega int_laws
allocate_total remaining (c ∷ cs) e h fits = elim (Bool-cases (leb_ℤ remaining (pos 0))) [
  | inl spent ↦ rw spent (omega (int_tests, spent))
  | inr left ↦
      rw
        (
          left,
          allocate_total (remaining -ℤ min_ℤ remaining c.available_amount) cs e.1 (omega int_laws)
              (omega (int_laws, total_nonneg cs e.1)),
        )
        (omega int_laws)
]

-- What a plan for `requested` is, over the candidates at a checkout date.
pub record IsPlan (checkout : ℕ) (requested : ℤ) (cs : List RentRefundCandidate)
    (plan : RentRefundPlan) : Type 0 where
  pub order : List RentRefundCandidate
  pub order_sorted : IsSorted order
  pub order_refundable : Every (is_refundable checkout) order
  pub order_perm : Perm order (filter (is_refundable checkout) cs)
  pub follows : Follows order plan.allocations
  pub requested_is : plan.requested_amount ≡ requested
  pub shares_total : total_shares plan.allocations ≡ requested
  pub max_is_total :
      plan.max_refundable_amount ≡ total_available (filter (is_refundable checkout) cs)
  pub fits : requested ≤ℤ plan.max_refundable_amount

planned :
    (checkout : ℕ) (requested : ℤ) (cs : List RentRefundCandidate)
    → pos 0 ≤ℤ requested
    → requested ≤ℤ total_available (eligible_candidates checkout cs)
    → IsPlan checkout requested cs (record {
      max_refundable_amount = total_available (eligible_candidates checkout cs);
      requested_amount = requested;
      allocations = allocate_shares requested (eligible_candidates checkout cs);
    })
planned checkout requested cs h fits =
    let order = eligible_candidates checkout cs in
    let positive = refundable-positive checkout order (eligible-refundable checkout cs) in
    record {
      order = order;
      order_sorted = unfold eligible_candidates in sort-IsSorted _;
      order_refundable = eligible-refundable checkout cs;
      order_perm = eligible-perm checkout cs;
      follows = allocate-Follows requested order positive;
      requested_is = refl;
      shares_total = allocate_total requested order positive h fits;
      max_is_total = max_is checkout cs;
      fits = fits;
    }

-- Of a request that is not negative: the shares of a plan add up to it. They follow the refundable
-- candidates in their order, latest period first, each with at most what its payment has left, and
-- all of that but for the last. The maximum is the sum of what the refundable candidates have, and the request
-- is within it.
pub allocate_checkout_rent_refund-IsPlan :
    (checkout : ℕ) (requested : ℤ) (cs : List RentRefundCandidate) (plan : RentRefundPlan)
    → pos 0 ≤ℤ requested
    → allocate_checkout_rent_refund checkout requested cs ≡ ok plan
    → IsPlan checkout requested cs plan
unfolding allocate_checkout_rent_refund
allocate_checkout_rent_refund-IsPlan checkout requested cs plan h made =
    ground (arith, planned checkout requested cs h)

-- A request is refused exactly when it exceeds what the refundable candidates have in all, and the
-- error carries that amount.
pub allocate_checkout_rent_refund_refusal :
    (checkout : ℕ) (requested : ℤ) (cs : List RentRefundCandidate)
    → (allocate_checkout_rent_refund checkout requested cs
        ≡ err (exceeds_available (total_available (filter (is_refundable checkout) cs))))
      ↔ (total_available (filter (is_refundable checkout) cs) <ℤ requested)
unfolding allocate_checkout_rent_refund
allocate_checkout_rent_refund_refusal checkout requested cs =
    rw (max_is checkout cs) (λ e. ground arith, λ lt. ground arith)
