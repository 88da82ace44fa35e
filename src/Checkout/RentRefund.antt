-- ===== src/Checkout/RentRefund.antt =====
-- Which paid rent is given back at a checkout:
-- backend/src/checkout/checkout-rent-refund-allocation.ts. A date is its time stamp.
pub mod Order
pub mod Plan
pub mod Shares
mod Examples
use srms.Prelude.{
  ℕ, ◌==◌, ltb, leb, Bool, true, false, ◌&&◌, ◌||◌, if◌then◌else◌, List, [], ◌∷◌, map, filter,
}
use srms.Prelude.Int.{ℤ, pos, ◌-ℤ◌, min_ℤ, leb_ℤ, ltb_ℤ, sum_ℤ}
use srms.Prelude.Fallible.{Result, ok, err, ◌>>◌, throw_if}

pub record RentRefundCandidate : Type 0 where
  pub payment_allocation_id : ℕ
  pub payment_id : ℕ
  pub rent_bill_id : ℕ
  pub period_start : ℕ
  pub period_end : ℕ
  pub payment_date : ℕ
  pub available_amount : ℤ

pub record RefundShare : Type 0 where
  pub payment_allocation_id : ℕ
  pub payment_id : ℕ
  pub rent_bill_id : ℕ
  pub amount : ℤ

pub record RentRefundPlan : Type 0 where
  pub max_refundable_amount : ℤ
  pub requested_amount : ℤ
  pub allocations : List RefundShare

-- `CheckoutRentRefundExceedsAvailableError` with its field.
pub data RentRefundError : Type 0 where
  exceeds_available : ℤ → RentRefundError

abbrev pub is_current_or_future_period : ℕ → RentRefundCandidate → Bool
is_current_or_future_period checkout c =
    ltb checkout c.period_start || (leb c.period_start checkout && leb checkout c.period_end)

-- `compareCandidates(left, right) <= 0`: later period, then later payment, then larger id first.
abbrev pub comes_before : RentRefundCandidate → RentRefundCandidate → Bool
comes_before left right =
    if left.period_start == right.period_start
    then (if left.payment_date == right.payment_date
        then leb right.payment_allocation_id left.payment_allocation_id
        else ltb right.payment_date left.payment_date)
    else ltb right.period_start left.period_start

-- `Array.prototype.sort` is stable: an insertion that goes past what comes before it.
unfoldable pub insert_candidate :
    RentRefundCandidate → List RentRefundCandidate → List RentRefundCandidate
insert_candidate c [] = c ∷ []
insert_candidate c (d ∷ ds) = if comes_before c d then c ∷ d ∷ ds else d ∷ insert_candidate c ds

unfoldable pub sort_candidates : List RentRefundCandidate → List RentRefundCandidate
sort_candidates [] = []
sort_candidates (c ∷ cs) = insert_candidate c (sort_candidates cs)

abbrev pub is_refundable : ℕ → RentRefundCandidate → Bool
is_refundable checkout c =
    is_current_or_future_period checkout c && ltb_ℤ (pos 0) c.available_amount

unfoldable pub eligible_candidates : ℕ → List RentRefundCandidate → List RentRefundCandidate
eligible_candidates checkout cs = sort_candidates (
    filter (λ c. ltb_ℤ (pos 0) c.available_amount)
      (filter (is_current_or_future_period checkout) cs))

abbrev pub total_available : List RentRefundCandidate → ℤ
total_available cs = sum_ℤ (map (λ c. c.available_amount) cs)

unfoldable pub allocate_shares : ℤ → List RentRefundCandidate → List RefundShare
allocate_shares remaining [] = []
allocate_shares remaining (c ∷ cs) =
    let allocated = min_ℤ remaining c.available_amount in
    let rest = allocate_shares (remaining -ℤ allocated) cs in
    if leb_ℤ remaining (pos 0)
    then []
    else record {
      payment_allocation_id = c.payment_allocation_id;
      payment_id = c.payment_id;
      rent_bill_id = c.rent_bill_id;
      amount = allocated;
    }
      ∷ rest

unfoldable pub allocate_checkout_rent_refund :
    ℕ → ℤ → List RentRefundCandidate → Result RentRefundError RentRefundPlan
allocate_checkout_rent_refund checkout requested cs = do
  let candidates = eligible_candidates checkout cs
  let max_refundable = total_available candidates
  throw_if (ltb_ℤ max_refundable requested) (exceeds_available max_refundable)
  ok (record {
    max_refundable_amount = max_refundable;
    requested_amount = requested;
    allocations = allocate_shares requested candidates;
  })
