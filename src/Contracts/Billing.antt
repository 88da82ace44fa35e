-- ===== src/Contracts/Billing.antt =====
-- Billing periods and the amounts of bills: backend/src/contracts/billing-calculator.ts.
pub mod Periods
pub mod Discounts
mod Examples
use srms.Prelude.{
  ℕ, zero, suc, ◌+◌, ◌-◌, ◌*◌, ◌==◌, ltb, leb, Bool, true, false, not, if◌then◌else◌, Option, none,
  some, List, [], ◌∷◌, filter,
}
use srms.Prelude.Int.{ℤ, pos, pos_part, neg_part, sub_ℕ, ◌+ℤ◌, ◌-ℤ◌, max_ℤ}
use srms.Calendar.{
  Date, day_number, utc_date, set_date_zero, previous_day, next_day, year_after, month_after,
}

pub record BillingPeriod : Type 0 where
  pub sequence : ℕ
  pub start : Date
  pub end : Date
  pub is_partial_tail : Bool

unfoldable pub add_months : Date → ℕ → Date
add_months d months =
    let value = utc_date (year_after d months) (month_after d months) d.day in
    if not (value.day == d.day) then set_date_zero value else value

abbrev pub day_before : Date → Date
day_before d = previous_day d

abbrev pub days_inclusive : Date → Date → ℕ
days_inclusive start end = day_number end + 1 - day_number start

-- The period that begins at the cursor.
unfoldable pub period_at : Date → Date → ℕ → BillingPeriod
period_at cursor end sequence =
    let full_end = day_before (add_months cursor 1) in
    let period_end = if ltb (day_number end) (day_number full_end) then end else full_end in
    record {
      sequence = sequence;
      start = cursor;
      end = period_end;
      is_partial_tail = not (day_number period_end == day_number full_end);
    }

abbrev pub cons_period : BillingPeriod → Option (List BillingPeriod) → Option (List BillingPeriod)
cons_period p none = none
cons_period p (some ps) = some (p ∷ ps)

-- The `while` loop, on fuel; `none` when the fuel runs out.
unfoldable pub periods_loop : ℕ → Date → Date → ℕ → Option (List BillingPeriod)
periods_loop zero cursor end sequence = none
periods_loop (suc fuel) cursor end sequence =
    let period = period_at cursor end sequence in
    let rest = periods_loop fuel (next_day period.end) end (sequence + 1) in
    if leb (day_number cursor) (day_number end) then cons_period period rest else some []

-- A period takes at least a day, so the number of the last day bounds the rounds.
unfoldable pub build_billing_periods : Date → Date → Option (List BillingPeriod)
build_billing_periods start end = periods_loop (suc (day_number end)) start end 1

unfoldable pub overlap_days : Date → Date → Date → Date → ℕ
overlap_days start end range_start range_end =
    let left = if ltb (day_number range_start) (day_number start) then start else range_start in
    let right = if ltb (day_number end) (day_number range_end) then end else range_end in
    if ltb (day_number right) (day_number left) then 0 else days_inclusive left right

pub record PricingTier : Type 0 where
  pub id : ℕ
  pub threshold_months : ℕ

-- `sort((a, b) => b.thresholdMonths - a.thresholdMonths)`, stable.
unfoldable pub insert_tier : PricingTier → List PricingTier → List PricingTier
insert_tier t [] = t ∷ []
insert_tier t (u ∷ us) =
    if leb u.threshold_months t.threshold_months then t ∷ u ∷ us else u ∷ insert_tier t us

unfoldable pub sort_tiers : List PricingTier → List PricingTier
sort_tiers [] = []
sort_tiers (t ∷ ts) = insert_tier t (sort_tiers ts)

abbrev pub first {ℓ} : {A : Type ℓ} → List A → Option A
first [] = none
first (x ∷ xs) = some x

unfoldable pub tier_for_period : List PricingTier → ℕ → Option PricingTier
tier_for_period tiers sequence =
    first (sort_tiers (filter (λ t. ltb t.threshold_months sequence) tiers))

unfoldable pub payable_amount : ℤ → ℤ → ℤ → ℤ → ℤ
payable_amount base rent_free discount adjustment =
    max_ℤ (pos 0) (base -ℤ rent_free -ℤ discount +ℤ adjustment)

-- A whole number of times an amount.
unfoldable pub times : ℕ → ℤ → ℤ
times n a = sub_ℕ (n * pos_part a) (n * neg_part a)

-- `share a n k` is the library's `a.div(n).mul(k).toDecimalPlaces(2)`; nothing is assumed of it.
module _ (share : ℤ → ℕ → ℕ → ℤ) where
  unfoldable pub bill_amount : ℤ → BillingPeriod → ℤ
  bill_amount rent period =
      if period.is_partial_tail
      then share rent 30 (days_inclusive period.start period.end)
      else rent

  unfoldable pub rent_free_amount : ℤ → BillingPeriod → Date → Date → ℤ
  rent_free_amount rent period free_start free_end =
      share rent 30 (overlap_days period.start period.end free_start free_end)

  unfoldable pub fixed_discount_for_period : ℤ → ℕ → ℕ → ℤ
  fixed_discount_for_period total sequence count =
      let per_period = share total count 1 in
      if ltb count sequence
      then pos 0
      else if sequence == count
      then total -ℤ times (count - 1) per_period
      else per_period
