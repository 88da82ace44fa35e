-- ===== src/Contracts/Billing/Examples.antt =====
-- A contract of the year 2024, and the theorems at it.
use srms.Prelude.{ℕ, ◌*◌, ◌/◌, ◌≡◌, refl, arith, some, List, [], ◌∷◌}
use srms.Prelude.Int.{ℤ, pos, pos_part}
use srms.Calendar.{Date, date, day_number, is_leap_year, month_length}
use srms.Calendar.Laws.{IsValid}
use srms.Contracts.Billing.{
  BillingPeriod, PricingTier, build_billing_periods, overlap_days, tier_for_period, insert_tier,
  sort_tiers,
}
use srms.Contracts.Billing.Periods.{
  Tiles, build_billing_periods-Tiles, total_overlap, total_overlap-build,
}
use srms.Contracts.Billing.Discounts.{discounts, fixed_discount_total}

-- From the last day of January to the middle of April, with rent-free days in March.
abbrev from : Date
from = date 2024 1 31

abbrev to : Date
to = date 2024 4 15

abbrev free_from : Date
free_from = date 2024 2 20

abbrev free_to : Date
free_to = date 2024 3 10

from-IsValid : IsValid from
unfolding month_length is_leap_year
from-IsValid = record {
  year_in = omega arith;
  month_in = (omega arith, omega arith);
  day_in = (omega arith, omega arith);
}

to-IsValid : IsValid to
unfolding month_length is_leap_year
to-IsValid = record {
  year_in = omega arith;
  month_in = (omega arith, omega arith);
  day_in = (omega arith, omega arith);
}

build_billing_periods-Tiles_example :
    (ps : List BillingPeriod) × (build_billing_periods from to ≡ some ps)
    × Tiles (day_number from) (day_number to) 1 ps
build_billing_periods-Tiles_example = build_billing_periods-Tiles from to from-IsValid to-IsValid

total_overlap-build_example :
    total_overlap (build_billing_periods-Tiles from to from-IsValid to-IsValid).0 free_from free_to
    ≡ overlap_days from to free_from free_to
total_overlap-build_example =
    total_overlap-build from to free_from free_to
      (build_billing_periods-Tiles from to from-IsValid to-IsValid).0 from-IsValid to-IsValid
      (build_billing_periods-Tiles from to from-IsValid to-IsValid).1

-- A share that drops the fraction of a cent is as good as one that rounds.
abbrev floor_share : ℤ → ℕ → ℕ → ℤ
floor_share a n k = pos (pos_part a * k / n)

fixed_discount_total_example : discounts floor_share (pos 10000) 3 4 ≡ pos 10000
fixed_discount_total_example =
    fixed_discount_total floor_share (pos 10000) 3 4 (omega arith) (omega arith)

abbrev tiers : List PricingTier
tiers =
    record { id = 1; threshold_months = 3 }
    ∷ record { id = 2; threshold_months = 6 }
    ∷ record { id = 3; threshold_months = 12 }
    ∷ []

seventh_month : tier_for_period tiers 7 ≡ some (record { id = 2; threshold_months = 6 })
unfolding tier_for_period sort_tiers insert_tier
seventh_month = refl
