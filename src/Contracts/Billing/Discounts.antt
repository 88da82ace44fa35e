-- ===== src/Contracts/Billing/Discounts.antt =====
-- `tierForPeriod` and `fixedDiscountForPeriod` of backend/src/contracts/billing-calculator.ts.
use srms.Prelude.{
  ℕ, zero, suc, ◌+◌, ◌-◌, ◌*◌, ◌≡◌, ◌≤◌, ◌<◌, refl, Bool, true, false, Option, none, some, List, [],
  ◌∷◌, ltb, leb, if◌then◌else◌, filter, All, Bool-cases, inl, inr, arith,
}
use mathlib.Core.List.{Mem, mem-cons}
use mathlib.Core.Logic.Or
use srms.Prelude.Int.{ℤ, pos, ◌+ℤ◌, ◌-ℤ◌, int_laws, pos_part, neg_part}
use srms.Contracts.Billing.{
  PricingTier, insert_tier, sort_tiers, first, tier_for_period, times, fixed_discount_for_period,
}

times_parts :
    (n : ℕ) (a : ℤ) → pos_part (times n a) + n * neg_part a ≡ neg_part (times n a) + n * pos_part a
unfolding times
times_parts n a = ground arith

times-suc : (n : ℕ) (a : ℤ) → times (suc n) a ≡ times n a +ℤ a
times-suc n a = omega (int_laws, times_parts n a, times_parts (suc n) a)

times-zero : (a : ℤ) → times 0 a ≡ pos 0
times-zero a = omega (int_laws, times_parts 0 a)

module _ (share : ℤ → ℕ → ℕ → ℤ) (total : ℤ) (count : ℕ) where
  -- What the first `n` periods get of a fixed discount over `count` periods.
  abbrev pub discounts : ℕ → ℤ
  discounts zero = pos 0
  discounts (suc n) = discounts n +ℤ fixed_discount_for_period share total (suc n) count

  before_last : (n : ℕ) → n < count → discounts n ≡ times n (share total count 1)
  unfolding fixed_discount_for_period
  before_last zero h = rw (times-zero (share total count 1)) refl
  before_last (suc n) h =
      rw (before_last n (omega arith), times-suc n (share total count 1)) (ground arith)

  no_discount : (n : ℕ) → count ≤ n → fixed_discount_for_period share total (suc n) count ≡ pos 0
  unfolding fixed_discount_for_period
  no_discount n h = ground arith

  last_period :
      (m : ℕ)
      → count ≡ suc m
      → fixed_discount_for_period share total (suc m) count ≡ total -ℤ times m (share total count 1)
  unfolding fixed_discount_for_period
  last_period m e = let less : count - 1 ≡ m = omega arith in rw less (ground arith)

  -- Over as many periods as the discount was granted for, or more, exactly the granted total is
  -- given, however the library rounds the parts.
  pub fixed_discount_total : (n : ℕ) → 1 ≤ count → count ≤ n → discounts n ≡ total
  fixed_discount_total zero some_period h = absurd (omega arith)
  fixed_discount_total (suc n) some_period h = elim (Bool-cases (leb count n)) [
    | inl past ↦
        rw (fixed_discount_total n some_period (ground arith), no_discount n (ground arith))
          (omega int_laws)
    | inr last ↦ rw (before_last n (ground arith), last_period n (ground arith)) (omega int_laws)
  ]

-- The tier that `tier_for_period` gives: the highest threshold that the period is past.
abbrev Below : ℕ → List PricingTier → Type 0
Below m tiers = All (λ t. t.threshold_months ≤ m) tiers

abbrev passed : List PricingTier → ℕ → List PricingTier
passed tiers sequence = filter (λ t. ltb t.threshold_months sequence) tiers

abbrev higher : PricingTier → Option PricingTier → PricingTier
higher t none = t
higher t (some u) = if leb u.threshold_months t.threshold_months then t else u

first-insert :
    (t : PricingTier) (us : List PricingTier)
    → first (insert_tier t us) ≡ some (higher t (first us))
unfolding insert_tier
first-insert t [] = refl
first-insert t (u ∷ us) = ground arith

-- Of a list with a highest tier `t`, or none.
abbrev IsHighest : Option PricingTier → List PricingTier → Type 0
IsHighest none ts = ts ≡ []
IsHighest (some t) ts = Mem t ts × Below t.threshold_months ts

Below-le : (a b : ℕ) (ts : List PricingTier) → a ≤ b → Below a ts → Below b ts
Below-le a b [] h k = tt
Below-le a b (t ∷ ts) h k = (omega arith, Below-le a b ts h k.1)

choose-IsHighest :
    (t u : PricingTier) (lower : Bool) (ts : List PricingTier)
    → (lower ≡ true → u.threshold_months ≤ t.threshold_months)
    → (lower ≡ false → t.threshold_months ≤ u.threshold_months)
    → IsHighest (some u) ts
    → IsHighest (some (if lower then t else u)) (t ∷ ts)
choose-IsHighest t u true ts le ge h = (
  mem-cons.1 (Or.inl refl),
  (omega arith, Below-le u.threshold_months t.threshold_months ts (le refl) h.1),
)
choose-IsHighest t u false ts le ge h = (mem-cons.1 (Or.inr h.0), (ge refl, h.1))

higher-IsHighest :
    (t : PricingTier) (best : Option PricingTier) (ts : List PricingTier)
    → IsHighest best ts
    → IsHighest (some (higher t best)) (t ∷ ts)
higher-IsHighest t none ts h = rw h (mem-cons.1 (Or.inl refl), (omega arith, tt))
higher-IsHighest t (some u) ts h =
    choose-IsHighest t u (leb u.threshold_months t.threshold_months) ts (λ e. ground arith)
      (λ e. ground arith) h

sort-IsHighest : (ts : List PricingTier) → IsHighest (first (sort_tiers ts)) ts
unfolding sort_tiers
sort-IsHighest [] = refl
sort-IsHighest (t ∷ ts) =
    rw (first-insert t (sort_tiers ts))
      (higher-IsHighest t (first (sort_tiers ts)) ts (sort-IsHighest ts))

-- The chosen tier is one of those whose threshold lies below the period's number, and none of them
-- has a higher threshold; there is none exactly if there is no such tier.
tier_for_period-IsHighest :
    (tiers : List PricingTier) (sequence : ℕ)
    → IsHighest (tier_for_period tiers sequence) (passed tiers sequence)
unfolding tier_for_period
tier_for_period-IsHighest tiers sequence = sort-IsHighest (passed tiers sequence)
