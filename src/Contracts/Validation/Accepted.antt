-- ===== src/Contracts/Validation/Accepted.antt =====
-- Which concessions are accepted.
use srms.Prelude.{
  ℕ, ◌≡◌, refl, Bool, false, not, ◌&&◌, Option, none, some, List, [], ◌∷◌, all, arith, ltb,
}
use srms.Prelude.Int.{ℤ, pos, leb_ℤ}
use srms.Prelude.Fallible.{is_ok}
use srms.Contracts.Validation.{
  Concession, ConcessionType, rent_free, percentage, ApplyMode, date_range, billing_periods,
  assert_concession, assert_concessions, text_before,
}

-- Two texts that are given, the second not before the first.
abbrev pub is_range : Option (List ℕ) → Option (List ℕ) → Bool
is_range (some (c ∷ first)) (some (d ∷ last)) = not (text_before (d ∷ last) (c ∷ first))
is_range _ _ = false

abbrev pub is_some_count : Option ℕ → Bool
is_some_count none = false
is_some_count (some n) = ltb 0 n

-- An amount from `low` on, and at most `high` if that is given.
abbrev pub is_between : ℤ → Option ℤ → Option ℤ → Bool
is_between low high none = false
is_between low none (some a) = leb_ℤ low a
is_between low (some high) (some a) = leb_ℤ low a && leb_ℤ a high

-- A rent-free concession over a range of dates, or a discount over billing periods by an amount
-- that is not negative or by a rate from 0 to 1.
abbrev pub acceptable : ConcessionType → ApplyMode → Concession → Bool
acceptable rent_free date_range c = is_range c.start_date c.end_date
acceptable ConcessionType.fixed_amount billing_periods c =
    is_some_count c.billing_period_count && is_between (pos 0) none c.fixed_amount
acceptable percentage billing_periods c =
    is_some_count c.billing_period_count && is_between (pos 0) (some (pos 10000)) c.discount_rate
acceptable _ _ c = false

assert_concession-acceptable :
    (c : Concession) → is_ok (assert_concession c) ≡ acceptable c.concession_type c.apply_mode c
unfolding assert_concession
assert_concession-acceptable c = ground arith

-- A list of concessions is accepted exactly when each of them is acceptable by its type and mode.
pub assert_concessions-acceptable :
    (items : List Concession)
    → is_ok (assert_concessions items)
      ≡ all (λ c. acceptable c.concession_type c.apply_mode c) items
unfolding assert_concessions
assert_concessions-acceptable [] = refl
assert_concessions-acceptable (c ∷ items) =
    ground (arith, assert_concession-acceptable c, assert_concessions-acceptable items)
