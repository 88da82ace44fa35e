-- ===== src/Prelude/Decimals.antt =====
-- The library's decimals, of which an amount that a request brings may have more than two places:
-- what the code asks of them. `to_cents` is `toDecimalPlaces(2)`, and `stored` what a column
-- DECIMAL with two places keeps.
use mathlib.Core.Path.{◌≡◌}
use mathlib.Core.Bool.{Bool, true, false}
use srms.Prelude.Int.{ℤ, pos, ◌+ℤ◌, ◌≤ℤ◌}

pub record Decimals (D : Type 0) : Type 0 where
  pub is_finite : D → Bool
  pub lte_zero : D → Bool
  pub of_cents : ℤ → D
  pub plus : D → D → D
  pub negated : D → D
  pub to_cents : D → ℤ
  pub stored : D → ℤ

-- Both roundings are half away from zero: a positive amount is rounded alike by itself and on top of
-- whole cents, and not to a negative one.
pub record RoundsAlike {D : Type 0} (lib : Decimals D) : Type 0 where
  pub plus_cents :
      (b : ℤ) (a : D)
      → pos 0 ≤ℤ b
      → lib.is_finite a ≡ true
      → lib.lte_zero a ≡ false
      → lib.to_cents (lib.plus (lib.of_cents b) a) ≡ b +ℤ lib.stored a
  pub stored_nonneg : (a : D) → lib.lte_zero a ≡ false → pos 0 ≤ℤ lib.stored a
