-- ===== src/Prelude/Int.antt =====
-- Signed integers over the native numbers. An amount of money is a number of cents: the columns
-- are DECIMAL with two places, on which sum, difference, order, minimum and maximum are exact.
use Prim.Native.Nat.{ℕ, suc, ◌+◌, ◌-◌, ◌≤◌, ◌<◌}
use mathlib.Core.Path.{◌≡◌, refl}
use mathlib.Core.Logic.{◌⊎◌, ◌↔◌}
use mathlib.Core.Bool.{Bool, true, false}
use mathlib.Core.List.{List, [], ◌∷◌, ◌++◌}
use native.Mathlib.Omega.{arith}
use srms.Prelude.Tests.{ltb, leb, ◌==◌, if◌then◌else◌}

-- `negsuc n` is -(n + 1).
pub data ℤ : Type 0 where
  pos : ℕ → ℤ
  negsuc : ℕ → ℤ

abbrev pub pos_part : ℤ → ℕ
pos_part (pos n) = n
pos_part (negsuc n) = 0

abbrev pub neg_part : ℤ → ℕ
neg_part (pos n) = 0
neg_part (negsuc n) = suc n

-- a - b, as an integer.
abbrev pub sub_ℕ : ℕ → ℕ → ℤ
sub_ℕ a b = if leb b a then pos (a - b) else negsuc (b - a - 1)

infixl 65 ◌+ℤ◌ ◌-ℤ◌
infix 50 ◌≤ℤ◌ ◌<ℤ◌
unfoldable pub ◌+ℤ◌ : ℤ → ℤ → ℤ
a +ℤ b = sub_ℕ (pos_part a + pos_part b) (neg_part a + neg_part b)

unfoldable pub ◌-ℤ◌ : ℤ → ℤ → ℤ
a -ℤ b = sub_ℕ (pos_part a + neg_part b) (neg_part a + pos_part b)

unfoldable pub neg_ℤ : ℤ → ℤ
neg_ℤ a = sub_ℕ (neg_part a) (pos_part a)

abbrev pub ◌≤ℤ◌ : ℤ → ℤ → Type 0
a ≤ℤ b = pos_part a + neg_part b ≤ pos_part b + neg_part a

abbrev pub ◌<ℤ◌ : ℤ → ℤ → Type 0
a <ℤ b = pos_part a + neg_part b < pos_part b + neg_part a

-- `lt`, `lte` and `equals` of an amount.
abbrev pub ltb_ℤ : ℤ → ℤ → Bool
ltb_ℤ a b = ltb (pos_part a + neg_part b) (pos_part b + neg_part a)

abbrev pub leb_ℤ : ℤ → ℤ → Bool
leb_ℤ a b = leb (pos_part a + neg_part b) (pos_part b + neg_part a)

abbrev pub eqb_ℤ : ℤ → ℤ → Bool
eqb_ℤ a b = pos_part a + neg_part b == pos_part b + neg_part a

unfoldable pub min_ℤ : ℤ → ℤ → ℤ
min_ℤ a b = if leb_ℤ a b then a else b

unfoldable pub max_ℤ : ℤ → ℤ → ℤ
max_ℤ a b = if leb_ℤ a b then b else a

pub +ℤ_parts :
    (a b : ℤ)
    → pos_part (a +ℤ b) + neg_part a + neg_part b ≡ neg_part (a +ℤ b) + pos_part a + pos_part b
unfolding ◌+ℤ◌
+ℤ_parts a b = ground arith

pub -ℤ_parts :
    (a b : ℤ)
    → pos_part (a -ℤ b) + neg_part a + pos_part b ≡ neg_part (a -ℤ b) + pos_part a + neg_part b
unfolding ◌-ℤ◌
-ℤ_parts a b = ground arith

pub neg_ℤ_parts : (a : ℤ) → (pos_part (neg_ℤ a) ≡ neg_part a) × (neg_part (neg_ℤ a) ≡ pos_part a)
unfolding neg_ℤ
neg_ℤ_parts a = ground arith

-- The value of an integer as a difference, so that `omega` reads the two extrema.
abbrev SameParts : ℤ → ℤ → Type 0
SameParts a b = (pos_part a ≡ pos_part b) × (neg_part a ≡ neg_part b)

pub min_ℤ_parts :
    (a b : ℤ) → ((a ≤ℤ b) × SameParts (min_ℤ a b) a) ⊎ ((b <ℤ a) × SameParts (min_ℤ a b) b)
unfolding min_ℤ
min_ℤ_parts a b = ground arith

pub max_ℤ_parts :
    (a b : ℤ) → ((a ≤ℤ b) × SameParts (max_ℤ a b) b) ⊎ ((b <ℤ a) × SameParts (max_ℤ a b) a)
unfolding max_ℤ
max_ℤ_parts a b = ground arith

pub eq_of_parts : (a b : ℤ) → pos_part a + neg_part b ≡ pos_part b + neg_part a → a ≡ b
eq_of_parts a b h = ground arith

pub parts_of_eq : (a b : ℤ) → a ≡ b → pos_part a + neg_part b ≡ pos_part b + neg_part a
parts_of_eq a b h = ground arith

pub eqb_ℤ_iff : (a b : ℤ) → (eqb_ℤ a b ≡ true) ↔ (a ≡ b)
eqb_ℤ_iff a b = (λ h. eq_of_parts a b (ground arith), λ h. ground (arith, parts_of_eq a b h))

pub ruleset int_laws =
    (arith, +ℤ_parts, -ℤ_parts, neg_ℤ_parts, min_ℤ_parts, max_ℤ_parts, eq_of_parts)

-- What the answer of a test says, and when it is given.
module _ (a b : ℤ) where
  pub le_of_leb_ℤ : leb_ℤ a b ≡ true → a ≤ℤ b
  le_of_leb_ℤ h = ground arith

  pub lt_of_leb_ℤ : leb_ℤ a b ≡ false → b <ℤ a
  lt_of_leb_ℤ h = ground arith

  pub lt_of_ltb_ℤ : ltb_ℤ a b ≡ true → a <ℤ b
  lt_of_ltb_ℤ h = ground arith

  pub le_of_ltb_ℤ : ltb_ℤ a b ≡ false → b ≤ℤ a
  le_of_ltb_ℤ h = ground arith

  pub leb_ℤ-true : a ≤ℤ b → leb_ℤ a b ≡ true
  leb_ℤ-true h = ground arith

  pub leb_ℤ-false : b <ℤ a → leb_ℤ a b ≡ false
  leb_ℤ-false h = ground arith

  pub ltb_ℤ-true : a <ℤ b → ltb_ℤ a b ≡ true
  ltb_ℤ-true h = ground arith

  pub ltb_ℤ-false : b ≤ℤ a → ltb_ℤ a b ≡ false
  ltb_ℤ-false h = ground arith

-- An equation of integers, read by its parts.
pub ruleset int_tests = (int_laws, le_of_leb_ℤ, lt_of_leb_ℤ, lt_of_ltb_ℤ, le_of_ltb_ℤ)

-- The sum of amounts, as a plain recursion.
unfoldable pub sum_ℤ : List ℤ → ℤ
sum_ℤ [] = pos 0
sum_ℤ (x ∷ xs) = x +ℤ sum_ℤ xs

pub sum_ℤ-nil : sum_ℤ [] ≡ pos 0
unfolding sum_ℤ
sum_ℤ-nil = refl

pub sum_ℤ-cons : (x : ℤ) (xs : List ℤ) → sum_ℤ (x ∷ xs) ≡ x +ℤ sum_ℤ xs
unfolding sum_ℤ
sum_ℤ-cons x xs = refl

pub +ℤ_zero : (a : ℤ) → a +ℤ pos 0 ≡ a
+ℤ_zero a = omega int_laws

pub zero_+ℤ : (a : ℤ) → pos 0 +ℤ a ≡ a
zero_+ℤ a = omega int_laws

pub +ℤ_comm : (a b : ℤ) → a +ℤ b ≡ b +ℤ a
+ℤ_comm a b = omega int_laws

pub +ℤ_assoc : (a b c : ℤ) → a +ℤ b +ℤ c ≡ a +ℤ (b +ℤ c)
+ℤ_assoc a b c = omega int_laws

pub sum_ℤ-append : (xs ys : List ℤ) → sum_ℤ (xs ++ ys) ≡ sum_ℤ xs +ℤ sum_ℤ ys
unfolding sum_ℤ
sum_ℤ-append [] ys = omega int_laws
sum_ℤ-append (x ∷ xs) ys = rw (sum_ℤ-append xs ys) (omega int_laws)
