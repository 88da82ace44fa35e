-- ===== src/Prelude/Decimal.antt =====
-- A number as JavaScript prints it, and read back.
use Prim.Native.Nat.{ℕ, zero, suc, ◌+◌, ◌-◌, ◌*◌, ◌/◌, ◌%◌, ◌<◌}
use mathlib.Core.Path.{◌≡◌, sym, ap, ◌∙◌}
use mathlib.Core.Logic.{inl, inr}
use mathlib.Core.Bool.{Bool, true}
use mathlib.Core.List.{List, [], ◌∷◌}
use native.Mathlib.Omega.{arith}
use srms.Prelude.Tests.{ltb, if◌then◌else◌, Bool-cases}
use srms.Prelude.Lists.{all}

unfoldable pub digits : ℕ → ℕ → List ℕ → List ℕ
digits zero n acc = acc
digits (suc fuel) n acc =
    let more = digits fuel (n / 10) ((b'0' + n % 10) ∷ acc) in
    if ltb n 10 then (b'0' + n) ∷ acc else more

abbrev pub decimal : ℕ → List ℕ
decimal n = digits (suc n) n []

abbrev read : ℕ → List ℕ → ℕ
read v [] = v
read v (d ∷ ds) = read (v * 10 + (d - b'0')) ds

read-digits : (fuel n : ℕ) (acc : List ℕ) → n < fuel → read 0 (digits fuel n acc) ≡ read n acc
unfolding digits
read-digits zero n acc h = absurd (omega (arith, h))
read-digits (suc fuel) n acc h = elim (Bool-cases (ltb n 10)) [
  | inl one ↦ rw one (ap (λ v. read v acc) (omega arith))
  | inr more ↦
      let large : 10 < n + 1 = ground (arith, more) in
      rw more (
        read-digits fuel (n / 10) ((b'0' + n % 10) ∷ acc) (omega (arith, h, large))
        ∙ ap (λ v. read v acc) (omega arith))
]

pub decimal-injective : (m n : ℕ) → decimal m ≡ decimal n → m ≡ n
decimal-injective m n h =
    sym (read-digits (suc m) m [] (omega arith))
    ∙ ap (read 0) h
    ∙ read-digits (suc n) n [] (omega arith)

-- Its digits, by a test of which only this is known.
pub all-digits :
    (p : ℕ → Bool)
    → ((d : ℕ) → d < 10 → p (b'0' + d) ≡ true)
    → (fuel n : ℕ) (acc : List ℕ) → all p acc ≡ true
    → all p (digits fuel n acc) ≡ true
unfolding digits
all-digits p h zero n acc rest = rest
all-digits p h (suc fuel) n acc rest = elim (Bool-cases (ltb n 10)) [
  | inl one ↦ let low : n < 10 = ground (arith, one) in rw (one, h n low) rest
  | inr more ↦
      rw more
        (all-digits p h fuel (n / 10) ((b'0' + n % 10) ∷ acc) (rw (h (n % 10) (omega arith)) rest))
]
