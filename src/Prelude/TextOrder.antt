-- ===== src/Prelude/TextOrder.antt =====
-- The order of texts is total, and sorting by it gives one list for all orders of its elements.
use Prim.Native.Nat.{ℕ}
use mathlib.Core.Path.{◌≡◌, refl, sym, ap, ◌∙◌}
use mathlib.Core.Logic.{inl, inr}
use mathlib.Core.Bool.{Bool, true, false, ◌&&◌}
use mathlib.Core.List.{List, [], ◌∷◌}
use native.Mathlib.Omega.{arith}
use srms.Prelude.Tests.{◌==◌, if◌then◌else◌, Bool-cases, ==_refl}
use srms.Prelude.Texts.{text_before}

pub before_asym : (s t : List ℕ) → text_before s t ≡ true → text_before t s ≡ false
before_asym [] [] h = refl
before_asym [] (y ∷ t) h = refl
before_asym (x ∷ s) [] h = absurd (cc)
before_asym (x ∷ s) (y ∷ t) h = elim (Bool-cases (text_before s t)) [
  | inl first ↦ ground (arith, before_asym s t first)
  | inr later ↦ ground arith
]

pub before_total : (s t : List ℕ) → text_before s t ≡ false → text_before t s ≡ false → s ≡ t
before_total [] [] h k = refl
before_total [] (y ∷ t) h k = absurd (cc)
before_total (x ∷ s) [] h k = absurd (cc)
before_total (x ∷ s) (y ∷ t) h k =
    let heads : x ≡ y = ground arith in
    let tails : s ≡ t = before_total s t (ground arith) (ground arith) in
    ap (λ z. z ∷ s) heads ∙ ap (λ zs. y ∷ zs) tails

-- `s` is not after `t`, and `t` is before `u`.
pub before_trans :
    (s t u : List ℕ) → text_before t s ≡ false → text_before t u ≡ true → text_before s u ≡ true
before_trans [] t [] h k = absurd (cc)
before_trans [] t (z ∷ u) h k = refl
before_trans (x ∷ s) [] u h k = absurd (cc)
before_trans (x ∷ s) (y ∷ t) [] h k = absurd (cc)
before_trans (x ∷ s) (y ∷ t) (z ∷ u) h k = ground (arith, before_trans s t u)

-- `===` of two texts.
abbrev pub same_text : List ℕ → List ℕ → Bool
same_text [] [] = true
same_text [] (y ∷ ys) = false
same_text (x ∷ xs) [] = false
same_text (x ∷ xs) (y ∷ ys) = (x == y) && same_text xs ys

pub same_text_refl : (s : List ℕ) → same_text s s ≡ true
same_text_refl [] = refl
same_text_refl (x ∷ s) = rw (==_refl x) (same_text_refl s)

pub eq_of_same_text : (s t : List ℕ) → same_text s t ≡ true → s ≡ t
eq_of_same_text [] [] h = refl
eq_of_same_text [] (y ∷ t) h = absurd (cc)
eq_of_same_text (x ∷ s) [] h = absurd (cc)
eq_of_same_text (x ∷ s) (y ∷ t) h =
    let heads : x ≡ y = ground arith in
    ap (λ z. z ∷ s) heads ∙ ap (λ zs. y ∷ zs) (eq_of_same_text s t (ground arith))

-- `Array.prototype.sort` of texts.
abbrev pub insert_text : List ℕ → List (List ℕ) → List (List ℕ)
insert_text s [] = s ∷ []
insert_text s (x ∷ xs) = if text_before x s then x ∷ insert_text s xs else s ∷ x ∷ xs

abbrev pub sort_texts : List (List ℕ) → List (List ℕ)
sort_texts [] = []
sort_texts (s ∷ ss) = insert_text s (sort_texts ss)

-- Two insertions in either order.
pub insert_text-insert_text :
    (a b : List ℕ) (xs : List (List ℕ))
    → insert_text a (insert_text b xs) ≡ insert_text b (insert_text a xs)
insert_text-insert_text a b [] = elim (Bool-cases (text_before b a)) [
  | inl first ↦ rw (first, before_asym b a first) refl
  | inr later ↦ elim (Bool-cases (text_before a b)) [
    | inl other ↦ rw (later, other) refl
    | inr same ↦ rw (before_total a b same later) refl
  ]
]
insert_text-insert_text a b (x ∷ xs) = elim (Bool-cases (text_before x a)) [
  | inl xa ↦ elim (Bool-cases (text_before x b)) [
    | inl xb ↦ rw (xa, xb, xa) (ap (λ ys. x ∷ ys) (insert_text-insert_text a b xs))
    | inr bx ↦ let ba = before_trans b x a bx xa in rw (xa, bx, ba, xa) refl
  ]
  | inr ax ↦ elim (Bool-cases (text_before x b)) [
    | inl xb ↦ let ab = before_trans a x b ax xb in rw (ax, xb, ab, ax) refl
    | inr bx ↦ elim (Bool-cases (text_before b a)) [
      | inl ba ↦ rw (ax, bx, ba, before_asym b a ba, ax) refl
      | inr later ↦ elim (Bool-cases (text_before a b)) [
        | inl ab ↦ rw (ax, bx, later, ab) refl
        | inr same ↦
            let e = before_total a b same later in
            rw (ax, bx, later, same) (ap (λ z. z ∷ b ∷ x ∷ xs) e ∙ ap (λ z. b ∷ z ∷ x ∷ xs) (sym e))
      ]
    ]
  ]
]
