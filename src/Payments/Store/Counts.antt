-- ===== src/Payments/Store/Counts.antt =====
-- How many rows a `where` finds: before and after an update, and on a table with keys.
use srms.Prelude.{
  ℕ, suc, ◌+◌, ◌==◌, ◌≡◌, ◌≤◌, refl, sym, ap, Bool, true, false, ◌&&◌, some, List, [], ◌∷◌, ◌++◌,
  map, filter, find, length, Bool-cases, inl, inr, arith, ==_refl, All,
}
use srms.Payments.Store.Tables.{update_where}
use srms.Payments.Store.Sweep.{HasKeys, Without, filter-Without}

module _ {A : Type 0} where
  abbrev pub count : (A → Bool) → List A → ℕ
  count p xs = length (filter p xs)

  pub count-true : (p : A → Bool) (xs : List A) → count (λ x. p x && true) xs ≡ count p xs
  count-true p [] = refl
  count-true p (x ∷ xs) = elim (Bool-cases (p x)) [
    | inl hit ↦ rw hit (ap suc (count-true p xs))
    | inr miss ↦ rw miss (count-true p xs)
  ]

  -- An update of what the test does not see.
  pub count-update_where :
      (p w : A → Bool) (f : A → A)
      → ((a : A) → w a ≡ true → p (f a) ≡ p a)
      → (xs : List A) → count p (update_where w f xs) ≡ count p xs
  count-update_where p w f same [] = refl
  count-update_where p w f same (x ∷ xs) = elim (Bool-cases (w x)) [
    | inl hit ↦ ground (arith, same x hit, count-update_where p w f same xs)
    | inr miss ↦ ground (arith, count-update_where p w f same xs)
  ]

  pub count-other :
      (p : A → Bool) (xs : List A) (a : A) → p a ≡ false → count p (xs ++ a ∷ []) ≡ count p xs
  count-other p [] a h = rw h refl
  count-other p (x ∷ xs) a h = ground (arith, count-other p xs a h)

  pub count-append : (p : A → Bool) (xs ys : List A) → count p (xs ++ ys) ≡ count p xs + count p ys
  count-append p [] ys = omega arith
  count-append p (x ∷ xs) ys = ground (arith, count-append p xs ys)

  pub All-update_where :
      (P : A → Type 0) (w : A → Bool) (f : A → A)
      → ((a : A) → P a → P (f a))
      → (xs : List A) → All P xs
      → All P (update_where w f xs)
  All-update_where P w f keeps [] h = tt
  All-update_where P w f keeps (x ∷ xs) h = elim (Bool-cases (w x)) [
    | inl hit ↦ rw hit (keeps x h.0, All-update_where P w f keeps xs h.1)
    | inr miss ↦ rw miss (h.0, All-update_where P w f keeps xs h.1)
  ]

  pub All-map_of : (P Q : A → Type 0) → ((a : A) → P a → Q a) → (xs : List A) → All P xs → All Q xs
  All-map_of P Q f [] h = tt
  All-map_of P Q f (x ∷ xs) h = (f x h.0, All-map_of P Q f xs h.1)

  -- One row: `find` takes it too.
  pub find-count :
      {C : Type 0} (p : A → Bool) (xs : List A)
      → count p xs ≡ 1
      → ((a : A) → filter p xs ≡ a ∷ [] → find p xs ≡ some a → p a ≡ true → C)
      → C
  find-count p [] h use_row = absurd (omega (arith, h))
  find-count {C} p (x ∷ xs) h use_row = elim (Bool-cases (p x)) [
    | inl hit ↦
        let rest : filter p xs ≡ [] = none_left (filter p xs) (ground arith) in
        use_row x (rw (hit, rest) refl) (rw hit refl) hit
    | inr miss ↦
        find-count p xs (ground arith)
          (λ a one found holds. use_row a (rw miss one) (rw miss found) holds)
  ]
    where
      none_left : (ys : List A) → suc (length ys) ≡ 1 → ys ≡ []
      none_left [] e = refl
      none_left (y ∷ ys) e = absurd (omega (arith, e))

  pub All-find :
      (P : A → Type 0) (p : A → Bool) (xs : List A) {a : A} → All P xs → find p xs ≡ some a → P a
  All-find P p [] h e = absurd (cc)
  All-find P p (x ∷ xs) {a} h e = elim (Bool-cases (p x)) [
    | inl hit ↦ let same : x ≡ a = ground arith in rw (sym same) h.0
    | inr miss ↦ All-find P p xs h.1 (ground arith)
  ]

module _ {A : Type 0} (p q : A → Bool) where
  pub count-and : (xs : List A) → count (λ x. p x && q x) xs ≤ count p xs
  count-and [] = omega arith
  count-and (x ∷ xs) = ground (arith, count-and xs)

  -- The second test holds wherever the first does, if it leaves their number as it is.
  pub All-both :
      (xs : List A)
      → count (λ x. p x && q x) xs ≡ count p xs
      → All (λ x. p x ≡ true → q x ≡ true) xs
  All-both [] e = tt
  All-both (x ∷ xs) e =
      ((λ h. ground (arith, count-and xs)), All-both xs (ground (arith, count-and xs)))

  pub All-neither :
      (xs : List A) → count (λ x. p x && q x) xs ≡ 0 → All (λ x. (p x && q x) ≡ false) xs
  All-neither [] e = tt
  All-neither (x ∷ xs) e = (ground arith, All-neither xs (ground arith))

-- Rows with a key that also pass a test, on a table with keys that `g` has gone over.
module _ {A : Type 0} (id_of : A → ℕ) (q : A → Bool) (g : A → A)
    (same_id : (a : A) → id_of (g a) ≡ id_of a) where
  abbrev pub is_row : ℕ → A → Bool
  is_row id x = (id_of x == id) && q x

  count-Without : (id : ℕ) (xs : List A) → Without id_of id xs → count (is_row id) (map g xs) ≡ 0
  count-Without id [] h = refl
  count-Without id (x ∷ xs) h = rw (same_id x, h.0) (count-Without id xs h.1)

  count-skip :
      (y : A) (rows xs : List A)
      → Without id_of (id_of y) xs
      → All (λ c. count (is_row (id_of c)) rows ≡ 1) xs
      → All (λ c. count (is_row (id_of c)) (g y ∷ rows) ≡ 1) xs
  count-skip y rows [] apart h = tt
  count-skip y rows (x ∷ xs) apart h =
      let other : (id_of y == id_of x) ≡ false = ground (arith, apart.0) in
      (rw (same_id y, other) h.0, count-skip y rows xs apart.1 h.1)

  pub count-filter :
      (p : A → Bool) (rows : List A)
      → HasKeys id_of rows
      → ((a : A) → p a ≡ true → q (g a) ≡ true)
      → All (λ c. count (is_row (id_of c)) (map g rows) ≡ 1) (filter p rows)
  count-filter p [] keys passes = tt
  count-filter p (a ∷ rows) keys passes =
      let rest =
        count-skip a (map g rows) (filter p rows) (filter-Without id_of p (id_of a) rows keys.0)
          (count-filter p rows keys.1 passes) in
      elim (Bool-cases (p a)) [
        | inl chosen ↦
            let own : count (is_row (id_of a)) (g a ∷ map g rows) ≡ 1 =
              rw (same_id a, passes a chosen, ==_refl (id_of a))
                (ap suc (count-Without (id_of a) rows keys.0)) in
            rw chosen (own, rest)
        | inr passed ↦ rw passed rest
      ]
