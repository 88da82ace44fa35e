-- ===== src/Payments/Store/Rows.antt =====
-- Rows found by id after an update by id.
use srms.Prelude.{
  ℕ, ◌==◌, ◌≡◌, refl, false, Option, none, some, List, [], ◌∷◌, find, Bool-cases, inl, inr, arith,
  All, ==_refl,
}
use srms.Payments.Store.Tables.{update_where}
use srms.Payments.Store.Sweep.{HasKeys, Without}

abbrev pub map_option {ℓ} : {A : Type ℓ} → (A → A) → Option A → Option A
map_option f none = none
map_option f (some a) = some (f a)

module _ {A : Type 0} (id_of : A → ℕ) (f : A → A) (keeps : (x : A) → id_of (f x) ≡ id_of x) where
  -- The updated row is found in its place.
  pub find-update_self :
      (id : ℕ) (xs : List A)
      → find (λ x. id_of x == id) (update_where (λ x. id_of x == id) f xs)
        ≡ map_option f (find (λ x. id_of x == id) xs)
  find-update_self id [] = refl
  find-update_self id (x ∷ xs) = elim (Bool-cases (id_of x == id)) [
    | inl same ↦ rw (same, keeps x, same)
    | inr other ↦ rw (other, other) (find-update_self id xs)
  ]

  -- Every other row is found as before.
  pub find-update_ne :
      (id j : ℕ) (xs : List A)
      → (j == id) ≡ false
      → find (λ x. id_of x == j) (update_where (λ x. id_of x == id) f xs)
        ≡ find (λ x. id_of x == j) xs
  find-update_ne id j [] h = refl
  find-update_ne id j (x ∷ xs) h = elim (Bool-cases (id_of x == id)) [
    | inl same ↦ ground (arith, keeps x, find-update_ne id j xs)
    | inr other ↦ rw other (ground (arith, find-update_ne id j xs))
  ]

module _ {A : Type 0} (id_of : A → ℕ) where
  -- What is found by id has that id.
  pub find-id :
      (id : ℕ) (xs : List A) (x : A) → find (λ y. id_of y == id) xs ≡ some x → id_of x ≡ id
  find-id id [] x h = cc
  find-id id (y ∷ ys) x h = ground (arith, find-id id ys x)

  -- On a table with keys every row is found by its id.
  find-skip :
      (y : A) (rows xs : List A)
      → Without id_of (id_of y) xs
      → All (λ x. find (λ z. id_of z == id_of x) rows ≡ some x) xs
      → All (λ x. find (λ z. id_of z == id_of x) (y ∷ rows) ≡ some x) xs
  find-skip y rows [] apart h = tt
  find-skip y rows (x ∷ xs) apart h =
      let other : (id_of y == id_of x) ≡ false = ground (arith, apart.0) in
      (rw other h.0, find-skip y rows xs apart.1 h.1)

  pub find-own :
      (rows : List A)
      → HasKeys id_of rows
      → All (λ x. find (λ z. id_of z == id_of x) rows ≡ some x) rows
  find-own [] keys = tt
  find-own (y ∷ rows) keys =
      (rw (==_refl (id_of y)) refl, find-skip y rows rows keys.0 (find-own rows keys.1))
