-- ===== src/Payments/Store/Sweep.antt =====
-- Loops that update a table row by row: each round writes the row that it has read by its id.
use srms.Prelude.{
  ℕ, ◌==◌, ◌≡◌, refl, sym, ap, ◌∙◌, Bool, false, if◌then◌else◌, List, [], ◌∷◌, map, filter,
  Bool-cases, inl, inr, arith, ==_refl, All,
}
use srms.Payments.Store.Tables.{update_where}

pub map_same : {A : Type 0} (xs : List A) → map (λ x. x) xs ≡ xs
map_same [] = refl
map_same (x ∷ xs) = ap (λ ys. x ∷ ys) (map_same xs)

module _ {A : Type 0} (id_of : A → ℕ) where
  -- Rows of which no two have the same id.
  abbrev pub Without : ℕ → List A → Type 0
  Without id xs = All (λ x. (id_of x == id) ≡ false) xs

  abbrev pub HasKeys : List A → Type 0
  HasKeys [] = Unit
  HasKeys (a ∷ xs) = Without (id_of a) xs × HasKeys xs

  pub filter-Without :
      (p : A → Bool) (id : ℕ) (xs : List A) → Without id xs → Without id (filter p xs)
  filter-Without p id [] h = tt
  filter-Without p id (x ∷ xs) h = elim (Bool-cases (p x)) [
    | inl kept ↦ rw kept (h.0, filter-Without p id xs h.1)
    | inr dropped ↦ rw dropped (filter-Without p id xs h.1)
  ]

  pub filter-HasKeys : (p : A → Bool) (xs : List A) → HasKeys xs → HasKeys (filter p xs)
  filter-HasKeys p [] h = tt
  filter-HasKeys p (x ∷ xs) h = elim (Bool-cases (p x)) [
    | inl kept ↦ rw kept (filter-Without p (id_of x) xs h.0, filter-HasKeys p xs h.1)
    | inr dropped ↦ rw dropped (filter-HasKeys p xs h.1)
  ]

  pub map-HasKeys :
      (g : A → A)
      → ((a : A) → id_of (g a) ≡ id_of a)
      → (xs : List A) → HasKeys xs
      → HasKeys (map g xs)
  map-HasKeys g same [] h = tt
  map-HasKeys g same (x ∷ xs) h = (apart xs h.0, map-HasKeys g same xs h.1)
    where
      apart : (ys : List A) → Without (id_of x) ys → Without (id_of (g x)) (map g ys)
      apart [] h = tt
      apart (y ∷ ys) h = (rw (same x, same y) h.0, apart ys h.1)

  pub update-Without :
      (id : ℕ) (f : A → A) (rows : List A)
      → Without id rows
      → update_where (λ x. id_of x == id) f rows ≡ rows
  update-Without id f [] h = refl
  update-Without id f (x ∷ rows) h = rw (h.0, update-Without id f rows h.1) refl

  -- `write a x` is what the round for the row `a` makes of the row `x`; a round may be skipped.
  module _ (skip : A → Bool) (write : A → A → A)
      (keeps : (a x : A) → id_of (write a x) ≡ id_of x) where
    abbrev pub change : A → List A → List A
    change a rows = if skip a then rows else update_where (λ x. id_of x == id_of a) (write a) rows

    abbrev pub changes : List A → List A → List A
    changes [] rows = rows
    changes (a ∷ xs) rows = changes xs (change a rows)

    change-skip :
        (a y : A) (rows : List A)
        → (id_of a == id_of y) ≡ false
        → change a (y ∷ rows) ≡ y ∷ change a rows
    change-skip a y rows h = elim (Bool-cases (skip a)) [
      | inl skipped ↦ rw skipped refl
      | inr done ↦ let other : (id_of y == id_of a) ≡ false = ground arith in rw (done, other) refl
    ]

    -- A row that none of the rounds is about stays in its place.
    changes-skip :
        (xs : List A) (y : A) (rows : List A)
        → Without (id_of y) xs
        → changes xs (y ∷ rows) ≡ y ∷ changes xs rows
    changes-skip [] y rows h = refl
    changes-skip (a ∷ xs) y rows h =
        ap (changes xs) (change-skip a y rows h.0) ∙ changes-skip xs y (change a rows) h.1

    -- The rounds over rows as they were before the table was changed by `g`.
    module _ (g : A → A) (same_id : (a : A) → id_of (g a) ≡ id_of a) where
      -- A row after the round of its own.
      abbrev pub own_after : A → A
      own_after a = if skip a then g a else write a (g a)

      own-id : (a : A) → id_of (own_after a) ≡ id_of a
      own-id a = elim (Bool-cases (skip a)) [
        | inl skipped ↦ rw skipped (same_id a)
        | inr done ↦ rw done (keeps a (g a) ∙ same_id a)
      ]

      map-Without : (id : ℕ) (rows : List A) → Without id rows → Without id (map g rows)
      map-Without id [] h = tt
      map-Without id (a ∷ rows) h = (rw (same_id a) h.0, map-Without id rows h.1)

      change-own :
          (a : A) (rows : List A)
          → Without (id_of a) rows
          → change a (g a ∷ rows) ≡ own_after a ∷ rows
      change-own a rows h = elim (Bool-cases (skip a)) [
        | inl skipped ↦ rw skipped refl
        | inr done ↦
            rw (done, same_id a, ==_refl (id_of a), update-Without (id_of a) (write a) rows h) refl
      ]

      pub changes-map :
          (p : A → Bool) (rows : List A)
          → HasKeys rows
          → changes (filter p rows) (map g rows) ≡ map (λ a. if p a then own_after a else g a) rows
      changes-map p [] keys = refl
      changes-map p (a ∷ rows) keys = elim (Bool-cases (p a)) [
        | inl chosen ↦
            let apart : Without (id_of (own_after a)) (filter p rows) =
              rw (own-id a) (filter-Without p (id_of a) rows keys.0) in
            rw chosen (
              ap (changes (filter p rows))
                (change-own a (map g rows) (map-Without (id_of a) rows keys.0))
              ∙ changes-skip (filter p rows) (own_after a) (map g rows) apart
              ∙ ap (λ xs. own_after a ∷ xs) (changes-map p rows keys.1))
        | inr passed ↦
            let apart : Without (id_of (g a)) (filter p rows) =
              rw (same_id a) (filter-Without p (id_of a) rows keys.0) in
            rw passed (
              changes-skip (filter p rows) (g a) (map g rows) apart
              ∙ ap (λ xs. g a ∷ xs) (changes-map p rows keys.1))
      ]

    -- The rounds over the rows that a test chooses, on a table with keys.
    pub changes-filter :
        (p : A → Bool) (rows : List A)
        → HasKeys rows
        → changes (filter p rows) rows
          ≡ map (λ a. if p a then own_after (λ x. x) (λ x. refl) a else a) rows
    changes-filter p rows keys =
        ap (changes (filter p rows)) (sym (map_same rows))
        ∙ changes-map (λ x. x) (λ x. refl) p rows keys
