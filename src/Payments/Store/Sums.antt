-- ===== src/Payments/Store/Sums.antt =====
-- Amounts that records hold on the rows of a table, summed by record and by row.
use srms.Prelude.{
  ℕ, ◌==◌, ◌≡◌, refl, sym, ap, ◌∙◌, true, false, List, [], ◌∷◌, map, filter, any, contains,
  Bool-cases, inl, inr, arith, All,
}
use srms.Prelude.Int.{ℤ, pos, ◌+ℤ◌, ◌≤ℤ◌, sum_ℤ, int_laws}
use srms.Payments.Store.Sweep.{HasKeys, Without}

module _ {R : Type 0} (key_of : R → ℕ) (amount_of : R → ℤ) where
  abbrev pub total : List R → ℤ
  total rs = sum_ℤ (map amount_of rs)

  -- What the records hold on one row.
  abbrev pub held : ℕ → List R → ℤ
  held k rs = sum_ℤ (map amount_of (filter (λ r. key_of r == k) rs))

  pub held-none : (k : ℕ) (rs : List R) → contains k (map key_of rs) ≡ false → held k rs ≡ pos 0
  unfolding sum_ℤ
  held-none k [] h = refl
  held-none k (r ∷ rs) h =
      let other : (key_of r == k) ≡ false = ground arith in rw other (held-none k rs (ground arith))

  pub held-nonneg : (k : ℕ) (rs : List R) → All (λ r. pos 0 ≤ℤ amount_of r) rs → pos 0 ≤ℤ held k rs
  unfolding sum_ℤ
  held-nonneg k [] h = omega arith
  held-nonneg k (r ∷ rs) h = elim (Bool-cases (key_of r == k)) [
    | inl own ↦ rw own (omega (int_laws, h.0, held-nonneg k rs h.1))
    | inr other ↦ rw other (held-nonneg k rs h.1)
  ]

  module _ {A : Type 0} (id_of : A → ℕ) where
    abbrev pub held_on : List R → List A → ℤ
    held_on rs rows = sum_ℤ (map (λ a. held (id_of a) rs) rows)

    held_on-skip :
        (r : R) (rs : List R) (rows : List A)
        → Without id_of (key_of r) rows
        → held_on (r ∷ rs) rows ≡ held_on rs rows
    unfolding sum_ℤ
    held_on-skip r rs [] h = refl
    held_on-skip r rs (a ∷ rows) h =
        let other : (key_of r == id_of a) ≡ false = ground (arith, h.0) in
        rw other (ap (λ t. held (id_of a) rs +ℤ t) (held_on-skip r rs rows h.1))

    held_on-one :
        (r : R) (rs : List R) (rows : List A)
        → HasKeys id_of rows
        → any (λ a. id_of a == key_of r) rows ≡ true
        → held_on (r ∷ rs) rows ≡ amount_of r +ℤ held_on rs rows
    unfolding sum_ℤ
    held_on-one r rs [] keys there = absurd (cc)
    held_on-one r rs (a ∷ rows) keys there = elim (Bool-cases (key_of r == id_of a)) [
      | inl own ↦
          let key : id_of a ≡ key_of r = ground arith in
          let rest = held_on-skip r rs rows (rw (sym key) keys.0) in rw (own, rest) (omega int_laws)
      | inr other ↦
          let rest = held_on-one r rs rows keys.1 (ground arith) in
          rw (other, rest) (omega int_laws)
    ]

    held_on-none : (rows : List A) → held_on [] rows ≡ pos 0
    unfolding sum_ℤ
    held_on-none [] = refl
    held_on-none (a ∷ rows) = rw (held_on-none rows) (omega int_laws)

    -- On a table with keys where every record has its row, what is held on all rows is what all
    -- records hold.
    pub held_on-total :
        (rs : List R) (rows : List A)
        → HasKeys id_of rows
        → All (λ r. any (λ a. id_of a == key_of r) rows ≡ true) rs
        → held_on rs rows ≡ total rs
    unfolding sum_ℤ
    held_on-total [] rows keys there = held_on-none rows
    held_on-total (r ∷ rs) rows keys there =
        held_on-one r rs rows keys there.0
        ∙ ap (λ t. amount_of r +ℤ t) (held_on-total rs rows keys there.1)

-- Sums over a table of which each row has been lowered, or raised.
module _ {A : Type 0} (field_of d : A → ℤ) (g : A → A) where
  pub sum-lowered :
      (rows : List A)
      → ((a : A) → field_of (g a) +ℤ d a ≡ field_of a)
      → sum_ℤ (map field_of (map g rows)) +ℤ sum_ℤ (map d rows) ≡ sum_ℤ (map field_of rows)
  unfolding sum_ℤ
  sum-lowered [] e = omega int_laws
  sum-lowered (a ∷ rows) e = rw (sym (e a), sym (sum-lowered rows e)) (omega int_laws)

  pub sum-raised :
      (rows : List A)
      → ((a : A) → field_of a +ℤ d a ≡ field_of (g a))
      → sum_ℤ (map field_of rows) +ℤ sum_ℤ (map d rows) ≡ sum_ℤ (map field_of (map g rows))
  unfolding sum_ℤ
  sum-raised [] e = omega int_laws
  sum-raised (a ∷ rows) e = rw (sym (e a), sym (sum-raised rows e)) (omega int_laws)
