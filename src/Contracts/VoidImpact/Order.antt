-- ===== src/Contracts/VoidImpact/Order.antt =====
-- The order of the rows of an impact, and the parts that they come from.
use srms.Prelude.{
  ℕ, suc, ◌≤◌, Option, some, none, ◌≡◌, Bool, true, false, List, [], ◌∷◌, All, Bool-cases, inl, inr,
  arith,
}
use srms.Prelude.Int.{ℤ}
use mathlib.Core.List.{Perm}
use mathlib.Core.List.Perm
use srms.Contracts.VoidImpact.Data.{ImpactInput, ImpactRow}
use srms.Contracts.VoidImpact.Compute.{impact_rows, compute_contract_void_impact}
use srms.Contracts.VoidImpact.Rows.{
  category_rank, entity_rank, id_before, row_before, insert_row, sort_rows,
}
use srms.Contracts.VoidImpact.Parts.{part_of, parts, StandsFor}
use srms.Contracts.VoidImpact.Standing.{impact_rows-StandsFor}

abbrev pub Every : (ImpactRow → Bool) → List ImpactRow → Type 0
Every p rs = All (λ r. p r ≡ true) rs

-- Each row comes before all that follow it.
abbrev pub IsSorted : List ImpactRow → Type 0
IsSorted [] = Unit
IsSorted (r ∷ rs) = Every (row_before r) rs × IsSorted rs

row_before_trans :
    (a b c : ImpactRow) → row_before a b ≡ true → row_before b c ≡ true → row_before a c ≡ true
unfolding row_before
row_before_trans a b c h k = ground arith

row_before_total : (a b : ImpactRow) → row_before a b ≡ false → row_before b a ≡ true
unfolding row_before
row_before_total a b h = ground arith

Every-before :
    (a b : ImpactRow) (rs : List ImpactRow)
    → row_before a b ≡ true
    → Every (row_before b) rs
    → Every (row_before a) rs
Every-before a b [] h e = tt
Every-before a b (r ∷ rs) h e = (row_before_trans a b r h e.0, Every-before a b rs h e.1)

Every-insert :
    (p : ImpactRow → Bool) (r : ImpactRow) (rs : List ImpactRow)
    → p r ≡ true
    → Every p rs
    → Every p (insert_row r rs)
unfolding insert_row
Every-insert p r [] h e = (h, tt)
Every-insert p r (x ∷ xs) h e = elim (Bool-cases (row_before r x)) [
  | inl first ↦ rw first (h, e)
  | inr later ↦ rw later (e.0, Every-insert p r xs h e.1)
]

insert-IsSorted : (r : ImpactRow) (rs : List ImpactRow) → IsSorted rs → IsSorted (insert_row r rs)
unfolding insert_row
insert-IsSorted r [] h = (tt, tt)
insert-IsSorted r (x ∷ xs) h = elim (Bool-cases (row_before r x)) [
  | inl first ↦ rw first ((first, Every-before r x xs first h.0), h)
  | inr later ↦
      rw later (
        Every-insert (row_before x) r xs (row_before_total r x later) h.0,
        insert-IsSorted r xs h.1,
      )
]

sort-IsSorted : (rs : List ImpactRow) → IsSorted (sort_rows rs)
unfolding sort_rows
sort-IsSorted [] = tt
sort-IsSorted (r ∷ rs) = insert-IsSorted r (sort_rows rs) (sort-IsSorted rs)

insert-perm : (r : ImpactRow) (rs : List ImpactRow) → Perm (insert_row r rs) (r ∷ rs)
unfolding insert_row
insert-perm r [] = Perm.refl (r ∷ [])
insert-perm r (x ∷ xs) = elim (Bool-cases (row_before r x)) [
  | inl first ↦ rw first (Perm.refl (r ∷ x ∷ xs))
  | inr later ↦ rw later (Perm.trans (Perm.cons x (insert-perm r xs)) (Perm.swap r x xs))
]

sort-perm : (rs : List ImpactRow) → Perm (sort_rows rs) rs
unfolding sort_rows
sort-perm [] = Perm.refl []
sort-perm (r ∷ rs) = Perm.trans (insert-perm r (sort_rows rs)) (Perm.cons r (sort-perm rs))

-- What the order is: by the names of the categories, then by those of the entity types, then by
-- the ids, a missing one first.
abbrev pub place_of : Option ℕ → ℕ
place_of none = 0
place_of (some id) = suc id

pub record InOrder (left right : ImpactRow) : Type 0 where
  pub by_category : category_rank left.category ≤ category_rank right.category
  pub by_entity :
      category_rank left.category ≡ category_rank right.category
      → entity_rank left.entity_type ≤ entity_rank right.entity_type
  pub by_id :
      category_rank left.category ≡ category_rank right.category
      → entity_rank left.entity_type ≡ entity_rank right.entity_type
      → place_of left.entity_id ≤ place_of right.entity_id

abbrev pub AreInOrder : List ImpactRow → Type 0
AreInOrder [] = Unit
AreInOrder (r ∷ rs) = All (InOrder r) rs × AreInOrder rs

id_before_lem : (a b : Option ℕ) → id_before a b ≡ true → place_of a ≤ place_of b
id_before_lem none b h = omega arith
id_before_lem (some x) none h = absurd (ground arith)
id_before_lem (some x) (some y) h = ground arith

row_before-InOrder : (a b : ImpactRow) → row_before a b ≡ true → InOrder a b
unfolding row_before
row_before-InOrder a b h = record {
  by_category = ground arith;
  by_entity = λ category. ground arith;
  by_id = λ category entity. id_before_lem a.entity_id b.entity_id (ground arith);
}

All-InOrder : (r : ImpactRow) (rs : List ImpactRow) → Every (row_before r) rs → All (InOrder r) rs
All-InOrder r [] h = tt
All-InOrder r (x ∷ xs) h = (row_before-InOrder r x h.0, All-InOrder r xs h.1)

sorted-AreInOrder : (rs : List ImpactRow) → IsSorted rs → AreInOrder rs
sorted-AreInOrder [] h = tt
sorted-AreInOrder (r ∷ rs) h = (All-InOrder r rs h.0, sorted-AreInOrder rs h.1)

-- The rows of a computed impact are in the order of their categories, entity types and ids, a
-- missing id first, and they stand, each once, for the parts of the contract: every bill; every
-- payment that was not voided; every approved refund and applied rent refund of such a payment, or
-- what such payments say is refunded if no refunds are given; the deposit and the prepayment where
-- the library finds them positive; every open workflow and completed checkout; and the room. Each
-- row's amount reverses its part.
pub compute_contract_void_impact_rows :
    (is_positive : ℤ → Bool) (input : ImpactInput)
    → let impact = compute_contract_void_impact is_positive input in
      AreInOrder impact.rows × StandsFor impact.rows (parts is_positive input)
unfolding compute_contract_void_impact
compute_contract_void_impact_rows is_positive input =
    let rows = impact_rows is_positive input in
    (
      sorted-AreInOrder (sort_rows rows) (sort-IsSorted rows),
      Perm.trans (Perm.map part_of (sort-perm rows)) (impact_rows-StandsFor input is_positive),
    )
