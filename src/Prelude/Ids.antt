-- ===== src/Prelude/Ids.antt =====
-- Ids in ascending order without repetition: `[...new Set(ids)].sort((a, b) => a - b)`.
use Prim.Native.Nat.{ℕ}
use mathlib.Core.Path.{◌≡◌, refl, ap, ◌∙◌}
use mathlib.Core.Logic.{inl, inr}
use mathlib.Core.Bool.{true, false, ◌||◌}
use mathlib.Core.List.{List, [], ◌∷◌}
use native.Mathlib.Omega.{arith}
use srms.Prelude.Tests.{ltb, ◌==◌, if◌then◌else◌, Bool-cases}
use srms.Prelude.Lists.{contains, has_duplicates, All}

abbrev pub insert_unique : ℕ → List ℕ → List ℕ
insert_unique id [] = id ∷ []
insert_unique id (x ∷ xs) =
    if id == x then x ∷ xs else if ltb id x then id ∷ x ∷ xs else x ∷ insert_unique id xs

unfoldable pub unique_ids : List ℕ → List ℕ
unique_ids [] = []
unique_ids (id ∷ ids) = insert_unique id (unique_ids ids)

abbrev IsAscending : List ℕ → Type 0
IsAscending [] = Unit
IsAscending (x ∷ xs) = All (λ y. ltb x y ≡ true) xs × IsAscending xs

All-below :
    (x y : ℕ) (xs : List ℕ)
    → ltb x y ≡ true
    → All (λ z. ltb y z ≡ true) xs
    → All (λ z. ltb x z ≡ true) xs
All-below x y [] h hs = tt
All-below x y (z ∷ xs) h hs = (ground (arith, hs.0), All-below x y xs h hs.1)

insert-below :
    (x id : ℕ) (xs : List ℕ)
    → ltb x id ≡ true
    → All (λ y. ltb x y ≡ true) xs
    → All (λ y. ltb x y ≡ true) (insert_unique id xs)
insert-below x id [] h hs = (h, tt)
insert-below x id (y ∷ ys) h hs = elim (Bool-cases (id == y)) [
  | inl same ↦ rw same hs
  | inr differ ↦ elim (Bool-cases (ltb id y)) [
    | inl first ↦ rw (differ, first) (h, hs)
    | inr later ↦ rw (differ, later) (hs.0, insert-below x id ys h hs.1)
  ]
]

insert-IsAscending : (id : ℕ) (xs : List ℕ) → IsAscending xs → IsAscending (insert_unique id xs)
insert-IsAscending id [] h = (tt, tt)
insert-IsAscending id (x ∷ xs) h = elim (Bool-cases (id == x)) [
  | inl same ↦ rw same h
  | inr differ ↦ elim (Bool-cases (ltb id x)) [
    | inl first ↦ rw (differ, first) ((first, All-below id x xs first h.0), h)
    | inr later ↦
        rw (differ, later) (insert-below x id xs (ground arith) h.0, insert-IsAscending id xs h.1)
  ]
]

unique-IsAscending : (ids : List ℕ) → IsAscending (unique_ids ids)
unfolding unique_ids
unique-IsAscending [] = tt
unique-IsAscending (id ∷ ids) = insert-IsAscending id (unique_ids ids) (unique-IsAscending ids)

contains-below : (x : ℕ) (xs : List ℕ) → All (λ y. ltb x y ≡ true) xs → contains x xs ≡ false
contains-below x [] h = refl
contains-below x (y ∷ xs) h = ground (arith, h.0, contains-below x xs h.1)

duplicates-ascending : (xs : List ℕ) → IsAscending xs → has_duplicates xs ≡ false
duplicates-ascending [] h = refl
duplicates-ascending (x ∷ xs) h = rw (contains-below x xs h.0) (duplicates-ascending xs h.1)

pub has_duplicates-unique_ids : (ids : List ℕ) → has_duplicates (unique_ids ids) ≡ false
has_duplicates-unique_ids ids = duplicates-ascending (unique_ids ids) (unique-IsAscending ids)

contains-insert :
    (k id : ℕ) (xs : List ℕ) → contains k (insert_unique id xs) ≡ ((k == id) || contains k xs)
contains-insert k id [] = refl
contains-insert k id (x ∷ xs) = elim (Bool-cases (id == x)) [
  | inl same ↦ rw same (ground arith)
  | inr differ ↦ elim (Bool-cases (ltb id x)) [
    | inl first ↦ rw (differ, first) refl
    | inr later ↦ rw (differ, later, contains-insert k id xs) (ground arith)
  ]
]

pub contains-unique_ids : (k : ℕ) (ids : List ℕ) → contains k (unique_ids ids) ≡ contains k ids
unfolding unique_ids
contains-unique_ids k [] = refl
contains-unique_ids k (id ∷ ids) =
    contains-insert k id (unique_ids ids) ∙ ap (λ t. (k == id) || t) (contains-unique_ids k ids)
