-- ===== src/Checkout/Accounting/Complete.antt =====
-- The totals behind `assertCheckoutArrearsComplete`.
use srms.Prelude.{
  ℕ, suc, ◌==◌, ◌≡◌, refl, ◌∙◌, Bool, true, false, some, List, [], ◌∷◌, map, find, contains,
  has_duplicates, length, if◌then◌else◌, Bool-cases, Option-cases, inl, inr, arith,
}
use mathlib.Core.Path.{ap₂}
use srms.Prelude.Int.{ℤ, ◌+ℤ◌, eqb_ℤ_iff, int_laws, sum_ℤ}
use srms.Prelude.Fallible.{ok, ok_parts}
use srms.Checkout.Accounting.{
  LinkedItem, CheckedBill, links_to, arrears_of, outstanding_of, assert_each_settled,
  assert_items_current, assert_arrears_complete,
}

abbrev pub item_total : List LinkedItem → ℤ
item_total items = sum_ℤ (map (λ i. i.amount) items)

abbrev pub bill_total : List CheckedBill → ℤ
bill_total bills = sum_ℤ (map (λ b. b.outstanding_amount) bills)

abbrev pub checked_ids : List CheckedBill → List ℕ
checked_ids bills = map (λ b. b.id) bills

remove : (LinkedItem → Bool) → List LinkedItem → List LinkedItem
remove p [] = []
remove p (x ∷ xs) = if p x then xs else x ∷ remove p xs

module _ (id : ℕ) where
  total-remove :
      (xs : List LinkedItem) (item : LinkedItem)
      → find (links_to id) xs ≡ some item
      → item_total xs ≡ item.amount +ℤ item_total (remove (links_to id) xs)
  unfolding remove sum_ℤ
  total-remove [] item h = cc
  total-remove (x ∷ xs) item h = elim (Bool-cases (links_to id x)) [
    | inl same ↦ ground (arith, same)
    | inr other ↦ rw (other, total-remove xs item (rw other at h)) (omega int_laws)
  ]

  length-remove :
      (xs : List LinkedItem) (item : LinkedItem)
      → find (links_to id) xs ≡ some item
      → length xs ≡ suc (length (remove (links_to id) xs))
  unfolding remove
  length-remove [] item h = cc
  length-remove (x ∷ xs) item h = ground (arith, length-remove xs item)

  links_to_ne :
      (other : ℕ) (x : LinkedItem)
      → (id == other) ≡ false
      → links_to id x ≡ true
      → links_to other x ≡ false
  links_to_ne other x ne h = ground arith

  find-remove_ne :
      (other : ℕ) (xs : List LinkedItem)
      → (id == other) ≡ false
      → find (links_to other) (remove (links_to id) xs) ≡ find (links_to other) xs
  unfolding remove
  find-remove_ne other [] ne = refl
  find-remove_ne other (x ∷ xs) ne = elim (Bool-cases (links_to id x)) [
    | inl same ↦ rw (same, links_to_ne other x ne same)
    | inr differs ↦ rw (differs, find-remove_ne other xs ne)
  ]

  settled-remove :
      (xs : List LinkedItem) (bills : List CheckedBill)
      → contains id (checked_ids bills) ≡ false
      → assert_each_settled (remove (links_to id) xs) bills ≡ assert_each_settled xs bills
  unfolding assert_each_settled
  settled-remove xs [] new = refl
  settled-remove xs (b ∷ bs) new = ground (arith, find-remove_ne b.id xs, settled-remove xs bs)

-- What an accepted bill says: its item has its amount, and the other bills are accepted.
settled-cons :
    (items : List LinkedItem) (b : CheckedBill) (bs : List CheckedBill)
    → assert_each_settled items (b ∷ bs) ≡ ok tt
    → (item : LinkedItem) × (find (links_to b.id) items ≡ some item)
      × (item.amount ≡ b.outstanding_amount)
      × (assert_each_settled items bs ≡ ok tt)
unfolding assert_each_settled
settled-cons items b bs h = elim (Option-cases (find (links_to b.id) items)) [
  | inl missing ↦ ground arith
  | inr (item, found) ↦
      (item, found, ground (arith, eqb_ℤ_iff item.amount b.outstanding_amount), ground arith)
]

settled_total :
    (items : List LinkedItem) (bills : List CheckedBill)
    → has_duplicates (checked_ids bills) ≡ false
    → length items ≡ length bills
    → assert_each_settled items bills ≡ ok tt
    → item_total items ≡ bill_total bills
unfolding sum_ℤ
settled_total [] [] unique len h = refl
settled_total (i ∷ rest) [] unique len h = absurd (omega arith)
settled_total items (b ∷ bs) unique len h =
    let (item, found, amount, others) = settled-cons items b bs h in
    let fresh : contains b.id (checked_ids bs) ≡ false = ground arith in
    rw (total-remove b.id items item found) (
      ap₂ ◌+ℤ◌ amount (
        settled_total (remove (links_to b.id) items) bs (ground arith)
          (omega (arith, length-remove b.id items item found))
          (settled-remove b.id items bs fresh ∙ others)))

-- Over bills with distinct ids: if the arrears of a settlement are accepted as complete, their
-- amounts add up to exactly what the bills have outstanding.
pub assert_arrears_complete_total :
    (items : List LinkedItem) (bills : List CheckedBill)
    → has_duplicates (checked_ids (outstanding_of bills)) ≡ false
    → assert_arrears_complete items bills ≡ ok tt
    → item_total (arrears_of items) ≡ bill_total (outstanding_of bills)
unfolding assert_arrears_complete
assert_arrears_complete_total items bills unique h =
    let (_, _, later) = ok_parts (assert_items_current bills true [] items) _ h in
    let (_, each, count) =
      ok_parts (assert_each_settled (arrears_of items) (outstanding_of bills)) _ later in
    settled_total (arrears_of items) (outstanding_of bills) unique (ground arith) each
