-- ===== src/Payments/Allocation/Policy.antt =====
-- Who may direct a payment to which bills: `resolveAllocationPlan`.
use srms.Prelude.{
  ℕ, zero, suc, ◌≡◌, refl, Bool, true, false, not, ◌&&◌, ◌||◌, Option, none, some, List, [], ◌∷◌,
  length, take, any, has_duplicates, contains, is_some, arith, All, ap, ◌∙◌, ◌≡⟨◌⟩◌, ◌∎,
}
use srms.Prelude.Int.{ℤ}
use srms.Prelude.Fallible.{is_ok, ok}
use srms.Payments.Allocation.{
  AllocatableBill, UserRole, AllocationPlan, auto_oldest_first, allocate_payment, same_order,
  bill_ids, get_bill, select_bills, requested_ids, is_blank, is_super_admin,
  resolve_allocation_plan,
}

-- The request asks for other bills than the oldest ones, or in another order.
abbrev pub is_manual : List AllocatableBill → Option (List ℕ) → Bool
is_manual eligible selected =
    let ids = requested_ids eligible selected in
    not (same_order ids (take (length ids) (bill_ids eligible)))

abbrev pub knows_all : List AllocatableBill → List ℕ → Bool
knows_all eligible ids = not (any (λ id. not (is_some (get_bill id eligible))) ids)

select_known :
    (ids : List ℕ) (eligible : List AllocatableBill)
    → knows_all eligible ids ≡ true
    → is_some (select_bills ids eligible) ≡ true
select_known [] eligible h = refl
select_known (id ∷ ids) eligible h = ground (arith, select_known ids eligible)

-- A plan is made exactly when the ids are distinct and known, and a request that departs from the
-- oldest bills comes from a super administrator with a reason.
pub resolve_allocation_plan-is_ok :
    (eligible : List AllocatableBill) (amount : ℤ) (selected : Option (List ℕ)) (role : UserRole)
    (reason : Option (List ℕ))
    → is_ok (resolve_allocation_plan eligible amount selected role reason)
      ≡ not (has_duplicates (requested_ids eligible selected))
        && knows_all eligible (requested_ids eligible selected)
        && (not (is_manual eligible selected) || is_super_admin role && not (is_blank reason))
unfolding resolve_allocation_plan
resolve_allocation_plan-is_ok eligible amount selected role reason =
    ground (arith, select_known (requested_ids eligible selected) eligible)

same_order-eq : (xs ys : List ℕ) → same_order xs ys ≡ true → xs ≡ ys
same_order-eq [] [] h = refl
same_order-eq [] (y ∷ ys) h = cc
same_order-eq (x ∷ xs) [] h = cc
same_order-eq (x ∷ xs) (y ∷ ys) h = ground (arith, same_order-eq xs ys)

get_bill-not_contains :
    (id : ℕ) (bills : List AllocatableBill)
    → contains id (bill_ids bills) ≡ false
    → get_bill id bills ≡ none
get_bill-not_contains id [] h = refl
get_bill-not_contains id (b ∷ bs) h = ground (arith, get_bill-not_contains id bs)

-- Each bill of a list is the one that its id finds among `bills`.
abbrev Finds : List AllocatableBill → List AllocatableBill → Type 0
Finds bills xs = All (λ b. get_bill b.id bills ≡ some b) xs

Finds-cons :
    (b : AllocatableBill) (bills xs : List AllocatableBill) → Finds bills xs → Finds (b ∷ bills) xs
Finds-cons b bills [] h = tt
Finds-cons b bills (x ∷ xs) h = (rw h.0 refl, Finds-cons b bills xs h.1)

Finds-self :
    (bills : List AllocatableBill) → has_duplicates (bill_ids bills) ≡ false → Finds bills bills
Finds-self [] h = tt
Finds-self (b ∷ bs) h = (
  ground (arith, get_bill-not_contains b.id bs),
  Finds-cons b bs bs (Finds-self bs (ground arith)),
)

Finds-take : (n : ℕ) (bills xs : List AllocatableBill) → Finds bills xs → Finds bills (take n xs)
Finds-take zero bills xs h = tt
Finds-take (suc n) bills [] h = tt
Finds-take (suc n) bills (x ∷ xs) h = (h.0, Finds-take n bills xs h.1)

select-Finds :
    (bills xs : List AllocatableBill) → Finds bills xs → select_bills (bill_ids xs) bills ≡ some xs
select-Finds bills [] h = refl
select-Finds bills (x ∷ xs) h = ground (arith, select-Finds bills xs)

take-bill_ids : (n : ℕ) (xs : List AllocatableBill) → take n (bill_ids xs) ≡ bill_ids (take n xs)
take-bill_ids zero xs = refl
take-bill_ids (suc n) [] = refl
take-bill_ids (suc n) (x ∷ xs) = rw (take-bill_ids n xs)

-- The plan of a request that names the oldest `n` bills.
abbrev pub oldest_first : ℤ → List AllocatableBill → AllocationPlan
oldest_first amount bills = record {
  result = allocate_payment amount bills;
  manual_override = false;
  allocation_type = auto_oldest_first;
}

oldest_selected :
    (eligible : List AllocatableBill) (ids : List ℕ)
    → has_duplicates (bill_ids eligible) ≡ false
    → same_order ids (take (length ids) (bill_ids eligible)) ≡ true
    → select_bills ids eligible ≡ some (take (length ids) eligible)
oldest_selected eligible ids unique h =
    select_bills ids eligible
    ≡⟨ ap (λ xs. select_bills xs eligible)
        (same_order-eq ids (take (length ids) (bill_ids eligible)) h
          ∙ take-bill_ids (length ids) eligible) ⟩
      select_bills (bill_ids (take (length ids) eligible)) eligible
    ≡⟨ select-Finds eligible (take (length ids) eligible)
        (Finds-take (length ids) eligible eligible (Finds-self eligible unique)) ⟩
      some (take (length ids) eligible) ∎

-- Over bills with distinct ids, a user who is no super administrator pays the oldest bills in
-- their order, as many as are named, and nothing else.
pub resolve_allocation_plan-oldest_first :
    (eligible : List AllocatableBill) (amount : ℤ) (selected : Option (List ℕ)) (role : UserRole)
    (reason : Option (List ℕ)) (plan : AllocationPlan)
    → has_duplicates (bill_ids eligible) ≡ false
    → is_super_admin role ≡ false
    → resolve_allocation_plan eligible amount selected role reason ≡ ok plan
    → plan ≡ oldest_first amount (take (length (requested_ids eligible selected)) eligible)
unfolding resolve_allocation_plan
resolve_allocation_plan-oldest_first eligible amount selected role reason plan unique plain h =
    ground (arith, oldest_selected eligible (requested_ids eligible selected))
