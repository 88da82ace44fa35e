-- ===== src/Payments/Allocation.antt =====
-- Distribution of a received payment over rent bills: backend/src/payments/payment-allocation.ts
-- (the loop) and payment-policy.ts (which bills, in which order, and who may choose).
pub mod Waterfall
pub mod Policy
mod Examples
use srms.Prelude.{
  ℕ, suc, ◌+◌, ◌-◌, ◌==◌, Bool, true, false, not, ◌&&◌, ◌||◌, leb, if◌then◌else◌, Option, none,
  some, List, [], ◌∷◌, map, length, take, any, all, contains, has_duplicates, is_some,
}
use srms.Prelude.Int.{ℤ, pos, ◌-ℤ◌, min_ℤ, leb_ℤ}
use srms.Prelude.Fallible.{Result, ok, err, ◌>>=◌, ◌>>◌, throw_if}

pub record AllocatableBill : Type 0 where
  pub id : ℕ
  pub outstanding_amount : ℤ

pub record Allocation : Type 0 where
  pub rent_bill_id : ℕ
  pub amount : ℤ
  pub allocation_order : ℕ

pub record AllocationResult : Type 0 where
  pub allocations : List Allocation
  pub prepayment_amount : ℤ

abbrev pub push : Allocation → AllocationResult → AllocationResult
push a r = record { allocations = a ∷ r.allocations; prepayment_amount = r.prepayment_amount }

-- The `for` loop of `allocatePayment`, with `count` allocations pushed so far.
pub allocate_loop : ℤ → ℕ → List AllocatableBill → AllocationResult
allocate_loop remaining count [] = record { allocations = []; prepayment_amount = remaining }
allocate_loop remaining count (bill ∷ bills) =
    let allocated = min_ℤ remaining bill.outstanding_amount in
    let skipped = allocate_loop remaining count bills in
    let rest = allocate_loop (remaining -ℤ allocated) (count + 1) bills in
    if leb_ℤ remaining (pos 0)
    then record { allocations = []; prepayment_amount = remaining }
    else if leb_ℤ bill.outstanding_amount (pos 0)
    then skipped
    else push (record { rent_bill_id = bill.id; amount = allocated; allocation_order = count + 1 })
        rest

pub allocate_payment : ℤ → List AllocatableBill → AllocationResult
allocate_payment amount bills = allocate_loop amount 0 bills

-- The three roles of a user.
pub data UserRole : Type 0 where
  super_admin admin visitor : UserRole

abbrev pub is_super_admin : UserRole → Bool
is_super_admin super_admin = true
is_super_admin _ = false

pub data PlanError : Type 0 where
  duplicate_selection unknown_bill cannot_skip_earlier manual_reason_required : PlanError
  undefined_bill : PlanError

pub data AllocationType : Type 0 where
  manual_super_admin auto_oldest_first : AllocationType

pub record AllocationPlan : Type 0 where
  pub result : AllocationResult
  pub manual_override : Bool
  pub allocation_type : AllocationType

-- `left.length === right.length && left.every(...)`.
abbrev pub same_order : List ℕ → List ℕ → Bool
same_order [] [] = true
same_order (x ∷ xs) (y ∷ ys) = (x == y) && same_order xs ys
same_order _ _ = false

abbrev pub bill_ids : List AllocatableBill → List ℕ
bill_ids bills = map (λ b. b.id) bills

-- `billById.get(id)`: of bills with one id the `Map` keeps the last.
abbrev pub get_bill : ℕ → List AllocatableBill → Option AllocatableBill
get_bill id [] = none
get_bill id (b ∷ bs) = elim (get_bill id bs) [
  | some c ↦ some c
  | none ↦ if b.id == id then some b else none
]

-- `requestedIds.map((id) => billById.get(id)!)`; an `undefined` would make the loop throw.
abbrev pub select_bills : List ℕ → List AllocatableBill → Option (List AllocatableBill)
select_bills [] bills = some []
select_bills (id ∷ ids) bills = elim (get_bill id bills) [
  | none ↦ none
  | some b ↦ elim (select_bills ids bills) [ none ↦ none | some bs ↦ some (b ∷ bs) ]
]

-- `selectedBillIds?.length ? selectedBillIds : eligibleBills.map(...)`.
abbrev pub requested_ids : List AllocatableBill → Option (List ℕ) → List ℕ
requested_ids bills none = bill_ids bills
requested_ids bills (some []) = bill_ids bills
requested_ids bills (some (id ∷ ids)) = id ∷ ids

-- The white space that `String.prototype.trim` removes, by code point; a reason is its code points.
abbrev pub is_white : ℕ → Bool
is_white c =
    (leb 9 c && leb c 13)
    || (c == 32)
    || (c == 160)
    || (c == 0x1680)
    || (leb 0x2000 c && leb c 0x200a)
    || (c == 0x2028)
    || (c == 0x2029)
    || (c == 0x202f)
    || (c == 0x205f)
    || (c == 0x3000)
    || (c == 0xfeff)

-- `!reason?.trim()`.
abbrev pub is_blank : Option (List ℕ) → Bool
is_blank none = true
is_blank (some text) = all is_white text

pub resolve_allocation_plan :
    List AllocatableBill
    → ℤ
    → Option (List ℕ)
    → UserRole
    → Option (List ℕ)
    → Result PlanError AllocationPlan
resolve_allocation_plan eligible amount selected role reason = do
  let ids = requested_ids eligible selected
  let manual = not (same_order ids (take (length ids) (bill_ids eligible)))
  throw_if (has_duplicates ids) duplicate_selection
  throw_if (any (λ id. not (is_some (get_bill id eligible))) ids) unknown_bill
  throw_if (manual && not (is_super_admin role)) cannot_skip_earlier
  throw_if (manual && is_blank reason) manual_reason_required
  elim (select_bills ids eligible) [
    | none ↦ err undefined_bill
    | some bills ↦ ok (record {
      result = allocate_payment amount bills;
      manual_override = manual;
      allocation_type = if manual then manual_super_admin else auto_oldest_first;
    })
  ]
