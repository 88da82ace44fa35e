-- ===== src/Payments/RefundStatus.antt =====
-- The refund status of a payment from its completed refunds:
-- backend/src/payments/payment-refund-status.ts.
pub mod Totals
mod Examples
use srms.Prelude.{
  ℕ, suc, ◌==◌, Bool, true, false, not, ◌&&◌, ◌||◌, if◌then◌else◌, Option, none, some, List, [],
  ◌∷◌, ◌++◌, map, filter, any, contains,
}
use srms.Prelude.Int.{ℤ, pos, ◌+ℤ◌, leb_ℤ, ltb_ℤ, eqb_ℤ, sum_ℤ}
use srms.Prelude.Fallible.{Result, ok, err, ◌>>◌, throw_if}

-- `ApprovalStatus` and `CheckoutRentRefundAllocationStatus` of the schema.
pub data ApprovalStatus : Type 0 where
  draft pending approved rejected cancelled : ApprovalStatus

pub data ReservationStatus : Type 0 where
  reserved released applied : ReservationStatus

abbrev pub is_approved : ApprovalStatus → Bool
is_approved approved = true
is_approved _ = false

abbrev pub is_applied : ReservationStatus → Bool
is_applied applied = true
is_applied _ = false

-- A refund of an allocation, with the approval status of the refund that it belongs to.
pub record RefundAllocation : Type 0 where
  pub payment_refund_id : ℕ
  pub reversed_amount : ℤ
  pub approval_status : ApprovalStatus

pub record CheckoutRentRefundAllocation : Type 0 where
  pub id : ℕ
  pub reserved_amount : ℤ
  pub status : ReservationStatus

pub record PaymentAllocation : Type 0 where
  pub allocated_amount : ℤ
  pub refund_allocations : List RefundAllocation
  pub checkout_allocations : List CheckoutRentRefundAllocation

-- The refund that is being completed, which counts before its row says so.
pub data CurrentRefund : Type 0 where
  payment_refund : ℕ → CurrentRefund
  checkout_rent_refunds : List ℕ → CurrentRefund

abbrev pub is_current_refund : CurrentRefund → RefundAllocation → Bool
is_current_refund (payment_refund id) r = r.payment_refund_id == id
is_current_refund (checkout_rent_refunds ids) r = false

abbrev pub current_checkout_ids : CurrentRefund → List ℕ
current_checkout_ids (payment_refund id) = []
current_checkout_ids (checkout_rent_refunds ids) = ids

abbrev pub is_current_checkout : CurrentRefund → CheckoutRentRefundAllocation → Bool
is_current_checkout current c = contains c.id (current_checkout_ids current)

-- The `where` clauses of the query.
abbrev pub ordinary_where : CurrentRefund → RefundAllocation → Bool
ordinary_where current r = is_approved r.approval_status || is_current_refund current r

abbrev pub checkout_where : CurrentRefund → CheckoutRentRefundAllocation → Bool
checkout_where current c = is_applied c.status || is_current_checkout current c

unfoldable pub select_rows : CurrentRefund → PaymentAllocation → PaymentAllocation
select_rows current a = record a {
  refund_allocations = filter (ordinary_where current) a.refund_allocations;
  checkout_allocations = filter (checkout_where current) a.checkout_allocations;
}

-- The two inner `reduce` calls, and the outer one.
abbrev pub ordinary_refund : CurrentRefund → List RefundAllocation → ℤ
ordinary_refund current [] = pos 0
ordinary_refund current (r ∷ rs) =
    (if is_approved r.approval_status || is_current_refund current r
      then r.reversed_amount
      else pos 0)
    +ℤ ordinary_refund current rs

abbrev pub checkout_refund : CurrentRefund → List CheckoutRentRefundAllocation → ℤ
checkout_refund current [] = pos 0
checkout_refund current (c ∷ cs) =
    (if is_applied c.status || is_current_checkout current c then c.reserved_amount else pos 0)
    +ℤ checkout_refund current cs

unfoldable pub refund_total : CurrentRefund → List PaymentAllocation → ℤ
refund_total current [] = pos 0
refund_total current (a ∷ xs) =
    ordinary_refund current a.refund_allocations
    +ℤ checkout_refund current a.checkout_allocations
    +ℤ refund_total current xs

unfoldable pub allocated_total : List PaymentAllocation → ℤ
allocated_total [] = pos 0
allocated_total (a ∷ xs) = a.allocated_amount +ℤ allocated_total xs

-- `sawCurrentOrdinaryRefund` and `seenCurrentCheckoutIds` after the loops.
unfoldable pub saw_current_refund : CurrentRefund → List PaymentAllocation → Bool
saw_current_refund current [] = false
saw_current_refund current (a ∷ xs) =
    any (is_current_refund current) a.refund_allocations || saw_current_refund current xs

abbrev pub seen_in : CurrentRefund → List CheckoutRentRefundAllocation → List ℕ
seen_in current [] = []
seen_in current (c ∷ cs) =
    if is_current_checkout current c then c.id ∷ seen_in current cs else seen_in current cs

unfoldable pub seen_checkout_ids : CurrentRefund → List PaymentAllocation → List ℕ
seen_checkout_ids current [] = []
seen_checkout_ids current (a ∷ xs) =
    seen_in current a.checkout_allocations ++ seen_checkout_ids current xs

-- `new Set(ids).size`.
abbrev pub set_size : List ℕ → ℕ
set_size [] = 0
set_size (x ∷ xs) = if contains x xs then set_size xs else suc (set_size xs)

pub data RefundedStatus : Type 0 where
  partially_refunded fully_refunded : RefundedStatus

pub record PaymentRefundStatus : Type 0 where
  pub allocated : ℤ
  pub completed : ℤ
  pub status : RefundedStatus

pub data RefundStatusError : Type 0 where
  abnormal_total : RefundStatusError

-- A current ordinary refund must have been met.
abbrev pub misses_refund : CurrentRefund → List PaymentAllocation → Bool
misses_refund (payment_refund id) xs = not (saw_current_refund (payment_refund id) xs)
misses_refund (checkout_rent_refunds ids) xs = false

unfoldable pub calculate_payment_refund_status :
    List PaymentAllocation → CurrentRefund → Result RefundStatusError PaymentRefundStatus
calculate_payment_refund_status rows current = do
  let xs = map (select_rows current) rows
  let total = allocated_total xs
  let refunded = refund_total current xs
  throw_if
      (leb_ℤ total (pos 0)
        || ltb_ℤ refunded (pos 0)
        || ltb_ℤ total refunded
        || misses_refund current xs
        || not (set_size (seen_checkout_ids current xs) == set_size (current_checkout_ids current)))
      abnormal_total
  ok (record {
    allocated = total;
    completed = refunded;
    status = if eqb_ℤ refunded total then fully_refunded else partially_refunded;
  })
