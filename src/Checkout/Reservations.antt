-- ===== src/Checkout/Reservations.antt =====
-- Paid rent that a settlement holds for its refund:
-- backend/src/checkout/checkout-rent-refund-reservations.ts. A row of a refund carries the status
-- of its refund; receipt and bill numbers are left out. The locks change no row.
pub mod Found
pub mod Held
pub mod Covered
pub mod Matches
mod Examples
use srms.Prelude.{
  ℕ, ◌==◌, Bool, true, false, not, ◌&&◌, ◌||◌, if◌then◌else◌, Option, none, some, List, [], ◌∷◌,
  ◌++◌, map, filter, find, any, all, contains,
}
use srms.Prelude.Int.{ℤ, pos, ◌+ℤ◌, ◌-ℤ◌, max_ℤ, eqb_ℤ, ltb_ℤ, sum_ℤ}
use srms.Prelude.Fallible.{Result, ok, err, ◌>>=◌, throw_if}
use srms.Payments.RefundStatus.{ApprovalStatus, ReservationStatus}
use srms.Payments.Store.{
  RentBill, PaymentAllocation, VoidRequest, PaymentStatus, PaymentCategory, update_where, find_bill,
  is_pending, is_reserved, is_rent_bill,
}
use srms.Checkout.RentRefund.{
  RentRefundCandidate, RefundShare, RentRefundPlan, RentRefundError, exceeds_available,
  allocate_checkout_rent_refund,
}

pub record RentPayment : Type 0 where
  pub id : ℕ
  pub contract_id : ℕ
  pub category : PaymentCategory
  pub status : PaymentStatus
  pub payment_date : ℕ

pub record RefundRow : Type 0 where
  pub payment_allocation_id : ℕ
  pub reversed_amount : ℤ
  pub refund_status : ApprovalStatus

pub record RefundItem : Type 0 where
  pub id : ℕ
  pub settlement_id : ℕ
  pub is_rent_refund : Bool
  pub amount : ℤ

pub record RentReservation : Type 0 where
  pub item_id : ℕ
  pub payment_allocation_id : ℕ
  pub payment_id : ℕ
  pub rent_bill_id : ℕ
  pub reserved_amount : ℤ
  pub status : ReservationStatus

pub record RefundTables : Type 0 where
  pub bills : List RentBill
  pub payments : List RentPayment
  pub allocations : List PaymentAllocation
  pub void_requests : List VoidRequest
  pub refund_rows : List RefundRow
  pub items : List RefundItem
  pub reservations : List RentReservation

pub data ReservationError : Type 0 where
  nothing_refundable reservation_conflict reservation_changed : ReservationError
  more_than_refundable : ℤ → ReservationError

pub record ReserveCheckoutRentRefundInput : Type 0 where
  pub settlement_id : ℕ
  pub settlement_item_id : ℕ
  pub contract_id : ℕ
  pub actual_checkout_date : ℕ
  pub requested_amount : ℤ

abbrev pub is_rent_payment : PaymentCategory → Bool
is_rent_payment PaymentCategory.rent = true
is_rent_payment _ = false

abbrev pub is_refundable_status : PaymentStatus → Bool
is_refundable_status PaymentStatus.confirmed = true
is_refundable_status PaymentStatus.partially_refunded = true
is_refundable_status _ = false

-- `where` of the allocations.
abbrev pub is_rent_allocation : ℕ → RentPayment → RentBill → Bool
is_rent_allocation contract_id p b =
    (p.contract_id == contract_id)
    && is_rent_payment p.category
    && is_refundable_status p.status
    && is_rent_bill b.category

abbrev pub pending_refund : List RefundRow → ℕ → ℤ
pending_refund rows allocation_id = sum_ℤ (
    map (λ (r : RefundRow). r.reversed_amount)
      (filter
        (λ (r : RefundRow).
          (r.payment_allocation_id == allocation_id) && is_pending r.refund_status)
        rows))

-- The settlement of a reservation's item is the given one.
abbrev pub is_of_settlement : List RefundItem → ℕ → RentReservation → Bool
is_of_settlement items settlement_id r =
    any (λ (i : RefundItem). (i.id == r.item_id) && (i.settlement_id == settlement_id)) items

abbrev pub reserved_by_others : RefundTables → ℕ → ℕ → ℤ
reserved_by_others s settlement_id allocation_id = sum_ℤ (
    map (λ (r : RentReservation). r.reserved_amount)
      (filter
        (λ (r : RentReservation).
          (r.payment_allocation_id == allocation_id)
          && is_reserved r.status
          && not (is_of_settlement s.items settlement_id r))
        s.reservations))

abbrev pub has_pending_void : List VoidRequest → ℕ → Bool
has_pending_void requests payment_id =
    any (λ (v : VoidRequest). (v.payment_id == payment_id) && is_pending v.approval_status) requests

abbrev pub available_amount : RefundTables → ℕ → PaymentAllocation → ℤ
available_amount s settlement_id a =
    if has_pending_void s.void_requests a.payment_id
    then pos 0
    else max_ℤ (pos 0) (
        a.allocated_amount
        -ℤ a.reversed_amount
        -ℤ pending_refund s.refund_rows a.id
        -ℤ reserved_by_others s settlement_id a.id)

abbrev pub candidate :
    RefundTables → ℕ → PaymentAllocation → RentPayment → RentBill → RentRefundCandidate
candidate s settlement_id a p b = record {
  payment_allocation_id = a.id;
  payment_id = a.payment_id;
  rent_bill_id = a.rent_bill_id;
  period_start = b.period_start;
  period_end = b.period_end;
  payment_date = p.payment_date;
  available_amount = available_amount s settlement_id a;
}

-- The query with its joins: an allocation's payment and bill are looked up by their ids.
abbrev pub candidates_of : RefundTables → ℕ → ℕ → List PaymentAllocation → List RentRefundCandidate
candidates_of s contract_id settlement_id [] = []
candidates_of s contract_id settlement_id (a ∷ as') =
    let rest = candidates_of s contract_id settlement_id as' in
    elim (find (λ (p : RentPayment). p.id == a.payment_id) s.payments) [
      | none ↦ rest
      | some p ↦ elim (find_bill a.rent_bill_id s.bills) [
        | none ↦ rest
        | some b ↦
            if is_rent_allocation contract_id p b
            then candidate s settlement_id a p b ∷ rest
            else rest
      ]
    ]

unfoldable pub load_checkout_rent_refund_candidates :
    RefundTables → ℕ → ℕ → List RentRefundCandidate
load_checkout_rent_refund_candidates s contract_id settlement_id =
    candidates_of s contract_id settlement_id s.allocations

abbrev pub translate_allocation_error : RentRefundError → ReservationError
translate_allocation_error (exceeds_available amount) =
    if eqb_ℤ amount (pos 0) then nothing_refundable else more_than_refundable amount

unfoldable pub plan_checkout_rent_refund :
    RefundTables → ReserveCheckoutRentRefundInput → Result ReservationError RentRefundPlan
plan_checkout_rent_refund s input =
    elim (allocate_checkout_rent_refund input.actual_checkout_date input.requested_amount
      (load_checkout_rent_refund_candidates s input.contract_id input.settlement_id)) [
        | err e ↦ err (translate_allocation_error e)
        | ok plan ↦ ok plan
      ]

unfoldable pub release_checkout_rent_refund : ℕ → RefundTables → RefundTables
release_checkout_rent_refund settlement_id s = record s {
  reservations =
      update_where
        (λ (r : RentReservation). is_reserved r.status && is_of_settlement s.items settlement_id r)
        (λ r. record r { status = ReservationStatus.released }) s.reservations;
}

abbrev pub reservation : ℕ → RefundShare → RentReservation
reservation item_id x = record {
  item_id = item_id;
  payment_allocation_id = x.payment_allocation_id;
  payment_id = x.payment_id;
  rent_bill_id = x.rent_bill_id;
  reserved_amount = x.amount;
  status = ReservationStatus.reserved;
}

pub record Reserved : Type 0 where
  pub tables : RefundTables
  pub plan : RentRefundPlan

unfoldable pub reserve_checkout_rent_refund :
    ReserveCheckoutRentRefundInput → RefundTables → Result ReservationError Reserved
reserve_checkout_rent_refund input s =
    let released = release_checkout_rent_refund input.settlement_id s in
    plan_checkout_rent_refund released input >>= λ plan. ok (record {
      tables = record released {
        reservations =
            released.reservations ++ map (reservation input.settlement_item_id) plan.allocations;
      };
      plan = plan;
    })

unfoldable pub assert_no_checkout_rent_refund_reservation_for_allocations :
    List ℕ → RefundTables → Result ReservationError (Unit {0})
assert_no_checkout_rent_refund_reservation_for_allocations ids s =
    throw_if
      (any (λ (r : RentReservation). contains r.payment_allocation_id ids && is_reserved r.status)
        s.reservations)
      reservation_conflict

-- A reservation is of an item of rent refund with the expected amount, names the payment and the
-- bill of its allocation, and holds something.
abbrev pub is_valid_item : ℕ → ℤ → RefundItem → Bool
is_valid_item settlement_id expected i =
    (i.settlement_id == settlement_id) && i.is_rent_refund && eqb_ℤ i.amount expected

abbrev pub is_valid_reservation : RefundTables → ℕ → ℤ → RentReservation → Bool
is_valid_reservation s settlement_id expected r =
    elim (find (λ (i : RefundItem). i.id == r.item_id) s.items) [
      | none ↦ false
      | some i ↦ is_valid_item settlement_id expected i
    ]
    && elim (find (λ (a : PaymentAllocation). a.id == r.payment_allocation_id) s.allocations) [
      | none ↦ false
      | some a ↦ (r.payment_id == a.payment_id) && (r.rent_bill_id == a.rent_bill_id)
    ]
    && ltb_ℤ (pos 0) r.reserved_amount

abbrev pub reservations_of : ℕ → RefundTables → List RentReservation
reservations_of settlement_id s =
    filter
      (λ (r : RentReservation). is_reserved r.status && is_of_settlement s.items settlement_id r)
      s.reservations

unfoldable pub assert_checkout_rent_refund_reservation_matches :
    ℕ → ℤ → RefundTables → Result ReservationError (Unit {0})
assert_checkout_rent_refund_reservation_matches settlement_id expected s =
    let reservations = reservations_of settlement_id s in
    let total = sum_ℤ (map (λ (r : RentReservation). r.reserved_amount) reservations) in
    throw_if
      (not (eqb_ℤ total expected)
        || not (all (is_valid_reservation s settlement_id expected) reservations))
      reservation_changed
