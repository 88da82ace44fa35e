-- ===== src/Checkout/RefundWriter/Checks.antt =====
-- What `applyCheckoutRentRefund` of backend/src/checkout/checkout-rent-refund-writer.ts checks
-- before it writes. All amounts have two places, so that `toDecimalPlaces(2)` keeps them.
use srms.Prelude.{
  ℕ, ◌==◌, Bool, true, false, not, ◌&&◌, if◌then◌else◌, Option, none, some, List, [], ◌∷◌, map,
  filter, any, is_some,
}
use srms.Prelude.Int.{ℤ, pos, ◌+ℤ◌, ◌-ℤ◌, leb_ℤ, ltb_ℤ, eqb_ℤ, sum_ℤ}
use srms.Prelude.Fallible.{Result, ok, err, ◌>>=◌, ◌>>◌, throw_if}
use srms.Payments.Adjustment.{RentBillStatus}
use srms.Payments.RefundStatus.{ReservationStatus, is_approved, is_applied}
use srms.Payments.Store.{
  RentBill, PaymentAllocation, SettlementStatus, find_bill, is_rent_bill, is_reserved,
}
use srms.Checkout.Reservations.{
  RentPayment, RefundItem, is_rent_payment, is_refundable_status, is_of_settlement,
}
use srms.Checkout.RefundWriter.Tables.{
  RefundSettlement, DepositRefund, RentClaim, WriterTables, WriterError, or_throw, find_allocation,
  find_rent_payment,
}
use srms.Checkout.RefundWriter.Tables.WriterError.{
  already_applied, released, snapshot_changed, reference_changed, capacity_changed, bill_changed,
  missing_row,
}

pub record ApplyInput : Type 0 where
  pub settlement_id : ℕ
  pub deposit_refund_id : ℕ
  pub approved_by : ℕ

abbrev pub held_amount : RentClaim → ℤ
held_amount c = c.reservation.reserved_amount

abbrev pub bill_of : RentClaim → ℕ
bill_of c = c.reservation.rent_bill_id

abbrev pub allocation_of : RentClaim → ℕ
allocation_of c = c.reservation.payment_allocation_id

abbrev pub payment_of : RentClaim → ℕ
payment_of c = c.reservation.payment_id

abbrev pub claims_of : WriterTables → ℕ → List RentClaim
claims_of s settlement_id =
    filter (λ (c : RentClaim). is_of_settlement s.items settlement_id c.reservation) s.claims

abbrev pub is_active : RentClaim → Bool
is_active c = is_reserved c.reservation.status

abbrev pub is_released_status : ReservationStatus → Bool
is_released_status ReservationStatus.released = true
is_released_status _ = false

-- The active reservations, if none is applied.
unfoldable pub active_claims : List RentClaim → Result WriterError (List RentClaim)
active_claims claims = do
  throw_if (any (λ (c : RentClaim). is_applied c.reservation.status) claims) already_applied
  elim (filter is_active claims) [
    | [] ↦
        if any (λ (c : RentClaim). is_released_status c.reservation.status) claims
        then err released
        else err snapshot_changed
    | c ∷ cs ↦ ok (c ∷ cs)
  ]

abbrev pub is_approved_settlement : SettlementStatus → Bool
is_approved_settlement SettlementStatus.approved = true
is_approved_settlement _ = false

abbrev pub is_by : Option ℕ → ℕ → Bool
is_by none user = false
is_by (some id) user = id == user

abbrev pub state_fits : ApplyInput → RefundSettlement → DepositRefund → Bool
state_fits input settlement refund =
    is_approved_settlement settlement.status
    && is_approved refund.approval_status
    && is_by refund.approved_by input.approved_by
    && (refund.settlement_id == settlement.id)
    && (refund.contract_id == settlement.contract_id)

abbrev pub reserved_total : List RentClaim → ℤ
reserved_total claims = sum_ℤ (map held_amount claims)

abbrev pub amounts_fit : RefundSettlement → DepositRefund → RefundItem → List RentClaim → Bool
amounts_fit settlement refund item active =
    (item.settlement_id == settlement.id)
    && item.is_rent_refund
    && ltb_ℤ (pos 0) settlement.rent_refundable_amount
    && eqb_ℤ item.amount settlement.rent_refundable_amount
    && eqb_ℤ refund.deposit_refund_amount settlement.deposit_refundable_amount
    && eqb_ℤ refund.prepayment_refund_amount settlement.prepayment_refundable_amount
    && eqb_ℤ refund.rent_refund_amount settlement.rent_refundable_amount
    && eqb_ℤ refund.refund_amount (
        refund.deposit_refund_amount +ℤ refund.prepayment_refund_amount
        +ℤ refund.rent_refund_amount)
    && eqb_ℤ (reserved_total active) settlement.rent_refundable_amount

-- The one item of the rent refund, and the date of the checkout.
pub record Snapshot : Type 0 where
  pub item : RefundItem
  pub checkout_date : ℕ

unfoldable pub check_snapshot :
    RefundSettlement
    → DepositRefund
    → List RefundItem
    → List RentClaim
    → Result WriterError Snapshot
check_snapshot settlement refund (item ∷ []) active = elim settlement.actual_checkout_date [
  | none ↦ err snapshot_changed
  | some date ↦
      throw_if (not (amounts_fit settlement refund item active)) snapshot_changed
      >> ok (record { item = item; checkout_date = date })
]
check_snapshot settlement refund _ active = err snapshot_changed

-- `Map<number, Decimal>` in the order of insertion, and `addAmount`.
pub record Total : Type 0 where
  pub id : ℕ
  pub amount : ℤ

abbrev pub add_amount : List Total → ℕ → ℤ → List Total
add_amount [] id amount = record { id = id; amount = amount } ∷ []
add_amount (t ∷ ts) id amount =
    if t.id == id
    then record t { amount = t.amount +ℤ amount } ∷ ts
    else t ∷ add_amount ts id amount

abbrev pub amount_at : ℕ → List Total → ℤ
amount_at id [] = pos 0
amount_at id (t ∷ ts) = if t.id == id then t.amount else amount_at id ts

-- The rows that the reservations name, as read before the writes.
pub record Rows : Type 0 where
  pub bills : List RentBill
  pub allocations : List PaymentAllocation
  pub payments : List RentPayment

abbrev pub is_sound : ℕ → RefundItem → Rows → RentClaim → Bool
is_sound contract_id item rows c = elim (find_allocation (allocation_of c) rows.allocations) [
  | none ↦ false
  | some a ↦ elim (find_bill (bill_of c) rows.bills) [
    | none ↦ false
    | some b ↦ elim (find_rent_payment (payment_of c) rows.payments) [
      | none ↦ false
      | some p ↦
          (c.reservation.item_id == item.id)
          && not (is_some c.deposit_refund_id)
          && (a.payment_id == payment_of c)
          && (a.rent_bill_id == bill_of c)
          && (b.contract_id == contract_id)
          && is_rent_bill b.category
          && (p.contract_id == contract_id)
          && is_rent_payment p.category
          && is_refundable_status p.status
          && ltb_ℤ (pos 0) (held_amount c)
    ]
  ]
]

pub record Totals : Type 0 where
  pub by_bill : List Total
  pub by_allocation : List Total

unfoldable pub add_claims :
    ℕ → RefundItem → Rows → List RentClaim → Totals → Result WriterError Totals
add_claims contract_id item rows [] totals = ok totals
add_claims contract_id item rows (c ∷ cs) totals =
    throw_if (not (is_sound contract_id item rows c)) reference_changed
    >> add_claims contract_id item rows cs (record {
      by_bill = add_amount totals.by_bill (bill_of c) (held_amount c);
      by_allocation = add_amount totals.by_allocation (allocation_of c) (held_amount c);
    })

unfoldable pub check_capacity : List PaymentAllocation → List Total → Result WriterError (Unit {0})
check_capacity allocations [] = ok tt
check_capacity allocations (t ∷ ts) =
    or_throw missing_row (find_allocation t.id allocations) >>= λ a.
    throw_if (ltb_ℤ (a.allocated_amount -ℤ a.reversed_amount) t.amount) capacity_changed
    >> check_capacity allocations ts

abbrev pub is_paid : RentBillStatus → Bool
is_paid RentBillStatus.paid = true
is_paid _ = false

abbrev pub covers : RentBill → ℤ → Bool
covers b amount =
    is_paid b.status
    && eqb_ℤ b.outstanding_amount (pos 0)
    && eqb_ℤ b.payable_amount b.received_amount
    && leb_ℤ amount b.payable_amount
    && leb_ℤ amount b.received_amount

unfoldable pub check_bills : List RentBill → List Total → Result WriterError (Unit {0})
check_bills bills [] = ok tt
check_bills bills (t ∷ ts) = or_throw missing_row (find_bill t.id bills) >>= λ b.
    throw_if (not (covers b t.amount)) bill_changed >> check_bills bills ts
