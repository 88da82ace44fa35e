-- ===== src/Payments/Store/Guards.antt =====
-- The checks that the services share: backend/src/payments/checkout-supplemental-balance.ts,
-- backend/src/contracts/contract-operability.ts and one check of
-- backend/src/checkout/checkout-rent-refund-reservations.ts.
use srms.Prelude.{
  ℕ, ◌==◌, ltb, Bool, true, false, ◌&&◌, if◌then◌else◌, Option, none, some, List, [], ◌∷◌, filter,
  any,
}
use srms.Prelude.Int.{ℤ, pos, ◌+ℤ◌, ◌-ℤ◌, max_ℤ}
use srms.Prelude.Fallible.{Result, ok, ◌>>◌, throw_if}
use srms.Payments.Adjustment.{RentBillStatus}
use srms.Payments.RefundStatus.{ApprovalStatus, ReservationStatus}
use srms.Payments.Store.Tables.{
  ContractStatus, PaymentCategory, BillCategory, SettlementStatus, Payment, Settlement,
  SettlementItem, Database, PaymentError, update_where,
}
use srms.Payments.Store.Tables.PaymentError.{
  automatic_deposit, bill_protected, payment_protected, checkout_completed, reserved_for_checkout,
  contract_voided,
}

abbrev pub is_pending : ApprovalStatus → Bool
is_pending ApprovalStatus.pending = true
is_pending _ = false

abbrev pub is_void_contract : ContractStatus → Bool
is_void_contract ContractStatus.voided = true
is_void_contract _ = false

abbrev pub is_void_bill : RentBillStatus → Bool
is_void_bill RentBillStatus.voided = true
is_void_bill _ = false

abbrev pub is_rent_bill : BillCategory → Bool
is_rent_bill BillCategory.rent = true
is_rent_bill BillCategory.checkout_supplemental = false

abbrev pub is_supplemental : PaymentCategory → Bool
is_supplemental PaymentCategory.checkout_supplemental = true
is_supplemental _ = false

-- `assertContractNotVoided` of backend/src/contracts/contract-operability.ts.
abbrev pub assert_contract_not_voided : ContractStatus → Result PaymentError (Unit {0})
assert_contract_not_voided status = throw_if (is_void_contract status) contract_voided

-- What backend/src/payments/checkout-supplemental-balance.ts protects: arrears of an approved or
-- completed settlement that collects supplements.
abbrev pub is_protecting : SettlementStatus → Bool
is_protecting SettlementStatus.approved = true
is_protecting SettlementStatus.completed = true
is_protecting _ = false

abbrev pub protects : List Settlement → ℕ → SettlementItem → Bool
protects settlements bill_id item =
    item.is_rent_arrears
    && elim item.rent_bill_id [ none ↦ false | some linked ↦ linked == bill_id ]
    && any (λ s. (s.id == item.settlement_id) && is_protecting s.status && s.supplemental_required)
        settlements

abbrev pub is_protected_bill : Database → ℕ → Bool
is_protected_bill db bill_id = any (protects db.settlements bill_id) db.settlement_items

abbrev pub assert_bill_not_protected : Database → ℕ → Result PaymentError (Unit {0})
assert_bill_not_protected db bill_id = throw_if (is_protected_bill db bill_id) bill_protected

abbrev pub assert_payment_not_protected : Database → ℕ → Result PaymentError (Unit {0})
assert_payment_not_protected db payment_id =
    throw_if
      (any (λ a. (a.payment_id == payment_id) && is_protected_bill db a.rent_bill_id)
        db.allocations)
      payment_protected

abbrev pub is_deposit : PaymentCategory → Bool
is_deposit PaymentCategory.deposit = true
is_deposit _ = false

abbrev pub assert_not_automatic_deposit : Payment → Result PaymentError (Unit {0})
assert_not_automatic_deposit p =
    throw_if (is_deposit p.category && p.is_initial_deposit) automatic_deposit

-- `findFirst` with `orderBy: { id: 'desc' }`.
abbrev pub latest {ℓ} : {A : Type ℓ} → (A → ℕ) → List A → Option A
latest id_of [] = none
latest id_of (x ∷ xs) = elim (latest id_of xs) [
  | none ↦ some x
  | some y ↦ if ltb (id_of y) (id_of x) then some x else some y
]

abbrev pub supplemental_settlement : Database → ℕ → Option Settlement
supplemental_settlement db contract_id =
    latest (λ s. s.id)
      (filter (λ s. (s.contract_id == contract_id) && s.supplemental_required) db.settlements)

abbrev pub is_completed : SettlementStatus → Bool
is_completed SettlementStatus.completed = true
is_completed _ = false

unfoldable pub assert_reversal_request_allowed : Database → Payment → Result PaymentError (Unit {0})
assert_reversal_request_allowed db p = do
  assert_not_automatic_deposit p
  elim (is_supplemental p.category) [
    | false ↦ assert_payment_not_protected db p.id
    | true ↦ elim (supplemental_settlement db p.contract_id) [
      | none ↦ ok tt
      | some s ↦ throw_if (is_completed s.status) checkout_completed
    ]
  ]

abbrev pub reopened : Settlement → ℤ → Settlement
reopened s reversed_amount =
    let total = s.supplemental_arrears_amount +ℤ s.supplemental_inspection_amount in
    let received = max_ℤ (pos 0) (s.supplemental_received_amount -ℤ reversed_amount) in
    record s {
      supplemental_received_amount = received;
      supplemental_outstanding_amount = total -ℤ received;
      supplemental_collected_at = none;
    }

unfoldable pub reopen_supplemental_balance :
    Database → ℕ → PaymentCategory → ℤ → Result PaymentError Database
reopen_supplemental_balance db contract_id category reversed_amount =
    elim (is_supplemental category) [
      | false ↦ ok db
      | true ↦ elim (supplemental_settlement db contract_id) [
        | none ↦ ok db
        | some s ↦
            throw_if (is_completed s.status) checkout_completed
            >> ok (record db {
              settlements =
                  update_where (λ t. t.id == s.id) (λ t. reopened s reversed_amount) db.settlements;
            })
      ]
    ]

abbrev pub is_reserved : ReservationStatus → Bool
is_reserved ReservationStatus.reserved = true
is_reserved _ = false

-- `assertNoCheckoutRentRefundReservation` of checkout-rent-refund-reservations.ts.
abbrev pub assert_no_reservation : Database → ℕ → Result PaymentError (Unit {0})
assert_no_reservation db payment_id =
    throw_if (any (λ r. (r.payment_id == payment_id) && is_reserved r.status) db.reservations)
      reserved_for_checkout
