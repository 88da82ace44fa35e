-- ===== src/Payments/Store/Tables.antt =====
-- The tables of backend/prisma/schema.prisma, their rows, and the queries by id.
use srms.Prelude.{ℕ, ◌==◌, Bool, if◌then◌else◌, Option, none, some, List, [], ◌∷◌, find}
use srms.Prelude.Int.{ℤ}
use srms.Prelude.Fallible.{Result, ok, err}
use srms.Payments.Adjustment.{AdjustmentDirection, RentBillStatus}
use srms.Payments.RefundStatus.{ApprovalStatus, ReservationStatus}
use srms.Payments.Allocation.{UserRole}

pub data ContractStatus : Type 0 where
  draft pending_start active pending_checkout ended voided : ContractStatus

pub data PaymentStatus : Type 0 where
  confirmed voided partially_refunded fully_refunded : PaymentStatus

pub data PaymentCategory : Type 0 where
  rent prepayment deposit checkout_supplemental : PaymentCategory

pub data BillCategory : Type 0 where
  rent checkout_supplemental : BillCategory

pub data SettlementStatus : Type 0 where
  draft pending approved rejected completed cancelled : SettlementStatus

pub data AdjustmentType : Type 0 where
  discount waiver increase correction checkout_rent_refund : AdjustmentType

pub data PrepaymentType : Type 0 where
  credit_receipt debit_to_bill refund transfer_out transfer_in reversal adjustment : PrepaymentType

pub record Contract : Type 0 where
  pub id : ℕ
  pub status : ContractStatus
  pub paid_through_date : Option ℕ
  pub next_due_date : Option ℕ

pub record RentBill : Type 0 where
  pub id : ℕ
  pub contract_id : ℕ
  pub period_seq : ℕ
  pub period_start : ℕ
  pub period_end : ℕ
  pub due_date : ℕ
  pub base_rent_amount : ℤ
  pub rent_free_amount : ℤ
  pub discount_amount : ℤ
  pub adjustment_amount : ℤ
  pub payable_amount : ℤ
  pub received_amount : ℤ
  pub outstanding_amount : ℤ
  pub status : RentBillStatus
  pub category : BillCategory

-- The texts of an adjustment's reason that the code composes, and one that a user gives.
pub data Reason : Type 0 where
  given : List ℕ → Reason
  payment_voided : ℕ → ℕ → Reason
  future_rent_cancelled future_rent_restored rent_refunded refund_restored : ℕ → Reason

pub record BillAdjustment : Type 0 where
  pub id : ℕ
  pub rent_bill_id : ℕ
  pub adjustment_type : AdjustmentType
  pub direction : AdjustmentDirection
  pub amount : ℤ
  pub before_amount : ℤ
  pub after_amount : ℤ
  pub reason : Reason
  pub source_payment_id : Option ℕ
  pub approval_status : ApprovalStatus
  pub submitted_by : ℕ
  pub approved_by : Option ℕ
  pub rejected_reason : Option (List ℕ)
  pub checkout_item_id : Option ℕ
  pub reversed_by : Option ℕ

pub record Payment : Type 0 where
  pub id : ℕ
  pub contract_id : ℕ
  pub category : PaymentCategory
  pub is_initial_deposit : Bool
  pub status : PaymentStatus
  pub void_reason : Option (List ℕ)
  pub voided_by : Option ℕ

pub record PaymentAllocation : Type 0 where
  pub id : ℕ
  pub payment_id : ℕ
  pub rent_bill_id : ℕ
  pub allocated_amount : ℤ
  pub reversed_amount : ℤ

pub record VoidRequest : Type 0 where
  pub id : ℕ
  pub payment_id : ℕ
  pub reason : List ℕ
  pub approval_status : ApprovalStatus
  pub submitted_by : ℕ
  pub approved_by : Option ℕ
  pub rejected_reason : Option (List ℕ)

pub record PrepaymentTransaction : Type 0 where
  pub id : ℕ
  pub contract_id : ℕ
  pub transaction_type : PrepaymentType
  pub amount : ℤ
  pub balance_after : ℤ
  pub payment_id : Option ℕ

pub record Settlement : Type 0 where
  pub id : ℕ
  pub contract_id : ℕ
  pub status : SettlementStatus
  pub supplemental_required : Bool
  pub supplemental_arrears_amount : ℤ
  pub supplemental_inspection_amount : ℤ
  pub supplemental_received_amount : ℤ
  pub supplemental_outstanding_amount : ℤ
  pub supplemental_collected_at : Option ℕ

pub record SettlementItem : Type 0 where
  pub settlement_id : ℕ
  pub is_rent_arrears : Bool
  pub rent_bill_id : Option ℕ

pub record Reservation : Type 0 where
  pub payment_id : ℕ
  pub status : ReservationStatus

-- The type, the reason and the data of a log entry, without printed numbers and the fixed reason of
-- a settlement's.
pub data AuditEvent : Type 0 where
  payment_void_approved : List ℕ → ℕ → AuditEvent
  approved_checkout_rolled_back : ℕ → ℕ → ℕ → ℤ → List ℕ → AuditEvent

pub record AuditLog : Type 0 where
  pub event : AuditEvent
  pub entity_id : ℕ
  pub operator_id : ℕ

pub record Database : Type 0 where
  pub contracts : List Contract
  pub bills : List RentBill
  pub adjustments : List BillAdjustment
  pub next_adjustment_id : ℕ
  pub payments : List Payment
  pub allocations : List PaymentAllocation
  pub void_requests : List VoidRequest
  pub next_void_request_id : ℕ
  pub prepayments : List PrepaymentTransaction
  pub next_prepayment_id : ℕ
  pub settlements : List Settlement
  pub settlement_items : List SettlementItem
  pub reservations : List Reservation
  pub audit_logs : List AuditLog

pub record AuthUser : Type 0 where
  pub id : ℕ
  pub role : UserRole

pub data PaymentError : Type 0 where
  not_found forbidden automatic_deposit bill_protected payment_protected : PaymentError
  checkout_completed reserved_for_checkout contract_voided amount_not_positive : PaymentError
  supplemental_bill bill_voided not_pending not_confirmed already_requested : PaymentError
  prepayment_short missing_bill_state : PaymentError

-- `update` and `updateMany` with their `where`.
abbrev pub update_where {ℓ} : {A : Type ℓ} → (A → Bool) → (A → A) → List A → List A
update_where p f [] = []
update_where p f (x ∷ xs) = (if p x then f x else x) ∷ update_where p f xs

abbrev pub or_not_found {ℓ} : {A : Type ℓ} → Option A → Result PaymentError A
or_not_found none = err not_found
or_not_found (some a) = ok a

abbrev pub find_bill : ℕ → List RentBill → Option RentBill
find_bill id bills = find (λ b. b.id == id) bills

abbrev pub find_contract : ℕ → List Contract → Option Contract
find_contract id contracts = find (λ c. c.id == id) contracts

abbrev pub find_adjustment : ℕ → List BillAdjustment → Option BillAdjustment
find_adjustment id xs = find (λ a. a.id == id) xs

abbrev pub find_payment : ℕ → List Payment → Option Payment
find_payment id xs = find (λ p. p.id == id) xs
