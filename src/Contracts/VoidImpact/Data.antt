-- ===== src/Contracts/VoidImpact/Data.antt =====
-- The input, the rows and the result of the computation.
use srms.Prelude.{ℕ, Bool, Option, List}
use srms.Prelude.Int.{ℤ}
use srms.Payments.Adjustment.{RentBillStatus}
use srms.Payments.RefundStatus.{ApprovalStatus, ReservationStatus}

pub data ReversalCategory : Type 0 where
  rent_bill payment payment_allocation prepayment deposit refund adjustment : ReversalCategory
  pricing_rebate checkout commission room_status : ReversalCategory

pub data EntityType : Type 0 where
  bill_adjustment checkout_rent_refund_allocation checkout_settlement contract_change : EntityType
  contract_deposit_balance contract_prepayment_balance deposit_refund : EntityType
  payment_entity payment_refund payment_void_request pricing_rebate_entity : EntityType
  rent_bill_entity room : EntityType

pub data PaymentStatus : Type 0 where
  confirmed voided partially_refunded fully_refunded : PaymentStatus

pub data PaymentCategory : Type 0 where
  rent_payment prepayment_payment deposit_payment supplemental_payment : PaymentCategory

pub data RoomStatus : Type 0 where
  empty pending_move_in rented pending_checkout maintenance for_sale sold disabled : RoomStatus
  other : RoomStatus

pub data ContractStatus : Type 0 where
  draft pending_start active pending_checkout ended voided : ContractStatus

pub record ContractIdentity : Type 0 where
  pub id : ℕ
  pub status : ContractStatus
  pub room_id : ℕ

pub record ImpactBill : Type 0 where
  pub id : ℕ
  pub status : RentBillStatus
  pub payable_amount : ℤ
  pub received_amount : ℤ
  pub outstanding_amount : ℤ
  pub occurred_at : Option ℕ

pub record ImpactPayment : Type 0 where
  pub id : ℕ
  pub status : PaymentStatus
  pub category : Option PaymentCategory
  pub amount : ℤ
  pub allocated_amount : ℤ
  pub refunded_amount : ℤ
  pub prepayment_net : ℤ
  pub occurred_at : Option ℕ

-- `derived` marks a refund that is read off a payment's refunded amount.
pub record ImpactRefund : Type 0 where
  pub id : ℕ
  pub payment_id : ℕ
  pub approval_status : ApprovalStatus
  pub amount : ℤ
  pub occurred_at : Option ℕ
  pub derived : Bool

pub record ImpactRentRefund : Type 0 where
  pub id : ℕ
  pub checkout_settlement_item_id : ℕ
  pub payment_allocation_id : ℕ
  pub payment_id : ℕ
  pub rent_bill_id : ℕ
  pub deposit_refund_id : Option ℕ
  pub status : ReservationStatus
  pub amount : ℤ
  pub occurred_at : Option ℕ

pub record PendingWorkflows : Type 0 where
  pub adjustments : List ℕ
  pub refunds : List ℕ
  pub void_requests : List ℕ
  pub deposit_refunds : List ℕ
  pub changes : List ℕ
  pub rebates : List ℕ
  pub checkouts : List ℕ

pub record ImpactInput : Type 0 where
  pub contract : ContractIdentity
  pub bills : List ImpactBill
  pub payments : List ImpactPayment
  pub refunds : Option (List ImpactRefund)
  pub checkout_rent_refunds : List ImpactRentRefund
  pub prepayment_balance : ℤ
  pub deposit_balance : ℤ
  pub pending : PendingWorkflows
  pub completed_checkout_ids : List ℕ
  pub later_contract_ids : List ℕ
  pub current_room_status : RoomStatus

-- The `metadata` objects, one constructor for each shape.
pub data Metadata : Type 0 where
  bill_data : RentBillStatus → ℤ → ℤ → Metadata
  payment_data : PaymentStatus → Option PaymentCategory → ℤ → ℤ → ℤ → Metadata
  refund_data : ℕ → Bool → Metadata
  rent_refund_data : ℕ → ℕ → ℕ → ℕ → Option ℕ → Metadata
  net_contribution : ℤ → Metadata
  pending_workflow completed_workflow no_data : Metadata
  room_data : RoomStatus → List ℕ → Metadata

pub record ImpactRow : Type 0 where
  pub category : ReversalCategory
  pub entity_type : EntityType
  pub entity_id : Option ℕ
  pub amount : ℤ
  pub balance_before : Option ℤ
  pub balance_after : Option ℤ
  pub occurred_at : Option ℕ
  pub affects_net_impact : Bool
  pub metadata : Metadata

pub record ImpactSummary : Type 0 where
  pub rent_bill_payable : ℤ
  pub effective_payment : ℤ
  pub deposit_balance : ℤ
  pub prepayment_balance : ℤ
  pub refund_net : ℤ
  pub current_net_impact : ℤ
  pub planned_reversal : ℤ
  pub post_reversal_net_impact : ℤ

pub data RoomAction : Type 0 where
  keep_current_status recalculate : RoomAction

pub record Impact : Type 0 where
  pub contract : ContractIdentity
  pub summary : ImpactSummary
  pub rows : List ImpactRow
  pub pending : PendingWorkflows
  pub completed_checkout_ids : List ℕ
  pub room_status : RoomStatus
  pub room_action : RoomAction
  pub has_pending_workflows : Bool
  pub has_completed_checkout : Bool
  pub has_later_contract : Bool
