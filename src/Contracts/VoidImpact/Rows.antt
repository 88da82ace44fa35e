-- ===== src/Contracts/VoidImpact/Rows.antt =====
-- The rows of an impact and their order: `sortedIds`, `sortRows`, `monetaryRow`, `indicatorRow`
-- and `pendingRows` of backend/src/contracts/contract-void-impact.ts.
use srms.Prelude.{
  ℕ, ◌==◌, ltb, leb, Bool, true, false, not, if◌then◌else◌, Option, none, some, List, [], ◌∷◌, ◌++◌,
  map,
}
use srms.Prelude.Int.{ℤ, pos, neg_ℤ}
use srms.Contracts.VoidImpact.Data.{
  ReversalCategory, EntityType, PendingWorkflows, Metadata, pending_workflow, ImpactRow,
}

abbrev pub insert_id : ℕ → List ℕ → List ℕ
insert_id id [] = id ∷ []
insert_id id (x ∷ xs) = if leb id x then id ∷ x ∷ xs else x ∷ insert_id id xs

unfoldable pub sorted_ids : List ℕ → List ℕ
sorted_ids [] = []
sorted_ids (id ∷ ids) = insert_id id (sorted_ids ids)

-- `localeCompare` on the names of the categories and entity types: their place in the alphabet.
pub category_rank : ReversalCategory → ℕ
category_rank ReversalCategory.adjustment = 0
category_rank ReversalCategory.checkout = 1
category_rank ReversalCategory.commission = 2
category_rank ReversalCategory.deposit = 3
category_rank ReversalCategory.payment = 4
category_rank ReversalCategory.payment_allocation = 5
category_rank ReversalCategory.prepayment = 6
category_rank ReversalCategory.pricing_rebate = 7
category_rank ReversalCategory.refund = 8
category_rank ReversalCategory.rent_bill = 9
category_rank ReversalCategory.room_status = 10

pub entity_rank : EntityType → ℕ
entity_rank EntityType.bill_adjustment = 0
entity_rank EntityType.checkout_rent_refund_allocation = 1
entity_rank EntityType.checkout_settlement = 2
entity_rank EntityType.contract_change = 3
entity_rank EntityType.contract_deposit_balance = 4
entity_rank EntityType.contract_prepayment_balance = 5
entity_rank EntityType.deposit_refund = 6
entity_rank EntityType.payment_entity = 7
entity_rank EntityType.payment_refund = 8
entity_rank EntityType.payment_void_request = 9
entity_rank EntityType.pricing_rebate_entity = 10
entity_rank EntityType.rent_bill_entity = 11
entity_rank EntityType.room = 12

-- `(left.originalEntityId ?? -1) - (right.originalEntityId ?? -1) <= 0`.
abbrev pub id_before : Option ℕ → Option ℕ → Bool
id_before none other = true
id_before (some a) none = false
id_before (some a) (some b) = leb a b

-- The comparison of `sortRows` is not positive.
unfoldable pub row_before : ImpactRow → ImpactRow → Bool
row_before left right =
    if not (category_rank left.category == category_rank right.category)
    then ltb (category_rank left.category) (category_rank right.category)
    else if not (entity_rank left.entity_type == entity_rank right.entity_type)
    then ltb (entity_rank left.entity_type) (entity_rank right.entity_type)
    else id_before left.entity_id right.entity_id

unfoldable pub insert_row : ImpactRow → List ImpactRow → List ImpactRow
insert_row r [] = r ∷ []
insert_row r (x ∷ xs) = if row_before r x then r ∷ x ∷ xs else x ∷ insert_row r xs

unfoldable pub sort_rows : List ImpactRow → List ImpactRow
sort_rows [] = []
sort_rows (r ∷ rs) = insert_row r (sort_rows rs)

abbrev pub monetary_row :
    ReversalCategory → EntityType → Option ℕ → ℤ → Option ℕ → Bool → Metadata → ImpactRow
monetary_row category entity id before occurred_at affects metadata = record {
  category = category;
  entity_type = entity;
  entity_id = id;
  amount = neg_ℤ before;
  balance_before = some before;
  balance_after = some (pos 0);
  occurred_at = occurred_at;
  affects_net_impact = affects;
  metadata = metadata;
}

abbrev pub indicator_row : ReversalCategory → EntityType → Option ℕ → Metadata → ImpactRow
indicator_row category entity id metadata = record {
  category = category;
  entity_type = entity;
  entity_id = id;
  amount = pos 0;
  balance_before = none;
  balance_after = none;
  occurred_at = none;
  affects_net_impact = false;
  metadata = metadata;
}

abbrev pub workflow_rows : ReversalCategory → EntityType → Metadata → List ℕ → List ImpactRow
workflow_rows category entity metadata ids =
    map (λ id. indicator_row category entity (some id) metadata) (sorted_ids ids)

unfoldable pub pending_rows : PendingWorkflows → List ImpactRow
pending_rows p =
    let rows = λ (category : ReversalCategory) (entity : EntityType) (ids : List ℕ).
      workflow_rows category entity pending_workflow ids in
    rows ReversalCategory.adjustment EntityType.bill_adjustment p.adjustments
    ++ (rows ReversalCategory.refund EntityType.payment_refund p.refunds
        ++ (rows ReversalCategory.payment EntityType.payment_void_request p.void_requests
            ++ (rows ReversalCategory.rent_bill EntityType.contract_change p.changes
                ++ (rows ReversalCategory.pricing_rebate EntityType.pricing_rebate_entity p.rebates
                    ++ (rows ReversalCategory.checkout EntityType.checkout_settlement p.checkouts
                        ++ rows ReversalCategory.deposit EntityType.deposit_refund
                            p.deposit_refunds)))))
