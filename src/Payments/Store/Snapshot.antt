-- ===== src/Payments/Store/Snapshot.antt =====
-- What the services write back to a contract: `refreshContractPaymentSnapshot`, as it stands in
-- backend/src/payments/void-requests.service.ts.
use srms.Prelude.{ℕ, ◌==◌, leb, ◌&&◌, if◌then◌else◌, Option, none, some, List, [], ◌∷◌, filter}
use srms.Prelude.Int.{pos, eqb_ℤ}
use srms.Payments.Adjustment.{BillAmounts}
use srms.Payments.Store.Tables.{RentBill, Database, update_where}
use srms.Payments.Store.Guards.{is_void_bill, is_rent_bill}

-- The rent bills of a contract by `periodSeq`.
abbrev pub insert_bill : RentBill → List RentBill → List RentBill
insert_bill b [] = b ∷ []
insert_bill b (c ∷ cs) = if leb b.period_seq c.period_seq then b ∷ c ∷ cs else c ∷ insert_bill b cs

unfoldable pub sort_bills : List RentBill → List RentBill
sort_bills [] = []
sort_bills (b ∷ bs) = insert_bill b (sort_bills bs)

-- The loop of `refreshContractPaymentSnapshot`: paid-through date so far, then the next due date.
unfoldable pub snapshot_loop : Option ℕ → List RentBill → Option ℕ × Option ℕ
snapshot_loop paid [] = (paid, none)
snapshot_loop paid (b ∷ bs) =
    let passed = snapshot_loop paid bs in
    let settled = snapshot_loop (some b.period_end) bs in
    if is_void_bill b.status
    then passed
    else if eqb_ℤ b.outstanding_amount (pos 0)
    then settled
    else (paid, some b.due_date)

unfoldable pub refresh_snapshot : Database → ℕ → Database
refresh_snapshot db contract_id =
    let (paid, due) = snapshot_loop none (
      sort_bills
        (filter (λ b. (b.contract_id == contract_id) && is_rent_bill b.category) db.bills)) in
    record db {
      contracts =
          update_where (λ c. c.id == contract_id)
            (λ c. record c { paid_through_date = paid; next_due_date = due }) db.contracts;
    }

-- The amounts of a bill row that `calculateAdjustedBill` is given.
abbrev pub amounts_of : RentBill → BillAmounts
amounts_of b = record {
  base_rent_amount = b.base_rent_amount;
  rent_free_amount = b.rent_free_amount;
  discount_amount = b.discount_amount;
  current_adjustment_amount = b.adjustment_amount;
  received_amount = b.received_amount;
}
