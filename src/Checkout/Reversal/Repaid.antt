-- ===== src/Checkout/Reversal/Repaid.antt =====
-- The loop of backend/src/checkout/checkout-completed-reversal.ts over the adjustments of a rent
-- refund, run on those that a booking has left.
use srms.Prelude.{
  ℕ, suc, ◌==◌, ◌≡◌, refl, sym, ap, ◌∙◌, true, none, some, List, [], ◌∷◌, map, filter, find,
  contains, Option-cases, Bool-cases, inl, inr, arith, All,
}
use srms.Prelude.Int.{ℤ, ◌+ℤ◌, sum_ℤ, int_laws, +ℤ_zero, +ℤ_assoc}
use srms.Prelude.Fallible.{ok, >>=-ok_elim}
use srms.Payments.Store.{RentBill, BillAdjustment, find_bill, update_where}
use srms.Payments.Store.Rows.{map_option, find-id}
use srms.Payments.Store.Rounds.{round, rounds, find-filter}
use srms.Checkout.FutureBills.{Linked}
use srms.Checkout.RefundWriter.Checks.{ApplyInput, Total, add_amount, amount_at}
use srms.Checkout.RefundWriter.Writes.{refunded_bill, refund_adjustment}
use srms.Checkout.RefundWriter.Written.{bill_id, bookings}
use srms.Checkout.Reversal.Tables.{UndoInput}
use srms.Checkout.Reversal.RentRefunds.{
  Repaying, link_bills, repaid_bill, repay_bill, repay_bills, is_open_refund,
}

abbrev pub totals_sum : List Total → ℤ
totals_sum ts = sum_ℤ (map (λ (t : Total). t.amount) ts)

sum-add :
    (id : ℕ) (amount : ℤ) (ts : List Total)
    → totals_sum (add_amount ts id amount) ≡ totals_sum ts +ℤ amount
unfolding sum_ℤ
sum-add id amount [] = omega int_laws
sum-add id amount (t ∷ ts) = elim (Bool-cases (t.id == id)) [
  | inl same ↦ rw same (omega int_laws)
  | inr differ ↦ rw (differ, sum-add id amount ts) (sym (+ℤ_assoc t.amount (totals_sum ts) amount))
]

abbrev pub booked_sum : List BillAdjustment → ℤ
booked_sum xs = sum_ℤ (map (λ (a : BillAdjustment). a.amount) xs)

find-map :
    {A : Type 0} (id_of : A → ℕ) (g : A → A) (same_id : (a : A) → id_of (g a) ≡ id_of a) (id : ℕ)
    (rows : List A)
    → find (λ a. id_of a == id) (map g rows) ≡ map_option g (find (λ a. id_of a == id) rows)
find-map id_of g same_id id [] = refl
find-map id_of g same_id id (a ∷ rows) = elim (Bool-cases (id_of a == id)) [
  | inl own ↦ rw (same_id a, own) refl
  | inr other ↦ rw (same_id a, other) (find-map id_of g same_id id rows)
]

link_bills-one :
    (bills : List RentBill) (a : BillAdjustment) (xs : List BillAdjustment) (b : RentBill)
    → find_bill a.rent_bill_id bills ≡ some b
    → link_bills bills (a ∷ xs) ≡ record { adjustment = a; bill = b } ∷ link_bills bills xs
link_bills-one bills a xs b h = rw (link_bills, h) refl

-- One round of the loop.
record IsStep (undo : UndoInput) (l : Linked) (t t' : Repaying) : Type 0 where
  step_bills :
      t'.tables.bills
      ≡ update_where
          (λ (b : RentBill). b.id == l.bill.id)
          (repaid_bill undo l.adjustment.amount l.bill)
          t.tables.bills
  step_sum : totals_sum t'.by_bill ≡ totals_sum t.by_bill +ℤ l.adjustment.amount
  step_claims : t'.tables.claims ≡ t.tables.claims
  step_allocations : t'.tables.allocations ≡ t.tables.allocations

repay_bill-IsStep :
    (undo : UndoInput) (l : Linked) (t t' : Repaying)
    → repay_bill undo l t ≡ ok t'
    → IsStep undo l t t'
unfolding repay_bill
repay_bill-IsStep undo l t t' h =
    let totals : t'.by_bill ≡ add_amount t.by_bill l.adjustment.rent_bill_id l.adjustment.amount =
      ground arith in
    record {
      step_bills = ground arith;
      step_sum = rw totals (sum-add l.adjustment.rent_bill_id l.adjustment.amount t.by_bill);
      step_claims = ground arith;
      step_allocations = ground arith;
    }

module _ (input : ApplyInput) (item_id : ℕ) (totals : List Total) where
  abbrev pub booked : List RentBill → ℕ → List ℕ → List BillAdjustment
  booked read next ids = bookings input item_id totals read next ids

  pub booked-one :
      (next id : ℕ) (ids : List ℕ) (read : List RentBill) (b : RentBill)
      → find_bill id read ≡ some b
      → booked read next (id ∷ ids)
        ≡ refund_adjustment input item_id totals next b ∷ booked read (suc next) ids
  booked-one next id ids read b h = rw (bookings, h) refl

  -- Only the rows with the ids of the loop need to have been read.
  pub booked-filter :
      (all_ids : List ℕ) (read : List RentBill) (next : ℕ) (ids : List ℕ)
      → All (λ id. contains id all_ids ≡ true) ids
      → booked (filter (λ (b : RentBill). contains b.id all_ids) read) next ids
        ≡ booked read next ids
  booked-filter all_ids read next [] h = refl
  booked-filter all_ids read next (id ∷ ids) h =
      let same = find-filter bill_id (refunded_bill totals) (λ a x. refl) id all_ids read h.0 in
      elim (Option-cases (find_bill id read)) [
        | inl missing ↦ rw (bookings, same, missing) (booked-filter all_ids read next ids h.1)
        | inr (b, found) ↦
            rw (bookings, same, found)
              (ap (λ xs. refund_adjustment input item_id totals next b ∷ xs)
                (booked-filter all_ids read (suc next) ids h.1))
      ]

  -- The adjustments of a booking are open.
  pub booked-open :
      (items : List ℕ) (read : List RentBill) (next : ℕ) (ids : List ℕ)
      → contains item_id items ≡ true
      → filter (is_open_refund items) (booked read next ids) ≡ booked read next ids
  booked-open items read next [] h = refl
  booked-open items read next (id ∷ ids) h = elim (Option-cases (find_bill id read)) [
    | inl missing ↦ rw (bookings, missing) (booked-open items read next ids h)
    | inr (b, found) ↦
        rw (bookings, found, h)
          (ap (λ xs. refund_adjustment input item_id totals next b ∷ xs)
            (booked-open items read (suc next) ids h))
  ]

  module _ (undo : UndoInput) (g : RentBill → RentBill)
      (same_id : (b : RentBill) → bill_id (g b) ≡ bill_id b) (rows : List RentBill) where
    abbrev pub repaid : RentBill → RentBill → RentBill
    repaid a x = repaid_bill undo (amount_at a.id totals) a x

    abbrev pub repaid_rounds : List ℕ → List RentBill → List RentBill
    repaid_rounds ids bills = rounds bill_id repaid (λ a x. refl) (map g rows) ids bills

    pub record IsRepaid (next : ℕ) (ids : List ℕ) (t t' : Repaying) : Type 0 where
      pub bills_are : t'.tables.bills ≡ repaid_rounds ids t.tables.bills
      pub sum_is : totals_sum t'.by_bill ≡ totals_sum t.by_bill +ℤ booked_sum (booked rows next ids)
      pub same_claims : t'.tables.claims ≡ t.tables.claims
      pub same_allocations : t'.tables.allocations ≡ t.tables.allocations

    pub repay_bills-IsRepaid :
        (next : ℕ) (ids : List ℕ) (t t' : Repaying)
        → repay_bills undo (link_bills (map g rows) (booked rows next ids)) t ≡ ok t'
        → IsRepaid next ids t t'
    unfolding repay_bills sum_ℤ
    repay_bills-IsRepaid next [] t t' h =
        let same : t' ≡ t = ground arith in
        rw same (record {
          bills_are = refl;
          sum_is = sym (+ℤ_zero (totals_sum t.by_bill));
          same_claims = refl;
          same_allocations = refl;
        })
    repay_bills-IsRepaid next (id ∷ ids) t t' h = elim (Option-cases (find_bill id rows)) [
      | inl missing ↦
          let image = find-map bill_id g same_id id rows in
          let nothing : find_bill id (map g rows) ≡ none = rw missing at image in
          let rest = repay_bills-IsRepaid next ids t t' (rw (bookings, missing) at h) in
          record {
            bills_are = rw (round, nothing) rest.bills_are;
            sum_is = rw (bookings, missing) rest.sum_is;
            same_claims = rest.same_claims;
            same_allocations = rest.same_allocations;
          }
      | inr (b, found) ↦
          let key : b.id ≡ id = find-id bill_id id rows b found in
          let image : find_bill id (map g rows) ≡ some (g b) =
            find-map bill_id g same_id id rows ∙ ap (map_option g) found in
          let own_image : find_bill b.id (map g rows) ≡ some (g b) =
            ap (λ k. find_bill k (map g rows)) key ∙ image in
          let link : Linked = record {
            adjustment = refund_adjustment input item_id totals next b;
            bill = g b;
          } in
          let later = link_bills (map g rows) (booked rows (suc next) ids) in
          let links : link_bills (map g rows) (booked rows next (id ∷ ids)) ≡ link ∷ later =
            ap (link_bills (map g rows)) (booked-one next id ids rows b found)
            ∙ link_bills-one (map g rows) link.adjustment (booked rows (suc next) ids) (g b)
                own_image in
          >>=-ok_elim (repay_bill undo link t) (repay_bills undo later)
            (ap (λ ls. repay_bills undo ls t) (sym links) ∙ h)
            (λ t1 first others.
              let one = repay_bill-IsStep undo link t t1 first in
              let rest = repay_bills-IsRepaid (suc next) ids t1 t' others in
              let same : (g b).id ≡ id = same_id b ∙ key in
              record {
                bills_are =
                    rest.bills_are
                    ∙ ap (repaid_rounds ids) one.step_bills
                    ∙ rw (round, image, same, key) refl;
                sum_is =
                    rest.sum_is
                    ∙ rw (one.step_sum, bookings, found)
                        (+ℤ_assoc (totals_sum t.by_bill) (amount_at b.id totals)
                          (booked_sum (booked rows (suc next) ids)));
                same_claims = rest.same_claims ∙ one.step_claims;
                same_allocations = rest.same_allocations ∙ one.step_allocations;
              })
    ]
