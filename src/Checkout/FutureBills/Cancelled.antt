-- ===== src/Checkout/FutureBills/Cancelled.antt =====
-- The bills and adjustments that `normalizeFutureCheckoutBills` leaves.
use srms.Prelude.{
  ℕ, suc, ◌≡◌, refl, ap, ◌∙◌, sym, Bool, if◌then◌else◌, List, [], ◌∷◌, ◌++◌, ◌&&◌, ◌||◌, not, all,
  map, filter, Bool-cases, inl, inr, arith,
}
use mathlib.Core.List.{append-nil, append_assoc}
use srms.Prelude.Fallible.{ok, is_ok, Result-cases, >>=-ok_elim}
use srms.Prelude.Int.{
  +ℤ_assoc, +ℤ_zero, zero_+ℤ, ℤ, pos, ◌+ℤ◌, ◌-ℤ◌, leb_ℤ, eqb_ℤ, ltb_ℤ, sum_ℤ, max_ℤ, +ℤ_parts,
  -ℤ_parts, int_laws, le_of_leb_ℤ, lt_of_leb_ℤ,
}
use srms.Payments.Store.{RentBill, BillAdjustment, Database}
use srms.Payments.Store.Sweep
use srms.Payments.Store.Sweep.{HasKeys}
use srms.Checkout.FutureBills.{
  NormalizationInput, Normalized, is_future, cancel, cancellation, normalize_bill, normalize_bills,
  normalize_future_checkout_bills,
}

abbrev pub id_of : RentBill → ℕ
id_of b = b.id

abbrev pub is_settled : RentBill → Bool
is_settled b = leb_ℤ b.outstanding_amount (pos 0)

abbrev changes : List RentBill → List RentBill → List RentBill
changes xs rows = Sweep.changes id_of is_settled cancel (λ a x. refl) xs rows

-- A bill that was paid for in part or not at all, with the rest cancelled.
abbrev pub cancelled : RentBill → RentBill
cancelled b = if is_settled b then b else cancel b b

-- The adjustments that are booked for bills, with ids from `next` on.
abbrev pub cancellations : NormalizationInput → ℕ → List RentBill → List BillAdjustment
cancellations input next [] = []
cancellations input next (b ∷ bs) =
    let skipped = cancellations input next bs in
    let booked = cancellation input next b ∷ cancellations input (suc next) bs in
    if is_settled b then skipped else booked

-- The id that comes next when these are booked.
abbrev pub next_after : ℕ → List RentBill → ℕ
next_after next [] = next
next_after next (b ∷ bs) = next_after (if is_settled b then next else suc next) bs

abbrev pub open_amount : RentBill → ℤ
open_amount b = max_ℤ (pos 0) b.outstanding_amount

abbrev pub total_open : List RentBill → ℤ
total_open bs = sum_ℤ (map open_amount bs)

record Step (input : NormalizationInput) (b : RentBill) (s s' : Normalized) : Type 0 where
  step_bills : s'.db.bills ≡ changes (b ∷ []) s.db.bills
  step_adjustments :
      s'.db.adjustments ≡ s.db.adjustments ++ cancellations input s.db.next_adjustment_id (b ∷ [])
  step_next :
      (bs : List RentBill)
      → cancellations input s.db.next_adjustment_id (b ∷ bs)
        ≡ cancellations input s.db.next_adjustment_id (b ∷ [])
          ++ cancellations input s'.db.next_adjustment_id bs
  step_id :
      (bs : List RentBill)
      → next_after s.db.next_adjustment_id (b ∷ bs) ≡ next_after s'.db.next_adjustment_id bs
  step_amount : s'.amount ≡ s.amount +ℤ open_amount b

normalize_bill-Step :
    (input : NormalizationInput) (b : RentBill) (s s' : Normalized)
    → normalize_bill input b s ≡ ok s'
    → Step input b s s'
unfolding normalize_bill
normalize_bill-Step input b s s' h = elim (Bool-cases (is_settled b)) [
  | inl settled ↦
      let same : s' ≡ s = ground arith in
      rw same (record {
        step_bills = rw settled refl;
        step_adjustments = rw settled (sym (append-nil s.db.adjustments));
        step_next = λ bs. rw settled refl;
        step_id = λ bs. rw settled refl;
        step_amount = omega (int_laws, le_of_leb_ℤ b.outstanding_amount (pos 0) settled);
      })
  | inr unsettled ↦
      let total : s'.amount ≡ s.amount +ℤ b.outstanding_amount = ground arith in
      let next : s'.db.next_adjustment_id ≡ suc s.db.next_adjustment_id = ground arith in
      record {
        step_bills = ground arith;
        step_adjustments = ground arith;
        step_next = λ bs. rw (next, unsettled) refl;
        step_id = λ bs. rw (next, unsettled) refl;
        step_amount =
            rw total (omega (int_laws, lt_of_leb_ℤ b.outstanding_amount (pos 0) unsettled));
      }
]

record Loop (input : NormalizationInput) (bs : List RentBill) (s s' : Normalized) : Type 0 where
  loop_bills : s'.db.bills ≡ changes bs s.db.bills
  loop_adjustments :
      s'.db.adjustments ≡ s.db.adjustments ++ cancellations input s.db.next_adjustment_id bs
  loop_next : s'.db.next_adjustment_id ≡ next_after s.db.next_adjustment_id bs
  loop_amount : s'.amount ≡ s.amount +ℤ total_open bs

normalize_bills-Loop :
    (input : NormalizationInput) (bs : List RentBill) (s s' : Normalized)
    → normalize_bills input bs s ≡ ok s'
    → Loop input bs s s'
unfolding normalize_bills sum_ℤ
normalize_bills-Loop input [] s s' h =
    let same : s' ≡ s = ground arith in
    rw same (record {
      loop_bills = refl;
      loop_adjustments = sym (append-nil s.db.adjustments);
      loop_next = refl;
      loop_amount = sym (+ℤ_zero s.amount);
    })
normalize_bills-Loop input (b ∷ bs) s s' h =
    >>=-ok_elim (normalize_bill input b s) (normalize_bills input bs) h (λ t first rest.
      let one = normalize_bill-Step input b s t first in
      let more = normalize_bills-Loop input bs t s' rest in
      record {
        loop_bills = more.loop_bills ∙ ap (changes bs) one.step_bills;
        loop_adjustments =
            more.loop_adjustments
            ∙ ap (λ xs. xs ++ cancellations input t.db.next_adjustment_id bs) one.step_adjustments
            ∙ append_assoc s.db.adjustments _ _
            ∙ ap (λ xs. s.db.adjustments ++ xs) (sym (one.step_next bs));
        loop_next = more.loop_next ∙ sym (one.step_id bs);
        loop_amount =
            more.loop_amount
            ∙ ap (λ t. t +ℤ total_open bs) one.step_amount
            ∙ +ℤ_assoc s.amount (open_amount b) (total_open bs);
      })

pub record IsSwept (input : NormalizationInput) (db : Database) (s : Normalized) : Type 0 where
  pub bills_cancelled :
      s.db.bills ≡ map (λ b. if is_future input b then cancelled b else b) db.bills
  pub adjustments_booked :
      s.db.adjustments
      ≡ db.adjustments
        ++ cancellations input db.next_adjustment_id (filter (is_future input) db.bills)
  pub next_is :
      s.db.next_adjustment_id ≡ next_after db.next_adjustment_id (filter (is_future input) db.bills)
  pub amount_is : s.amount ≡ total_open (filter (is_future input) db.bills)

-- On a table of bills with distinct ids, a normalization that succeeds makes the writes of its loop
-- to every bill that it has read.
pub normalize_future_checkout_bills-IsSwept :
    (input : NormalizationInput) (db : Database) (s : Normalized)
    → HasKeys id_of db.bills
    → normalize_future_checkout_bills input db ≡ ok s
    → IsSwept input db s
unfolding normalize_future_checkout_bills
normalize_future_checkout_bills-IsSwept input db s keys h =
    let l =
      normalize_bills-Loop input (filter (is_future input) db.bills)
        (record { db = db; bill_ids = []; amount = pos 0 }) s h in
    record {
      bills_cancelled =
          l.loop_bills
          ∙ Sweep.changes-filter id_of is_settled cancel (λ a x. refl) (is_future input) db.bills
              keys;
      adjustments_booked = l.loop_adjustments;
      next_is = l.loop_next;
      amount_is = l.loop_amount ∙ zero_+ℤ (total_open (filter (is_future input) db.bills));
    }

-- What was received is not negative and is what is payable less what is outstanding.
abbrev pub adds_up : RentBill → Bool
adds_up b =
    leb_ℤ (pos 0) b.received_amount
    && eqb_ℤ b.payable_amount (b.received_amount +ℤ b.outstanding_amount)

eqb-move : (p o r : ℤ) → eqb_ℤ (p -ℤ o) r ≡ eqb_ℤ p (r +ℤ o)
eqb-move p o r = ground (arith, -ℤ_parts p o, +ℤ_parts r o)

-- Neither of the two tests of the loop throws exactly if the received amount is not negative and the
-- amounts add up.
tests_lem :
    (p o r : ℤ)
    → not (ltb_ℤ (p -ℤ o) (pos 0) || not (eqb_ℤ (p -ℤ o) r)) ≡ leb_ℤ (pos 0) r && eqb_ℤ p (r +ℤ o)
tests_lem p o r = ground (arith, -ℤ_parts p o, +ℤ_parts r o)

normalize_bill-is_ok :
    (input : NormalizationInput) (b : RentBill) (s : Normalized)
    → is_ok (normalize_bill input b s) ≡ is_settled b || adds_up b
unfolding normalize_bill
normalize_bill-is_ok input b s =
    ground (arith, tests_lem b.payable_amount b.outstanding_amount b.received_amount)

normalize_bills-is_ok :
    (input : NormalizationInput) (bs : List RentBill) (s : Normalized)
    → is_ok (normalize_bills input bs s) ≡ all (λ b. is_settled b || adds_up b) bs
unfolding normalize_bills
normalize_bills-is_ok input [] s = refl
normalize_bills-is_ok input (b ∷ bs) s = elim (Result-cases (normalize_bill input b s)) [
  | inl (e, failed) ↦ ground (arith, normalize_bill-is_ok input b s)
  | inr (t, done) ↦ ground (arith, normalize_bill-is_ok input b s, normalize_bills-is_ok input bs t)
]

-- The normalization succeeds exactly if for every bill from the checkout on that has something
-- outstanding the received amount is not negative and is the payable less the outstanding one.
pub normalize_future_checkout_bills-is_ok :
    (input : NormalizationInput) (db : Database)
    → is_ok (normalize_future_checkout_bills input db)
      ≡ all (λ b. is_settled b || adds_up b) (filter (is_future input) db.bills)
unfolding normalize_future_checkout_bills
normalize_future_checkout_bills-is_ok input db =
    normalize_bills-is_ok input (filter (is_future input) db.bills) _
