-- ===== src/Checkout/FutureBills/Restored.antt =====
-- `reverseFutureCheckoutBillNormalization` after `normalizeFutureCheckoutBills`.
use srms.Prelude.{
  ℕ, suc, ◌<◌, ◌≡◌, refl, sym, ap, ◌∙◌, Bool, true, false, ◌&&◌, ◌||◌, not, if◌then◌else◌, some,
  List, [], ◌∷◌, map, all, filter, Bool-cases, inl, inr, arith, All,
}
use srms.Prelude.Int.{zero_+ℤ, ℤ, pos, ◌+ℤ◌, ◌-ℤ◌, eqb_ℤ, eqb_ℤ_iff, int_laws}
use srms.Prelude.Fallible.{ok, is_ok}
use srms.Payments.Store.{RentBill, BillAdjustment, Database, find_bill}
use srms.Payments.Store.Sweep
use srms.Payments.Store.Sweep.{HasKeys}
use srms.Checkout.FutureBills.{
  NormalizationInput, Normalized, is_future, cancel, is_open_cancellation, open_cancellations,
  restored_status, restore, normalize_future_checkout_bills, reverse_cancellations,
  reverse_future_checkout_bill_normalization,
}
use srms.Checkout.FutureBills.Cancelled.{
  id_of, is_settled, cancelled, cancellations, total_open, adds_up, IsSwept, next_after,
  normalize_future_checkout_bills-IsSwept, normalize_future_checkout_bills-is_ok,
}
use srms.Checkout.FutureBills.Links.{
  links, find_key, All-filter, open_cancellations-append, open_cancellations-links, IsFound,
}
use srms.Checkout.FutureBills.Claims.{IsClaimable, restore_all, reverse_cancellations-IsReversed}
use srms.Checkout.FutureBills.Booked.{
  links-old, links-between, links-HasKeys, links-open, links-total,
}

all-filter :
    (p q : RentBill → Bool) (xs : List RentBill)
    → all p (filter q xs) ≡ true
    → All (λ x. q x ≡ true → p x ≡ true) xs
all-filter p q [] h = tt
all-filter p q (x ∷ xs) h = elim (Bool-cases (q x)) [
  | inl chosen ↦ ((λ e. ground arith), all-filter p q xs (ground arith))
  | inr passed ↦ ((λ e. absurd (cc)), all-filter p q xs (ground arith))
]

map-All :
    (f g : RentBill → RentBill) (xs : List RentBill) → All (λ x. f x ≡ g x) xs → map f xs ≡ map g xs
map-All f g [] h = refl
map-All f g (x ∷ xs) h = rw (h.0, map-All f g xs h.1) refl

All-both_of :
    (P Q : RentBill → Type 0)
    → ((x : RentBill) → P x → Q x)
    → (xs : List RentBill) → All P xs
    → All Q xs
All-both_of P Q f [] h = tt
All-both_of P Q f (x ∷ xs) h = (f x h.0, All-both_of P Q f xs h.1)

back : (a o : ℤ) → a -ℤ o +ℤ o ≡ a
back a o = omega int_laws

rest-is : (p r o : ℤ) → eqb_ℤ p (r +ℤ o) ≡ true → p -ℤ r ≡ o
rest-is p r o h = ap (λ x. x -ℤ r) ((eqb_ℤ_iff p (r +ℤ o)).0 h) ∙ omega int_laws

module _ (business_day : ℕ → ℕ) (input input' : NormalizationInput) where
  -- A bill after both: as it was, with the status that fits its amounts on the day of the reversal.
  abbrev pub reopened : RentBill → RentBill
  reopened b =
      if is_future input b && not (is_settled b)
      then record b {
        status =
            restored_status business_day b.received_amount b.outstanding_amount b.due_date
              input'.occurred_at;
      }
      else b

  abbrev write : RentBill → RentBill → RentBill
  write b x = restore business_day input' b.outstanding_amount (cancel b b) x

  abbrev normalized : RentBill → RentBill
  normalized b = if is_future input b then cancelled b else b

  normalized-id : (b : RentBill) → (normalized b).id ≡ b.id
  normalized-id b = elim (Bool-cases (is_future input b)) [
    | inr other ↦ rw other refl
    | inl future ↦ elim (Bool-cases (is_settled b)) [
      | inl settled ↦ rw (future, settled) refl
      | inr unsettled ↦ rw (future, unsettled) refl
    ]
  ]

  restore_all-links :
      (next : ℕ) (bs rows : List RentBill)
      → restore_all business_day input' (links input next bs) rows
        ≡ Sweep.changes id_of is_settled write (λ a x. refl) bs rows
  restore_all-links next [] rows = refl
  restore_all-links next (b ∷ bs) rows = elim (Bool-cases (is_settled b)) [
    | inl settled ↦ rw settled (restore_all-links next bs rows)
    | inr unsettled ↦ rw unsettled (restore_all-links (suc next) bs _)
  ]

  write-cancelled :
      (b : RentBill)
      → adds_up b ≡ true
      → write b (cancel b b) ≡ record b {
        status =
            restored_status business_day b.received_amount b.outstanding_amount b.due_date
              input'.occurred_at;
      }
  write-cancelled b sums =
      let matches : eqb_ℤ b.payable_amount (b.received_amount +ℤ b.outstanding_amount) ≡ true =
        ground arith in
      rw
        (
          back b.adjustment_amount b.outstanding_amount,
          back b.payable_amount b.outstanding_amount,
          rest-is b.payable_amount b.received_amount b.outstanding_amount matches,
        )
        refl

  abbrev both : RentBill → RentBill
  both b =
      if is_future input b
      then if is_settled b then normalized b else write b (normalized b)
      else normalized b

  both-reopened :
      (b : RentBill)
      → (is_future input b ≡ true → (is_settled b || adds_up b) ≡ true)
      → both b ≡ reopened b
  both-reopened b h = elim (Bool-cases (is_future input b)) [
    | inr other ↦ rw other refl
    | inl future ↦ elim (Bool-cases (is_settled b)) [
      | inl settled ↦ rw (future, settled) refl
      | inr unsettled ↦
          let sums : adds_up b ≡ true = ground (arith, h future) in
          rw (future, unsettled) (write-cancelled b sums)
    ]
  ]

  pub record IsRestored (db : Database) (n r : Normalized) : Type 0 where
    pub bills_reopened : r.db.bills ≡ map reopened db.bills
    pub same_amount : r.amount ≡ n.amount

  module _ (db : Database) (n : Normalized) (keys : HasKeys id_of db.bills)
      (done : normalize_future_checkout_bills input db ≡ ok n) where
    abbrev bills : List RentBill
    bills = filter (is_future input) db.bills

    after_normalization : IsSwept input db n
    after_normalization = normalize_future_checkout_bills-IsSwept input db n keys done

    sums-all : all (λ b. is_settled b || adds_up b) bills ≡ true
    sums-all = sym (normalize_future_checkout_bills-is_ok input db) ∙ ap is_ok done

    restored-bills :
        restore_all business_day input' (links input db.next_adjustment_id bills) n.db.bills
        ≡ map reopened db.bills
    restored-bills =
        ap (restore_all business_day input' (links input db.next_adjustment_id bills))
          after_normalization.bills_cancelled
        ∙ restore_all-links db.next_adjustment_id bills (map normalized db.bills)
        ∙ Sweep.changes-map id_of is_settled write (λ a x. refl) normalized normalized-id
            (is_future input) db.bills keys
        ∙ map-All both reopened db.bills (
            All-both_of _ _ both-reopened db.bills
              (all-filter (λ b. is_settled b || adds_up b) (is_future input) db.bills sums-all))

    abbrev start : Normalized
    start = record { db = n.db; bill_ids = []; amount = pos 0 }

    module _ (same_settlement : input.settlement_id ≡ input'.settlement_id)
        (same_contract : input.contract_id ≡ input'.contract_id)
        (unused : All (λ a. is_open_cancellation input' a ≡ false) db.adjustments)
        (old : All (λ (a : BillAdjustment). a.id < db.next_adjustment_id) db.adjustments) where
      abbrev IsFoundHere : RentBill → Type 0
      IsFoundHere b = IsFound input input' same_settlement same_contract n.db.bills b

      found-one :
          (b : RentBill)
          → (find_bill b.id (map normalized db.bills) ≡ some (normalized b))
            × (is_future input b ≡ true)
          → IsFoundHere b
      found-one b (found, future) = (
        ap (find_bill b.id) after_normalization.bills_cancelled ∙ found ∙ ap some (rw future refl),
        future,
      )

      found-all : All IsFoundHere bills
      found-all = All-both_of _ IsFoundHere found-one bills (
          All-filter _ (is_future input) db.bills (find_key normalized normalized-id db.bills keys))

      query-links :
          open_cancellations input' n.db.bills n.db.adjustments
          ≡ links input db.next_adjustment_id bills
      query-links =
          ap (open_cancellations input' n.db.bills) after_normalization.adjustments_booked
          ∙ open_cancellations-append input input' same_settlement same_contract n.db.bills
              db.adjustments (cancellations input db.next_adjustment_id bills) unused
          ∙ open_cancellations-links input input' same_settlement same_contract n.db.bills
              db.next_adjustment_id bills found-all

      claimable : IsClaimable (links input db.next_adjustment_id bills) start
      claimable = record {
        are_open =
            rw after_normalization.adjustments_booked
              (links-open input db.next_adjustment_id db.adjustments bills old);
        are_old = rw after_normalization.next_is (
            links-old input db.next_adjustment_id (next_after db.next_adjustment_id bills)
              (links input db.next_adjustment_id bills)
              (links-between input db.next_adjustment_id bills));
        are_apart = links-HasKeys input db.next_adjustment_id bills;
      }

      -- Bill ids are distinct, adjustment ids are below the next one, and the settlement has no
      -- cancellation standing: then the reversal of a successful normalization for the same
      -- settlement and contract succeeds, gives every bill its amounts back with the status that
      -- fits them on the day of the reversal, and reports the amount that was cancelled.
      pub reverse_future_checkout_bill_normalization-IsRestored :
          (r : Normalized) × (reverse_future_checkout_bill_normalization business_day input' n.db
            ≡ ok r)
          × IsRestored db n r
      unfolding reverse_future_checkout_bill_normalization
      reverse_future_checkout_bill_normalization-IsRestored =
          let ls = links input db.next_adjustment_id bills in
          let (r, ended, reversed) =
            reverse_cancellations-IsReversed business_day input' ls start claimable in
          (
            r,
            ap (λ xs. reverse_cancellations business_day input' xs start) query-links ∙ ended,
            record {
              bills_reopened = reversed.bills_restored ∙ restored-bills;
              same_amount =
                  reversed.amount_grows
                  ∙ ap (λ t. pos 0 +ℤ t) (links-total input db.next_adjustment_id bills)
                  ∙ zero_+ℤ (total_open bills)
                  ∙ sym after_normalization.amount_is;
            },
          )
