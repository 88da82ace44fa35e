-- ===== src/Checkout/FutureBills/Claims.antt =====
-- The loop of `reverseFutureCheckoutBillNormalization` over adjustments that it can claim.
use srms.Prelude.{
  ℕ, suc, ◌==◌, ◌<◌, ◌≡◌, refl, sym, ap, ◌∙◌, true, false, List, [], ◌∷◌, ◌++◌, map, arith, All,
  some,
}
use srms.Prelude.Int.{+ℤ_assoc, +ℤ_zero, ℤ, ◌+ℤ◌, sum_ℤ}
use srms.Prelude.Fallible.{ok, ◌>>=◌}
use srms.Payments.Store.{RentBill, BillAdjustment, update_where}
use srms.Payments.Store.Sweep.{HasKeys, Without}
use srms.Payments.Store.Counts.{count, count-other, count-update_where}
use srms.Checkout.FutureBills.{
  NormalizationInput, Normalized, Linked, restoration, is_unclaimed, restore, reverse_cancellation,
  reverse_cancellations,
}

abbrev pub link_id : Linked → ℕ
link_id l = l.adjustment.id

abbrev pub total_linked : List Linked → ℤ
total_linked ls = sum_ℤ (map (λ (l : Linked). l.adjustment.amount) ls)

pub record IsClaimable (ls : List Linked) (s : Normalized) : Type 0 where
  pub are_open : All (λ l. count (is_unclaimed (link_id l)) s.db.adjustments ≡ 1) ls
  pub are_old : All (λ l. link_id l < s.db.next_adjustment_id) ls
  pub are_apart : HasKeys link_id ls

module _ (business_day : ℕ → ℕ) (input : NormalizationInput) where
  abbrev booked : Linked → Normalized → List BillAdjustment
  booked l s = s.db.adjustments ++ restoration input s.db.next_adjustment_id l ∷ []

  abbrev claim : ℕ → BillAdjustment → BillAdjustment
  claim id a = record a { reversed_by = some id }

  abbrev reversed_one : Linked → Normalized → Normalized
  reversed_one l s = record {
    db = record s.db {
      bills =
          update_where (λ (b : RentBill). b.id == l.bill.id)
            (restore business_day input l.adjustment.amount l.bill) s.db.bills;
      adjustments =
          update_where (is_unclaimed (link_id l)) (claim s.db.next_adjustment_id) (booked l s);
      next_adjustment_id = suc s.db.next_adjustment_id;
    };
    bill_ids = s.bill_ids ++ l.bill.id ∷ [];
    amount = s.amount +ℤ l.adjustment.amount;
  }

  abbrev pub restore_all : List Linked → List RentBill → List RentBill
  restore_all [] rows = rows
  restore_all (l ∷ ls) rows = restore_all ls (
      update_where (λ (b : RentBill). b.id == l.bill.id)
        (restore business_day input l.adjustment.amount l.bill) rows)

  count-booked :
      (id : ℕ) (l : Linked) (s : Normalized)
      → id < s.db.next_adjustment_id
      → count (is_unclaimed id) (booked l s) ≡ count (is_unclaimed id) s.db.adjustments
  count-booked id l s old =
      let fresh : (s.db.next_adjustment_id == id) ≡ false = ground (arith, old) in
      count-other (is_unclaimed id) s.db.adjustments (restoration input s.db.next_adjustment_id l)
        (rw fresh refl)

  reverse_cancellation-claims :
      (l : Linked) (s : Normalized)
      → count (is_unclaimed (link_id l)) (booked l s) ≡ 1
      → reverse_cancellation business_day input l s ≡ ok (reversed_one l s)
  unfolding reverse_cancellation
  reverse_cancellation-claims l s one = rw one refl

  unclaimed-apart :
      (id other by : ℕ) (a : BillAdjustment)
      → (other == id) ≡ false
      → is_unclaimed id a ≡ true
      → is_unclaimed other (claim by a) ≡ is_unclaimed other a
  unclaimed-apart id other by a apart hit =
      let differs : (a.id == other) ≡ false = ground (arith, apart, hit) in rw differs refl

  claims-kept :
      (l : Linked) (ls : List Linked) (s : Normalized)
      → Without link_id (link_id l) ls
      → All (λ x. count (is_unclaimed (link_id x)) s.db.adjustments ≡ 1) ls
      → All (λ x. link_id x < s.db.next_adjustment_id) ls
      → All (λ x. count (is_unclaimed (link_id x)) (reversed_one l s).db.adjustments ≡ 1) ls
  claims-kept l [] s apart one old = tt
  claims-kept l (x ∷ ls) s apart one old = (
    count-update_where (is_unclaimed (link_id x)) (is_unclaimed (link_id l))
          (claim s.db.next_adjustment_id)
          (λ a hit. unclaimed-apart (link_id l) (link_id x) s.db.next_adjustment_id a apart.0 hit)
          (booked l s)
        ∙ count-booked (link_id x) l s old.0
        ∙ one.0,
    claims-kept l ls s apart.1 one.1 old.1,
  )

  old-kept :
      (n : ℕ) (ls : List Linked) → All (λ x. link_id x < n) ls → All (λ x. link_id x < suc n) ls
  old-kept n [] h = tt
  old-kept n (x ∷ ls) h = (omega (arith, h.0), old-kept n ls h.1)

  pub record IsReversed (ls : List Linked) (s s' : Normalized) : Type 0 where
    pub bills_restored : s'.db.bills ≡ restore_all ls s.db.bills
    pub amount_grows : s'.amount ≡ s.amount +ℤ total_linked ls

  pub reverse_cancellations-IsReversed :
      (ls : List Linked) (s : Normalized)
      → IsClaimable ls s
      → (s' : Normalized) × (reverse_cancellations business_day input ls s ≡ ok s')
        × IsReversed ls s s'
  unfolding reverse_cancellations sum_ℤ
  reverse_cancellations-IsReversed [] s h =
      (s, refl, record { bills_restored = refl; amount_grows = sym (+ℤ_zero s.amount) })
  reverse_cancellations-IsReversed (l ∷ ls) s h =
      let one =
        reverse_cancellation-claims l s (count-booked (link_id l) l s h.are_old.0 ∙ h.are_open.0) in
      let (s', done, reversed) = reverse_cancellations-IsReversed ls (reversed_one l s) (record {
        are_open = claims-kept l ls s h.are_apart.0 h.are_open.1 h.are_old.1;
        are_old = old-kept s.db.next_adjustment_id ls h.are_old.1;
        are_apart = h.are_apart.1;
      }) in
      (
        s',
        ap (λ m. m >>= λ t. reverse_cancellations business_day input ls t) one ∙ done,
        record {
          bills_restored = reversed.bills_restored;
          amount_grows =
              reversed.amount_grows ∙ +ℤ_assoc s.amount l.adjustment.amount (total_linked ls);
        },
      )
