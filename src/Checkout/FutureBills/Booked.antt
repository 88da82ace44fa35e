-- ===== src/Checkout/FutureBills/Booked.antt =====
-- The adjustments that `normalizeFutureCheckoutBills` has booked, as its reversal claims them.
use srms.Prelude.{
  ℕ, suc, ◌==◌, ◌+◌, ◌<◌, ◌≤◌, ◌≡◌, refl, ap, ◌∙◌, false, List, [], ◌∷◌, ◌++◌, Bool-cases, inl, inr,
  arith, All, ==_refl,
}
use srms.Prelude.Int.{pos, ◌+ℤ◌, sum_ℤ, int_laws, le_of_leb_ℤ, lt_of_leb_ℤ}
use srms.Payments.Store.{RentBill, BillAdjustment}
use srms.Payments.Store.Sweep.{HasKeys, Without}
use srms.Payments.Store.Counts.{count, count-append}
use srms.Checkout.FutureBills.{NormalizationInput, Linked, cancellation, is_unclaimed}
use srms.Checkout.FutureBills.Cancelled.{
  is_settled, cancellations, next_after, open_amount, total_open,
}
use srms.Checkout.FutureBills.Links.{links}
use srms.Checkout.FutureBills.Claims.{link_id, total_linked}

count-old :
    (next id : ℕ) (xs : List BillAdjustment)
    → All (λ (a : BillAdjustment). a.id < next) xs
    → next ≤ id
    → count (is_unclaimed id) xs ≡ 0
count-old next id [] h above = refl
count-old next id (a ∷ xs) h above =
    let other : (a.id == id) ≡ false = ground (arith, h.0, above) in
    rw other (count-old next id xs h.1 above)

module _ (input : NormalizationInput) where
  pub next_after-le : (next : ℕ) (bs : List RentBill) → next ≤ next_after next bs
  next_after-le next [] = omega arith
  next_after-le next (b ∷ bs) = elim (Bool-cases (is_settled b)) [
    | inl settled ↦ rw settled (next_after-le next bs)
    | inr unsettled ↦ rw unsettled (omega (arith, next_after-le (suc next) bs))
  ]

  abbrev pub IsBetween : ℕ → ℕ → Linked → Type 0
  IsBetween low high l = (low ≤ link_id l) × (link_id l < high)

  lower :
      (low high : ℕ) (ls : List Linked)
      → All (IsBetween (suc low) high) ls
      → All (IsBetween low high) ls
  lower low high [] h = tt
  lower low high (l ∷ ls) h = ((omega (arith, h.0.0), h.0.1), lower low high ls h.1)

  pub links-between :
      (next : ℕ) (bs : List RentBill)
      → All (IsBetween next (next_after next bs)) (links input next bs)
  links-between next [] = tt
  links-between next (b ∷ bs) = elim (Bool-cases (is_settled b)) [
    | inl settled ↦ rw settled (links-between next bs)
    | inr unsettled ↦ rw unsettled (
      (omega arith, omega (arith, next_after-le (suc next) bs)),
      lower next (next_after (suc next) bs) (links input (suc next) bs)
          (links-between (suc next) bs),
    )
  ]

  pub links-old :
      (low high : ℕ) (ls : List Linked)
      → All (IsBetween low high) ls
      → All (λ l. link_id l < high) ls
  links-old low high [] h = tt
  links-old low high (l ∷ ls) h = (h.0.1, links-old low high ls h.1)

  between-Without :
      (id high : ℕ) (ls : List Linked) → All (IsBetween (suc id) high) ls → Without link_id id ls
  between-Without id high [] h = tt
  between-Without id high (l ∷ ls) h =
      let above = h.0.0 in (ground (arith, above), between-Without id high ls h.1)

  pub links-HasKeys : (next : ℕ) (bs : List RentBill) → HasKeys link_id (links input next bs)
  links-HasKeys next [] = tt
  links-HasKeys next (b ∷ bs) = elim (Bool-cases (is_settled b)) [
    | inl settled ↦ rw settled (links-HasKeys next bs)
    | inr unsettled ↦ rw unsettled (
      between-Without next (next_after (suc next) bs) (links input (suc next) bs)
          (links-between (suc next) bs),
      links-HasKeys (suc next) bs,
    )
  ]

  -- Ids below the first one are not booked.
  count-below :
      (id next : ℕ) (bs : List RentBill)
      → id < next
      → count (is_unclaimed id) (cancellations input next bs) ≡ 0
  count-below id next [] below = refl
  count-below id next (b ∷ bs) below = elim (Bool-cases (is_settled b)) [
    | inl settled ↦ rw settled (count-below id next bs below)
    | inr unsettled ↦
        let other : (next == id) ≡ false = ground (arith, below) in
        rw (unsettled, other) (count-below id (suc next) bs (omega (arith, below)))
  ]

  count-shift :
      (next high : ℕ) (b : RentBill) (xs : List BillAdjustment) (ls : List Linked)
      → All (IsBetween (suc next) high) ls
      → All (λ l. count (is_unclaimed (link_id l)) xs ≡ 1) ls
      → All (λ l. count (is_unclaimed (link_id l)) (cancellation input next b ∷ xs) ≡ 1) ls
  count-shift next high b xs [] between h = tt
  count-shift next high b xs (l ∷ ls) between h =
      let above = between.0.0 in
      let other : (next == link_id l) ≡ false = ground (arith, above) in
      (rw other h.0, count-shift next high b xs ls between.1 h.1)

  count-links :
      (next : ℕ) (bs : List RentBill)
      → All
          (λ l. count (is_unclaimed (link_id l)) (cancellations input next bs) ≡ 1)
          (links input next bs)
  count-links next [] = tt
  count-links next (b ∷ bs) = elim (Bool-cases (is_settled b)) [
    | inl settled ↦ rw settled (count-links next bs)
    | inr unsettled ↦ rw unsettled (
      rw (==_refl next) (ap suc (count-below next (suc next) bs (omega arith))),
      count-shift next (next_after (suc next) bs) b (cancellations input (suc next) bs)
          (links input (suc next) bs) (links-between (suc next) bs) (count-links (suc next) bs),
    )
  ]

  count-both :
      (next high : ℕ) (xs ys : List BillAdjustment) (ls : List Linked)
      → All (λ (a : BillAdjustment). a.id < next) xs
      → All (IsBetween next high) ls
      → All (λ l. count (is_unclaimed (link_id l)) ys ≡ 1) ls
      → All (λ l. count (is_unclaimed (link_id l)) (xs ++ ys) ≡ 1) ls
  count-both next high xs ys [] old between h = tt
  count-both next high xs ys (l ∷ ls) old between h = (
    count-append (is_unclaimed (link_id l)) xs ys
        ∙ ap (λ k. k + count (is_unclaimed (link_id l)) ys)
            (count-old next (link_id l) xs old between.0.0)
        ∙ omega (arith, h.0),
    count-both next high xs ys ls old between.1 h.1,
  )

  pub links-open :
      (next : ℕ) (xs : List BillAdjustment) (bs : List RentBill)
      → All (λ (a : BillAdjustment). a.id < next) xs
      → All
          (λ l. count (is_unclaimed (link_id l)) (xs ++ cancellations input next bs) ≡ 1)
          (links input next bs)
  links-open next xs bs old =
      count-both next (next_after next bs) xs (cancellations input next bs) (links input next bs)
        old (links-between next bs) (count-links next bs)

  pub links-total :
      (next : ℕ) (bs : List RentBill) → total_linked (links input next bs) ≡ total_open bs
  unfolding sum_ℤ
  links-total next [] = refl
  links-total next (b ∷ bs) = elim (Bool-cases (is_settled b)) [
    | inl settled ↦
        rw settled
          (links-total next bs ∙ omega (int_laws, le_of_leb_ℤ b.outstanding_amount (pos 0) settled))
    | inr unsettled ↦
        let owed : b.outstanding_amount ≡ open_amount b =
          omega (int_laws, lt_of_leb_ℤ b.outstanding_amount (pos 0) unsettled) in
        rw unsettled (
          ap (λ t. b.outstanding_amount +ℤ t) (links-total (suc next) bs)
          ∙ ap (λ t. t +ℤ total_open bs) owed)
  ]
