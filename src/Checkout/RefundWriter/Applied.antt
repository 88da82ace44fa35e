-- ===== src/Checkout/RefundWriter/Applied.antt =====
-- What a booking by `applyCheckoutRentRefund` of
-- backend/src/checkout/checkout-rent-refund-writer.ts makes of bills and allocations.
use srms.Prelude.{
  ℕ, ◌==◌, ◌≡◌, refl, sym, ap, ◌∙◌, Bool, true, ◌&&◌, if◌then◌else◌, some, List, [], ◌∷◌, map,
  filter, find, any, contains, Option-cases, Bool-cases, inl, inr, arith,
}
use srms.Prelude.Ids.{contains-unique_ids}
use srms.Prelude.Int.{ℤ, pos, ◌-ℤ◌, eqb_ℤ, eqb_ℤ_iff, sum_ℤ, -ℤ_parts, +ℤ_zero}
use srms.Payments.Adjustment.{RentBillStatus}
use srms.Payments.Store.{RentBill, PaymentAllocation, find_bill}
use srms.Payments.Store.Rounds.{find-filter}
use srms.Payments.Store.Sums.{held}
use srms.Checkout.RefundWriter.{CheckoutRentRefundResult, rows_of, bill_ids_of, allocation_ids_of}
use srms.Checkout.RefundWriter.Tables.{RentClaim, WriterTables, find_allocation}
use srms.Checkout.RefundWriter.Checks.{
  ApplyInput, Rows, claims_of, is_active, bill_of, allocation_of, held_amount, amount_at, covers,
  is_sound,
}
use srms.Checkout.RefundWriter.Writes.{refunded_bill}
use srms.Checkout.RefundWriter.Checked.{add_claims-IsAdded, IsAdded, check_bills-covers}
use srms.Checkout.RefundWriter.Written.{bill_id}
use srms.Checkout.RefundWriter.Parts.{Parts}

-- The reservations of a settlement that are to be applied, and what they hold of a bill and of an
-- allocation.
abbrev pub active_of : WriterTables → ℕ → List RentClaim
active_of s settlement_id = filter is_active (claims_of s settlement_id)

abbrev pub on_bill : ℕ → List RentClaim → ℤ
on_bill id active = held bill_of held_amount id active

abbrev pub on_allocation : ℕ → List RentClaim → ℤ
on_allocation id active = held allocation_of held_amount id active

-- A bill of which an amount has been given back.
abbrev pub given_back : ℤ → RentBill → RentBill
given_back amount b = record b {
  adjustment_amount = b.adjustment_amount -ℤ amount;
  payable_amount = b.payable_amount -ℤ amount;
  received_amount = b.received_amount -ℤ amount;
  outstanding_amount = pos 0;
  status = if eqb_ℤ b.payable_amount amount then RentBillStatus.refunded else RentBillStatus.paid;
}

abbrev pub received_total : List RentBill → ℤ
received_total bills = sum_ℤ (map (λ (b : RentBill). b.received_amount) bills)

abbrev pub payable_total : List RentBill → ℤ
payable_total bills = sum_ℤ (map (λ (b : RentBill). b.payable_amount) bills)

abbrev pub reversed_total : List PaymentAllocation → ℤ
reversed_total as' = sum_ℤ (map (λ (a : PaymentAllocation). a.reversed_amount) as')

-- Nothing is left exactly if all has been given back.
nothing_left : (a b : ℤ) → eqb_ℤ (a -ℤ b) (pos 0) ≡ eqb_ℤ a b
nothing_left a b = ground (arith, -ℤ_parts a b)

any-find :
    {A : Type 0} (p q : A → Bool) (xs : List A) (a : A)
    → find p (filter q xs) ≡ some a
    → any p xs ≡ true
any-find p q [] a h = absurd (cc)
any-find p q (x ∷ xs) a h = ground (arith, any-find p q xs a)

module _ (input : ApplyInput) (s : WriterTables) (r : CheckoutRentRefundResult)
    (parts : Parts input s r) where
  abbrev pub act : List RentClaim
  act = parts.active

  abbrev pub rows : Rows
  rows = rows_of s act

  pub added :
      IsAdded parts.settlement.contract_id parts.item rows act
        (record { by_bill = []; by_allocation = [] })
        parts.totals
  added =
      add_claims-IsAdded parts.settlement.contract_id parts.item rows act
        (record { by_bill = []; by_allocation = [] }) parts.totals parts.checked.added

  pub bill_total-held : (k : ℕ) → amount_at k parts.totals.by_bill ≡ on_bill k act
  bill_total-held k = added.of_bill k ∙ +ℤ_zero (on_bill k act)

  pub allocation_total-held : (k : ℕ) → amount_at k parts.totals.by_allocation ≡ on_allocation k act
  allocation_total-held k = added.of_allocation k ∙ +ℤ_zero (on_allocation k act)

  pub there-allocation :
      (c : RentClaim)
      → is_sound parts.settlement.contract_id parts.item rows c ≡ true
      → any (λ (a : PaymentAllocation). a.id == allocation_of c) s.allocations ≡ true
  there-allocation c sound =
      elim (Option-cases (find_allocation (allocation_of c) rows.allocations)) [
        | inl no_allocation ↦ absurd (ground arith)
        | inr (a, allocation) ↦
            any-find (λ (x : PaymentAllocation). x.id == allocation_of c)
              (λ (x : PaymentAllocation). contains x.id (allocation_ids_of act)) s.allocations a
              allocation
      ]

  pub there-bill :
      (c : RentClaim)
      → is_sound parts.settlement.contract_id parts.item rows c ≡ true
      → any (λ (b : RentBill). b.id == bill_of c) s.bills ≡ true
  there-bill c sound = elim (Option-cases (find_allocation (allocation_of c) rows.allocations)) [
    | inl no_allocation ↦ absurd (ground arith)
    | inr (a, allocation) ↦ elim (Option-cases (find_bill (bill_of c) rows.bills)) [
      | inl no_bill ↦ absurd (ground arith)
      | inr (b, bill) ↦
          any-find (λ (x : RentBill). x.id == bill_of c)
            (λ (x : RentBill). contains x.id (bill_ids_of act)) s.bills b bill
    ]
  ]

  -- A bill that is named is paid, and covers what it gives back.
  pub covers-bill :
      (b : RentBill)
      → find_bill b.id s.bills ≡ some b
      → contains b.id (map bill_of act) ≡ true
      → covers b (on_bill b.id act) ≡ true
  covers-bill b found named =
      let chosen : contains b.id (bill_ids_of act) ≡ true =
        contains-unique_ids b.id (map bill_of act) ∙ named in
      let read : find_bill b.id rows.bills ≡ some b =
        find-filter bill_id (refunded_bill parts.totals.by_bill) (λ a x. refl) b.id
          (bill_ids_of act) s.bills chosen
        ∙ found in
      let booked = added.has_bill b.id in
      let covered =
        check_bills-covers b.id rows.bills parts.totals.by_bill b parts.checked.bills_cover read
          (rw booked (rw named refl)) in
      rw (sym (bill_total-held b.id)) covered

  abbrev pub bill_after : RentBill → RentBill
  bill_after b = if contains b.id (map bill_of act) then given_back (on_bill b.id act) b else b

  pub bill-row :
      (b : RentBill)
      → find_bill b.id s.bills ≡ some b
      → (if contains b.id (bill_ids_of act) then refunded_bill parts.totals.by_bill b b else b)
        ≡ bill_after b
  bill-row b found = elim (Bool-cases (contains b.id (map bill_of act))) [
    | inr other ↦ rw (contains-unique_ids b.id (map bill_of act), other) refl
    | inl named ↦
        let covered = covers-bill b found named in
        let amount = on_bill b.id act in
        let even : b.payable_amount ≡ b.received_amount =
          (eqb_ℤ_iff b.payable_amount b.received_amount).0 (ground arith) in
        rw (contains-unique_ids b.id (map bill_of act), named, bill_total-held b.id)
          (ap
            (λ (st : RentBillStatus). record b {
              adjustment_amount = b.adjustment_amount -ℤ amount;
              payable_amount = b.payable_amount -ℤ amount;
              received_amount = b.received_amount -ℤ amount;
              outstanding_amount = pos 0;
              status = st;
            })
            (status-same b amount even))
  ]
    where
      status-same :
          (x : RentBill) (amount : ℤ)
          → x.payable_amount ≡ x.received_amount
          → (if eqb_ℤ (x.payable_amount -ℤ amount) (pos 0)
                && eqb_ℤ (x.received_amount -ℤ amount) (pos 0)
              then RentBillStatus.refunded
              else RentBillStatus.paid)
            ≡ (if eqb_ℤ x.payable_amount amount
                then RentBillStatus.refunded
                else RentBillStatus.paid)
      status-same x amount even =
          rw (sym even, nothing_left x.payable_amount amount)
            (elim (Bool-cases (eqb_ℤ x.payable_amount amount)) [
              | inl all_back ↦ rw all_back refl
              | inr some_left ↦ rw some_left refl
            ])
