-- ===== src/Checkout/RefundWriter/Checked.antt =====
-- What the checks of `applyCheckoutRentRefund` of
-- backend/src/checkout/checkout-rent-refund-writer.ts say of the reservations that pass them.
use srms.Prelude.{
  ℕ, ◌==◌, ◌≡◌, refl, sym, ◌∙◌, Bool, true, false, ◌||◌, if◌then◌else◌, some, List, [], ◌∷◌, map,
  any, contains, Bool-cases, inl, inr, arith, All,
}
use srms.Prelude.Int.{ℤ, ◌+ℤ◌, ◌-ℤ◌, ◌≤ℤ◌, sum_ℤ, ltb_ℤ, int_laws, le_of_ltb_ℤ, zero_+ℤ}
use srms.Prelude.Fallible.{ok, >>=-ok_elim}
use srms.Payments.Store.{RentBill, PaymentAllocation, find_bill}
use srms.Payments.Store.Sums.{held}
use srms.Checkout.Reservations.{RefundItem}
use srms.Checkout.RefundWriter.Tables.{RentClaim, WriterError, or_throw, find_allocation}
use srms.Checkout.RefundWriter.Checks.{
  Total, add_amount, amount_at, Rows, Totals, bill_of, allocation_of, held_amount, is_sound,
  add_claims, check_capacity, check_bills, covers,
}

abbrev pub has_total : ℕ → List Total → Bool
has_total id ts = any (λ (t : Total). t.id == id) ts

pub amount_at-add :
    (k id : ℕ) (amount : ℤ) (ts : List Total)
    → amount_at k (add_amount ts id amount)
      ≡ (if id == k then amount +ℤ amount_at k ts else amount_at k ts)
amount_at-add k id amount [] = elim (Bool-cases (id == k)) [
  | inl own ↦ rw own (omega int_laws)
  | inr other ↦ rw other refl
]
amount_at-add k id amount (t ∷ ts) = elim (Bool-cases (t.id == id)) [
  | inl same ↦
      let key : t.id ≡ id = ground arith in
      elim (Bool-cases (id == k)) [
        | inl own ↦ rw (same, key, own) (omega int_laws)
        | inr other ↦ rw (same, key, other) refl
      ]
  | inr differ ↦ elim (Bool-cases (t.id == k)) [
    | inl here ↦ let apart : (id == k) ≡ false = ground arith in rw (differ, here, apart) refl
    | inr later ↦ rw (differ, later) (amount_at-add k id amount ts)
  ]
]

has_total-add :
    (k id : ℕ) (amount : ℤ) (ts : List Total)
    → has_total k (add_amount ts id amount) ≡ ((id == k) || has_total k ts)
has_total-add k id amount [] = refl
has_total-add k id amount (t ∷ ts) = elim (Bool-cases (t.id == id)) [
  | inl same ↦ rw same (ground arith)
  | inr differ ↦ rw (differ, has_total-add k id amount ts) (ground arith)
]

pub held-cons :
    (key_of : RentClaim → ℕ) (k : ℕ) (c : RentClaim) (cs : List RentClaim) (rest : ℤ)
    → held key_of held_amount k cs +ℤ (if key_of c == k then held_amount c +ℤ rest else rest)
      ≡ held key_of held_amount k (c ∷ cs) +ℤ rest
unfolding sum_ℤ
held-cons key_of k c cs rest = elim (Bool-cases (key_of c == k)) [
  | inl own ↦ rw own (omega int_laws)
  | inr other ↦ rw other refl
]

-- The totals of a loop that has ended, and what it has found of the reservations.
module _ (contract_id : ℕ) (item : RefundItem) (rows : Rows) where
  pub record IsAdded (cs : List RentClaim) (before after : Totals) : Type 0 where
    pub are_sound : All (λ c. is_sound contract_id item rows c ≡ true) cs
    pub of_bill :
        (k : ℕ)
        → amount_at k after.by_bill ≡ held bill_of held_amount k cs +ℤ amount_at k before.by_bill
    pub of_allocation :
        (k : ℕ)
        → amount_at k after.by_allocation
          ≡ held allocation_of held_amount k cs +ℤ amount_at k before.by_allocation
    pub has_bill :
        (k : ℕ)
        → has_total k after.by_bill ≡ (contains k (map bill_of cs) || has_total k before.by_bill)

  pub add_claims-IsAdded :
      (cs : List RentClaim) (before after : Totals)
      → add_claims contract_id item rows cs before ≡ ok after
      → IsAdded cs before after
  unfolding add_claims sum_ℤ
  add_claims-IsAdded [] before after h =
      let same : after ≡ before = ground arith in
      rw same (record {
        are_sound = tt;
        of_bill = λ k. sym (zero_+ℤ (amount_at k before.by_bill));
        of_allocation = λ k. sym (zero_+ℤ (amount_at k before.by_allocation));
        has_bill = λ k. refl;
      })
  add_claims-IsAdded (c ∷ cs) before after h =
      let sound : is_sound contract_id item rows c ≡ true = ground arith in
      let next : Totals = record {
        by_bill = add_amount before.by_bill (bill_of c) (held_amount c);
        by_allocation = add_amount before.by_allocation (allocation_of c) (held_amount c);
      } in
      let rest = add_claims-IsAdded cs next after (ground arith) in
      record {
        are_sound = (sound, rest.are_sound);
        of_bill = λ k.
            rest.of_bill k
            ∙ rw (amount_at-add k (bill_of c) (held_amount c) before.by_bill)
                (held-cons bill_of k c cs (amount_at k before.by_bill));
        of_allocation = λ k.
            rest.of_allocation k
            ∙ rw (amount_at-add k (allocation_of c) (held_amount c) before.by_allocation)
                (held-cons allocation_of k c cs (amount_at k before.by_allocation));
        has_bill = λ k.
            rest.has_bill k
            ∙ rw (has_total-add k (bill_of c) (held_amount c) before.by_bill) (ground arith);
      }

-- No allocation gives back more than it has left.
pub check_capacity-within :
    (k : ℕ) (allocations : List PaymentAllocation) (ts : List Total) (a : PaymentAllocation)
    → check_capacity allocations ts ≡ ok tt
    → find_allocation k allocations ≡ some a
    → a.reversed_amount ≤ℤ a.allocated_amount
    → a.reversed_amount +ℤ amount_at k ts ≤ℤ a.allocated_amount
unfolding check_capacity
check_capacity-within k allocations [] a h found room = omega (int_laws, room)
check_capacity-within k allocations (t ∷ ts) a h found room =
    >>=-ok_elim (or_throw WriterError.missing_row (find_allocation t.id allocations)) _ h
      (λ b read rest. elim (Bool-cases (t.id == k)) [
        | inr other ↦ rw other (check_capacity-within k allocations ts a (ground arith) found room)
        | inl own ↦
            let key : t.id ≡ k = ground arith in
            let same : b ≡ a = ground (arith, rw key at read) in
            let enough : ltb_ℤ (b.allocated_amount -ℤ b.reversed_amount) t.amount ≡ false =
              ground arith in
            let fits = le_of_ltb_ℤ (b.allocated_amount -ℤ b.reversed_amount) t.amount enough in
            let fits' = rw same at fits in rw own (omega (int_laws, fits'))
      ])

-- Every bill that is named is paid and covers what it gives back.
pub check_bills-covers :
    (k : ℕ) (bills : List RentBill) (ts : List Total) (b : RentBill)
    → check_bills bills ts ≡ ok tt
    → find_bill k bills ≡ some b
    → has_total k ts ≡ true
    → covers b (amount_at k ts) ≡ true
unfolding check_bills
check_bills-covers k bills [] b h found there = absurd (cc)
check_bills-covers k bills (t ∷ ts) b h found there =
    >>=-ok_elim (or_throw WriterError.missing_row (find_bill t.id bills)) _ h (λ c read rest.
      elim (Bool-cases (t.id == k)) [
        | inr other ↦ rw other (check_bills-covers k bills ts b (ground arith) found (ground arith))
        | inl own ↦
            let key : t.id ≡ k = ground arith in
            let same : c ≡ b = ground (arith, rw key at read) in
            let covered : covers c t.amount ≡ true = ground arith in rw (own, sym same) covered
      ])
