-- ===== src/Checkout/Reversal/Offset.antt =====
-- The loop over the offsets of a deposit, which
-- backend/src/checkout/checkout-completed-reversal.ts and checkout-approved-cancellation.ts share.
use srms.Prelude.{
  ℕ, ◌≡◌, refl, sym, ap, ◌∙◌, none, some, List, [], ◌∷◌, map, Option, Option-cases, inl, inr, arith,
}
use srms.Prelude.Int.{ℤ, ◌+ℤ◌, sum_ℤ, +ℤ_zero, +ℤ_assoc}
use srms.Prelude.Fallible.{ok, >>=-ok_elim}
use srms.Payments.Store.{RentBill}
use srms.Checkout.Reversal.Tables.{DepositRow, CheckoutTables, UndoInput, add_deposit}
use srms.Checkout.Reversal.Ledgers.{
  Offsetting, offset_bill, unpay_bill, reverse_offset, reverse_offsets, void_supplement,
  supplement_of,
}
use srms.Checkout.Reversal.Extended.{
  DepositGoesOn, DepositGoesOn-none, DepositGoesOn-trans, DepositGoesOn-one, deposit_amount,
}

-- What a step leaves of the tables of the ledgers.
pub record SameLedgers (s s' : CheckoutTables) : Type 0 where
  pub same_deposits : s'.deposits ≡ s.deposits
  pub same_prepayments : s'.prepayments ≡ s.prepayments
  pub same_refunds : s'.rent.deposit_refunds ≡ s.rent.deposit_refunds
  pub same_claims : s'.rent.claims ≡ s.rent.claims
  pub same_items : s'.rent.items ≡ s.rent.items

pub SameLedgers-trans :
    (s s' s'' : CheckoutTables) → SameLedgers s s' → SameLedgers s' s'' → SameLedgers s s''
SameLedgers-trans s s' s'' first next = record {
  same_deposits = next.same_deposits ∙ first.same_deposits;
  same_prepayments = next.same_prepayments ∙ first.same_prepayments;
  same_refunds = next.same_refunds ∙ first.same_refunds;
  same_claims = next.same_claims ∙ first.same_claims;
  same_items = next.same_items ∙ first.same_items;
}

unpay_bill-SameLedgers :
    (input : UndoInput) (amount : ℤ) (o : Option RentBill) (s s' : CheckoutTables)
    → unpay_bill input amount o s ≡ ok s'
    → SameLedgers s s'
unfolding unpay_bill
unpay_bill-SameLedgers input amount none s s' h = record {
  same_deposits = ground arith;
  same_prepayments = ground arith;
  same_refunds = ground arith;
  same_claims = ground arith;
  same_items = ground arith;
}
unpay_bill-SameLedgers input amount (some b) s s' h = record {
  same_deposits = ground arith;
  same_prepayments = ground arith;
  same_refunds = ground arith;
  same_claims = ground arith;
  same_items = ground arith;
}

abbrev pub offset_total : List DepositRow → ℤ
offset_total ds = sum_ℤ (map deposit_amount ds)

pub record IsOffset (ds : List DepositRow) (t t' : Offsetting) : Type 0 where
  pub deposit_goes_on : DepositGoesOn t.balance t'.balance t.tables t'.tables
  pub restored_is : t'.restored ≡ t.restored +ℤ offset_total ds
  pub balance_is : t'.balance ≡ t.balance +ℤ offset_total ds
  pub same_prepayments : t'.tables.prepayments ≡ t.tables.prepayments
  pub same_refunds : t'.tables.rent.deposit_refunds ≡ t.tables.rent.deposit_refunds
  pub same_claims : t'.tables.rent.claims ≡ t.tables.rent.claims
  pub same_items : t'.tables.rent.items ≡ t.tables.rent.items

pub reverse_offsets-IsOffset :
    (input : UndoInput) (read : List RentBill) (ds : List DepositRow) (t t' : Offsetting)
    → reverse_offsets input read ds t ≡ ok t'
    → IsOffset ds t t'
unfolding reverse_offsets reverse_offset sum_ℤ
reverse_offsets-IsOffset input read [] t t' h =
    let same : t' ≡ t = ground arith in
    rw same (record {
      deposit_goes_on = DepositGoesOn-none t.balance t.tables t.tables refl;
      restored_is = sym (+ℤ_zero t.restored);
      balance_is = sym (+ℤ_zero t.balance);
      same_prepayments = refl;
      same_refunds = refl;
      same_claims = refl;
      same_items = refl;
    })
reverse_offsets-IsOffset input read (d ∷ ds) t t' h =
    >>=-ok_elim (reverse_offset input read d t) (reverse_offsets input read ds) h (λ u first others.
      let rest = reverse_offsets-IsOffset input read ds u t' others in
      >>=-ok_elim (unpay_bill input d.transaction.amount (offset_bill read d) t.tables) _ first
        (λ s unpaid made.
          let kept =
            unpay_bill-SameLedgers input d.transaction.amount (offset_bill read d) t.tables s
              unpaid in
          let result : u ≡ record {
            tables =
                add_deposit input d.transaction.amount (t.balance +ℤ d.transaction.amount)
                  d.rent_bill_id none s;
            balance = t.balance +ℤ d.transaction.amount;
            restored = t.restored +ℤ d.transaction.amount;
          } =
            cc in
          let balance : u.balance ≡ t.balance +ℤ d.transaction.amount =
            ap (λ x. x.balance) result in
          let added : DepositGoesOn t.balance u.balance t.tables u.tables = rw result (
            DepositGoesOn-trans t.balance t.balance (t.balance +ℤ d.transaction.amount) t.tables s _
              (DepositGoesOn-none t.balance t.tables s kept.same_deposits)
              (DepositGoesOn-one input d.transaction.amount t.balance d.rent_bill_id none s _
                refl)) in
          record {
            deposit_goes_on =
                DepositGoesOn-trans t.balance u.balance t'.balance t.tables u.tables t'.tables added
                  rest.deposit_goes_on;
            restored_is =
                rest.restored_is
                ∙ ap (λ x. x.restored +ℤ offset_total ds) result
                ∙ +ℤ_assoc t.restored d.transaction.amount (offset_total ds);
            balance_is =
                rest.balance_is
                ∙ ap (λ x. x.balance +ℤ offset_total ds) result
                ∙ +ℤ_assoc t.balance d.transaction.amount (offset_total ds);
            same_prepayments =
                rest.same_prepayments
                ∙ ap (λ x. x.tables.prepayments) result
                ∙ kept.same_prepayments;
            same_refunds =
                rest.same_refunds
                ∙ ap (λ x. x.tables.rent.deposit_refunds) result
                ∙ kept.same_refunds;
            same_claims =
                rest.same_claims ∙ ap (λ x. x.tables.rent.claims) result ∙ kept.same_claims;
            same_items = rest.same_items ∙ ap (λ x. x.tables.rent.items) result ∙ kept.same_items;
          }))

pub void_supplement-SameLedgers :
    (settlement_id : ℕ) (s s' : CheckoutTables)
    → void_supplement settlement_id s ≡ ok s'
    → SameLedgers s s'
unfolding void_supplement
void_supplement-SameLedgers settlement_id s s' h =
    elim (Option-cases (supplement_of settlement_id s)) [
      | inl missing ↦
          let same : s' ≡ s = ground arith in
          rw same (record {
            same_deposits = refl;
            same_prepayments = refl;
            same_refunds = refl;
            same_claims = refl;
            same_items = refl;
          })
      | inr (b, found) ↦ record {
        same_deposits = ground arith;
        same_prepayments = ground arith;
        same_refunds = ground arith;
        same_claims = ground arith;
        same_items = ground arith;
      }
    ]
