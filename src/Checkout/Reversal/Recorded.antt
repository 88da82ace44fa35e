-- ===== src/Checkout/Reversal/Recorded.antt =====
-- What one refund of backend/src/checkout/checkout-completed-reversal.ts adds to the transactions
-- of the deposit and of what was prepaid.
use srms.Prelude.{
  ◌≡◌, refl, sym, ap, ◌∙◌, true, false, none, some, List, [], ◌++◌, Bool-cases, inl, inr,
}
use mathlib.Core.List.{append-nil, append_assoc}
use srms.Prelude.Int.{ℤ, pos, ◌+ℤ◌, sum_ℤ, ltb_ℤ, int_laws, +ℤ_zero, lt_of_ltb_ℤ, le_of_ltb_ℤ}
use srms.Payments.Store.{PrepaymentTransaction}
use srms.Checkout.RefundWriter.Tables.{DepositRefund}
use srms.Checkout.Reversal.Tables.{CheckoutTables, UndoInput}
use srms.Checkout.Reversal.Ledgers.{Refunding, return_deposit, return_prepayment}
use srms.Checkout.Reversal.Extended.{
  GoesOn, GoesOn-none, GoesOn-append, prepaid_amount, prepaid_after, DepositGoesOn,
  DepositGoesOn-none, DepositGoesOn-one, positive,
}

pub record PrepaidGoesOn (before after : ℤ) (s s' : CheckoutTables) : Type 0 where
  pub rows : List PrepaymentTransaction
  pub appended : s'.prepayments ≡ s.prepayments ++ rows
  pub goes_on : GoesOn prepaid_amount prepaid_after before after rows

pub PrepaidGoesOn-none :
    (balance : ℤ) (s s' : CheckoutTables)
    → s'.prepayments ≡ s.prepayments
    → PrepaidGoesOn balance balance s s'
PrepaidGoesOn-none balance s s' same = record {
  rows = [];
  appended = same ∙ sym (append-nil s.prepayments);
  goes_on = GoesOn-none prepaid_amount prepaid_after balance;
}

pub PrepaidGoesOn-trans :
    (before middle after : ℤ) (s s' s'' : CheckoutTables)
    → PrepaidGoesOn before middle s s'
    → PrepaidGoesOn middle after s' s''
    → PrepaidGoesOn before after s s''
PrepaidGoesOn-trans before middle after s s' s'' first next = record {
  rows = first.rows ++ next.rows;
  appended =
      next.appended
      ∙ ap (λ ps. ps ++ next.rows) first.appended
      ∙ append_assoc s.prepayments first.rows next.rows;
  goes_on =
      GoesOn-append prepaid_amount prepaid_after before middle after first.rows next.rows
        first.goes_on next.goes_on;
}

positive-true : (a : ℤ) → ltb_ℤ (pos 0) a ≡ true → positive a ≡ a
positive-true a h = omega (int_laws, lt_of_ltb_ℤ (pos 0) a h)

positive-false : (a : ℤ) → ltb_ℤ (pos 0) a ≡ false → positive a ≡ pos 0
positive-false a h = omega (int_laws, le_of_ltb_ℤ (pos 0) a h)

-- The deposit of a refund, and what was prepaid of it.
pub record IsDeposited (r : DepositRefund) (t t' : Refunding) : Type 0 where
  pub deposited : DepositGoesOn t.deposit_balance t'.deposit_balance t.tables t'.tables
  pub same_prepayments : t'.tables.prepayments ≡ t.tables.prepayments
  pub same_rent : t'.tables.rent ≡ t.tables.rent
  pub same_prepaid_balance : t'.prepayment_balance ≡ t.prepayment_balance
  pub same_prepaid : t'.restored_prepayment ≡ t.restored_prepayment
  pub new_balance : t'.deposit_balance ≡ t.deposit_balance +ℤ positive r.deposit_refund_amount
  pub new_restored : t'.restored_deposit ≡ t.restored_deposit +ℤ positive r.deposit_refund_amount

pub return_deposit-IsDeposited :
    (input : UndoInput) (r : DepositRefund) (t : Refunding)
    → IsDeposited r t (return_deposit input r t)
return_deposit-IsDeposited input r t =
    let a = r.deposit_refund_amount in
    elim (Bool-cases (ltb_ℤ (pos 0) a)) [
      | inl some_back ↦
          let all_of_it = positive-true a some_back in
          rw (return_deposit, some_back)
            (record {
              deposited =
                  DepositGoesOn-one input a t.deposit_balance none (some r.id) t.tables _ refl;
              same_prepayments = refl;
              same_rent = refl;
              same_prepaid_balance = refl;
              same_prepaid = refl;
              new_balance = ap (λ x. t.deposit_balance +ℤ x) (sym all_of_it);
              new_restored = ap (λ x. t.restored_deposit +ℤ x) (sym all_of_it);
            })
      | inr nothing ↦
          let zero_back = positive-false a nothing in
          rw (return_deposit, nothing)
            (record {
              deposited = DepositGoesOn-none t.deposit_balance t.tables t.tables refl;
              same_prepayments = refl;
              same_rent = refl;
              same_prepaid_balance = refl;
              same_prepaid = refl;
              new_balance = rw zero_back (sym (+ℤ_zero t.deposit_balance));
              new_restored = rw zero_back (sym (+ℤ_zero t.restored_deposit));
            })
    ]

pub record IsPrepaid (r : DepositRefund) (t t' : Refunding) : Type 0 where
  pub prepaid : PrepaidGoesOn t.prepayment_balance t'.prepayment_balance t.tables t'.tables
  pub same_deposits : t'.tables.deposits ≡ t.tables.deposits
  pub same_rent : t'.tables.rent ≡ t.tables.rent
  pub same_balance : t'.deposit_balance ≡ t.deposit_balance
  pub same_restored : t'.restored_deposit ≡ t.restored_deposit
  pub new_balance :
      t'.prepayment_balance ≡ t.prepayment_balance +ℤ positive r.prepayment_refund_amount
  pub new_restored :
      t'.restored_prepayment ≡ t.restored_prepayment +ℤ positive r.prepayment_refund_amount

pub return_prepayment-IsPrepaid :
    (input : UndoInput) (r : DepositRefund) (t : Refunding)
    → IsPrepaid r t (return_prepayment input r t)
unfolding sum_ℤ
return_prepayment-IsPrepaid input r t =
    let a = r.prepayment_refund_amount in
    elim (Bool-cases (ltb_ℤ (pos 0) a)) [
      | inl some_back ↦
          let all_of_it = positive-true a some_back in
          rw (return_prepayment, some_back)
            (record {
              prepaid = record {
                rows = _;
                appended = refl;
                goes_on = record {
                  runs = (refl, tt);
                  ends = ap (λ x. t.prepayment_balance +ℤ x) (+ℤ_zero a);
                };
              };
              same_deposits = refl;
              same_rent = refl;
              same_balance = refl;
              same_restored = refl;
              new_balance = ap (λ x. t.prepayment_balance +ℤ x) (sym all_of_it);
              new_restored = ap (λ x. t.restored_prepayment +ℤ x) (sym all_of_it);
            })
      | inr nothing ↦
          let zero_back = positive-false a nothing in
          rw (return_prepayment, nothing)
            (record {
              prepaid = PrepaidGoesOn-none t.prepayment_balance t.tables t.tables refl;
              same_deposits = refl;
              same_rent = refl;
              same_balance = refl;
              same_restored = refl;
              new_balance = rw zero_back (sym (+ℤ_zero t.prepayment_balance));
              new_restored = rw zero_back (sym (+ℤ_zero t.restored_prepayment));
            })
    ]
