-- ===== src/Checkout/Reversal/Refunded.antt =====
-- The loop of backend/src/checkout/checkout-completed-reversal.ts over the refunds of the deposit
-- and of what was prepaid.
use mathlib.Core.Path.{subst}
use srms.Prelude.{ℕ, ◌==◌, ◌≡◌, refl, sym, ap, ◌∙◌, not, List, [], ◌∷◌, filter, length, arith}
use srms.Prelude.Int.{ℤ, ◌+ℤ◌, sum_ℤ, +ℤ_zero, +ℤ_assoc}
use srms.Prelude.Fallible.{ok, throw_if, >>=-ok_elim}
use srms.Payments.RefundStatus.{ApprovalStatus}
use srms.Payments.Store.{update_where}
use srms.Checkout.RefundWriter.Tables.{DepositRefund}
use srms.Checkout.Reversal.Tables.{UndoError, UndoInput}
use srms.Checkout.Reversal.Ledgers.{
  Refunding, return_deposit, return_prepayment, reverse_refund, reverse_refunds, is_cancellable,
  with_refunds,
}
use srms.Checkout.Reversal.Extended.{
  DepositGoesOn, DepositGoesOn-none, DepositGoesOn-trans, positive, returned,
}
use srms.Checkout.Reversal.Recorded.{
  PrepaidGoesOn, PrepaidGoesOn-none, PrepaidGoesOn-trans, return_deposit-IsDeposited,
  return_prepayment-IsPrepaid,
}

-- What some refunds give back.
pub record IsReturned (refunds : List DepositRefund) (t t' : Refunding) : Type 0 where
  pub deposit_goes_on : DepositGoesOn t.deposit_balance t'.deposit_balance t.tables t'.tables
  pub prepaid_goes_on : PrepaidGoesOn t.prepayment_balance t'.prepayment_balance t.tables t'.tables
  pub deposit_restored :
      t'.restored_deposit
      ≡ t.restored_deposit +ℤ returned (λ (r : DepositRefund). r.deposit_refund_amount) refunds
  pub deposit_grows :
      t'.deposit_balance
      ≡ t.deposit_balance +ℤ returned (λ (r : DepositRefund). r.deposit_refund_amount) refunds
  pub prepaid_restored :
      t'.restored_prepayment
      ≡ t.restored_prepayment
        +ℤ returned (λ (r : DepositRefund). r.prepayment_refund_amount) refunds
  pub prepaid_grows :
      t'.prepayment_balance
      ≡ t.prepayment_balance +ℤ returned (λ (r : DepositRefund). r.prepayment_refund_amount) refunds

abbrev pub cancel_refund : ℕ → List DepositRefund → List DepositRefund
cancel_refund id rows =
    update_where (is_cancellable id)
      (λ (r : DepositRefund). record r { approval_status = ApprovalStatus.cancelled }) rows

-- One round of the loop.
record IsRound (r : DepositRefund) (t t' : Refunding) : Type 0 where
  deposited : DepositGoesOn t.deposit_balance t'.deposit_balance t.tables t'.tables
  prepaid : PrepaidGoesOn t.prepayment_balance t'.prepayment_balance t.tables t'.tables
  deposit_balance_is : t'.deposit_balance ≡ t.deposit_balance +ℤ positive r.deposit_refund_amount
  deposit_restored_is : t'.restored_deposit ≡ t.restored_deposit +ℤ positive r.deposit_refund_amount
  prepaid_balance_is :
      t'.prepayment_balance ≡ t.prepayment_balance +ℤ positive r.prepayment_refund_amount
  prepaid_restored_is :
      t'.restored_prepayment ≡ t.restored_prepayment +ℤ positive r.prepayment_refund_amount
  cancelled : t'.tables.rent.deposit_refunds ≡ cancel_refund r.id t.tables.rent.deposit_refunds

reverse_refund-IsRound :
    (input : UndoInput) (r : DepositRefund) (t t' : Refunding)
    → reverse_refund input r t ≡ ok t'
    → IsRound r t t'
unfolding reverse_refund
reverse_refund-IsRound input r t t' h =
    let d = return_deposit input r t in
    let e = return_prepayment input r d in
    let one = return_deposit-IsDeposited input r t in
    let two = return_prepayment-IsPrepaid input r d in
    let rows = e.tables.rent.deposit_refunds in
    >>=-ok_elim
      (throw_if (not (length (filter (is_cancellable r.id) rows) == 1)) UndoError.refund_changed) _
      h
      (λ _ there done.
        let result : t' ≡ record e { tables = with_refunds (cancel_refund r.id rows) e.tables } =
          cc in
        rw result (record {
          deposited =
              DepositGoesOn-trans t.deposit_balance d.deposit_balance e.deposit_balance t.tables
                d.tables (with_refunds (cancel_refund r.id rows) e.tables) one.deposited
                (subst
                  (λ (b : ℤ).
                    DepositGoesOn d.deposit_balance b d.tables
                      (with_refunds (cancel_refund r.id rows) e.tables))
                  (sym two.same_balance)
                  (DepositGoesOn-none d.deposit_balance d.tables
                    (with_refunds (cancel_refund r.id rows) e.tables) two.same_deposits));
          prepaid =
              PrepaidGoesOn-trans t.prepayment_balance d.prepayment_balance e.prepayment_balance
                t.tables d.tables (with_refunds (cancel_refund r.id rows) e.tables)
                (subst (λ (b : ℤ). PrepaidGoesOn t.prepayment_balance b t.tables d.tables)
                  (sym one.same_prepaid_balance)
                  (PrepaidGoesOn-none t.prepayment_balance t.tables d.tables one.same_prepayments))
                (record {
                  rows = two.prepaid.rows;
                  appended = two.prepaid.appended;
                  goes_on = two.prepaid.goes_on;
                });
          deposit_balance_is = two.same_balance ∙ one.new_balance;
          deposit_restored_is = two.same_restored ∙ one.new_restored;
          prepaid_balance_is =
              two.new_balance
              ∙ ap (λ x. x +ℤ positive r.prepayment_refund_amount) one.same_prepaid_balance;
          prepaid_restored_is =
              two.new_restored
              ∙ ap (λ x. x +ℤ positive r.prepayment_refund_amount) one.same_prepaid;
          cancelled =
              ap (λ x. cancel_refund r.id x.deposit_refunds) (two.same_rent ∙ one.same_rent);
        }))

added : (x a b : ℤ) {y z : ℤ} → y ≡ x +ℤ a → z ≡ y +ℤ b → z ≡ x +ℤ (a +ℤ b)
added x a b e k = k ∙ ap (λ v. v +ℤ b) e ∙ +ℤ_assoc x a b

-- Refunds that are cancelled one after the other.
abbrev pub cancel_each : List DepositRefund → List DepositRefund → List DepositRefund
cancel_each [] rows = rows
cancel_each (r ∷ rs) rows = cancel_each rs (cancel_refund r.id rows)

pub reverse_refunds-IsReturned :
    (input : UndoInput) (refunds : List DepositRefund) (t t' : Refunding)
    → reverse_refunds input refunds t ≡ ok t'
    → IsReturned refunds t t'
      × (t'.tables.rent.deposit_refunds ≡ cancel_each refunds t.tables.rent.deposit_refunds)
unfolding reverse_refunds sum_ℤ
reverse_refunds-IsReturned input [] t t' h =
    let same : t' ≡ t = ground arith in
    rw same (
      record {
        deposit_goes_on = DepositGoesOn-none t.deposit_balance t.tables t.tables refl;
        prepaid_goes_on = PrepaidGoesOn-none t.prepayment_balance t.tables t.tables refl;
        deposit_restored = sym (+ℤ_zero t.restored_deposit);
        deposit_grows = sym (+ℤ_zero t.deposit_balance);
        prepaid_restored = sym (+ℤ_zero t.restored_prepayment);
        prepaid_grows = sym (+ℤ_zero t.prepayment_balance);
      },
      refl,
    )
reverse_refunds-IsReturned input (r ∷ rs) t t' h =
    >>=-ok_elim (reverse_refund input r t) (reverse_refunds input rs) h (λ u first others.
      let one = reverse_refund-IsRound input r t u first in
      let (rest, gone) = reverse_refunds-IsReturned input rs u t' others in
      let deposit = positive r.deposit_refund_amount in
      let prepaid = positive r.prepayment_refund_amount in
      let deposits = returned (λ (x : DepositRefund). x.deposit_refund_amount) rs in
      let prepayments = returned (λ (x : DepositRefund). x.prepayment_refund_amount) rs in
      (
        record {
          deposit_goes_on =
              DepositGoesOn-trans t.deposit_balance u.deposit_balance t'.deposit_balance t.tables
                u.tables t'.tables one.deposited rest.deposit_goes_on;
          prepaid_goes_on =
              PrepaidGoesOn-trans t.prepayment_balance u.prepayment_balance t'.prepayment_balance
                t.tables u.tables t'.tables one.prepaid rest.prepaid_goes_on;
          deposit_restored =
              added t.restored_deposit deposit deposits one.deposit_restored_is
                rest.deposit_restored;
          deposit_grows =
              added t.deposit_balance deposit deposits one.deposit_balance_is rest.deposit_grows;
          prepaid_restored =
              added t.restored_prepayment prepaid prepayments one.prepaid_restored_is
                rest.prepaid_restored;
          prepaid_grows =
              added t.prepayment_balance prepaid prepayments one.prepaid_balance_is
                rest.prepaid_grows;
        },
        gone ∙ ap (cancel_each rs) one.cancelled,
      ))
