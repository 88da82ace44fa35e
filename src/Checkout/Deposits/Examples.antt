-- ===== src/Checkout/Deposits/Examples.antt =====
-- A second receipt of a deposit, and the theorems at it.
use srms.Prelude.{
  ℕ, ◌+◌, ◌/◌, ◌≡◌, ◌==◌, ◌||◌, ◌&&◌, refl, ap, ◌∙◌, arith, true, false, none, some, [], ◌∷◌,
  Bool-cases, inl, inr,
}
use srms.Prelude.Int.{ℤ, pos, neg_ℤ, ◌+ℤ◌, ltb_ℤ, eqb_ℤ, int_laws, +ℤ_assoc, le_of_ltb_ℤ}
use srms.Prelude.Decimals.{Decimals, RoundsAlike}
use srms.Prelude.Fallible.{ok}
use srms.Payments.Store.{ContractStatus}
use srms.Checkout.Deposits.{
  DepositTransactionType, receipt, reversal, DepositTransaction, DepositTables, RecordDeposit,
  record_deposit,
}
use srms.Checkout.Deposits.Ledger.{IsLedger, IsRecorded, record_deposit-IsRecorded}

abbrev signed : DepositTransactionType → ℤ → ℤ
signed receipt a = a
signed reversal a = a
signed _ a = neg_ℤ a

abbrev first_receipt : DepositTransaction
first_receipt = record {
  contract_id = 1;
  transaction_type = receipt;
  amount = pos 30000;
  balance_after = pos 30000;
  payment_id = some 1;
}

abbrev tables : DepositTables
tables = record {
  contracts =
      record {
        id = 1;
        status = ContractStatus.active;
        paid_through_date = none;
        next_due_date = none;
      }
      ∷ [];
  transactions = first_receipt ∷ [];
  payments = [];
  next_payment_id = 2;
}

-- A decimal with three places: whole cents, and tenths of a cent on top of them.
abbrev Mills : Type 0
Mills = ℤ × ℕ

abbrev cents_of : Mills → ℤ
cents_of a = a.0 +ℤ pos ((a.1 + 5) / 10)

abbrev mills : Decimals Mills
mills = record {
  is_finite = λ a. true;
  lte_zero = λ a. ltb_ℤ a.0 (pos 0) || eqb_ℤ a.0 (pos 0) && (a.1 == 0);
  of_cents = λ b. (b, 0);
  plus = λ a b. (a.0 +ℤ b.0, a.1 + b.1);
  negated = λ a. (neg_ℤ a.0, a.1);
  to_cents = cents_of;
  stored = cents_of;
}

mills-RoundsAlike : RoundsAlike mills
mills-RoundsAlike = record {
  plus_cents = λ b a credit finite positive.
      let same : 0 + a.1 ≡ a.1 = omega arith in
      ap (λ n. b +ℤ a.0 +ℤ pos ((n + 5) / 10)) same ∙ +ℤ_assoc b a.0 (pos ((a.1 + 5) / 10));
  stored_nonneg = λ a positive.
      let whole : ltb_ℤ a.0 (pos 0) ≡ false = ground arith in
      omega (int_laws, le_of_ltb_ℤ a.0 (pos 0) whole);
}

-- 200.004, which is stored as 200.00.
abbrev dto : RecordDeposit Mills
dto = record { contract_id = 1; amount = (pos 20000, 4) }

ledger : IsLedger signed tables.transactions
unfolding ◌+ℤ◌
ledger id = elim (Bool-cases (1 == id)) [ inl own ↦ rw own (refl, tt) | inr other ↦ rw other tt ]

after : (s : DepositTables) × (record_deposit mills dto 3 tables ≡ ok s)
unfolding record_deposit
after = (_, refl)

record_deposit-IsRecorded_example : IsRecorded signed mills mills-RoundsAlike dto tables after.0
record_deposit-IsRecorded_example =
    record_deposit-IsRecorded signed mills mills-RoundsAlike dto 3 tables after.0 (λ a. refl) ledger
      (omega arith) after.1
