-- ===== src/Checkout/Deposits.antt =====
-- The deposit of a contract: `list` and `record` of backend/src/checkout/deposits.service.ts.
-- Generated numbers, the method and the remarks of a payment are left out.
pub mod Ledger
mod Examples
use srms.Prelude.{
  ℕ, suc, ◌==◌, Bool, true, false, not, ◌||◌, if◌then◌else◌, Option, none, some, List, [], ◌∷◌,
  ◌++◌, filter,
}
use srms.Prelude.Int.{ℤ, pos}
use srms.Prelude.Decimals.{Decimals}
use srms.Prelude.Fallible.{Result, ok, err, ◌>>=◌, ◌>>◌, throw_if}
use srms.Payments.Store.{Contract, ContractStatus, find_contract, is_void_contract}

pub data DepositTransactionType : Type 0 where
  receipt offset_arrears offset_settlement refund reversal adjustment : DepositTransactionType

pub record DepositTransaction : Type 0 where
  pub contract_id : ℕ
  pub transaction_type : DepositTransactionType
  pub amount : ℤ
  pub balance_after : ℤ
  pub payment_id : Option ℕ

pub record DepositPayment : Type 0 where
  pub id : ℕ
  pub contract_id : ℕ
  pub amount : ℤ
  pub operator_id : ℕ

-- Transactions in the order of their ids.
pub record DepositTables : Type 0 where
  pub contracts : List Contract
  pub transactions : List DepositTransaction
  pub payments : List DepositPayment
  pub next_payment_id : ℕ

-- The amount is any decimal.
pub record RecordDeposit (D : Type 0) : Type 0 where
  pub contract_id : ℕ
  pub amount : D

pub data DepositError : Type 0 where
  amount_not_positive contract_missing contract_voided contract_not_open : DepositError

abbrev pub is_own : ℕ → DepositTransaction → Bool
is_own contract_id t = t.contract_id == contract_id

-- The balance after the last of some transactions.
abbrev pub last_balance : ℤ → List DepositTransaction → ℤ
last_balance balance [] = balance
last_balance balance (t ∷ ts) = last_balance t.balance_after ts

-- `balance` of the list, and what `record` takes from the latest transaction.
abbrev pub balance_of : ℕ → List DepositTransaction → ℤ
balance_of contract_id ts = last_balance (pos 0) (filter (is_own contract_id) ts)

abbrev pub is_open : ContractStatus → Bool
is_open ContractStatus.pending_start = true
is_open ContractStatus.active = true
is_open _ = false

abbrev pub contract_or_throw : ℕ → List Contract → Result DepositError Contract
contract_or_throw id contracts = elim (find_contract id contracts) [
  | none ↦ err contract_missing
  | some c ↦ ok c
]

module _ {D : Type 0} (lib : Decimals D) where
  -- `balance` is the balance after the latest transaction.
  abbrev pub receipt_row : RecordDeposit D → ℕ → ℤ → DepositTransaction
  receipt_row dto payment_id balance = record {
    contract_id = dto.contract_id;
    transaction_type = receipt;
    amount = lib.stored dto.amount;
    balance_after = lib.to_cents (lib.plus (lib.of_cents balance) dto.amount);
    payment_id = some payment_id;
  }

  abbrev pub recorded : RecordDeposit D → ℕ → DepositTables → DepositTables
  recorded dto user s = record s {
    payments =
        s.payments
        ++ record {
          id = s.next_payment_id;
          contract_id = dto.contract_id;
          amount = lib.stored dto.amount;
          operator_id = user;
        }
          ∷ [];
    next_payment_id = suc s.next_payment_id;
    transactions =
        s.transactions
        ++ receipt_row dto s.next_payment_id (balance_of dto.contract_id s.transactions) ∷ [];
  }

  unfoldable pub record_deposit :
      RecordDeposit D → ℕ → DepositTables → Result DepositError DepositTables
  record_deposit dto user s =
      throw_if (not (lib.is_finite dto.amount) || lib.lte_zero dto.amount) amount_not_positive
      >> contract_or_throw dto.contract_id s.contracts
      >>= λ contract.
          throw_if (is_void_contract contract.status) contract_voided
          >> throw_if (not (is_open contract.status)) contract_not_open
          >> ok (recorded dto user s)
