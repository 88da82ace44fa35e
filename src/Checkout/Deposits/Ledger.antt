-- ===== src/Checkout/Deposits/Ledger.antt =====
-- The deposit transactions that `record` of backend/src/checkout/deposits.service.ts adds to.
use srms.Prelude.{
  ℕ, ◌==◌, ◌≡◌, refl, sym, ap, ◌∙◌, Bool, true, false, not, ◌&&◌, Option, Option-cases, none, some,
  List, [], ◌∷◌, ◌++◌, filter, Bool-cases, inl, inr, arith, ==_refl,
}
use mathlib.Core.List.{append-nil}
use srms.Prelude.Int.{ℤ, pos, ◌+ℤ◌, ◌≤ℤ◌, int_laws}
use srms.Prelude.Decimals.{Decimals, RoundsAlike}
use srms.Prelude.Fallible.{ok, is_ok}
use srms.Payments.Store.{Contract, find_contract}
use srms.Checkout.Deposits.{
  DepositTransactionType, receipt, DepositTransaction, DepositTables, RecordDeposit, is_own,
  last_balance, balance_of, is_open, receipt_row, recorded, record_deposit,
}

filter-snoc :
    (id : ℕ) (ts : List DepositTransaction) (t : DepositTransaction)
    → filter (is_own id) (ts ++ t ∷ []) ≡ filter (is_own id) ts ++ filter (is_own id) (t ∷ [])
filter-snoc id [] t = refl
filter-snoc id (x ∷ ts) t = elim (Bool-cases (is_own id x)) [
  | inl own ↦ rw own (ap (λ xs. x ∷ xs) (filter-snoc id ts t))
  | inr other ↦ rw other (filter-snoc id ts t)
]

-- What a transaction of a type adds to the balance is not the concern of `record`, but for
-- receipts.
module _ (signed : DepositTransactionType → ℤ → ℤ) where
  -- Each balance is the one before it with the amount of its transaction.
  abbrev pub Runs : ℤ → List DepositTransaction → Type 0
  Runs balance [] = Unit
  Runs balance (t ∷ ts) =
      (t.balance_after ≡ balance +ℤ signed t.transaction_type t.amount) × Runs t.balance_after ts

  abbrev pub IsLedger : List DepositTransaction → Type 0
  IsLedger ts = (id : ℕ) → Runs (pos 0) (filter (is_own id) ts)

  Runs-snoc :
      (balance : ℤ) (ts : List DepositTransaction) (t : DepositTransaction)
      → Runs balance ts
      → t.balance_after ≡ last_balance balance ts +ℤ signed t.transaction_type t.amount
      → Runs balance (ts ++ t ∷ [])
  Runs-snoc balance [] t h e = (e, tt)
  Runs-snoc balance (x ∷ ts) t h e = (h.0, Runs-snoc x.balance_after ts t h.1 e)

  last-snoc :
      (balance : ℤ) (ts : List DepositTransaction) (t : DepositTransaction)
      → last_balance balance (ts ++ t ∷ []) ≡ t.balance_after
  last-snoc balance [] t = refl
  last-snoc balance (x ∷ ts) t = last-snoc x.balance_after ts t

  module _ {D : Type 0} (lib : Decimals D) (laws : RoundsAlike lib) where
    pub record IsRecorded (dto : RecordDeposit D) (s s' : DepositTables) : Type 0 where
      pub finite : lib.is_finite dto.amount ≡ true
      pub positive : lib.lte_zero dto.amount ≡ false
      pub ledger : IsLedger s'.transactions
      pub balance_grows :
          balance_of dto.contract_id s'.transactions
          ≡ balance_of dto.contract_id s.transactions +ℤ lib.stored dto.amount
      pub balance_nonneg : pos 0 ≤ℤ balance_of dto.contract_id s'.transactions
      pub others_kept :
          (id : ℕ)
          → (dto.contract_id == id) ≡ false
          → filter (is_own id) s'.transactions ≡ filter (is_own id) s.transactions

    module _ (dto : RecordDeposit D) (user : ℕ) (s : DepositTables)
        (credit : pos 0 ≤ℤ balance_of dto.contract_id s.transactions)
        (finite : lib.is_finite dto.amount ≡ true)
        (positive : lib.lte_zero dto.amount ≡ false) where
      abbrev row : DepositTransaction
      row = receipt_row lib dto s.next_payment_id (balance_of dto.contract_id s.transactions)

      row-balance :
          row.balance_after ≡ balance_of dto.contract_id s.transactions +ℤ lib.stored dto.amount
      row-balance =
          laws.plus_cents (balance_of dto.contract_id s.transactions) dto.amount credit finite
            positive

      recorded-IsLedger :
          ((a : ℤ) → signed receipt a ≡ a)
          → IsLedger s.transactions
          → IsLedger (recorded lib dto user s).transactions
      recorded-IsLedger adds ledger id = elim (Bool-cases (dto.contract_id == id)) [
        | inl own ↦
            let same : dto.contract_id ≡ id = ground arith in
            let balance : row.balance_after
                ≡ balance_of id s.transactions +ℤ signed receipt (lib.stored dto.amount) =
              row-balance
              ∙ ap (λ i. balance_of i s.transactions +ℤ lib.stored dto.amount) same
              ∙ ap (λ a. balance_of id s.transactions +ℤ a) (sym (adds (lib.stored dto.amount))) in
            rw (filter-snoc id s.transactions row, own)
              (Runs-snoc (pos 0) (filter (is_own id) s.transactions) row (ledger id) balance)
        | inr other ↦
            rw
              (
                filter-snoc id s.transactions row,
                other,
                append-nil (filter (is_own id) s.transactions),
              )
              (ledger id)
      ]

      recorded-balance :
          balance_of dto.contract_id (recorded lib dto user s).transactions
          ≡ balance_of dto.contract_id s.transactions +ℤ lib.stored dto.amount
      recorded-balance =
          rw (filter-snoc dto.contract_id s.transactions row, ==_refl dto.contract_id)
            (last-snoc (pos 0) (filter (is_own dto.contract_id) s.transactions) row ∙ row-balance)

      recorded-others :
          (id : ℕ)
          → (dto.contract_id == id) ≡ false
          → filter (is_own id) (recorded lib dto user s).transactions
            ≡ filter (is_own id) s.transactions
      recorded-others id other =
          rw (filter-snoc id s.transactions row, other)
            (append-nil (filter (is_own id) s.transactions))

      grown_nonneg : pos 0 ≤ℤ balance_of dto.contract_id s.transactions +ℤ lib.stored dto.amount
      grown_nonneg = omega (int_laws, credit, laws.stored_nonneg dto.amount positive)

    -- The library and the column round alike. If receipts add their amount, each balance of each
    -- contract is the one before with what its transaction adds, and the contract's balance is not
    -- negative, then so it is after a deposit is recorded; the amount was finite and positive, the
    -- contract's balance grows by it as rounded to two places, and the transactions of other
    -- contracts stay.
    pub record_deposit-IsRecorded :
        (dto : RecordDeposit D) (user : ℕ) (s s' : DepositTables)
        → ((a : ℤ) → signed receipt a ≡ a)
        → IsLedger s.transactions
        → pos 0 ≤ℤ balance_of dto.contract_id s.transactions
        → record_deposit lib dto user s ≡ ok s'
        → IsRecorded dto s s'
    unfolding record_deposit
    record_deposit-IsRecorded dto user s s' adds ledger credit h =
        let done : s' ≡ recorded lib dto user s = ground arith in
        let finite : lib.is_finite dto.amount ≡ true = ground arith in
        let positive : lib.lte_zero dto.amount ≡ false = ground arith in
        rw done (record {
          finite = finite;
          positive = positive;
          ledger = recorded-IsLedger dto user s credit finite positive adds ledger;
          balance_grows = recorded-balance dto user s credit finite positive;
          balance_nonneg =
              rw (recorded-balance dto user s credit finite positive)
                (grown_nonneg dto user s credit finite positive);
          others_kept = recorded-others dto user s credit finite positive;
        })

-- The contract of a deposit is there, and waits or is active.
abbrev is_payable : Option Contract → Bool
is_payable none = false
is_payable (some c) = is_open c.status

-- A deposit is recorded exactly if its amount is finite and positive and its contract is there and
-- waits or is active.
record_deposit-is_ok :
    {D : Type 0} (lib : Decimals D) (dto : RecordDeposit D) (user : ℕ) (s : DepositTables)
    → is_ok (record_deposit lib dto user s)
      ≡ lib.is_finite dto.amount
        && not (lib.lte_zero dto.amount)
        && is_payable (find_contract dto.contract_id s.contracts)
unfolding record_deposit
record_deposit-is_ok lib dto user s =
    elim (Option-cases (find_contract dto.contract_id s.contracts)) [
      | inl missing ↦ ground arith
      | inr (c, found) ↦ ground arith
    ]
