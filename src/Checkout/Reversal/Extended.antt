-- ===== src/Checkout/Reversal/Extended.antt =====
-- Ledgers that the loops of backend/src/checkout/checkout-completed-reversal.ts and
-- checkout-approved-cancellation.ts go on with.
use srms.Prelude.{ℕ, ◌≡◌, refl, sym, ap, ◌∙◌, false, Option, List, [], ◌∷◌, ◌++◌, map, All}
use mathlib.Core.List.{append-nil, append_assoc}
use srms.Prelude.Int.{ℤ, pos, ◌+ℤ◌, max_ℤ, sum_ℤ, +ℤ_zero, zero_+ℤ, +ℤ_assoc}
use srms.Payments.Store.{PrepaymentTransaction}
use srms.Checkout.RefundWriter.Tables.{DepositRefund}
use srms.Checkout.Reversal.Tables.{DepositRow, CheckoutTables, UndoInput, deposit_reversal}
use srms.Checkout.Reversal.Ledgers.{is_offset_type}

-- Rows that are added to a ledger: each balance is the one before with the amount of its row.
module _ {A : Type 0} (amount_of balance_of : A → ℤ) where
  abbrev pub Runs : ℤ → List A → Type 0
  Runs balance [] = Unit
  Runs balance (x ∷ xs) = (balance_of x ≡ balance +ℤ amount_of x) × Runs (balance_of x) xs

  abbrev pub amounts : List A → ℤ
  amounts xs = sum_ℤ (map amount_of xs)

  -- `rows` goes on from one balance to another.
  pub record GoesOn (before after : ℤ) (rows : List A) : Type 0 where
    pub runs : Runs before rows
    pub ends : before +ℤ amounts rows ≡ after

  Runs-append :
      (balance : ℤ) (xs ys : List A)
      → Runs balance xs
      → Runs (balance +ℤ amounts xs) ys
      → Runs balance (xs ++ ys)
  unfolding sum_ℤ
  Runs-append balance [] ys h k = rw (sym (+ℤ_zero balance)) k
  Runs-append balance (x ∷ xs) ys h k =
      let more : Runs (balance_of x +ℤ amounts xs) ys =
        rw (h.0, +ℤ_assoc balance (amount_of x) (amounts xs)) k in
      (h.0, Runs-append (balance_of x) xs ys h.1 more)

  pub amounts-append : (xs ys : List A) → amounts (xs ++ ys) ≡ amounts xs +ℤ amounts ys
  unfolding sum_ℤ
  amounts-append [] ys = sym (zero_+ℤ (amounts ys))
  amounts-append (x ∷ xs) ys =
      ap (λ t. amount_of x +ℤ t) (amounts-append xs ys)
      ∙ sym (+ℤ_assoc (amount_of x) (amounts xs) (amounts ys))

  pub GoesOn-append :
      (before middle after : ℤ) (xs ys : List A)
      → GoesOn before middle xs
      → GoesOn middle after ys
      → GoesOn before after (xs ++ ys)
  GoesOn-append before middle after xs ys first next = record {
    runs = Runs-append before xs ys first.runs (rw first.ends next.runs);
    ends =
        ap (λ t. before +ℤ t) (amounts-append xs ys)
        ∙ sym (+ℤ_assoc before (amounts xs) (amounts ys))
        ∙ ap (λ t. t +ℤ amounts ys) first.ends
        ∙ next.ends;
  }

  pub GoesOn-none : (balance : ℤ) → GoesOn balance balance []
  unfolding sum_ℤ
  GoesOn-none balance = record { runs = tt; ends = +ℤ_zero balance }

abbrev pub deposit_amount : DepositRow → ℤ
deposit_amount d = d.transaction.amount

abbrev pub deposit_after : DepositRow → ℤ
deposit_after d = d.transaction.balance_after

abbrev pub prepaid_amount : PrepaymentTransaction → ℤ
prepaid_amount p = p.amount

abbrev pub prepaid_after : PrepaymentTransaction → ℤ
prepaid_after p = p.balance_after

-- A row that no query for offsets finds.
abbrev pub IsNoOffset : DepositRow → Type 0
IsNoOffset d = is_offset_type d.transaction.transaction_type ≡ false

All-append : {A : Type 0} (P : A → Type 0) (xs ys : List A) → All P xs → All P ys → All P (xs ++ ys)
All-append P [] ys h k = k
All-append P (x ∷ xs) ys h k = (h.0, All-append P xs ys h.1 k)

-- The deposit's ledger in some tables goes on to that in others.
pub record DepositGoesOn (before after : ℤ) (s s' : CheckoutTables) : Type 0 where
  pub rows : List DepositRow
  pub appended : s'.deposits ≡ s.deposits ++ rows
  pub goes_on : GoesOn deposit_amount deposit_after before after rows
  pub no_offsets : All IsNoOffset rows

pub DepositGoesOn-none :
    (balance : ℤ) (s s' : CheckoutTables)
    → s'.deposits ≡ s.deposits
    → DepositGoesOn balance balance s s'
DepositGoesOn-none balance s s' same = record {
  rows = [];
  appended = same ∙ sym (append-nil s.deposits);
  goes_on = GoesOn-none deposit_amount deposit_after balance;
  no_offsets = tt;
}

pub DepositGoesOn-trans :
    (before middle after : ℤ) (s s' s'' : CheckoutTables)
    → DepositGoesOn before middle s s'
    → DepositGoesOn middle after s' s''
    → DepositGoesOn before after s s''
DepositGoesOn-trans before middle after s s' s'' first next = record {
  rows = first.rows ++ next.rows;
  appended =
      next.appended
      ∙ ap (λ ds. ds ++ next.rows) first.appended
      ∙ append_assoc s.deposits first.rows next.rows;
  goes_on =
      GoesOn-append deposit_amount deposit_after before middle after first.rows next.rows
        first.goes_on next.goes_on;
  no_offsets = All-append IsNoOffset first.rows next.rows first.no_offsets next.no_offsets;
}

pub DepositGoesOn-one :
    (input : UndoInput) (amount balance : ℤ) (bill_id refund_id : Option ℕ) (s s' : CheckoutTables)
    → s'.deposits
      ≡ s.deposits
        ++ deposit_reversal input s.next_deposit_id amount (balance +ℤ amount) bill_id refund_id
          ∷ []
    → DepositGoesOn balance (balance +ℤ amount) s s'
unfolding sum_ℤ
DepositGoesOn-one input amount balance bill_id refund_id s s' same = record {
  rows = deposit_reversal input s.next_deposit_id amount (balance +ℤ amount) bill_id refund_id ∷ [];
  appended = same;
  goes_on = record { runs = (refl, tt); ends = ap (λ t. balance +ℤ t) (+ℤ_zero amount) };
  no_offsets = (refl, tt);
}

-- What a list of amounts gives back, where an amount that is not positive is passed over.
abbrev pub positive : ℤ → ℤ
positive a = max_ℤ (pos 0) a

abbrev pub returned : (DepositRefund → ℤ) → List DepositRefund → ℤ
returned amount_of refunds = sum_ℤ (map (λ r. positive (amount_of r)) refunds)
