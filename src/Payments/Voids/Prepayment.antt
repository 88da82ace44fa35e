-- ===== src/Payments/Voids/Prepayment.antt =====
-- The prepayment that a voided payment had left.
use srms.Prelude.{
  ℕ, ◌==◌, ltb, ◌≡◌, refl, ap, ◌∙◌, Bool, true, if◌then◌else◌, Option, none, some, List, [], ◌∷◌,
  ◌++◌, filter, Bool-cases, ◌⊎◌, inl, inr, arith, ==_refl, All,
}
use srms.Prelude.Fallible.{ok}
use srms.Prelude.Int.{ℤ, pos, ◌+ℤ◌, ◌-ℤ◌, leb_ℤ, ltb_ℤ, ◌≤ℤ◌, int_laws, le_of_leb_ℤ, le_of_ltb_ℤ}
use srms.Payments.Store.{Database, PrepaymentTransaction, PrepaymentType, latest}
use srms.Payments.Voids.Steps.{
  active_prepayment, prepayment_balance, reverse_prepayment, signed_prepayment, is_of_payment,
}

active_prepayment-append :
    (p : ℕ) (ts : List PrepaymentTransaction) (t : PrepaymentTransaction)
    → active_prepayment p (ts ++ t ∷ [])
      ≡ active_prepayment p ts +ℤ (if is_of_payment p t then signed_prepayment t else pos 0)
unfolding active_prepayment
active_prepayment-append p [] t = omega int_laws
active_prepayment-append p (u ∷ ts) t = rw (active_prepayment-append p ts t) (omega int_laws)

latest-append :
    (ts : List PrepaymentTransaction) (t : PrepaymentTransaction)
    → All (λ u. ltb u.id t.id ≡ true) ts
    → latest (λ u. u.id) (ts ++ t ∷ []) ≡ some t
latest-append [] t h = refl
latest-append (u ∷ ts) t h = rw (latest-append ts t h.1) (ground (arith, h.0))

-- Ids that are all below one given next, after a filter.
filter-below :
    (p : PrepaymentTransaction → Bool) (ts : List PrepaymentTransaction) (next : ℕ)
    → All (λ u. ltb u.id next ≡ true) ts
    → All (λ u. ltb u.id next ≡ true) (filter p ts)
filter-below p [] next h = tt
filter-below p (u ∷ ts) next h = elim (Bool-cases (p u)) [
  | inl kept ↦ rw kept (h.0, filter-below p ts next h.1)
  | inr dropped ↦ rw dropped (filter-below p ts next h.1)
]

filter-append_kept :
    (p : PrepaymentTransaction → Bool) (ts : List PrepaymentTransaction) (t : PrepaymentTransaction)
    → p t ≡ true
    → filter p (ts ++ t ∷ []) ≡ filter p ts ++ t ∷ []
filter-append_kept p [] t h = rw h refl
filter-append_kept p (u ∷ ts) t h = elim (Bool-cases (p u)) [
  | inl kept ↦ rw (kept, filter-append_kept p ts t h) refl
  | inr dropped ↦ rw (dropped, filter-append_kept p ts t h) refl
]

abbrev balance_of : Option PrepaymentTransaction → ℤ
balance_of none = pos 0
balance_of (some t) = t.balance_after

prepayment_balance-append :
    (c : ℕ) (ts : List PrepaymentTransaction) (t : PrepaymentTransaction)
    → t.contract_id ≡ c
    → All (λ u. ltb u.id t.id ≡ true) ts
    → prepayment_balance c (ts ++ t ∷ []) ≡ t.balance_after
unfolding prepayment_balance
prepayment_balance-append c ts t same below =
    let kept : (t.contract_id == c) ≡ true = ground arith in
    let list : filter (λ u. u.contract_id == c) (ts ++ t ∷ [])
        ≡ filter (λ u. u.contract_id == c) ts ++ t ∷ [] =
      filter-append_kept (λ u. u.contract_id == c) ts t kept in
    let found : latest (λ u. u.id) (filter (λ u. u.contract_id == c) (ts ++ t ∷ [])) ≡ some t =
      ap (latest (λ u. u.id)) list
      ∙ latest-append (filter (λ u. u.contract_id == c) ts) t
          (filter-below (λ u. u.contract_id == c) ts t.id below) in
    ap balance_of found

own_reversal : (p : ℕ) (a : ℤ) → a +ℤ (if p == p then pos 0 -ℤ a else pos 0) ≡ pos 0
own_reversal p a = rw (==_refl p) (omega int_laws)

-- A payment of which nothing stands as prepayment, or one whose rest is booked out in full.
pub record IsRepaid (contract payment : ℕ) (db db' : Database) : Type 0 where
  pub was_covered :
      active_prepayment payment db.prepayments ≤ℤ prepayment_balance contract db.prepayments
  pub nothing_left : active_prepayment payment db'.prepayments ≡ pos 0
  pub balance_lowered :
      prepayment_balance contract db'.prepayments
      ≡ prepayment_balance contract db.prepayments -ℤ active_prepayment payment db.prepayments

-- If the id given next is above all ids of the prepayment table and the reversal succeeds: either
-- nothing of the payment stood as prepayment and nothing changed, or the contract's balance covered
-- it, nothing of it is left, and the balance is lower by exactly that amount.
pub reverse_prepayment-cases :
    (contract payment : ℕ) (db db' : Database)
    → All (λ u. ltb u.id db.next_prepayment_id ≡ true) db.prepayments
    → reverse_prepayment contract payment db ≡ ok db'
    → ((active_prepayment payment db.prepayments ≤ℤ pos 0) × (db' ≡ db))
      ⊎ IsRepaid contract payment db db'
unfolding reverse_prepayment
reverse_prepayment-cases contract payment db db' below h =
    let active = active_prepayment payment db.prepayments in
    let balance = prepayment_balance contract db.prepayments in
    let booked : PrepaymentTransaction = record {
      id = db.next_prepayment_id;
      contract_id = contract;
      transaction_type = PrepaymentType.reversal;
      amount = active;
      balance_after = balance -ℤ active;
      payment_id = some payment;
    } in
    elim (Bool-cases (leb_ℤ active (pos 0))) [
      | inl nothing ↦ inl (le_of_leb_ℤ active (pos 0) nothing, ground arith)
      | inr something ↦ elim (Bool-cases (ltb_ℤ balance active)) [
        | inl short ↦ absurd (ground arith)
        | inr covered ↦
            let rows : db'.prepayments ≡ db.prepayments ++ booked ∷ [] = ground arith in
            inr (record {
              was_covered = le_of_ltb_ℤ balance active covered;
              nothing_left =
                  ap (active_prepayment payment) rows
                  ∙ active_prepayment-append payment db.prepayments booked
                  ∙ own_reversal payment active;
              balance_lowered =
                  ap (prepayment_balance contract) rows
                  ∙ prepayment_balance-append contract db.prepayments booked refl below;
            })
      ]
    ]
