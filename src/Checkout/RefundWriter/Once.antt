-- ===== src/Checkout/RefundWriter/Once.antt =====
-- The reservations after a booking by `applyCheckoutRentRefund` of
-- backend/src/checkout/checkout-rent-refund-writer.ts.
use srms.Prelude.{
  ℕ, ◌≡◌, ◌⊎◌, refl, sym, ap, ◌∙◌, Bool, true, false, ◌&&◌, List, [], ◌∷◌, map, filter, any,
  contains, is_some, Option-cases, Bool-cases, inl, inr, arith, All, ==_refl,
}
use srms.Prelude.Int.{ℤ}
use srms.Prelude.Fallible.{ok, is_ok, Result-cases}
use srms.Payments.RefundStatus.{is_applied}
use srms.Payments.Store.{update_where, find_bill}
use srms.Payments.Store.Counts.{All-map_of}
use srms.Checkout.Reservations.{RefundItem, is_of_settlement}
use srms.Checkout.RefundWriter.{
  CheckoutRentRefundResult, rows_of, apply_checkout_rent_refund, bill_ids_of,
}
use srms.Checkout.RefundWriter.Tables.{RentClaim, WriterTables, find_allocation, find_rent_payment}
use srms.Checkout.RefundWriter.Checks.{
  ApplyInput, Rows, claims_of, active_claims, is_active, bill_of, allocation_of, payment_of,
  is_sound,
}
use srms.Checkout.RefundWriter.Writes.{is_claimable, claimed, claim_reservations}
use srms.Checkout.RefundWriter.Written.{write_bills-IsBilled}
use srms.Checkout.RefundWriter.Parts.{Parts, apply-Parts, active-filter}
use srms.Checkout.RefundWriter.Applied

List-cases : {A : Type 0} (xs : List A) → (xs ≡ []) ⊎ ((y : A) × (ys : List A) × (xs ≡ y ∷ ys))
List-cases [] = inl refl
List-cases (x ∷ xs) = inr (x, xs, refl)

pub filter-head :
    {A : Type 0} (p : A → Bool) (xs : List A) (c : A) (cs : List A)
    → filter p xs ≡ c ∷ cs
    → p c ≡ true
filter-head p [] c cs h = absurd (cc)
filter-head p (x ∷ xs) c cs h = elim (Bool-cases (p x)) [
  | inl hit ↦ let same : x ≡ c = ground arith in rw (sym same) hit
  | inr miss ↦ filter-head p xs c cs (ground arith)
]

any-head :
    {A : Type 0} (p q w : A → Bool) (xs : List A) (c : A) (cs : List A)
    → filter p (filter q xs) ≡ c ∷ cs
    → w c ≡ true
    → any (λ x. q x && w x) xs ≡ true
any-head p q w [] c cs h holds = absurd (cc)
any-head p q w (x ∷ xs) c cs h holds = elim (Bool-cases (q x)) [
  | inr miss ↦ rw miss (any-head p q w xs c cs (ground arith) holds)
  | inl hit ↦ elim (Bool-cases (p x)) [
    | inl first ↦
        let same : x ≡ c = ground arith in
        let here : w x ≡ true = rw same holds in rw (hit, here) refl
    | inr later ↦
        let rest = any-head p q w xs c cs (ground arith) holds in rw (hit, rest) (ground arith)
  ]
]

-- A claimed reservation of a settlement is one that is applied.
module _ (items : List RefundItem) (settlement_id refund_id : ℕ) (ids : List ℕ) where
  abbrev pub is_own : RentClaim → Bool
  is_own c = is_of_settlement items settlement_id c.reservation

  any-applied :
      (cs : List RentClaim)
      → any (λ c. is_own c && is_claimable ids c) cs ≡ true
      → any
          (λ (c : RentClaim). is_applied c.reservation.status)
          (filter is_own (update_where (is_claimable ids) (claimed refund_id) cs))
        ≡ true
  any-applied [] h = absurd (cc)
  any-applied (c ∷ cs) h = elim (Bool-cases (is_own c)) [
    | inr other ↦ elim (Bool-cases (is_claimable ids c)) [
      | inl hit ↦ rw (hit, other) (any-applied cs (ground arith))
      | inr miss ↦ rw (miss, other) (any-applied cs (ground arith))
    ]
    | inl own ↦ elim (Bool-cases (is_claimable ids c)) [
      | inl hit ↦ rw (hit, own) refl
      | inr miss ↦ let rest = any-applied cs (ground arith) in rw (miss, own, rest) (ground arith)
    ]
  ]

claims_made-update :
    (refund_id : ℕ) (active claims claims' : List RentClaim)
    → claim_reservations refund_id active claims ≡ ok claims'
    → claims'
      ≡ update_where
          (is_claimable (map (λ (c : RentClaim). c.id) active))
          (claimed refund_id)
          claims
unfolding claim_reservations
claims_made-update refund_id active claims claims' h = ground arith

pub active-some :
    (claims active : List RentClaim)
    → active_claims claims ≡ ok active
    → (c : RentClaim) × (cs : List RentClaim) × (filter is_active claims ≡ c ∷ cs)
unfolding active_claims
active-some claims active h = elim (List-cases (filter is_active claims)) [
  | inl nothing ↦ absurd (ground arith)
  | inr found ↦ found
]

pub active-unapplied :
    (claims active : List RentClaim)
    → active_claims claims ≡ ok active
    → any (λ (c : RentClaim). is_applied c.reservation.status) claims ≡ false
unfolding active_claims
active-unapplied claims active h = ground arith

sound-free :
    (contract_id : ℕ) (item : RefundItem) (rows : Rows) (c : RentClaim)
    → is_sound contract_id item rows c ≡ true
    → is_some c.deposit_refund_id ≡ false
sound-free contract_id item rows c sound =
    elim (Option-cases (find_allocation (allocation_of c) rows.allocations)) [
      | inl no_allocation ↦ absurd (ground arith)
      | inr (a, allocation) ↦ elim (Option-cases (find_bill (bill_of c) rows.bills)) [
        | inl no_bill ↦ absurd (ground arith)
        | inr (b, bill) ↦ elim (Option-cases (find_rent_payment (payment_of c) rows.payments)) [
          | inl no_payment ↦ absurd (ground arith)
          | inr (p, payment) ↦ ground arith
        ]
      ]
    ]

module _ (input : ApplyInput) (s : WriterTables) (r : CheckoutRentRefundResult)
    (parts : Parts input s r) where
  abbrev pub ids : List ℕ
  ids = map (λ (c : RentClaim). c.id) parts.active

  pub claims-after :
      (r.tables.claims ≡ update_where (is_claimable ids) (claimed input.deposit_refund_id) s.claims)
      × (r.tables.items ≡ s.items)
  claims-after =
      let kept =
        write_bills-IsBilled input parts.item.id parts.totals.by_bill (rows_of s parts.active).bills
          (bill_ids_of parts.active) s parts.booked.billed parts.booked.bills_made in
      let made =
        claims_made-update input.deposit_refund_id parts.active parts.booked.billed.claims
          parts.booked.claims parts.booked.claims_made in
      let result = parts.booked.result_is in
      (
        ap (λ x. x.tables.claims) result
            ∙ made
            ∙ ap (update_where (is_claimable ids) (claimed input.deposit_refund_id))
                kept.same_claims,
        ap (λ x. x.tables.items) result ∙ kept.same_items,
      )

  pub free-all : All (λ (c : RentClaim). is_some c.deposit_refund_id ≡ false) parts.active
  free-all =
      All-map_of _ _ (sound-free parts.settlement.contract_id parts.item (rows_of s parts.active))
        parts.active (Applied.added input s r parts).are_sound

  applied-after :
      any
        (λ (c : RentClaim). is_applied c.reservation.status)
        (claims_of r.tables input.settlement_id)
      ≡ true
  applied-after =
      let (c, cs, first) =
        active-some (claims_of s input.settlement_id) parts.active parts.active_found in
      let same : parts.active ≡ c ∷ cs =
        active-filter (claims_of s input.settlement_id) parts.active parts.active_found ∙ first in
      let active = filter-head is_active (claims_of s input.settlement_id) c cs first in
      let free : is_some c.deposit_refund_id ≡ false = (rw same at free-all).0 in
      let listed : contains c.id ids ≡ true = rw same (rw (==_refl c.id) refl) in
      let fits : is_claimable ids c ≡ true = rw (listed, active, free) refl in
      let chosen =
        any-head is_active (is_own s.items input.settlement_id input.deposit_refund_id ids)
          (is_claimable ids) s.claims c cs first fits in
      rw (claims-after.0, claims-after.1)
        (any-applied s.items input.settlement_id input.deposit_refund_id ids s.claims chosen)

-- Once a booking for a settlement has succeeded, none succeeds for it again, whoever confirms it
-- and whichever refund it is for.
pub apply_checkout_rent_refund_once :
    (to_fixed : ℤ → List ℕ) (input again : ApplyInput) (s : WriterTables)
    (r : CheckoutRentRefundResult)
    → again.settlement_id ≡ input.settlement_id
    → apply_checkout_rent_refund to_fixed input s ≡ ok r
    → is_ok (apply_checkout_rent_refund to_fixed again r.tables) ≡ false
apply_checkout_rent_refund_once to_fixed input again s r same h =
    elim (Result-cases (apply_checkout_rent_refund to_fixed again r.tables)) [
      | inl (e, refused) ↦ rw refused refl
      | inr (r', accepted) ↦
          let second = apply-Parts to_fixed again r.tables r' accepted in
          let unapplied =
            active-unapplied (claims_of r.tables again.settlement_id) second.active
              second.active_found in
          let unapplied' = rw same at unapplied in
          let applied = applied-after input s r (apply-Parts to_fixed input s r h) in absurd (cc)
    ]
