-- ===== src/Checkout/Reversal/Claims.antt =====
-- The reservations that a booking has applied, as
-- backend/src/checkout/checkout-completed-reversal.ts finds them.
use mathlib.Core.Path.{subst}
use srms.Prelude.{
  ℕ, ◌==◌, ◌≡◌, refl, sym, ap, ◌∙◌, Bool, true, false, if◌then◌else◌, List, [], ◌∷◌, map, filter,
  any, contains, is_some, Bool-cases, inl, inr, arith, All,
}
use srms.Prelude.Int.{ℤ, pos, ◌+ℤ◌, ◌-ℤ◌, sum_ℤ, int_laws, zero_+ℤ}
use srms.Prelude.Fallible.{ok}
use srms.Payments.Store.{PaymentAllocation, update_where}
use srms.Payments.Store.Sweep
use srms.Payments.Store.Sweep.{HasKeys}
use srms.Payments.Store.Rounds.{All-keys}
use srms.Payments.Store.Sums.{held}
use srms.Checkout.Reservations.{RefundItem, is_of_settlement}
use srms.Checkout.RefundWriter.{CheckoutRentRefundResult}
use srms.Checkout.RefundWriter.Tables.{RentClaim, WriterTables}
use srms.Checkout.RefundWriter.Checks.{
  ApplyInput, Total, add_amount, amount_at, held_amount, allocation_of, claims_of, is_active,
}
use srms.Checkout.RefundWriter.Writes.{is_claimable, claimed}
use srms.Checkout.RefundWriter.Checked.{amount_at-add, held-cons}
use srms.Checkout.RefundWriter.Written.{allocation_id}
use srms.Checkout.RefundWriter.Parts.{Parts, active-filter}
use srms.Checkout.RefundWriter.Once
use srms.Checkout.RefundWriter.Once.{active-unapplied}
use srms.Checkout.Reversal.RentRefunds.{
  is_applied_claim, applied_claims, allocation_totals, total_ids, repay_allocations,
}

-- After a booking the applied reservations of a settlement are those that it has claimed.
module _ (items : List RefundItem) (settlement_id refund_id : ℕ) (ids : List ℕ) where
  abbrev own : RentClaim → Bool
  own c = is_of_settlement items settlement_id c.reservation

  applied-claimed :
      (cs : List RentClaim)
      → any is_applied_claim (filter own cs) ≡ false
      → All (λ c. is_claimable ids c ≡ true) (filter is_active (filter own cs))
      → filter is_applied_claim
          (filter own (update_where (is_claimable ids) (claimed refund_id) cs))
        ≡ map (claimed refund_id) (filter is_active (filter own cs))
  applied-claimed [] none_applied h = refl
  applied-claimed (c ∷ cs) none_applied h = elim (Bool-cases (own c)) [
    | inr other ↦
        let rest = applied-claimed cs (ground arith) (rw other at h) in
        elim (Bool-cases (is_claimable ids c)) [
          | inl hit ↦ rw (hit, other) rest
          | inr miss ↦ rw (miss, other) rest
        ]
    | inl mine ↦ elim (Bool-cases (is_active c)) [
      | inl active ↦
          let here = rw (mine, active) at h in
          let hit : is_claimable ids c ≡ true = here.0 in
          let rest = applied-claimed cs (ground arith) here.1 in
          rw (hit, mine, active) (ap (λ xs. claimed refund_id c ∷ xs) rest)
      | inr closed ↦
          let miss : is_claimable ids c ≡ false = ground arith in
          let unapplied : is_applied_claim c ≡ false = ground arith in
          let rest = applied-claimed cs (ground arith) (rw (mine, closed) at h) in
          rw (miss, mine, unapplied, closed) rest
    ]
  ]

filter-All : {A : Type 0} (p : A → Bool) (xs : List A) → All (λ x. p x ≡ true) (filter p xs)
filter-All p [] = tt
filter-All p (x ∷ xs) = elim (Bool-cases (p x)) [
  | inl hit ↦ rw hit (hit, filter-All p xs)
  | inr miss ↦ rw miss (filter-All p xs)
]

claimable-all :
    (ids : List ℕ) (cs : List RentClaim)
    → All (λ (c : RentClaim). contains c.id ids ≡ true) cs
    → All (λ c. is_active c ≡ true) cs
    → All (λ (c : RentClaim). is_some c.deposit_refund_id ≡ false) cs
    → All (λ c. is_claimable ids c ≡ true) cs
claimable-all ids [] h1 h2 h3 = tt
claimable-all ids (c ∷ cs) h1 h2 h3 =
    (rw (h1.0, h2.0, h3.0) refl, claimable-all ids cs h1.1 h2.1 h3.1)

pub applied_claims-after :
    (input : ApplyInput) (s : WriterTables) (r : CheckoutRentRefundResult) (parts : Parts input s r)
    → applied_claims input.settlement_id r.tables
      ≡ map (claimed input.deposit_refund_id) parts.active
applied_claims-after input s r parts =
    let claims = claims_of s input.settlement_id in
    let ids = Once.ids input s r parts in
    let same = active-filter claims parts.active parts.active_found in
    let all_active : All (λ c. is_active c ≡ true) parts.active =
      rw same (filter-All is_active claims) in
    let fits =
      claimable-all ids parts.active (All-keys (λ (c : RentClaim). c.id) parts.active) all_active
        (Once.free-all input s r parts) in
    let (after, items) = Once.claims-after input s r parts in
    rw (after, items)
      (applied-claimed s.items input.settlement_id input.deposit_refund_id ids s.claims
          (active-unapplied claims parts.active parts.active_found)
          (subst (λ (xs : List RentClaim). All (λ c. is_claimable ids c ≡ true) xs) same fits)
        ∙ ap (map (claimed input.deposit_refund_id)) (sym same))

-- What the applied reservations hold of each allocation, as the loop adds it up.
pub allocation_totals-held :
    (refund_id k : ℕ) (cs : List RentClaim) (totals : List Total)
    → amount_at k (allocation_totals (map (claimed refund_id) cs) totals)
      ≡ held allocation_of held_amount k cs +ℤ amount_at k totals
unfolding sum_ℤ
allocation_totals-held refund_id k [] totals = sym (zero_+ℤ (amount_at k totals))
allocation_totals-held refund_id k (c ∷ cs) totals =
    allocation_totals-held refund_id k cs (add_amount totals (allocation_of c) (held_amount c))
    ∙ rw (amount_at-add k (allocation_of c) (held_amount c) totals)
        (held-cons allocation_of k c cs (amount_at k totals))

minus_zero : (x : ℤ) → x -ℤ pos 0 ≡ x
minus_zero x = omega int_laws

pub amount_at-none :
    (k : ℕ) (totals : List Total)
    → contains k (total_ids totals) ≡ false
    → amount_at k totals ≡ pos 0
amount_at-none k [] h = refl
amount_at-none k (t ∷ ts) h =
    let other : (t.id == k) ≡ false = ground arith in rw other (amount_at-none k ts (ground arith))

module _ (totals : List Total) where
  abbrev repaid : PaymentAllocation → PaymentAllocation → PaymentAllocation
  repaid a x = record x { reversed_amount = a.reversed_amount -ℤ amount_at a.id totals }

  repay_allocations-changes :
      (read rows rows' : List PaymentAllocation)
      → repay_allocations totals read rows ≡ ok rows'
      → rows' ≡ Sweep.changes allocation_id (λ a. false) repaid (λ a x. refl) read rows
  unfolding repay_allocations
  repay_allocations-changes [] rows rows' h = ground arith
  repay_allocations-changes (a ∷ read) rows rows' h =
      repay_allocations-changes read
        (update_where (λ (x : PaymentAllocation). x.id == a.id) (repaid a) rows) rows'
        (ground arith)

  -- On a table with keys, each allocation of the loop has what is held of it taken off what was
  -- reversed.
  pub repay_allocations-map :
      (rows rows' : List PaymentAllocation)
      → HasKeys allocation_id rows
      → repay_allocations totals
          (filter (λ (a : PaymentAllocation). contains a.id (total_ids totals)) rows)
          rows
        ≡ ok rows'
      → rows' ≡ map (λ a. repaid a a) rows
  repay_allocations-map rows rows' keys h =
      repay_allocations-changes
        (filter (λ (a : PaymentAllocation). contains a.id (total_ids totals)) rows) rows rows' h
      ∙ Sweep.changes-filter allocation_id (λ a. false) repaid (λ a x. refl)
          (λ (a : PaymentAllocation). contains a.id (total_ids totals)) rows keys
      ∙ map-same rows
    where
      map-same :
          (xs : List PaymentAllocation)
          → map (λ a. if contains a.id (total_ids totals) then repaid a a else a) xs
            ≡ map (λ a. repaid a a) xs
      map-same [] = refl
      map-same (a ∷ xs) = elim (Bool-cases (contains a.id (total_ids totals))) [
        | inl chosen ↦ rw chosen (ap (λ ys. repaid a a ∷ ys) (map-same xs))
        | inr passed ↦
            rw (passed, amount_at-none a.id totals passed, minus_zero a.reversed_amount)
              (ap (λ ys. a ∷ ys) (map-same xs))
      ]
