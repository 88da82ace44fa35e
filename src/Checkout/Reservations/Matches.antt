-- ===== src/Checkout/Reservations/Matches.antt =====
-- `assertCheckoutRentRefundReservationMatches` of
-- backend/src/checkout/checkout-rent-refund-reservations.ts after a reservation.
use srms.Prelude.{
  ℕ, ◌==◌, ◌≡◌, refl, ap, ◌∙◌, Bool, true, false, ◌&&◌, some, none, List, [], ◌∷◌, ◌++◌, map,
  filter, find, any, all, Bool-cases, inl, inr, arith, All, ==_refl,
}
use srms.Prelude.Int.{ℤ, pos, ◌≤ℤ◌, ltb_ℤ-true, eqb_ℤ, eqb_ℤ_iff, sum_ℤ}
use srms.Prelude.Fallible.{ok}
use srms.Payments.RefundStatus.{ReservationStatus}
use srms.Payments.Store.{PaymentAllocation, update_where, is_reserved}
use srms.Payments.Store.Sweep.{HasKeys}
use srms.Payments.Store.Rows.{find-own}
use srms.Checkout.RentRefund.{RefundShare}
use srms.Checkout.RentRefund.Order.{Every, total_shares}
use srms.Checkout.RentRefund.Plan.{allocate_checkout_rent_refund-IsPlan}
use srms.Checkout.RentRefund.Shares.{
  AreHeld, plan-AreHeld, AllShares, of_candidate, plan-AllShares, allocated_plan,
}
use srms.Checkout.Reservations.{
  RentReservation, RefundItem, RefundTables, ReserveCheckoutRentRefundInput, Reserved,
  is_of_settlement, candidates_of, load_checkout_rent_refund_candidates,
  release_checkout_rent_refund, reservation, reserve_checkout_rent_refund, is_valid_item,
  is_valid_reservation, reservations_of, assert_checkout_rent_refund_reservation_matches,
}
use srms.Checkout.Reservations.Found.{allocation_id, found-cases}
use srms.Checkout.Reservations.Covered.{reserve-IsReserving}

-- The ids of an allocation and of its payment and bill.
abbrev is_linked : List PaymentAllocation → ℕ → ℕ → ℕ → Bool
is_linked rows k payment bill = elim (find (λ (a : PaymentAllocation). a.id == k) rows) [
  | none ↦ false
  | some a ↦ (payment == a.payment_id) && (bill == a.rent_bill_id)
]

found-linked :
    (s : RefundTables) (contract_id settlement_id : ℕ) (rows as' : List PaymentAllocation)
    → All
        (λ (a : PaymentAllocation). find (λ (z : PaymentAllocation). z.id == a.id) rows ≡ some a)
        as'
    → Every (of_candidate (is_linked rows)) (candidates_of s contract_id settlement_id as')
found-linked s contract_id settlement_id rows [] h = tt
found-linked s contract_id settlement_id rows (a ∷ as') h =
    let rest = found-linked s contract_id settlement_id rows as' h.1 in
    elim (found-cases s contract_id settlement_id a as') [
      | inl passed ↦ rw passed rest
      | inr (p, b, taken) ↦
          let here = h.0 in
          let own : is_linked rows a.id a.payment_id a.rent_bill_id ≡ true =
            ground (arith, here, ==_refl a.payment_id, ==_refl a.rent_bill_id) in
          rw taken (own, rest)
    ]

module _ (items : List RefundItem) (settlement_id : ℕ) where
  abbrev is_held : RentReservation → Bool
  is_held r = is_reserved r.status && is_of_settlement items settlement_id r

  -- Nothing of the settlement is left after a release; all of the new reservations are its own.
  held_after :
      (rs : List RentReservation)
      → filter is_held
          (update_where is_held (λ r. record r { status = ReservationStatus.released }) rs)
        ≡ []
  held_after [] = refl
  held_after (r ∷ rs) = elim (Bool-cases (is_held r)) [
    | inl held ↦ rw held (held_after rs)
    | inr free ↦ rw (free, free) (held_after rs)
  ]

  held_new :
      (item : ℕ) (xs : List RefundShare)
      → any (λ (i : RefundItem). (i.id == item) && (i.settlement_id == settlement_id)) items ≡ true
      → filter is_held (map (reservation item) xs) ≡ map (reservation item) xs
  held_new item [] h = refl
  held_new item (x ∷ xs) h = rw h (ap (λ ys. reservation item x ∷ ys) (held_new item xs h))

filter-append :
    {A : Type 0} (p : A → Bool) (xs ys : List A) → filter p (xs ++ ys) ≡ filter p xs ++ filter p ys
filter-append p [] ys = refl
filter-append p (x ∷ xs) ys = elim (Bool-cases (p x)) [
  | inl kept ↦ rw kept (ap (λ zs. x ∷ zs) (filter-append p xs ys))
  | inr dropped ↦ rw dropped (filter-append p xs ys)
]

amounts_are :
    (item : ℕ) (xs : List RefundShare)
    → sum_ℤ (map (λ (r : RentReservation). r.reserved_amount) (map (reservation item) xs))
      ≡ total_shares xs
unfolding sum_ℤ
amounts_are item [] = refl
amounts_are item (x ∷ xs) = rw (amounts_are item xs) refl

find-any :
    (settlement_id id : ℕ) (items : List RefundItem) (i : RefundItem)
    → find (λ (z : RefundItem). z.id == id) items ≡ some i
    → (i.settlement_id == settlement_id) ≡ true
    → any (λ (z : RefundItem). (z.id == id) && (z.settlement_id == settlement_id)) items ≡ true
find-any settlement_id id [] i h own = absurd (cc)
find-any settlement_id id (z ∷ items) i h own = elim (Bool-cases (z.id == id)) [
  | inl here ↦ let same : z ≡ i = ground arith in rw (here, same, own) refl
  | inr there ↦ rw there (find-any settlement_id id items i (ground arith) own)
]

all_valid :
    (s : RefundTables) (settlement_id item : ℕ) (expected : ℤ) (i : RefundItem)
    (xs : List RefundShare)
    → find (λ (z : RefundItem). z.id == item) s.items ≡ some i
    → is_valid_item settlement_id expected i ≡ true
    → AllShares (is_linked s.allocations) xs
    → AreHeld xs
    → all (is_valid_reservation s settlement_id expected) (map (reservation item) xs) ≡ true
all_valid s settlement_id item expected i [] found valid linked held = refl
all_valid s settlement_id item expected i (x ∷ xs) found valid linked held =
    let rest = all_valid s settlement_id item expected i xs found valid linked.1 held.1 in
    rw (found, valid, linked.0, ltb_ℤ-true (pos 0) x.amount held.0) rest

assert_matches :
    (settlement_id : ℕ) (expected : ℤ) (s : RefundTables) (rs : List RentReservation)
    → reservations_of settlement_id s ≡ rs
    → sum_ℤ (map (λ (r : RentReservation). r.reserved_amount) rs) ≡ expected
    → all (is_valid_reservation s settlement_id expected) rs ≡ true
    → assert_checkout_rent_refund_reservation_matches settlement_id expected s ≡ ok tt
unfolding assert_checkout_rent_refund_reservation_matches
assert_matches settlement_id expected s rs own total valid =
    let equal : eqb_ℤ (sum_ℤ (map (λ (r : RentReservation). r.reserved_amount) rs)) expected
        ≡ true =
      (eqb_ℤ_iff _ expected).1 total in
    rw (own, equal, valid) refl

-- Allocation ids are distinct, the amount asked for is not negative, and the item is one of rent
-- refund of the settlement with that amount: then a reservation that succeeds passes the check that
-- the settlement's reservations match the amount.
pub reserve_checkout_rent_refund-matches :
    (input : ReserveCheckoutRentRefundInput) (s : RefundTables) (done : Reserved) (i : RefundItem)
    → HasKeys allocation_id s.allocations
    → pos 0 ≤ℤ input.requested_amount
    → find (λ (z : RefundItem). z.id == input.settlement_item_id) s.items ≡ some i
    → is_valid_item input.settlement_id input.requested_amount i ≡ true
    → reserve_checkout_rent_refund input s ≡ ok done
    → assert_checkout_rent_refund_reservation_matches input.settlement_id input.requested_amount
        done.tables
      ≡ ok tt
unfolding release_checkout_rent_refund load_checkout_rent_refund_candidates
reserve_checkout_rent_refund-matches input s done i keys positive found valid h =
    let parts = reserve-IsReserving input s done h in
    let settlement = input.settlement_id in
    let item = input.settlement_item_id in
    let free = release_checkout_rent_refund settlement s in
    let cs = load_checkout_rent_refund_candidates free input.contract_id settlement in
    let xs = done.plan.allocations in
    let shares =
      allocated_plan input.actual_checkout_date input.requested_amount cs done.plan parts.planned in
    let plan =
      allocate_checkout_rent_refund-IsPlan input.actual_checkout_date input.requested_amount cs
        done.plan positive parts.planned in
    let linked : AllShares (is_linked s.allocations) xs = rw shares (
      plan-AllShares (is_linked s.allocations) input.actual_checkout_date input.requested_amount cs
        (found-linked free input.contract_id settlement s.allocations s.allocations
          (find-own allocation_id s.allocations keys))) in
    let held : AreHeld xs =
      rw shares (plan-AreHeld input.actual_checkout_date input.requested_amount cs) in
    let ours : (i.settlement_id == settlement) ≡ true = ground (arith, valid) in
    let new =
      filter-append (is_held s.items settlement) free.reservations (map (reservation item) xs)
      ∙ ap (λ ys. ys ++ filter (is_held s.items settlement) (map (reservation item) xs))
          (held_after s.items settlement s.reservations)
      ∙ held_new s.items settlement item xs (find-any settlement item s.items i found ours) in
    rw parts.tables_are (
      assert_matches settlement input.requested_amount
        (record free { reservations = free.reservations ++ map (reservation item) xs })
        (map (reservation item) xs) new (amounts_are item xs ∙ plan.shares_total)
        (all_valid (record free { reservations = free.reservations ++ map (reservation item) xs })
          settlement item input.requested_amount i xs found valid linked held))
