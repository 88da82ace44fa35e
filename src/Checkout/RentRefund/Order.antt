-- ===== src/Checkout/RentRefund/Order.antt =====
-- The candidates of a plan: which they are, and their order.
use srms.Prelude.{
  ℕ, ◌≡◌, refl, ap, ◌∙◌, List, [], ◌∷◌, map, filter, Bool, true, false, Bool-cases, inl, inr, All,
  if◌then◌else◌, arith,
}
use mathlib.Core.List.{Perm}
use mathlib.Core.List.Perm
use srms.Prelude.Int.{ℤ, pos, ◌+ℤ◌, ltb_ℤ, sum_ℤ, int_laws}
use srms.Checkout.RentRefund.{
  RentRefundCandidate, RefundShare, is_refundable, is_current_or_future_period, comes_before,
  insert_candidate, sort_candidates, eligible_candidates, total_available,
}

abbrev pub total_shares : List RefundShare → ℤ
total_shares xs = sum_ℤ (map (λ x. x.amount) xs)

total-insert :
    (c : RentRefundCandidate) (cs : List RentRefundCandidate)
    → total_available (insert_candidate c cs) ≡ c.available_amount +ℤ total_available cs
unfolding insert_candidate sum_ℤ
total-insert c [] = refl
total-insert c (d ∷ ds) = elim (Bool-cases (comes_before c d)) [
  | inl first ↦ rw first
  | inr later ↦ rw (later, total-insert c ds) (omega int_laws)
]

total-sort :
    (cs : List RentRefundCandidate) → total_available (sort_candidates cs) ≡ total_available cs
unfolding sort_candidates sum_ℤ
total-sort [] = refl
total-sort (c ∷ cs) =
    total-insert c (sort_candidates cs) ∙ ap (λ t. c.available_amount +ℤ t) (total-sort cs)

filter-filter :
    (checkout : ℕ) (cs : List RentRefundCandidate)
    → filter
        (λ c. ltb_ℤ (pos 0) c.available_amount)
        (filter (is_current_or_future_period checkout) cs)
      ≡ filter (is_refundable checkout) cs
filter-filter checkout [] = refl
filter-filter checkout (c ∷ cs) = elim (Bool-cases (is_current_or_future_period checkout c)) [
  | inl current ↦ rw current (
      ap (λ xs. if ltb_ℤ (pos 0) c.available_amount then c ∷ xs else xs)
        (filter-filter checkout cs))
  | inr past ↦ rw past (filter-filter checkout cs)
]

pub max_is :
    (checkout : ℕ) (cs : List RentRefundCandidate)
    → total_available (eligible_candidates checkout cs)
      ≡ total_available (filter (is_refundable checkout) cs)
unfolding eligible_candidates
max_is checkout cs = total-sort _ ∙ ap total_available (filter-filter checkout cs)

-- Every candidate satisfies `p`.
abbrev pub Every : (RentRefundCandidate → Bool) → List RentRefundCandidate → Type 0
Every p cs = All (λ c. p c ≡ true) cs

module _ (p : RentRefundCandidate → Bool) where
  Every-filter : (cs : List RentRefundCandidate) → Every p (filter p cs)
  Every-filter [] = tt
  Every-filter (c ∷ cs) = ground (arith, Every-filter cs)

  Every-insert :
      (c : RentRefundCandidate) (cs : List RentRefundCandidate)
      → p c ≡ true
      → Every p cs
      → Every p (insert_candidate c cs)
  unfolding insert_candidate
  Every-insert c [] h e = (h, tt)
  Every-insert c (d ∷ ds) h e = ground (arith, Every-insert c ds h)

  pub Every-sort : (cs : List RentRefundCandidate) → Every p cs → Every p (sort_candidates cs)
  unfolding sort_candidates
  Every-sort [] e = tt
  Every-sort (c ∷ cs) e = Every-insert c (sort_candidates cs) e.0 (Every-sort cs e.1)

pub eligible-refundable :
    (checkout : ℕ) (cs : List RentRefundCandidate)
    → Every (is_refundable checkout) (eligible_candidates checkout cs)
unfolding eligible_candidates
eligible-refundable checkout cs =
    rw (filter-filter checkout cs)
      (Every-sort (is_refundable checkout) _ (Every-filter (is_refundable checkout) cs))

insert-perm :
    (c : RentRefundCandidate) (cs : List RentRefundCandidate)
    → Perm (insert_candidate c cs) (c ∷ cs)
unfolding insert_candidate
insert-perm c [] = Perm.refl (c ∷ [])
insert-perm c (d ∷ ds) = elim (Bool-cases (comes_before c d)) [
  | inl first ↦ rw first (Perm.refl (c ∷ d ∷ ds))
  | inr later ↦ rw later (Perm.trans (Perm.cons d (insert-perm c ds)) (Perm.swap c d ds))
]

sort-perm : (cs : List RentRefundCandidate) → Perm (sort_candidates cs) cs
unfolding sort_candidates
sort-perm [] = Perm.refl []
sort-perm (c ∷ cs) = Perm.trans (insert-perm c (sort_candidates cs)) (Perm.cons c (sort-perm cs))

pub eligible-perm :
    (checkout : ℕ) (cs : List RentRefundCandidate)
    → Perm (eligible_candidates checkout cs) (filter (is_refundable checkout) cs)
unfolding eligible_candidates
eligible-perm checkout cs =
    rw (filter-filter checkout cs) (sort-perm (filter (is_refundable checkout) cs))

-- Each candidate comes before all that follow it.
abbrev pub IsSorted : List RentRefundCandidate → Type 0
IsSorted [] = Unit
IsSorted (c ∷ cs) = Every (comes_before c) cs × IsSorted cs

comes_before_trans :
    (a b c : RentRefundCandidate)
    → comes_before a b ≡ true
    → comes_before b c ≡ true
    → comes_before a c ≡ true
comes_before_trans a b c h k = ground arith

comes_before_total :
    (a b : RentRefundCandidate) → comes_before a b ≡ false → comes_before b a ≡ true
comes_before_total a b h = ground arith

Every-before :
    (a b : RentRefundCandidate) (cs : List RentRefundCandidate)
    → comes_before a b ≡ true
    → Every (comes_before b) cs
    → Every (comes_before a) cs
Every-before a b [] h e = tt
Every-before a b (c ∷ cs) h e = (comes_before_trans a b c h e.0, Every-before a b cs h e.1)

insert-IsSorted :
    (c : RentRefundCandidate) (cs : List RentRefundCandidate)
    → IsSorted cs
    → IsSorted (insert_candidate c cs)
unfolding insert_candidate
insert-IsSorted c [] h = (tt, tt)
insert-IsSorted c (d ∷ ds) h = elim (Bool-cases (comes_before c d)) [
  | inl first ↦ rw first ((first, Every-before c d ds first h.0), h)
  | inr later ↦ rw later (
    Every-insert (comes_before d) c ds (comes_before_total c d later) h.0,
    insert-IsSorted c ds h.1,
  )
]

pub sort-IsSorted : (cs : List RentRefundCandidate) → IsSorted (sort_candidates cs)
unfolding sort_candidates
sort-IsSorted [] = tt
sort-IsSorted (c ∷ cs) = insert-IsSorted c (sort_candidates cs) (sort-IsSorted cs)
