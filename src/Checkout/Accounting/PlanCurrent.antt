-- ===== src/Checkout/Accounting/PlanCurrent.antt =====
-- What `assertCheckoutRentRefundPlanCurrent` of
-- backend/src/checkout/checkout-accounting-validation.ts tells apart.
use srms.Prelude.{
  ℕ, suc, ◌+◌, ◌<◌, ◌==◌, ◌≡◌, ◌↔◌, refl, sym, ap, ◌∙◌, Bool, true, false, not, ◌&&◌, ◌||◌,
  if◌then◌else◌, List, [], ◌∷◌, ◌++◌, map, all, length, Bool-cases, inl, inr, arith, ==_refl,
}
use srms.Prelude.Int.{ℤ, eqb_ℤ, eqb_ℤ_iff}
use srms.Prelude.Fallible.{is_ok}
use srms.Prelude.Decimal.{decimal, decimal-injective, all-digits}
use srms.Prelude.TextOrder.{
  same_text, same_text_refl, eq_of_same_text, insert_text, sort_texts, insert_text-insert_text,
}
use srms.Checkout.RentRefund.{RefundShare}
use srms.Checkout.Accounting.RefundPlan.{
  some_differs, share_text, share_texts, assert_checkout_rent_refund_plan_current,
}

-- The same ids and the same amount.
abbrev pub same_share : RefundShare → RefundShare → Bool
same_share x y =
    (x.payment_allocation_id == y.payment_allocation_id)
    && (x.payment_id == y.payment_id)
    && (x.rent_bill_id == y.rent_bill_id)
    && eqb_ℤ x.amount y.amount

-- How often a share occurs.
abbrev pub occurrences : RefundShare → List RefundShare → ℕ
occurrences x [] = 0
occurrences x (y ∷ ys) = (if same_share x y then 1 else 0) + occurrences x ys

abbrev count_text : List ℕ → List (List ℕ) → ℕ
count_text t [] = 0
count_text t (s ∷ ss) = (if same_text t s then 1 else 0) + count_text t ss

count-insert :
    (t s : List ℕ) (ss : List (List ℕ))
    → count_text t (insert_text s ss) ≡ (if same_text t s then 1 else 0) + count_text t ss
count-insert t s [] = refl
count-insert t s (x ∷ ss) = ground (arith, count-insert t s ss)

count-sort : (t : List ℕ) (ss : List (List ℕ)) → count_text t (sort_texts ss) ≡ count_text t ss
count-sort t [] = refl
count-sort t (s ∷ ss) = omega (arith, count-insert t s (sort_texts ss), count-sort t ss)

same_texts :
    (ss ts : List (List ℕ)) → (not (length ss == length ts) || some_differs ss ts) ≡ false → ss ≡ ts
same_texts [] [] h = refl
same_texts [] (t ∷ ts) h = absurd (ground arith)
same_texts (s ∷ ss) [] h = absurd (ground arith)
same_texts (s ∷ ss) (t ∷ ts) h =
    let heads : s ≡ t = eq_of_same_text s t (ground arith) in
    let tails : ss ≡ ts = same_texts ss ts (ground arith) in
    ap (λ z. z ∷ ss) heads ∙ ap (λ zs. t ∷ zs) tails

differs_refl : (ss : List (List ℕ)) → some_differs ss ss ≡ false
differs_refl [] = refl
differs_refl (s ∷ ss) = rw (same_text_refl s) (differs_refl ss)

-- A text without colons before the first colon.
abbrev has_no_colon : List ℕ → Bool
has_no_colon text = all (λ c. not (c == b':')) text

split_at_colon :
    (xs ys r s : List ℕ)
    → has_no_colon xs ≡ true
    → has_no_colon ys ≡ true
    → xs ++ b':' ∷ r ≡ ys ++ b':' ∷ s
    → (xs ≡ ys) × (r ≡ s)
split_at_colon [] [] r s hx hy e = (refl, cc)
split_at_colon [] (y ∷ ys) r s hx hy e = let first : b':' ≡ y = cc in absurd (ground (arith, first))
split_at_colon (x ∷ xs) [] r s hx hy e = let first : x ≡ b':' = cc in absurd (ground (arith, first))
split_at_colon (x ∷ xs) (y ∷ ys) r s hx hy e =
    let first : x ≡ y = cc in
    let more : xs ++ b':' ∷ r ≡ ys ++ b':' ∷ s = cc in
    let (tails, rest) = split_at_colon xs ys r s (ground arith) (ground arith) more in
    (ap (λ z. z ∷ xs) first ∙ ap (λ zs. y ∷ zs) tails, rest)

decimal-colon : (n : ℕ) → has_no_colon (decimal n) ≡ true
decimal-colon n = all-digits (λ c. not (c == b':')) (λ d low. ground arith) (suc n) n [] refl

module _ (to_fixed : ℤ → List ℕ)
    (to_fixed-injective : (a b : ℤ) → to_fixed a ≡ to_fixed b → a ≡ b) where
  abbrev text_of : RefundShare → List ℕ
  text_of x = share_text to_fixed x

  text-same : (x y : RefundShare) → same_share x y ≡ true → text_of x ≡ text_of y
  text-same x y h =
      let a : x.payment_allocation_id ≡ y.payment_allocation_id = ground arith in
      let b : x.payment_id ≡ y.payment_id = ground arith in
      let c : x.rent_bill_id ≡ y.rent_bill_id = ground arith in
      let d : x.amount ≡ y.amount = (eqb_ℤ_iff x.amount y.amount).0 (ground arith) in
      rw (a, b, c, d) refl

  same-text : (x y : RefundShare) → text_of x ≡ text_of y → same_share x y ≡ true
  same-text x y e =
      let (a, e1) =
        split_at_colon (decimal x.payment_allocation_id) (decimal y.payment_allocation_id) _ _
          (decimal-colon x.payment_allocation_id) (decimal-colon y.payment_allocation_id) e in
      let (b, e2) =
        split_at_colon (decimal x.payment_id) (decimal y.payment_id) _ _
          (decimal-colon x.payment_id) (decimal-colon y.payment_id) e1 in
      let (c, e3) =
        split_at_colon (decimal x.rent_bill_id) (decimal y.rent_bill_id) _ _
          (decimal-colon x.rent_bill_id) (decimal-colon y.rent_bill_id) e2 in
      let same_a = decimal-injective x.payment_allocation_id y.payment_allocation_id a in
      let same_b = decimal-injective x.payment_id y.payment_id b in
      let same_c = decimal-injective x.rent_bill_id y.rent_bill_id c in
      let same_d = (eqb_ℤ_iff x.amount y.amount).1 (to_fixed-injective x.amount y.amount e3) in
      rw
        (
          same_a,
          same_b,
          same_c,
          same_d,
          ==_refl y.payment_allocation_id,
          ==_refl y.payment_id,
          ==_refl y.rent_bill_id,
        )
        refl

  same_text-same_share : (x y : RefundShare) → same_text (text_of x) (text_of y) ≡ same_share x y
  same_text-same_share x y = elim (Bool-cases (same_share x y)) [
    | inl same ↦ rw (text-same x y same) (same_text_refl (text_of y) ∙ sym same)
    | inr differ ↦ elim (Bool-cases (same_text (text_of x) (text_of y))) [
      | inr other ↦ other ∙ sym differ
      | inl equal ↦
          let same = same-text x y (eq_of_same_text (text_of x) (text_of y) equal) in absurd (cc)
    ]
  ]

  count-occurrences :
      (x : RefundShare) (ys : List RefundShare)
      → count_text (text_of x) (map text_of ys) ≡ occurrences x ys
  count-occurrences x [] = refl
  count-occurrences x (y ∷ ys) =
      rw (same_text-same_share x y)
        (ap (λ n. (if same_share x y then 1 else 0) + n) (count-occurrences x ys))

  occurs-once : (x : RefundShare) → same_share x x ≡ true
  occurs-once x = same-text x x refl

  abbrev remove : RefundShare → List RefundShare → List RefundShare
  remove x [] = []
  remove x (y ∷ ys) = if same_share x y then ys else y ∷ remove x ys

  remove-sort :
      (x : RefundShare) (ys : List RefundShare)
      → 0 < occurrences x ys
      → sort_texts (map text_of ys)
        ≡ insert_text (text_of x) (sort_texts (map text_of (remove x ys)))
  remove-sort x [] h = absurd (omega (arith, h))
  remove-sort x (y ∷ ys) h = elim (Bool-cases (same_share x y)) [
    | inl same ↦
        rw same (ap (λ t. insert_text t (sort_texts (map text_of ys))) (sym (text-same x y same)))
    | inr differ ↦
        let later : 0 < occurrences x ys = ground arith in
        rw differ (
          ap (insert_text (text_of y)) (remove-sort x ys later)
          ∙ insert_text-insert_text (text_of y) (text_of x)
              (sort_texts (map text_of (remove x ys))))
  ]

  same_share_trans : (x y z : RefundShare) → same_share x y ≡ true → same_share z x ≡ same_share z y
  same_share_trans x y z h = ground arith

  remove-occurrences :
      (x z : RefundShare) (ys : List RefundShare)
      → 0 < occurrences x ys
      → (if same_share z x then 1 else 0) + occurrences z (remove x ys) ≡ occurrences z ys
  remove-occurrences x z [] h = absurd (omega (arith, h))
  remove-occurrences x z (y ∷ ys) h = elim (Bool-cases (same_share x y)) [
    | inl same ↦ rw (same, same_share_trans x y z same) refl
    | inr differ ↦
        let rest = remove-occurrences x z ys (ground arith) in rw differ (omega (arith, rest))
  ]

  -- Lists with the same shares as often have the same sorted texts.
  texts-same :
      (xs ys : List RefundShare)
      → ((z : RefundShare) → occurrences z xs ≡ occurrences z ys)
      → share_texts to_fixed xs ≡ share_texts to_fixed ys
  texts-same [] [] h = refl
  texts-same [] (y ∷ ys) h = let none_left = h y in let one = occurs-once y in absurd (ground arith)
  texts-same (x ∷ xs) ys h =
      let one = occurs-once x in
      let count = h x in
      let there : 0 < occurrences x ys = ground arith in
      let rest : (z : RefundShare) → occurrences z xs ≡ occurrences z (remove x ys) =
        λ z. omega (arith, h z, remove-occurrences x z ys there) in
      ap (insert_text (text_of x)) (texts-same xs (remove x ys) rest) ∙ sym (remove-sort x ys there)

  -- The text of an amount tells amounts apart: then the check passes exactly if the two lists have
  -- the same rows, each as often, in whatever order.
  pub assert_checkout_rent_refund_plan_current-is_ok :
      (stored current : List RefundShare)
      → (is_ok (assert_checkout_rent_refund_plan_current to_fixed stored current) ≡ true)
        ↔ ((x : RefundShare) → occurrences x stored ≡ occurrences x current)
  unfolding assert_checkout_rent_refund_plan_current
  assert_checkout_rent_refund_plan_current-is_ok stored current = (
    λ h x.
        let same =
          same_texts (share_texts to_fixed stored) (share_texts to_fixed current) (ground arith) in
        sym (count-occurrences x stored)
        ∙ sym (count-sort (text_of x) (map text_of stored))
        ∙ ap (count_text (text_of x)) same
        ∙ count-sort (text_of x) (map text_of current)
        ∙ count-occurrences x current,
    λ h.
        rw
          (
            texts-same stored current h,
            differs_refl (share_texts to_fixed current),
            ==_refl (length (share_texts to_fixed current)),
          )
          refl,
  )
