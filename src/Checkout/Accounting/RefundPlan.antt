-- ===== src/Checkout/Accounting/RefundPlan.antt =====
-- `assertCheckoutRentRefundPlanCurrent` of
-- backend/src/checkout/checkout-accounting-validation.ts. The text of an amount, `toFixed(2)` of
-- the decimal library, is a parameter.
use srms.Prelude.{ℕ, ◌==◌, Bool, true, false, not, ◌||◌, List, [], ◌∷◌, ◌++◌, map, length}
use srms.Prelude.Int.{ℤ}
use srms.Prelude.Fallible.{Result, throw_if}
use srms.Prelude.Decimal.{decimal}
use srms.Prelude.TextOrder.{same_text, sort_texts}
use srms.Checkout.RentRefund.{RefundShare}
use srms.Checkout.Accounting.{AccountingError}
use srms.Checkout.Accounting.AccountingError.{accounting_changed}

-- `some((value, index) => value !== current[index])`.
abbrev pub some_differs : List (List ℕ) → List (List ℕ) → Bool
some_differs [] current = false
some_differs (s ∷ ss) [] = true
some_differs (s ∷ ss) (t ∷ ts) = not (same_text s t) || some_differs ss ts

module _ (to_fixed : ℤ → List ℕ) where
  abbrev pub share_text : RefundShare → List ℕ
  share_text x =
      decimal x.payment_allocation_id
      ++ b':'
        ∷ (decimal x.payment_id ++ b':' ∷ (decimal x.rent_bill_id ++ b':' ∷ to_fixed x.amount))

  abbrev pub share_texts : List RefundShare → List (List ℕ)
  share_texts xs = sort_texts (map share_text xs)

  unfoldable pub assert_checkout_rent_refund_plan_current :
      List RefundShare → List RefundShare → Result AccountingError (Unit {0})
  assert_checkout_rent_refund_plan_current stored current =
      throw_if
        (not (length (share_texts stored) == length (share_texts current))
          || some_differs (share_texts stored) (share_texts current))
        accounting_changed
