-- ===== src/Checkout/Accounting/Examples.antt =====
-- A settlement of one open bill, and the theorem at it.
use srms.Prelude.{◌≡◌, refl, none, some, List, [], ◌∷◌}
use srms.Prelude.Int.{pos}
use srms.Prelude.Fallible.{ok, err}
use srms.Payments.Adjustment.{RentBillStatus}
use srms.Checkout.Accounting.{
  LinkedItem, CheckedBill, rent_arrears, other_item, rent, amount_differs, arrears_of,
  outstanding_of, assert_items_current, assert_each_settled, assert_arrears_complete,
}
use srms.Checkout.Accounting.Complete.{item_total, bill_total, assert_arrears_complete_total}

abbrev bills : List CheckedBill
bills =
    record {
      id = 4;
      period_start = 10;
      category = rent;
      status = RentBillStatus.partial;
      outstanding_amount = pos 3000;
    }
    ∷ record {
      id = 5;
      period_start = 40;
      category = rent;
      status = RentBillStatus.paid;
      outstanding_amount = pos 0;
    }
    ∷ []

abbrev items : List LinkedItem
items =
    record { item_type = rent_arrears; rent_bill_id = some 4; amount = pos 3000 }
    ∷ record { item_type = other_item; rent_bill_id = none; amount = pos 100 }
    ∷ []

accepts : assert_arrears_complete items bills ≡ ok tt
unfolding assert_arrears_complete assert_items_current assert_each_settled
accepts = refl

refuses :
    assert_arrears_complete
      (record { item_type = rent_arrears; rent_bill_id = some 4; amount = pos 2999 } ∷ [])
      bills
    ≡ err (amount_differs 4)
unfolding assert_arrears_complete assert_items_current assert_each_settled
refuses = refl

assert_arrears_complete_total_example :
    item_total (arrears_of items) ≡ bill_total (outstanding_of bills)
assert_arrears_complete_total_example = assert_arrears_complete_total items bills refl accepts
