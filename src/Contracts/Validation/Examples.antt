-- ===== src/Contracts/Validation/Examples.antt =====
-- Concessions of a contract, and the theorem at them. A date is its characters' codes.
use srms.Prelude.{◌≡◌, refl, none, some, List, [], ◌∷◌, all, ℕ}
use srms.Prelude.Int.{pos}
use srms.Prelude.Fallible.{is_ok, ok, err}
use srms.Contracts.Validation.{
  Concession, ConcessionType, ApplyMode, ValidationError, RoomStatus, ContractStatus, RoomAction,
  assert_concession, assert_concessions, resolve_room_status_after_contract_void,
}
use srms.Contracts.Validation.Accepted.{acceptable, assert_concessions-acceptable}

abbrev may_first : List ℕ
may_first = 50 ∷ 48 ∷ 50 ∷ 53 ∷ 45 ∷ 48 ∷ 53 ∷ 45 ∷ 48 ∷ 49 ∷ []

abbrev may_ninth : List ℕ
may_ninth = 50 ∷ 48 ∷ 50 ∷ 53 ∷ 45 ∷ 48 ∷ 53 ∷ 45 ∷ 48 ∷ 57 ∷ []

abbrev free_days : Concession
free_days = record {
  concession_type = ConcessionType.rent_free;
  apply_mode = ApplyMode.date_range;
  start_date = some may_first;
  end_date = some may_ninth;
  fixed_amount = none;
  discount_rate = none;
  billing_period_count = none;
}

abbrev tenth_off : Concession
tenth_off = record {
  concession_type = ConcessionType.percentage;
  apply_mode = ApplyMode.billing_periods;
  start_date = none;
  end_date = none;
  fixed_amount = none;
  discount_rate = some (pos 1000);
  billing_period_count = some 3;
}

both_accepted : assert_concessions (free_days ∷ tenth_off ∷ []) ≡ ok tt
unfolding assert_concessions assert_concession
both_accepted = refl

reversed_range :
    assert_concession (record free_days { start_date = some may_ninth; end_date = some may_first })
    ≡ err ValidationError.bad_date_range
unfolding assert_concession
reversed_range = refl

room_stays_rented :
    resolve_room_status_after_contract_void RoomStatus.rented (ContractStatus.active ∷ [])
    ≡ (RoomAction.keep_current_status, RoomStatus.rented)
unfolding resolve_room_status_after_contract_void
room_stays_rented = refl

assert_concessions-acceptable_example :
    is_ok (assert_concessions (free_days ∷ tenth_off ∷ []))
    ≡ all (λ c. acceptable c.concession_type c.apply_mode c) (free_days ∷ tenth_off ∷ [])
assert_concessions-acceptable_example = assert_concessions-acceptable (free_days ∷ tenth_off ∷ [])
