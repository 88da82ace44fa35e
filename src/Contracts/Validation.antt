-- ===== src/Contracts/Validation.antt =====
-- What a contract must satisfy to be saved: backend/src/contracts/contract-validation.ts, and the
-- status that a room gets when a contract is voided: contract-room-reconciliation.ts beside it.
-- A date of a contract is its time stamp. A date of a concession is a text, compared as JavaScript
-- compares texts; the numbers of a concession are numeric texts, given in ten-thousandths.
pub mod Accepted
mod Examples
use srms.Prelude.{
  ℕ, ◌==◌, ltb, Bool, true, false, not, ◌&&◌, ◌||◌, if◌then◌else◌, Option, none, some, List, [],
  ◌∷◌, map, any, contains, has_duplicates,
}
use srms.Prelude.Texts.{text_before}
use srms.Prelude.Int.{ℤ, pos, ltb_ℤ}
use srms.Prelude.Fallible.{Result, ok, err, ◌>>=◌, ◌>>◌, throw_if}

pub data RoomStatus : Type 0 where
  empty pending_move_in rented pending_checkout maintenance for_sale sold disabled other :
      RoomStatus

pub data ContractStatus : Type 0 where
  draft pending_start active pending_checkout ended voided : ContractStatus

pub data ConcessionType : Type 0 where
  rent_free fixed_amount percentage : ConcessionType

pub data ApplyMode : Type 0 where
  date_range one_time billing_periods : ApplyMode

pub record Concession : Type 0 where
  pub concession_type : ConcessionType
  pub apply_mode : ApplyMode
  pub start_date : Option (List ℕ)
  pub end_date : Option (List ℕ)
  pub fixed_amount : Option ℤ
  pub discount_rate : Option ℤ
  pub billing_period_count : Option ℕ

pub data ValidationError : Type 0 where
  ends_before_start bad_payment_cycle room_unavailable : ValidationError
  primary_not_member duplicate_member no_tier duplicate_threshold : ValidationError
  rent_free_needs_range discount_needs_periods bad_date_range no_period_count : ValidationError
  bad_fixed_amount bad_rate : ValidationError

unfoldable pub assert_contract_dates : ℕ → ℕ → ℕ → Result ValidationError (Unit {0})
assert_contract_dates start end cycle = do
  throw_if (ltb end start) ends_before_start
  throw_if (ltb cycle 1 || ltb 12 cycle) bad_payment_cycle

abbrev pub is_unavailable : RoomStatus → Bool
is_unavailable sold = true
is_unavailable for_sale = true
is_unavailable disabled = true
is_unavailable _ = false

abbrev pub assert_contract_room_status : RoomStatus → Result ValidationError (Unit {0})
assert_contract_room_status status = throw_if (is_unavailable status) room_unavailable

unfoldable pub assert_primary_tenant : List ℕ → ℕ → Result ValidationError (Unit {0})
assert_primary_tenant tenants primary = do
  throw_if (not (contains primary tenants)) primary_not_member
  throw_if (has_duplicates tenants) duplicate_member

-- Of a tier only the threshold is read.
unfoldable pub assert_pricing_tiers : List ℕ → Result ValidationError (Unit {0})
assert_pricing_tiers [] = err no_tier
assert_pricing_tiers (t ∷ ts) = throw_if (has_duplicates (t ∷ ts)) duplicate_threshold

abbrev pub is_rent_free : ConcessionType → Bool
is_rent_free rent_free = true
is_rent_free _ = false

abbrev pub is_fixed : ConcessionType → Bool
is_fixed ConcessionType.fixed_amount = true
is_fixed _ = false

abbrev pub is_percentage : ConcessionType → Bool
is_percentage percentage = true
is_percentage _ = false

abbrev pub is_date_range : ApplyMode → Bool
is_date_range date_range = true
is_date_range _ = false

abbrev pub is_billing_periods : ApplyMode → Bool
is_billing_periods billing_periods = true
is_billing_periods _ = false

-- `!date`.
abbrev pub is_missing : Option (List ℕ) → Bool
is_missing none = true
is_missing (some []) = true
is_missing (some (c ∷ cs)) = false

abbrev pub is_before : Option (List ℕ) → Option (List ℕ) → Bool
is_before (some left) (some right) = text_before left right
is_before _ _ = false

abbrev pub is_no_count : Option ℕ → Bool
is_no_count none = true
is_no_count (some n) = n == 0

-- `!amount || Number(amount) < 0`, and the same with an upper bound of 1.
abbrev pub is_bad_amount : Option ℤ → Bool
is_bad_amount none = true
is_bad_amount (some a) = ltb_ℤ a (pos 0)

abbrev pub is_bad_rate : Option ℤ → Bool
is_bad_rate none = true
is_bad_rate (some a) = ltb_ℤ a (pos 0) || ltb_ℤ (pos 10000) a

unfoldable pub assert_concession : Concession → Result ValidationError (Unit {0})
assert_concession item = do
  throw_if (is_rent_free item.concession_type && not (is_date_range item.apply_mode))
      rent_free_needs_range
  throw_if (not (is_rent_free item.concession_type) && not (is_billing_periods item.apply_mode))
      discount_needs_periods
  throw_if
      (is_date_range item.apply_mode
        && (is_missing item.start_date
            || is_missing item.end_date
            || is_before item.end_date item.start_date))
      bad_date_range
  throw_if (is_billing_periods item.apply_mode && is_no_count item.billing_period_count)
      no_period_count
  throw_if (is_fixed item.concession_type && is_bad_amount item.fixed_amount) bad_fixed_amount
  throw_if (is_percentage item.concession_type && is_bad_rate item.discount_rate) bad_rate

unfoldable pub assert_concessions : List Concession → Result ValidationError (Unit {0})
assert_concessions [] = ok tt
assert_concessions (item ∷ items) = assert_concession item >> assert_concessions items

-- `isEffectiveRoomOccupancyContract`.
abbrev pub is_occupying : ContractStatus → Bool
is_occupying pending_start = true
is_occupying active = true
is_occupying ContractStatus.pending_checkout = true
is_occupying _ = false

abbrev pub is_preserved : RoomStatus → Bool
is_preserved maintenance = true
is_preserved for_sale = true
is_preserved sold = true
is_preserved disabled = true
is_preserved _ = false

pub data RoomAction : Type 0 where
  keep_current_status recalculate : RoomAction

unfoldable pub resolve_room_status_after_contract_void :
    RoomStatus → List ContractStatus → RoomAction × RoomStatus
resolve_room_status_after_contract_void current later =
    if is_preserved current || any is_occupying later
    then (keep_current_status, current)
    else (recalculate, empty)
