-- ===== src/Contracts/Lifecycle.antt =====
-- The daily job that starts contracts and lets them expire, with the locks that it takes:
-- backend/src/contracts/contract-lifecycle.service.ts and contract-room-locks.ts beside it.
-- A transaction is one step; the job is a sequence of them, and what an earlier one has committed
-- stays when a later one fails.
pub mod Locks
pub mod Rounds
pub mod Run
pub mod Dated
pub mod History
mod Examples
use srms.Prelude.{
  ℕ, suc, ◌==◌, leb, Bool, true, false, not, ◌&&◌, ◌||◌, if◌then◌else◌, Option, none, some, List,
  [], ◌∷◌, ◌++◌, filter, find, length,
}
use srms.Prelude.Fallible.{Result, ok, err, ◌>>=◌, ◌>>◌, throw_if}
use srms.Payments.Store.{update_where}
use srms.Contracts.Validation.{RoomStatus, ContractStatus}

pub record Contract : Type 0 where
  pub id : ℕ
  pub contract_no : List ℕ
  pub room_id : ℕ
  pub start_date : ℕ
  pub end_date : ℕ
  pub status : ContractStatus
  pub activated_at : Option ℕ

pub record Room : Type 0 where
  pub id : ℕ
  pub room_status : RoomStatus
  pub status_changed_at : ℕ

-- The texts that the job composes of a contract's number.
pub data ChangeReason : Type 0 where
  takes_effect expires : List ℕ → ChangeReason

pub record RoomStatusHistory : Type 0 where
  pub room_id : ℕ
  pub from_status : RoomStatus
  pub to_status : RoomStatus
  pub change_reason : ChangeReason
  pub business_id : ℕ

pub record Tables : Type 0 where
  pub contracts : List Contract
  pub rooms : List Room
  pub histories : List RoomStatusHistory

pub data LifecycleError : Type 0 where
  contract_missing room_missing contract_moved : LifecycleError

pub record LockedContractRoomIdentity : Type 0 where
  pub id : ℕ
  pub room_id : ℕ

abbrev pub status_code : ContractStatus → ℕ
status_code ContractStatus.draft = 0
status_code ContractStatus.pending_start = 1
status_code ContractStatus.active = 2
status_code ContractStatus.pending_checkout = 3
status_code ContractStatus.ended = 4
status_code ContractStatus.voided = 5

abbrev pub room_code : RoomStatus → ℕ
room_code RoomStatus.empty = 0
room_code RoomStatus.pending_move_in = 1
room_code RoomStatus.rented = 2
room_code RoomStatus.pending_checkout = 3
room_code RoomStatus.maintenance = 4
room_code RoomStatus.for_sale = 5
room_code RoomStatus.sold = 6
room_code RoomStatus.disabled = 7
room_code RoomStatus.other = 8

abbrev pub has_status : ContractStatus → Contract → Bool
has_status status c = status_code c.status == status_code status

abbrev pub has_room_status : RoomStatus → Room → Bool
has_room_status status r = room_code r.room_status == room_code status

unfoldable pub resolve_contract_room_id : ℕ → Tables → Result LifecycleError ℕ
resolve_contract_room_id id s = elim (find (λ c. c.id == id) s.contracts) [
  | none ↦ err contract_missing
  | some c ↦ ok c.room_id
]

unfoldable pub lock_room_by_id : ℕ → Tables → Result LifecycleError (Unit {0})
lock_room_by_id room_id s =
    throw_if (not (length (filter (λ r. r.id == room_id) s.rooms) == 1)) room_missing

unfoldable pub lock_target_contract_in_room :
    ℕ → ℕ → Tables → Result LifecycleError LockedContractRoomIdentity
lock_target_contract_in_room id room_id s =
    let contracts = filter (λ c. c.id == id) s.contracts in
    elim contracts [
      | [] ↦ err contract_moved
      | target ∷ others ↦
          throw_if
            (not (length (target ∷ others) == 1)
              || not (target.id == id)
              || not (target.room_id == room_id))
            contract_moved
          >> ok (record { id = target.id; room_id = target.room_id })
    ]

unfoldable pub lock_room_and_target_contract :
    ℕ → Tables → Result LifecycleError LockedContractRoomIdentity
lock_room_and_target_contract id s = resolve_contract_room_id id s >>= λ room_id.
    lock_room_by_id room_id s >> lock_target_contract_in_room id room_id s

-- What `activate` and `beginCheckout` differ in.
pub data Transition : Type 0 where
  activation expiry : Transition

abbrev pub from_status : Transition → ContractStatus
from_status activation = ContractStatus.pending_start
from_status expiry = ContractStatus.active

abbrev pub room_from : Transition → RoomStatus
room_from activation = RoomStatus.pending_move_in
room_from expiry = RoomStatus.rented

abbrev pub room_to : Transition → RoomStatus
room_to activation = RoomStatus.rented
room_to expiry = RoomStatus.pending_checkout

abbrev pub contract_data : Transition → ℕ → Contract → Contract
contract_data activation now c = record c {
  status = ContractStatus.active;
  activated_at = some now;
}
contract_data expiry now c = record c { status = ContractStatus.pending_checkout }

abbrev pub change_reason : Transition → List ℕ → ChangeReason
change_reason activation contract_no = takes_effect contract_no
change_reason expiry contract_no = expires contract_no

-- The `where` of the two `updateMany`.
abbrev pub is_target : Transition → ℕ → Contract → Bool
is_target t id c = (c.id == id) && has_status (from_status t) c

abbrev pub is_target_room : Transition → ℕ → Room → Bool
is_target_room t room_id r = (r.id == room_id) && has_room_status (room_from t) r

-- What a transaction commits, and what it returns.
pub record Committed : Type 0 where
  pub tables : Tables
  pub changed : Bool

abbrev pub history : Transition → Contract → ℕ → RoomStatusHistory
history t contract room_id = record {
  room_id = room_id;
  from_status = room_from t;
  to_status = room_to t;
  change_reason = change_reason t contract.contract_no;
  business_id = contract.id;
}

unfoldable pub move_room : Transition → Contract → ℕ → ℕ → Tables → Tables
move_room t contract now room_id s = record s {
  rooms =
      update_where (is_target_room t room_id)
        (λ r. record r { room_status = room_to t; status_changed_at = now }) s.rooms;
  histories =
      if length (filter (is_target_room t room_id) s.rooms) == 1
      then s.histories ++ history t contract room_id ∷ []
      else s.histories;
}

-- `activate` and `beginCheckout`; `contract` is as the job read it before.
unfoldable pub transact : Transition → Contract → ℕ → Tables → Result LifecycleError Committed
transact t contract now s = lock_room_and_target_contract contract.id s >>= λ locked.
    let count = length (filter (is_target t contract.id) s.contracts) in
    let s' = record s {
      contracts = update_where (is_target t contract.id) (contract_data t now) s.contracts;
    } in
    ok (
      if not (count == 1)
      then record { tables = s'; changed = false }
      else record { tables = move_room t contract now locked.room_id s'; changed = true })

-- The state when a loop or the job ends, with its result or the exception that ended it.
pub record Ended (A : Type 0) : Type 0 where
  pub tables : Tables
  pub result : Result LifecycleError A

unfoldable pub transact_all : Transition → List Contract → ℕ → Tables → ℕ → Ended ℕ
transact_all t [] now s n = record { tables = s; result = ok n }
transact_all t (c ∷ cs) now s n = elim (transact t c now s) [
  | err e ↦ record { tables = s; result = err e }
  | ok done ↦ transact_all t cs now done.tables (if done.changed then suc n else n)
]

pub record LifecycleResult : Type 0 where
  pub activated : ℕ
  pub pending_checkout : ℕ

abbrev pub is_due : Transition → ℕ → Contract → Bool
is_due activation day c = has_status ContractStatus.pending_start c && leb c.start_date day
is_due expiry day c = has_status ContractStatus.active c && leb c.end_date day

abbrev pub finish : ℕ → Ended ℕ → Ended LifecycleResult
finish activated s = elim s.result [
  | err e ↦ record { tables = s.tables; result = err e }
  | ok n ↦ record {
    tables = s.tables;
    result = ok (record { activated = activated; pending_checkout = n });
  }
]

-- The day of `now` in the contracts' time zone is the runtime's.
module _ (contract_business_day : ℕ → ℕ) where
  unfoldable pub run : ℕ → Tables → Ended LifecycleResult
  run now s =
      let day = contract_business_day now in
      let pending = filter (is_due activation day) s.contracts in
      let active = filter (is_due expiry day) s.contracts in
      let first = transact_all activation pending now s 0 in
      elim first.result [
        | err e ↦ record { tables = first.tables; result = err e }
        | ok activated ↦ finish activated (transact_all expiry active now first.tables 0)
      ]
