-- ===== src/Contracts/Lifecycle/Examples.antt =====
-- Three contracts and their rooms, and the theorems at them.
use srms.Prelude.{ℕ, ◌+◌, ◌/◌, ◌==◌, ◌≡◌, refl, true, all, if◌then◌else◌, none, [], ◌∷◌, arith}
use srms.Contracts.Validation.{RoomStatus, ContractStatus}
use srms.Contracts.Lifecycle.{Contract, Room, Tables, run}
use srms.Contracts.Lifecycle.Run.{is_up_to_date, run_twice}
use srms.Contracts.Lifecycle.Dated.{IsRun, run-IsRun}
use srms.Contracts.Lifecycle.History.{IsLogged, run-IsLogged}

abbrev day_of : ℕ → ℕ
day_of now = now / 86400

abbrev contract : ℕ → ContractStatus → Contract
contract id status = record {
  id = id;
  contract_no = id ∷ [];
  room_id = id;
  start_date = 90 + id;
  end_date = 98 + id;
  status = status;
  activated_at = none;
}

abbrev room : ℕ → RoomStatus → Room
room id status = record { id = id; room_status = status; status_changed_at = 0 }

abbrev tables : Tables
tables = record {
  contracts =
      contract 1 ContractStatus.pending_start
      ∷ contract 2 ContractStatus.active
      ∷ contract 30 ContractStatus.pending_start
      ∷ [];
  rooms =
      room 1 RoomStatus.pending_move_in
      ∷ room 2 RoomStatus.rented
      ∷ room 30 RoomStatus.maintenance
      ∷ [];
  histories = [];
}

abbrev initial : ℕ → RoomStatus
initial id =
    if id == 1
    then RoomStatus.pending_move_in
    else if id == 2
    then RoomStatus.rented
    else RoomStatus.maintenance

-- The hundredth day.
abbrev now : ℕ
now = 8640000

run-IsRun_example : IsRun day_of now tables (run day_of now tables)
run-IsRun_example = run-IsRun day_of now tables (ground arith, ground arith)

run_twice_example :
    all
      (is_up_to_date (day_of now))
      (run day_of 8640009 (run day_of now tables).tables).tables.contracts
    ≡ true
run_twice_example = run_twice day_of now 8640009 tables refl (ground arith, ground arith)

run-IsLogged_example : IsLogged initial (run day_of now tables).tables
run-IsLogged_example = run-IsLogged initial day_of now tables (refl, (refl, (refl, tt)))
