-- ===== src/Contracts/Lifecycle/History.antt =====
-- The history of the rooms' statuses that the transactions of
-- backend/src/contracts/contract-lifecycle.service.ts write, replayed.
use srms.Prelude.{
  ℕ, suc, ◌==◌, ◌≡◌, refl, ap, ◌∙◌, true, false, if◌then◌else◌, Option, none, some, List, [], ◌∷◌,
  ◌++◌, filter, Bool-cases, inl, inr, arith, All,
}
use srms.Prelude.Fallible.{ok, >>=-ok_elim, Result-cases}
use srms.Payments.Store.{update_where}
use srms.Payments.Store.Counts.{count, count-and, All-both, All-neither}
use srms.Contracts.Validation.{RoomStatus}
use srms.Contracts.Lifecycle.{
  Contract, Room, RoomStatusHistory, Tables, Transition, activation, expiry, room_code, room_from,
  room_to, has_room_status, is_target, is_target_room, contract_data, history, move_room, Committed,
  transact, transact_all, is_due, run, lock_room_and_target_contract,
}
use srms.Contracts.Lifecycle.Locks.{rooms_of, lock_room}

-- A room's status after an entry, if the entry starts from the status that the room has.
abbrev pub replay_one : ℕ → RoomStatusHistory → RoomStatus → Option RoomStatus
replay_one id h status =
    if h.room_id == id
    then if room_code status == room_code h.from_status then some h.to_status else none
    else some status

abbrev pub and_then : Option RoomStatus → (RoomStatus → Option RoomStatus) → Option RoomStatus
and_then none f = none
and_then (some s) f = f s

abbrev pub replay : ℕ → RoomStatus → List RoomStatusHistory → Option RoomStatus
replay id status [] = some status
replay id status (h ∷ hs) = and_then (replay_one id h status) (λ s. replay id s hs)

replay-append :
    (id : ℕ) (status : RoomStatus) (hs : List RoomStatusHistory) (h : RoomStatusHistory)
    → replay id status (hs ++ h ∷ []) ≡ and_then (replay id status hs) (replay_one id h)
replay-append id status [] h =
    elim (replay_one id h status) as (λ o. and_then o (λ s. some s) ≡ o) [
      | none ↦ refl
      | some s ↦ refl
    ]
replay-append id status (x ∷ hs) h =
    elim (replay_one id x status)
      as (λ o.
        and_then o (λ s. replay id s (hs ++ h ∷ []))
        ≡ and_then (and_then o (λ s. replay id s hs)) (replay_one id h)) [
          | none ↦ refl
          | some s ↦ replay-append id s hs h
        ]

-- The statuses that the rooms had when the history began.
module _ (initial : ℕ → RoomStatus) where
  abbrev pub IsReplayed : List RoomStatusHistory → Room → Type 0
  IsReplayed hs r = replay r.id (initial r.id) hs ≡ some r.room_status

  abbrev pub IsLogged : Tables → Type 0
  IsLogged s = All (IsReplayed s.histories) s.rooms

  module _ (t : Transition) (now room_id : ℕ) where
    abbrev moved : Room → Room
    moved r = record r { room_status = room_to t; status_changed_at = now }

    move-IsReplayed :
        (c : Contract) (hs : List RoomStatusHistory) (r : Room)
        → ((r.id == room_id) ≡ true → has_room_status (room_from t) r ≡ true)
        → IsReplayed hs r
        → IsReplayed
            (hs ++ history t c room_id ∷ [])
            (if is_target_room t room_id r then moved r else r)
    move-IsReplayed c hs r passes logged =
        let h = history t c room_id in
        let replayed : replay r.id (initial r.id) (hs ++ h ∷ []) ≡ replay_one r.id h r.room_status =
          replay-append r.id (initial r.id) hs h
          ∙ ap (λ o. and_then o (replay_one r.id h)) logged in
        elim (Bool-cases (r.id == room_id)) [
          | inl own ↦
              let swapped : (room_id == r.id) ≡ true = ground arith in
              let status = passes own in rw (own, status) (replayed ∙ rw (swapped, status) refl)
          | inr other ↦
              let swapped : (room_id == r.id) ≡ false = ground arith in
              rw other (replayed ∙ rw swapped refl)
        ]

    move-all :
        (c : Contract) (hs : List RoomStatusHistory) (rs : List Room)
        → All (λ (r : Room). (r.id == room_id) ≡ true → has_room_status (room_from t) r ≡ true) rs
        → All (IsReplayed hs) rs
        → All
            (IsReplayed (hs ++ history t c room_id ∷ []))
            (update_where (is_target_room t room_id) moved rs)
    move-all c hs [] passes logged = tt
    move-all c hs (r ∷ rs) passes logged =
        (move-IsReplayed c hs r passes.0 logged.0, move-all c hs rs passes.1 logged.1)

    keep-all :
        (hs : List RoomStatusHistory) (rs : List Room)
        → All (λ r. is_target_room t room_id r ≡ false) rs
        → All (IsReplayed hs) rs
        → All (IsReplayed hs) (update_where (is_target_room t room_id) moved rs)
    keep-all hs [] misses logged = tt
    keep-all hs (r ∷ rs) misses logged = rw misses.0 (logged.0, keep-all hs rs misses.1 logged.1)

    move_room-IsLogged :
        (c : Contract) (s : Tables)
        → rooms_of room_id s ≡ 1
        → IsLogged s
        → IsLogged (move_room t c now room_id s)
    unfolding move_room
    move_room-IsLogged c s one logged =
        let p = λ (r : Room). r.id == room_id in
        elim (Bool-cases (count (is_target_room t room_id) s.rooms == 1)) [
          | inl found ↦ rw found (
              move-all c s.histories s.rooms
                (All-both p (has_room_status (room_from t)) s.rooms (ground arith)) logged)
          | inr missed ↦ rw missed (
              keep-all s.histories s.rooms
                (All-neither p (has_room_status (room_from t)) s.rooms
                  (ground (arith, count-and p (has_room_status (room_from t)) s.rooms)))
                logged)
        ]

  transact-IsLogged :
      (t : Transition) (c : Contract) (now : ℕ) (s : Tables) (done : Committed)
      → transact t c now s ≡ ok done
      → IsLogged s
      → IsLogged done.tables
  unfolding transact
  transact-IsLogged t c now s done h logged =
      >>=-ok_elim (lock_room_and_target_contract c.id s) _ h (λ l locked rest.
        let written = record s {
          contracts = update_where (is_target t c.id) (contract_data t now) s.contracts;
        } in
        let moved_on =
          move_room-IsLogged t now l.room_id c written (lock_room c.id s l locked) logged in
        elim (Bool-cases (count (is_target t c.id) s.contracts == 1)) [
          | inl one ↦
              let e : done.tables ≡ move_room t c now l.room_id written = ground arith in
              rw e moved_on
          | inr not_one ↦ let e : done.tables ≡ written = ground arith in rw e logged
        ])

  transact_all-IsLogged :
      (t : Transition) (cs : List Contract) (now : ℕ) (s : Tables) (n : ℕ)
      → IsLogged s
      → IsLogged (transact_all t cs now s n).tables
  unfolding transact_all
  transact_all-IsLogged t [] now s n logged = logged
  transact_all-IsLogged t (c ∷ cs) now s n logged = elim (Result-cases (transact t c now s)) [
    | inl (e, failed) ↦
        let stops : (transact_all t (c ∷ cs) now s n).tables ≡ s = ground arith in rw stops logged
    | inr (done, h) ↦
        let n' = if done.changed then suc n else n in
        let next : (transact_all t (c ∷ cs) now s n).tables
            ≡ (transact_all t cs now done.tables n').tables =
          ground arith in
        rw next (
          transact_all-IsLogged t cs now done.tables n' (transact-IsLogged t c now s done h logged))
  ]

  -- If the history of every room, replayed from the room's first status, follows on from entry to
  -- entry and ends in the status that the room has, then so it is after a run, also one that an
  -- exception has ended.
  pub run-IsLogged :
      (contract_business_day : ℕ → ℕ) (now : ℕ) (s : Tables)
      → IsLogged s
      → IsLogged (run contract_business_day now s).tables
  unfolding run
  run-IsLogged contract_business_day now s logged =
      let day = contract_business_day now in
      let pending = filter (is_due activation day) s.contracts in
      let active = filter (is_due expiry day) s.contracts in
      let first = transact_all activation pending now s 0 in
      let second = transact_all expiry active now first.tables 0 in
      let logged_first = transact_all-IsLogged activation pending now s 0 logged in
      let logged_second = transact_all-IsLogged expiry active now first.tables 0 logged_first in
      elim (Result-cases first.result) [
        | inl (e, failed) ↦
            let stops : (run contract_business_day now s).tables ≡ first.tables = ground arith in
            rw stops logged_first
        | inr (n, ran) ↦ elim (Result-cases second.result) [
          | inl (e, failed) ↦
              let stops : (run contract_business_day now s).tables ≡ second.tables = ground arith in
              rw stops logged_second
          | inr (m, ended) ↦
              let ends : (run contract_business_day now s).tables ≡ second.tables = ground arith in
              rw ends logged_second
        ]
      ]
