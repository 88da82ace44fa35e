-- ===== src/Contracts/Lifecycle/Locks.antt =====
-- When a transaction of backend/src/contracts/contract-lifecycle.service.ts gets its locks
-- (backend/src/contracts/contract-room-locks.ts), and what it keeps of the rows' keys.
use srms.Prelude.{
  ℕ, ◌==◌, ◌≡◌, refl, ◌⊎◌, sym, ap, ◌∙◌, true, false, List, [], ◌∷◌, filter, Bool-cases, inl, inr,
  arith, ==_refl, All,
}
use srms.Prelude.Fallible.{ok, ◌>>◌, >>=-ok_elim}
use srms.Payments.Store.{update_where}
use srms.Payments.Store.Counts.{count, count-update_where, find-count, All-find}
use srms.Contracts.Lifecycle.{
  Contract, Tables, LockedContractRoomIdentity, Transition, activation, expiry, contract_data,
  is_target, is_target_room, Committed, resolve_contract_room_id, lock_room_by_id,
  lock_target_contract_in_room, lock_room_and_target_contract, move_room, transact,
}

List-cases {ℓ} :
    {A : Type ℓ} (xs : List A) → (xs ≡ []) ⊎ ((a : A) × (rest : List A) × (xs ≡ a ∷ rest))
List-cases [] = inl refl
List-cases (x ∷ xs) = inr (x, xs, refl)

abbrev pub rooms_of : ℕ → Tables → ℕ
rooms_of room_id s = count (λ r. r.id == room_id) s.rooms

abbrev pub contracts_of : ℕ → Tables → ℕ
contracts_of id s = count (λ c. c.id == id) s.contracts

-- Every contract's room is in its table, once.
abbrev pub HasRooms : Tables → Type 0
HasRooms s = All (λ (c : Contract). rooms_of c.room_id s ≡ 1) s.contracts

pub lock_lem :
    (id : ℕ) (s : Tables)
    → HasRooms s
    → contracts_of id s ≡ 1
    → (l : LockedContractRoomIdentity) × (lock_room_and_target_contract id s ≡ ok l)
unfolding lock_room_and_target_contract resolve_contract_room_id lock_room_by_id
    lock_target_contract_in_room
lock_lem id s rooms one =
    find-count (λ (c : Contract). c.id == id) s.contracts one
      (λ c chosen found hit.
        let room : rooms_of c.room_id s ≡ 1 =
          All-find (λ c. rooms_of c.room_id s ≡ 1) (λ c. c.id == id) s.contracts rooms found in
        (
          record { id = c.id; room_id = c.room_id },
          ground (arith, found, room, chosen, hit, ==_refl c.room_id),
        ))

one_room :
    (room_id : ℕ) (s : Tables) {u : Unit {0}}
    → lock_room_by_id room_id s ≡ ok u
    → rooms_of room_id s ≡ 1
unfolding lock_room_by_id
one_room room_id s h = ground arith

target_room :
    (id room_id : ℕ) (s : Tables) (l : LockedContractRoomIdentity)
    → lock_target_contract_in_room id room_id s ≡ ok l
    → l.room_id ≡ room_id
unfolding lock_target_contract_in_room
target_room id room_id s l h =
    elim (List-cases (filter (λ (c : Contract). c.id == id) s.contracts)) [
      | inl empty ↦ ground arith
      | inr (c, rest, e) ↦ ground arith
    ]

-- A lock that is given is on one room.
pub lock_room :
    (id : ℕ) (s : Tables) (l : LockedContractRoomIdentity)
    → lock_room_and_target_contract id s ≡ ok l
    → rooms_of l.room_id s ≡ 1
unfolding lock_room_and_target_contract
lock_room id s l h =
    >>=-ok_elim (resolve_contract_room_id id s)
      (λ room_id. lock_room_by_id room_id s >> lock_target_contract_in_room id room_id s) h
      (λ room_id resolved h1.
        >>=-ok_elim (lock_room_by_id room_id s) (λ _. lock_target_contract_in_room id room_id s) h1
          (λ u locked h2.
            ap (λ r. rooms_of r s) (target_room id room_id s l h2) ∙ one_room room_id s locked))

pub data-id : (t : Transition) (now : ℕ) (c : Contract) → (contract_data t now c).id ≡ c.id
data-id activation now c = refl
data-id expiry now c = refl

pub data-room :
    (t : Transition) (now : ℕ) (c : Contract) → (contract_data t now c).room_id ≡ c.room_id
data-room activation now c = refl
data-room expiry now c = refl

module _ (t : Transition) (now : ℕ) (c : Contract) (s : Tables) where
  -- The contracts and rooms after the transaction's updates.
  abbrev pub contracts_after : List Contract
  contracts_after = update_where (is_target t c.id) (contract_data t now) s.contracts

  pub record IsCommitted (done : Committed) : Type 0 where
    pub updated : done.tables.contracts ≡ contracts_after
    pub counted : done.changed ≡ (count (is_target t c.id) s.contracts == 1)
    pub rooms_kept : (room_id : ℕ) → rooms_of room_id done.tables ≡ rooms_of room_id s

  abbrev written : Tables
  written = record s { contracts = contracts_after }

  move_room-contracts :
      (room_id : ℕ) (s : Tables) → (move_room t c now room_id s).contracts ≡ s.contracts
  unfolding move_room
  move_room-contracts room_id s = refl

  move_room-rooms :
      (room_id id : ℕ) (s : Tables) → rooms_of id (move_room t c now room_id s) ≡ rooms_of id s
  unfolding move_room
  move_room-rooms room_id id s =
      count-update_where (λ r. r.id == id) (is_target_room t room_id) _ (λ r hit. refl) s.rooms

  pub transact-IsCommitted : (done : Committed) → transact t c now s ≡ ok done → IsCommitted done
  unfolding transact written
  transact-IsCommitted done h =
      >>=-ok_elim (lock_room_and_target_contract c.id s) _ h (λ l locked rest.
        elim (Bool-cases (count (is_target t c.id) s.contracts == 1)) [
          | inl one ↦
              let e : done
                  ≡ record { tables = move_room t c now l.room_id written; changed = true } =
                ground arith in
              rw e (record {
                updated = move_room-contracts l.room_id written;
                counted = sym one;
                rooms_kept = λ id. move_room-rooms l.room_id id written;
              })
          | inr not_one ↦
              let e : done ≡ record { tables = written; changed = false } = ground arith in
              rw e (record { updated = refl; counted = sym not_one; rooms_kept = λ id. refl })
        ])
