-- ===== src/Contracts/Lifecycle/Run.antt =====
-- The daily job of backend/src/contracts/contract-lifecycle.service.ts as a whole.
use srms.Prelude.{
  ℕ, ◌≡◌, refl, sym, ap, ◌∙◌, Bool, true, false, ◌&&◌, not, if◌then◌else◌, List, [], ◌∷◌, map, all,
  filter, length, Bool-cases, inl, inr, arith, All,
}
use mathlib.Core.Path.{fun_ext}
use srms.Prelude.Fallible.{ok}
use srms.Payments.Store.Sweep
use srms.Payments.Store.Sweep.{HasKeys}
use srms.Payments.Store.Counts.{count}
use srms.Contracts.Validation.{ContractStatus}
use srms.Contracts.Lifecycle.{
  Contract, Tables, activation, expiry, contract_data, has_status, Ended, transact_all,
  LifecycleResult, is_due, run,
}
use srms.Contracts.Lifecycle.Locks.{rooms_of, HasRooms}
use srms.Contracts.Lifecycle.Rounds.{
  id_of, write, write-id, changes, IsDone, transact_all-IsDone, filter-IsReady,
}

-- What a run on a day makes of a contract.
abbrev pub advanced : ℕ → ℕ → Contract → Contract
advanced day now c =
    if is_due activation day c
    then contract_data activation now c
    else if is_due expiry day c
    then contract_data expiry now c
    else c

abbrev started : ℕ → ℕ → Contract → Contract
started day now c = if is_due activation day c then contract_data activation now c else c

started-id : (day now : ℕ) (c : Contract) → (started day now c).id ≡ c.id
started-id day now c = elim (Bool-cases (is_due activation day c)) [
  | inl due ↦ rw due refl
  | inr kept ↦ rw kept refl
]

started-own :
    (day now : ℕ) (c : Contract)
    → (if is_due activation day c then write activation now c c else c) ≡ started day now c
started-own day now c = elim (Bool-cases (has_status ContractStatus.pending_start c)) [
  | inl waiting ↦ rw waiting refl
  | inr other ↦ rw other refl
]

started-room : (day now : ℕ) (c : Contract) → (started day now c).room_id ≡ c.room_id
started-room day now c = elim (Bool-cases (is_due activation day c)) [
  | inl due ↦ rw due refl
  | inr kept ↦ rw kept refl
]

-- A contract that is to expire was active at the start of the run.
active-started : (day now : ℕ) (c : Contract) → is_due expiry day c ≡ true → started day now c ≡ c
active-started day now c h =
    let kept : is_due activation day c ≡ false = ground arith in rw kept refl

expired-own :
    (day now : ℕ) (c : Contract)
    → (if is_due expiry day c then write expiry now c (started day now c) else started day now c)
      ≡ advanced day now c
expired-own day now c = elim (Bool-cases (is_due expiry day c)) [
  | inl due ↦
      let active : has_status ContractStatus.active c ≡ true = ground arith in
      let kept : is_due activation day c ≡ false = ground arith in rw (due, kept, active) refl
  | inr kept ↦ rw kept refl
]

-- A contract's id is its own, and its room is in its table once.
abbrev pub IsConsistent : Tables → Type 0
IsConsistent s = HasKeys id_of s.contracts × HasRooms s

advanced-id : (day now : ℕ) (c : Contract) → (advanced day now c).id ≡ c.id
advanced-id day now c = elim (Bool-cases (is_due activation day c)) [
  | inl due ↦ rw due refl
  | inr kept ↦ elim (Bool-cases (is_due expiry day c)) [
    | inl expired ↦ rw (kept, expired) refl
    | inr stays ↦ rw (kept, stays) refl
  ]
]

advanced-room : (day now : ℕ) (c : Contract) → (advanced day now c).room_id ≡ c.room_id
advanced-room day now c = elim (Bool-cases (is_due activation day c)) [
  | inl due ↦ rw due refl
  | inr kept ↦ elim (Bool-cases (is_due expiry day c)) [
    | inl expired ↦ rw (kept, expired) refl
    | inr stays ↦ rw (kept, stays) refl
  ]
]

map-HasRooms :
    (g : Contract → Contract) (s s' : Tables)
    → ((c : Contract) → (g c).room_id ≡ c.room_id)
    → ((room_id : ℕ) → rooms_of room_id s' ≡ rooms_of room_id s)
    → (cs : List Contract) → All (λ (c : Contract). rooms_of c.room_id s ≡ 1) cs
    → All (λ (c : Contract). rooms_of c.room_id s' ≡ 1) (map g cs)
map-HasRooms g s s' same kept [] h = tt
map-HasRooms g s s' same kept (c ∷ cs) h =
    (rw (same c) (kept c.room_id ∙ h.0), map-HasRooms g s s' same kept cs h.1)

module _ (contract_business_day : ℕ → ℕ) (now : ℕ) (s : Tables) where
  abbrev day : ℕ
  day = contract_business_day now

  pub record IsAdvanced (e : Ended LifecycleResult) : Type 0 where
    pub advanced_result :
        e.result
        ≡ ok (record {
          activated = count (is_due activation day) s.contracts;
          pending_checkout = count (is_due expiry day) s.contracts;
        })
    pub advanced_contracts : e.tables.contracts ≡ map (advanced day now) s.contracts
    pub still_consistent : IsConsistent e.tables

  abbrev pending : List Contract
  pending = filter (is_due activation day) s.contracts

  abbrev active : List Contract
  active = filter (is_due expiry day) s.contracts

  -- The tables between the two loops.
  abbrev first : Ended ℕ
  first = transact_all activation pending now s 0

  first-IsDone : IsConsistent s → IsDone activation now pending s 0 first
  first-IsDone (keys, rooms) = transact_all-IsDone activation now pending s 0 (
      filter-IsReady activation now (is_due activation day) (λ c. c) (λ c. refl)
        (λ c h. ground arith) s.contracts s (sym (Sweep.map_same s.contracts)) keys rooms)

  first-contracts : IsConsistent s → first.tables.contracts ≡ map (started day now) s.contracts
  first-contracts (keys, rooms) =
      (first-IsDone (keys, rooms)).contracts_are
      ∙ Sweep.changes-filter id_of (λ _. false) (write activation now) (write-id activation now)
          (is_due activation day) s.contracts keys
      ∙ ap (λ g. map g s.contracts) (fun_ext (started-own day now))

  first-HasRooms : IsConsistent s → HasRooms first.tables
  first-HasRooms (keys, rooms) =
      let done = first-IsDone (keys, rooms) in
      let moved : HasRooms first.tables = rw (first-contracts (keys, rooms)) (
        map-HasRooms (started day now) s first.tables (started-room day now) done.rooms_stay
          s.contracts rooms) in
      moved

  abbrev second : Ended ℕ
  second = transact_all expiry active now first.tables 0

  second-IsDone : IsConsistent s → IsDone expiry now active first.tables 0 second
  second-IsDone (keys, rooms) = transact_all-IsDone expiry now active first.tables 0 (
      filter-IsReady expiry now (is_due expiry day) (started day now) (started-id day now)
        (λ c h. rw (active-started day now c h) (ground arith)) s.contracts first.tables
        (first-contracts (keys, rooms)) keys (first-HasRooms (keys, rooms)))

  second-contracts : IsConsistent s → second.tables.contracts ≡ map (advanced day now) s.contracts
  second-contracts (keys, rooms) =
      (second-IsDone (keys, rooms)).contracts_are
      ∙ ap (changes expiry now active) (first-contracts (keys, rooms))
      ∙ Sweep.changes-map id_of (λ _. false) (write expiry now) (write-id expiry now)
          (started day now) (started-id day now) (is_due expiry day) s.contracts keys
      ∙ ap (λ g. map g s.contracts) (fun_ext (expired-own day now))

  second-HasRooms : IsConsistent s → HasRooms second.tables
  second-HasRooms (keys, rooms) =
      let kept : (room_id : ℕ) → rooms_of room_id second.tables ≡ rooms_of room_id s = λ room_id.
        (second-IsDone (keys, rooms)).rooms_stay room_id
        ∙ (first-IsDone (keys, rooms)).rooms_stay room_id in
      let moved : HasRooms second.tables = rw (second-contracts (keys, rooms)) (
        map-HasRooms (advanced day now) s second.tables (advanced-room day now) kept s.contracts
          rooms) in
      moved

  second-IsConsistent : IsConsistent s → IsConsistent second.tables
  second-IsConsistent (keys, rooms) =
      let own : HasKeys id_of second.tables.contracts =
        rw (second-contracts (keys, rooms))
          (Sweep.map-HasKeys id_of (advanced day now) (advanced-id day now) s.contracts keys) in
      (own, second-HasRooms (keys, rooms))

  run-loops :
      (n m : ℕ)
      → first.result ≡ ok n
      → second.result ≡ ok m
      → run contract_business_day now s ≡ record {
        tables = second.tables;
        result = ok (record { activated = n; pending_checkout = m });
      }
  unfolding run
  run-loops n m e1 e2 = ground arith

  pub run-IsAdvanced : IsConsistent s → IsAdvanced (run contract_business_day now s)
  run-IsAdvanced consistent =
      let e1 : first.result ≡ ok (length pending) =
        (first-IsDone consistent).result_is ∙ ap ok (omega arith) in
      let e2 : second.result ≡ ok (length active) =
        (second-IsDone consistent).result_is ∙ ap ok (omega arith) in
      rw (run-loops _ _ e1 e2) (record {
        advanced_result = refl;
        advanced_contracts = second-contracts consistent;
        still_consistent = second-IsConsistent consistent;
      })

-- No contract waits whose start has come, or is active although its end has come.
abbrev pub is_up_to_date : ℕ → Contract → Bool
is_up_to_date day c = not (is_due activation day c) && not (is_due expiry day c)

advanced-twice :
    (day now later : ℕ) (c : Contract)
    → is_up_to_date day (advanced day later (advanced day now c)) ≡ true
advanced-twice day now later c = ground arith

map-all :
    (f g : Contract → Contract) (p : Contract → Bool)
    → ((c : Contract) → p (f (g c)) ≡ true)
    → (cs : List Contract) → all p (map f (map g cs)) ≡ true
map-all f g p h [] = refl
map-all f g p h (c ∷ cs) = ground (arith, h c, map-all f g p h cs)

-- Two runs on one day, from tables where a contract's id is its own and its room is there once,
-- leave no contract waiting whose start has come, and none active whose end has come.
pub run_twice :
    (contract_business_day : ℕ → ℕ) (now later : ℕ) (s : Tables)
    → contract_business_day later ≡ contract_business_day now
    → IsConsistent s
    → all
        (is_up_to_date (contract_business_day now))
        (run contract_business_day later (run contract_business_day now s).tables).tables.contracts
      ≡ true
run_twice contract_business_day now later s same_day consistent =
    let one = run-IsAdvanced contract_business_day now s consistent in
    let two =
      run-IsAdvanced contract_business_day later (run contract_business_day now s).tables
        one.still_consistent in
    let day = contract_business_day now in
    ap (all (is_up_to_date day)) (
      two.advanced_contracts
      ∙ ap (λ d. map (advanced d later) (run contract_business_day now s).tables.contracts) same_day
      ∙ ap (map (advanced day later)) one.advanced_contracts)
    ∙ map-all (advanced day later) (advanced day now) (is_up_to_date day)
        (advanced-twice day now later) s.contracts
