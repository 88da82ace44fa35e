-- ===== src/Contracts/Lifecycle/Rounds.antt =====
-- The loops of the daily job of backend/src/contracts/contract-lifecycle.service.ts.
use srms.Prelude.{
  ℕ, suc, ◌+◌, ◌==◌, ◌≡◌, refl, sym, ap, ◌∙◌, Bool, true, false, if◌then◌else◌, List, [], ◌∷◌, map,
  filter, length, Bool-cases, inl, inr, arith, All,
}
use srms.Prelude.Fallible.{ok, Result-cases}
use srms.Payments.Store.{update_where}
use srms.Payments.Store.Sweep
use srms.Payments.Store.Sweep.{HasKeys}
use srms.Payments.Store.Counts.{
  count, count-update_where, All-update_where, All-map_of, count-filter, count-true,
}
use srms.Contracts.Lifecycle.{
  Contract, Tables, Transition, contract_data, from_status, has_status, is_target, Committed,
  transact, Ended, transact_all,
}
use srms.Contracts.Lifecycle.Locks.{
  rooms_of, contracts_of, HasRooms, lock_lem, data-id, data-room, IsCommitted, transact-IsCommitted,
}

abbrev pub id_of : Contract → ℕ
id_of c = c.id

-- A job's rounds for one transition: what the round for a contract makes of its row.
module _ (t : Transition) (now : ℕ) where
  abbrev pub write : Contract → Contract → Contract
  write c x = if has_status (from_status t) x then contract_data t now x else x

  pub write-id : (c x : Contract) → (write c x).id ≡ x.id
  write-id c x = elim (Bool-cases (has_status (from_status t) x)) [
    | inl hit ↦ rw hit (data-id t now x)
    | inr miss ↦ rw miss refl
  ]

  abbrev pub changes : List Contract → List Contract → List Contract
  changes cs rows = Sweep.changes id_of (λ _. false) write write-id cs rows

  update_where-write :
      (c : Contract) (rows : List Contract)
      → update_where (is_target t c.id) (contract_data t now) rows
        ≡ update_where (λ x. x.id == c.id) (write c) rows
  update_where-write c [] = refl
  update_where-write c (x ∷ rows) = elim (Bool-cases (x.id == c.id)) [
    | inl own ↦ rw (own, update_where-write c rows) refl
    | inr other ↦ rw (other, update_where-write c rows) refl
  ]

  transact_lem :
      (c : Contract) (s : Tables)
      → HasRooms s
      → contracts_of c.id s ≡ 1
      → (done : Committed) × (transact t c now s ≡ ok done)
  unfolding transact
  transact_lem c s rooms one =
      let locked = (lock_lem c.id s rooms one).1 in
      elim (Result-cases (transact t c now s)) [
        | inl (e, failed) ↦ absurd (ground arith)
        | inr (done, h) ↦ (done, h)
      ]

  pub record IsReady (cs : List Contract) (s : Tables) : Type 0 where
    pub has_rooms : HasRooms s
    pub are_contracts : All (λ (c : Contract). contracts_of c.id s ≡ 1) cs
    pub are_targets : All (λ (c : Contract). count (is_target t c.id) s.contracts ≡ 1) cs
    pub are_apart : HasKeys id_of cs

  target-apart :
      (c x y : Contract)
      → (x.id == c.id) ≡ false
      → is_target t c.id y ≡ true
      → is_target t x.id (contract_data t now y) ≡ is_target t x.id y
  target-apart c x y apart hit =
      let other : (y.id == x.id) ≡ false = ground arith in rw (data-id t now y, other) refl

  target-others :
      (c : Contract) (cs rows : List Contract)
      → Sweep.Without id_of c.id cs
      → All (λ (x : Contract). count (is_target t x.id) rows ≡ 1) cs
      → All
          (λ (x : Contract).
            count (is_target t x.id) (update_where (is_target t c.id) (contract_data t now) rows)
            ≡ 1)
          cs
  target-others c [] rows apart h = tt
  target-others c (x ∷ cs) rows apart h = (
    count-update_where (is_target t x.id) (is_target t c.id) (contract_data t now)
          (λ y hit. target-apart c x y apart.0 hit) rows
        ∙ h.0,
    target-others c cs rows apart.1 h.1,
  )

  transact-IsReady :
      (c : Contract) (cs : List Contract) (s : Tables) (done : Committed)
      → IsReady (c ∷ cs) s
      → IsCommitted t now c s done
      → IsReady cs done.tables
  transact-IsReady c cs s done ready committed = record {
    has_rooms = rw committed.updated (
        All-update_where _ (is_target t c.id) (contract_data t now)
          (λ x h. rw (data-room t now x) h) s.contracts
          (All-map_of _ _ (λ x h. committed.rooms_kept x.room_id ∙ h) s.contracts ready.has_rooms));
    are_contracts =
        All-map_of _ _
          (λ x h. rw committed.updated (
            count-update_where (λ y. y.id == x.id) (is_target t c.id) (contract_data t now)
              (λ y hit. rw (data-id t now y) refl) s.contracts
            ∙ h))
          cs ready.are_contracts.1;
    are_targets =
        rw committed.updated (target-others c cs s.contracts ready.are_apart.0 ready.are_targets.1);
    are_apart = ready.are_apart.1;
  }

  pub filter-IsReady :
      (p : Contract → Bool) (g : Contract → Contract)
      → ((a : Contract) → (g a).id ≡ a.id)
      → ((a : Contract) → p a ≡ true → has_status (from_status t) (g a) ≡ true)
      → (rows : List Contract) (s : Tables) → s.contracts ≡ map g rows
      → HasKeys id_of rows
      → HasRooms s
      → IsReady (filter p rows) s
  filter-IsReady p g same passes rows s e keys rooms = record {
    has_rooms = rooms;
    are_contracts = rw e (
        All-map_of _ _ (λ x h. sym (count-true (λ y. y.id == x.id) (map g rows)) ∙ h)
          (filter p rows) (count-filter id_of (λ _. true) g same p rows keys (λ a h. refl)));
    are_targets = rw e (count-filter id_of (has_status (from_status t)) g same p rows keys passes);
    are_apart = Sweep.filter-HasKeys id_of p rows keys;
  }

  pub record IsDone (cs : List Contract) (s : Tables) (n : ℕ) (e : Ended ℕ) : Type 0 where
    pub result_is : e.result ≡ ok (n + length cs)
    pub contracts_are : e.tables.contracts ≡ changes cs s.contracts
    pub rooms_stay : (room_id : ℕ) → rooms_of room_id e.tables ≡ rooms_of room_id s

  transact_all-next :
      (c : Contract) (cs : List Contract) (s : Tables) (n : ℕ) (done : Committed)
      → transact t c now s ≡ ok done
      → done.changed ≡ true
      → transact_all t (c ∷ cs) now s n ≡ transact_all t cs now done.tables (suc n)
  unfolding transact_all
  transact_all-next c cs s n done h changed = ground (arith, h, changed)

  pub transact_all-IsDone :
      (cs : List Contract) (s : Tables) (n : ℕ)
      → IsReady cs s
      → IsDone cs s n (transact_all t cs now s n)
  unfolding transact_all
  transact_all-IsDone [] s n ready = record {
    result_is = ap ok (omega arith);
    contracts_are = refl;
    rooms_stay = λ room_id. refl;
  }
  transact_all-IsDone (c ∷ cs) s n ready =
      let (done, h) = transact_lem c s ready.has_rooms ready.are_contracts.0 in
      let committed = transact-IsCommitted t now c s done h in
      let changed : done.changed ≡ true = ground (arith, committed.counted, ready.are_targets.0) in
      let more =
        transact_all-IsDone cs done.tables (suc n) (transact-IsReady c cs s done ready committed) in
      rw (transact_all-next c cs s n done h changed) (record {
        result_is = more.result_is ∙ ap ok (omega arith);
        contracts_are =
            more.contracts_are
            ∙ ap (changes cs) (committed.updated ∙ update_where-write c s.contracts);
        rooms_stay = λ room_id. more.rooms_stay room_id ∙ committed.rooms_kept room_id;
      })
