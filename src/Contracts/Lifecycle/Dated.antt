-- ===== src/Contracts/Lifecycle/Dated.antt =====
-- What the daily job of backend/src/contracts/contract-lifecycle.service.ts is meant to make of a
-- contract on a day, beside what it does.
use srms.Prelude.{
  ℕ, ◌==◌, ◌≡◌, refl, ap, ◌∙◌, Bool, true, false, if◌then◌else◌, some, map, ltb, arith,
}
use mathlib.Core.Path.{fun_ext}
use srms.Prelude.Fallible.{ok}
use srms.Payments.Store.Counts.{count}
use srms.Contracts.Validation.{ContractStatus}
use srms.Contracts.Lifecycle.{
  Contract, Tables, activation, expiry, status_code, is_due, Ended, LifecycleResult, run,
}
use srms.Contracts.Lifecycle.Run.{advanced, IsConsistent, run-IsAdvanced}

abbrev pub is_waiting : ContractStatus → Bool
is_waiting ContractStatus.pending_start = true
is_waiting _ = false

abbrev pub is_running : ContractStatus → Bool
is_running ContractStatus.active = true
is_running _ = false

-- The contract waits, and its first day is the day or one before it.
abbrev pub starts : ℕ → Contract → Bool
starts day c = if ltb day c.start_date then false else is_waiting c.status

-- The contract is active, and its last day is the day or one before it.
abbrev pub ends : ℕ → Contract → Bool
ends day c = if ltb day c.end_date then false else is_running c.status

-- A contract after a run on a day at a time.
abbrev pub dated : ℕ → ℕ → Contract → Contract
dated day now c =
    if starts day c
    then record {
      id = c.id;
      contract_no = c.contract_no;
      room_id = c.room_id;
      start_date = c.start_date;
      end_date = c.end_date;
      status = ContractStatus.active;
      activated_at = some now;
    }
    else if ends day c
    then record {
      id = c.id;
      contract_no = c.contract_no;
      room_id = c.room_id;
      start_date = c.start_date;
      end_date = c.end_date;
      status = ContractStatus.pending_checkout;
      activated_at = c.activated_at;
    }
    else c

waiting_lem : (s : ContractStatus) → (status_code s == 1) ≡ is_waiting s
waiting_lem ContractStatus.draft = refl
waiting_lem ContractStatus.pending_start = refl
waiting_lem ContractStatus.active = refl
waiting_lem ContractStatus.pending_checkout = refl
waiting_lem ContractStatus.ended = refl
waiting_lem ContractStatus.voided = refl

running_lem : (s : ContractStatus) → (status_code s == 2) ≡ is_running s
running_lem ContractStatus.draft = refl
running_lem ContractStatus.pending_start = refl
running_lem ContractStatus.active = refl
running_lem ContractStatus.pending_checkout = refl
running_lem ContractStatus.ended = refl
running_lem ContractStatus.voided = refl

starts_lem : (day : ℕ) (c : Contract) → is_due activation day c ≡ starts day c
starts_lem day c = rw (waiting_lem c.status) (ground arith)

ends_lem : (day : ℕ) (c : Contract) → is_due expiry day c ≡ ends day c
ends_lem day c = rw (running_lem c.status) (ground arith)

dated_lem : (day now : ℕ) (c : Contract) → advanced day now c ≡ dated day now c
dated_lem day now c = rw (starts_lem day c, ends_lem day c) refl

module _ (contract_business_day : ℕ → ℕ) (now : ℕ) (s : Tables) where
  pub record IsRun (e : Ended LifecycleResult) : Type 0 where
    pub result_is :
        e.result
        ≡ ok (record {
          activated = count (starts (contract_business_day now)) s.contracts;
          pending_checkout = count (ends (contract_business_day now)) s.contracts;
        })
    pub contracts_are : e.tables.contracts ≡ map (dated (contract_business_day now) now) s.contracts
    pub still_consistent : IsConsistent e.tables

  -- On tables where a contract's id is its own and its room is there once, the run ends without an
  -- exception; each waiting contract whose first day has come becomes active from this time on,
  -- each contract that was active before and whose last day has come waits for its checkout, every
  -- other contract and every other column is as before; the run reports how many these are, and
  -- leaves such tables.
  pub run-IsRun : IsConsistent s → IsRun (run contract_business_day now s)
  run-IsRun consistent =
      let r = run-IsAdvanced contract_business_day now s consistent in
      let day = contract_business_day now in
      record {
        result_is =
            r.advanced_result
            ∙ ap
                (λ (p : (Contract → Bool)). ok (record {
                  activated = count p s.contracts;
                  pending_checkout = count (is_due expiry day) s.contracts;
                }))
                (fun_ext (starts_lem day))
            ∙ ap
                (λ (p : (Contract → Bool)). ok (record {
                  activated = count (starts day) s.contracts;
                  pending_checkout = count p s.contracts;
                }))
                (fun_ext (ends_lem day));
        contracts_are =
            r.advanced_contracts ∙ ap (λ g. map g s.contracts) (fun_ext (dated_lem day now));
        still_consistent = r.still_consistent;
      }
