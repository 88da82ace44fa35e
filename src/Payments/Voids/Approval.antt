-- ===== src/Payments/Voids/Approval.antt =====
-- What the approval of a request to void leaves of the payment, its allocations and the request.
use srms.Prelude.{
  ℕ, ◌==◌, ◌≡◌, ◌≢◌, refl, ap, ◌∙◌, sym, true, if◌then◌else◌, Option-cases, some, List, [], ◌∷◌,
  map, filter, Bool-cases, inl, inr, arith,
}
use mathlib.Core.Option.{some-injective}
use srms.Prelude.Fallible.{ok, >>=-ok_elim, Result-cases}
use srms.Prelude.Int.{pos}
use srms.Payments.Allocation.{is_super_admin}
use srms.Payments.RefundStatus.{ApprovalStatus}
use srms.Payments.Store.{
  AuditEvent, Database, AuthUser, Payment, PaymentAllocation, PaymentStatus, VoidRequest,
  update_where, find_payment, find_contract, is_pending, reopen_supplemental_balance,
}
use srms.Payments.Store.Rows.{map_option, find-update_self, find-id}
use srms.Payments.Voids.{is_confirmed, find_request, reverse_payment, approve, allocations_of}
use srms.Payments.Voids.Undo.{Undoing, undo_adjustments, bill_states, is_live}
use srms.Payments.Voids.Steps.{Reversing, reverse_allocations, reverse_prepayment}
use srms.Payments.Store.Sweep.{HasKeys, Without}
use srms.Payments.Voids.Reversal.{id_of, fully_reversed, reverse_allocations-all}
use srms.Payments.Voids.Kept.{
  Kept, undo_adjustments-Kept, reverse_prepayment-Kept, reopen-Kept, finish-Kept,
}

abbrev pub voided_by : VoidRequest → AuthUser → Payment → Payment
voided_by request user p = record p {
  status = PaymentStatus.voided;
  void_reason = some request.reason;
  voided_by = some user.id;
}

abbrev pub all_reversed : ℕ → List PaymentAllocation → List PaymentAllocation
all_reversed p rows = map (λ a. if a.payment_id == p then fully_reversed a else a) rows

record Reversed (request : VoidRequest) (payment : Payment) (user : AuthUser) (db db' : Database)
    : Type 0 where
  rows : db'.allocations ≡ all_reversed payment.id db.allocations
  payments :
      db'.payments ≡ update_where (λ p. p.id == payment.id) (voided_by request user) db.payments
  requests : db'.void_requests ≡ db.void_requests

reverse_payment-Reversed :
    (request : VoidRequest) (payment : Payment) (user : AuthUser) (db db' : Database)
    → HasKeys id_of db.allocations
    → reverse_payment request payment user db ≡ ok db'
    → Reversed request payment user db db'
unfolding reverse_payment
reverse_payment-Reversed request payment user db db' keys h =
    let undone : Undoing =
      undo_adjustments payment.id user (filter (is_live payment.id) db.adjustments)
        (record { db = db; states = bill_states (allocations_of payment.id db) db.bills }) in
    let kept : Kept db undone.db =
      undo_adjustments-Kept payment.id user (filter (is_live payment.id) db.adjustments)
        (record { db = db; states = bill_states (allocations_of payment.id db) db.bills }) in
    let start : Reversing = record {
      bills = undone.db.bills;
      allocations = undone.db.allocations;
      reversed_total = pos 0;
    } in
    >>=-ok_elim (reverse_allocations undone.states (allocations_of payment.id db) start) _ h
      (λ reversed loop h1.
        >>=-ok_elim (reverse_prepayment payment.contract_id payment.id _) _ h1 (λ repaid repays h2.
          >>=-ok_elim
            (reopen_supplemental_balance _ payment.contract_id payment.category
              reversed.reversed_total)
            _ h2
            (λ reopened reopens h3.
              let k2 : Kept
                  (record undone.db { bills = reversed.bills; allocations = reversed.allocations })
                  repaid =
                reverse_prepayment-Kept payment.contract_id payment.id _ repaid repays in
              let k3 : Kept
                  (record repaid {
                    payments =
                        update_where (λ p. p.id == payment.id) (voided_by request user)
                          repaid.payments;
                  })
                  reopened =
                reopen-Kept _ reopened payment.contract_id payment.category reversed.reversed_total
                  reopens in
              let k4 : Kept reopened db' =
                finish-Kept (AuditEvent.payment_void_approved request.reason payment.id) request
                  user payment.contract_id reopened db' h3 in
              let (rows, _) =
                reverse_allocations-all undone.states (λ a. a.payment_id == payment.id)
                  db.allocations start reversed keys kept.allocations_kept loop in
              record {
                rows = k4.allocations_kept ∙ k3.allocations_kept ∙ k2.allocations_kept ∙ rows;
                payments =
                    k4.payments_kept
                    ∙ k3.payments_kept
                    ∙ ap (update_where (λ p. p.id == payment.id) (voided_by request user))
                        (k2.payments_kept ∙ kept.payments_kept);
                requests =
                    k4.requests_kept ∙ k3.requests_kept ∙ k2.requests_kept ∙ kept.requests_kept;
              })))

abbrev pub approved_by : AuthUser → VoidRequest → VoidRequest
approved_by user r = record r {
  approval_status = ApprovalStatus.approved;
  approved_by = some user.id;
}

pub record IsVoided (id : ℕ) (user : AuthUser) (db db' : Database) : Type 0 where
  pub request : VoidRequest
  pub payment : Payment
  pub request_found : find_request id db.void_requests ≡ some request
  pub payment_found : find_payment request.payment_id db.payments ≡ some payment
  pub by_super_admin : is_super_admin user.role ≡ true
  pub was_pending : is_pending request.approval_status ≡ true
  pub was_confirmed : is_confirmed payment.status ≡ true
  pub allocations_reversed : db'.allocations ≡ all_reversed payment.id db.allocations
  pub payment_voided : find_payment payment.id db'.payments ≡ some (voided_by request user payment)
  pub request_approved : find_request id db'.void_requests ≡ some (approved_by user request)

-- On a table of allocations with distinct ids: a successful approval was made by a super
-- administrator on a pending request for a confirmed payment. The payment is then voided with the
-- request's reason, the request is approved by the user, and every allocation of the payment is
-- reversed in full while all others are as before.
pub approve-IsVoided :
    (id : ℕ) (user : AuthUser) (db db' : Database)
    → HasKeys id_of db.allocations
    → approve id user db ≡ ok db'
    → IsVoided id user db db'
unfolding approve
approve-IsVoided id user db db' keys h = elim (Option-cases (find_request id db.void_requests)) [
  | inl no_row ↦ absurd (ground arith)
  | inr (r, fr) ↦ elim (Option-cases (find_payment r.payment_id db.payments)) [
    | inl no_payment ↦ absurd (ground arith)
    | inr (p, fp) ↦ elim (Option-cases (find_contract p.contract_id db.contracts)) [
      | inl no_contract ↦ absurd (ground arith)
      | inr (c, fc) ↦ elim (Result-cases (reverse_payment r p user db)) [
        | inl (e, failed) ↦ absurd (ground arith)
        | inr (done, reverses) ↦
            let made : Reversed r p user db done =
              reverse_payment-Reversed r p user db done keys reverses in
            let last : db' ≡ record done {
              void_requests = update_where (λ x. x.id == id) (approved_by user) done.void_requests;
            } =
              ground arith in
            let same_id : p.id ≡ r.payment_id = find-id (λ x. x.id) r.payment_id db.payments p fp in
            record {
              request = r;
              payment = p;
              request_found = fr;
              payment_found = fp;
              by_super_admin = ground arith;
              was_pending = ground arith;
              was_confirmed = ground arith;
              allocations_reversed = ap (λ d. d.allocations) last ∙ made.rows;
              payment_voided =
                  ap (λ d. find_payment p.id d.payments) last
                  ∙ ap (find_payment p.id) made.payments
                  ∙ find-update_self (λ x. x.id) (voided_by r user) (λ x. refl) p.id db.payments
                  ∙ ap (map_option (voided_by r user))
                      (ap (λ i. find_payment i db.payments) same_id ∙ fp);
              request_approved =
                  ap (λ d. find_request id d.void_requests) last
                  ∙ find-update_self (λ x. x.id) (approved_by user) (λ x. refl) id
                      done.void_requests
                  ∙ ap (map_option (approved_by user)) (ap (find_request id) made.requests ∙ fr);
            }
      ]
    ]
  ]
]

all_reversed-Without :
    (p id : ℕ) (rows : List PaymentAllocation)
    → Without id_of id rows
    → Without id_of id (all_reversed p rows)
all_reversed-Without p id [] h = tt
all_reversed-Without p id (a ∷ rows) h = elim (Bool-cases (a.payment_id == p)) [
  | inl own ↦ rw own (h.0, all_reversed-Without p id rows h.1)
  | inr other ↦ rw other (h.0, all_reversed-Without p id rows h.1)
]

all_reversed-HasKeys :
    (p : ℕ) (rows : List PaymentAllocation)
    → HasKeys id_of rows
    → HasKeys id_of (all_reversed p rows)
all_reversed-HasKeys p [] h = tt
all_reversed-HasKeys p (a ∷ rows) h = elim (Bool-cases (a.payment_id == p)) [
  | inl own ↦ rw own (all_reversed-Without p a.id rows h.0, all_reversed-HasKeys p rows h.1)
  | inr other ↦ rw other (all_reversed-Without p a.id rows h.0, all_reversed-HasKeys p rows h.1)
]

-- On a table of allocations with distinct ids: after a successful approval no second one of the
-- same request succeeds, whoever asks for it.
void_once :
    (id : ℕ) (user user' : AuthUser) (db db' db'' : Database)
    → HasKeys id_of db.allocations
    → approve id user db ≡ ok db'
    → approve id user' db' ≢ ok db''
void_once id user user' db db' db'' keys h again =
    let first = approve-IsVoided id user db db' keys h in
    let keys' : HasKeys id_of db'.allocations =
      rw first.allocations_reversed (all_reversed-HasKeys first.payment.id db.allocations keys) in
    let second = approve-IsVoided id user' db' db'' keys' again in
    let same : second.request ≡ approved_by user first.request =
      some-injective _ _ (sym second.request_found ∙ first.request_approved) in
    let pending : is_pending (approved_by user first.request).approval_status ≡ true =
      ap (λ r. is_pending r.approval_status) (sym same) ∙ second.was_pending in
    absurd (ground arith)
