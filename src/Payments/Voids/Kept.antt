-- ===== src/Payments/Voids/Kept.antt =====
-- The tables that the steps of a void leave alone: allocations, payments and requests.
use srms.Prelude.{ℕ, ◌≡◌, refl, ◌∙◌, Option-cases, List, [], ◌∷◌, ◌++◌, Bool-cases, inl, inr, arith}
use srms.Prelude.Fallible.{Result, ok}
use srms.Prelude.Int.{ℤ, pos, leb_ℤ, ltb_ℤ}
use srms.Payments.Store.{
  AuditEvent, Database, AuthUser, PaymentCategory, VoidRequest, BillAdjustment, PaymentError,
  find_bill, is_pending, is_supplemental, is_completed, supplemental_settlement,
  reopen_supplemental_balance, refresh_snapshot,
}
use srms.Payments.Voids.Undo.{Undoing, undo_adjustment, undo_adjustments, reverse_adjustment}
use srms.Payments.Voids.Steps.{reverse_prepayment, active_prepayment, prepayment_balance}

-- The parts of the database that a step leaves alone.
pub record Kept (db db' : Database) : Type 0 where
  pub allocations_kept : db'.allocations ≡ db.allocations
  pub payments_kept : db'.payments ≡ db.payments
  pub requests_kept : db'.void_requests ≡ db.void_requests

Kept-refl : (db : Database) → Kept db db
Kept-refl db = record { allocations_kept = refl; payments_kept = refl; requests_kept = refl }

Kept-trans : (a b c : Database) → Kept a b → Kept b c → Kept a c
Kept-trans a b c h k = record {
  allocations_kept = k.allocations_kept ∙ h.allocations_kept;
  payments_kept = k.payments_kept ∙ h.payments_kept;
  requests_kept = k.requests_kept ∙ h.requests_kept;
}

Kept-eq : (a b c : Database) → Kept a b → c ≡ b → Kept a c
Kept-eq a b c h e = rw e h

undo_adjustment-Kept :
    (p : ℕ) (user : AuthUser) (a : BillAdjustment) (s : Undoing)
    → Kept s.db (undo_adjustment p user a s).db
unfolding undo_adjustment reverse_adjustment
undo_adjustment-Kept p user a s = elim (Bool-cases (is_pending a.approval_status)) [
  | inl cancelled ↦
      rw cancelled (record { allocations_kept = refl; payments_kept = refl; requests_kept = refl })
  | inr live ↦ elim (Option-cases (find_bill a.rent_bill_id s.states)) [
    | inl unknown ↦ rw (live, unknown) (Kept-refl s.db)
    | inr (b, found) ↦
        rw (live, found)
          (record { allocations_kept = refl; payments_kept = refl; requests_kept = refl })
  ]
]

pub undo_adjustments-Kept :
    (p : ℕ) (user : AuthUser) (xs : List BillAdjustment) (s : Undoing)
    → Kept s.db (undo_adjustments p user xs s).db
unfolding undo_adjustments
undo_adjustments-Kept p user [] s = Kept-refl s.db
undo_adjustments-Kept p user (a ∷ xs) s =
    Kept-trans s.db (undo_adjustment p user a s).db _ (undo_adjustment-Kept p user a s)
      (undo_adjustments-Kept p user xs (undo_adjustment p user a s))

pub reverse_prepayment-Kept :
    (c p : ℕ) (db db' : Database) → reverse_prepayment c p db ≡ ok db' → Kept db db'
unfolding reverse_prepayment
reverse_prepayment-Kept c p db db' h =
    elim (Bool-cases (leb_ℤ (active_prepayment p db.prepayments) (pos 0))) [
      | inl nothing ↦ Kept-eq db db db' (Kept-refl db) (ground arith)
      | inr something ↦
          elim (Bool-cases
            (ltb_ℤ (prepayment_balance c db.prepayments) (active_prepayment p db.prepayments))) [
              | inl short ↦ absurd (ground arith)
              | inr covered ↦ record {
                allocations_kept = ground arith;
                payments_kept = ground arith;
                requests_kept = ground arith;
              }
            ]
    ]

pub reopen-Kept :
    (db db' : Database) (c : ℕ) (category : PaymentCategory) (amount : ℤ)
    → reopen_supplemental_balance db c category amount ≡ ok db'
    → Kept db db'
unfolding reopen_supplemental_balance
reopen-Kept db db' c category amount h = elim (Bool-cases (is_supplemental category)) [
  | inr other ↦ Kept-eq db db db' (Kept-refl db) (ground arith)
  | inl supplemental ↦ elim (Option-cases (supplemental_settlement db c)) [
    | inl none_left ↦ Kept-eq db db db' (Kept-refl db) (ground arith)
    | inr (s, found) ↦ elim (Bool-cases (is_completed s.status)) [
      | inl completed ↦ absurd (ground arith)
      | inr lasting ↦ record {
        allocations_kept = ground arith;
        payments_kept = ground arith;
        requests_kept = ground arith;
      }
    ]
  ]
]

refresh-Kept : (db : Database) (c : ℕ) → Kept db (refresh_snapshot db c)
unfolding refresh_snapshot
refresh-Kept db c = record { allocations_kept = refl; payments_kept = refl; requests_kept = refl }

pub finish-Kept :
    (event : AuditEvent) (request : VoidRequest) (user : AuthUser) (c : ℕ) (db db' : Database)
    → ◌≡◌ {A = Result PaymentError Database}
        (ok (
          refresh_snapshot
            (record db {
              audit_logs =
                  db.audit_logs
                  ++ record { event = event; entity_id = request.id; operator_id = user.id } ∷ [];
            })
            c))
        (ok db')
    → Kept db db'
unfolding refresh_snapshot
finish-Kept event request user c db db' h = record {
  allocations_kept = ground arith;
  payments_kept = ground arith;
  requests_kept = ground arith;
}
