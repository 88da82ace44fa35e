-- ===== src/Payments/Voids/Reversal.antt =====
-- What the loop over a payment's allocations leaves of them, and the total that it reports.
use srms.Prelude.{
  ℕ, ◌==◌, ◌≡◌, refl, ap, ◌∙◌, sym, Bool, if◌then◌else◌, Option-cases, List, [], ◌∷◌, map, filter,
  find, Bool-cases, inl, inr, arith,
}
use srms.Prelude.Fallible.{ok, ok_parts}
use srms.Prelude.Int.{ℤ, pos, ◌+ℤ◌, ◌-ℤ◌, leb_ℤ, max_ℤ, sum_ℤ, int_laws, le_of_leb_ℤ, lt_of_leb_ℤ}
use srms.Payments.Store.{PaymentAllocation, RentBill}
use srms.Payments.Store.Sweep
use srms.Payments.Store.Sweep.{HasKeys}
use srms.Payments.Voids.Steps.{Reversing, reverse_allocation, reverse_allocations}

-- What is open of an allocation, and the allocation with all of it reversed.
abbrev pub open_amount : PaymentAllocation → ℤ
open_amount a = max_ℤ (pos 0) (a.allocated_amount -ℤ a.reversed_amount)

abbrev pub fully_reversed : PaymentAllocation → PaymentAllocation
fully_reversed a = record a { reversed_amount = max_ℤ a.allocated_amount a.reversed_amount }

abbrev pub id_of : PaymentAllocation → ℕ
id_of a = a.id

-- One round's change of the rows.
abbrev is_closed : PaymentAllocation → Bool
is_closed a = leb_ℤ (a.allocated_amount -ℤ a.reversed_amount) (pos 0)

abbrev write : PaymentAllocation → PaymentAllocation → PaymentAllocation
write a x = record x {
  reversed_amount = a.reversed_amount +ℤ (a.allocated_amount -ℤ a.reversed_amount);
}

abbrev change : PaymentAllocation → List PaymentAllocation → List PaymentAllocation
change a rows = Sweep.change id_of is_closed write (λ a x. refl) a rows

abbrev changes : List PaymentAllocation → List PaymentAllocation → List PaymentAllocation
changes xs rows = Sweep.changes id_of is_closed write (λ a x. refl) xs rows

abbrev pub total_open : List PaymentAllocation → ℤ
total_open xs = sum_ℤ (map open_amount xs)

step_rows :
    (states : List RentBill) (a : PaymentAllocation) (s s' : Reversing)
    → reverse_allocation states a s ≡ ok s'
    → (s'.allocations ≡ change a s.allocations)
      × (s'.reversed_total ≡ s.reversed_total +ℤ open_amount a)
unfolding reverse_allocation
step_rows states a s s' h =
    elim (Bool-cases (leb_ℤ (a.allocated_amount -ℤ a.reversed_amount) (pos 0))) [
      | inl closed ↦
          let total : s'.reversed_total ≡ s.reversed_total = ground arith in
          (
            ground arith,
            rw total (
                omega
                  (int_laws, le_of_leb_ℤ (a.allocated_amount -ℤ a.reversed_amount) (pos 0) closed)),
          )
      | inr unsettled ↦ elim (Option-cases (find (λ b. b.id == a.rent_bill_id) states)) [
        | inl missing ↦ absurd (ground arith)
        | inr (state, found) ↦
            let total : s'.reversed_total
                ≡ s.reversed_total +ℤ (a.allocated_amount -ℤ a.reversed_amount) =
              ground arith in
            (
              ground arith,
              rw total (
                  omega (
                    int_laws,
                    lt_of_leb_ℤ (a.allocated_amount -ℤ a.reversed_amount) (pos 0) unsettled,
                  )),
            )
      ]
    ]

+ℤ_assoc : (a b c : ℤ) → a +ℤ b +ℤ c ≡ a +ℤ (b +ℤ c)
+ℤ_assoc a b c = omega int_laws

+ℤ_zero : (a : ℤ) → a +ℤ pos 0 ≡ a
+ℤ_zero a = omega int_laws

loop_rows :
    (states : List RentBill) (xs : List PaymentAllocation) (s s' : Reversing)
    → reverse_allocations states xs s ≡ ok s'
    → (s'.allocations ≡ changes xs s.allocations)
      × (s'.reversed_total ≡ s.reversed_total +ℤ total_open xs)
unfolding reverse_allocations sum_ℤ
loop_rows states [] s s' h =
    let same : s' ≡ s = ground arith in
    (ap (λ r. r.allocations) same, ap (λ r. r.reversed_total) same ∙ sym (+ℤ_zero s.reversed_total))
loop_rows states (a ∷ xs) s s' h =
    let (t, first, rest) =
      ok_parts (reverse_allocation states a s) (reverse_allocations states xs) h in
    let (rows, total) = step_rows states a s t first in
    let (rows', total') = loop_rows states xs t s' rest in
    (
      rows' ∙ ap (changes xs) rows,
      total'
          ∙ ap (λ t. t +ℤ total_open xs) total
          ∙ +ℤ_assoc s.reversed_total (open_amount a) (total_open xs),
    )

-- Each round leaves its row reversed in full.
own_lem : (a : PaymentAllocation) → (if is_closed a then a else write a a) ≡ fully_reversed a
own_lem a = elim (Bool-cases (is_closed a)) [
  | inl closed ↦
      let same : a.reversed_amount ≡ max_ℤ a.allocated_amount a.reversed_amount =
        omega (int_laws, le_of_leb_ℤ (a.allocated_amount -ℤ a.reversed_amount) (pos 0) closed) in
      rw closed (ap (λ r. record a { reversed_amount = r }) same)
  | inr unsettled ↦
      let all_of_it : a.reversed_amount +ℤ (a.allocated_amount -ℤ a.reversed_amount)
          ≡ max_ℤ a.allocated_amount a.reversed_amount =
        omega (int_laws, lt_of_leb_ℤ (a.allocated_amount -ℤ a.reversed_amount) (pos 0) unsettled) in
      rw unsettled (ap (λ r. record a { reversed_amount = r }) all_of_it)
]

changes-filter :
    (p : PaymentAllocation → Bool) (rows : List PaymentAllocation)
    → HasKeys id_of rows
    → changes (filter p rows) rows ≡ map (λ a. if p a then fully_reversed a else a) rows
changes-filter p rows keys =
    Sweep.changes-filter id_of is_closed write (λ a x. refl) p rows keys ∙ λ i.
    map (λ a. if p a then own_lem a i else a) rows

-- On a table of allocations with distinct ids, of which a test chooses those of the loop: if the
-- loop succeeds, each chosen row is reversed in full and each other row is as before, and the
-- reported total has grown by what was open of the chosen rows.
pub reverse_allocations-all :
    (states : List RentBill) (p : PaymentAllocation → Bool) (rows : List PaymentAllocation)
    (s s' : Reversing)
    → HasKeys id_of rows
    → s.allocations ≡ rows
    → reverse_allocations states (filter p rows) s ≡ ok s'
    → (s'.allocations ≡ map (λ a. if p a then fully_reversed a else a) rows)
      × (s'.reversed_total ≡ s.reversed_total +ℤ total_open (filter p rows))
reverse_allocations-all states p rows s s' keys start h =
    let (changed, total) = loop_rows states (filter p rows) s s' h in
    (changed ∙ ap (changes (filter p rows)) start ∙ changes-filter p rows keys, total)
