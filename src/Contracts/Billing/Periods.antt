-- ===== src/Contracts/Billing/Periods.antt =====
-- The loop of `buildBillingPeriods`, and `overlapDays` over its periods.
use srms.Prelude.{
  ℕ, zero, suc, ◌+◌, ◌-◌, ◌≤◌, ◌<◌, ◌≡◌, refl, ap, true, false, some, List, [], ◌∷◌, leb, ltb,
  arith, Bool-cases, inl, inr, min, max,
}
use srms.Calendar.{
  Date, date, month_length, month_offset, day_number, utc_date, set_date_zero, previous_day,
  next_day, year_after, month_after,
}
use srms.Calendar.Laws.{
  IsValid, month_length_range, month_offset-suc, year_offset-suc, december, next_day-IsValid,
  day_number-next_day, previous_day-IsValid, day_number-previous_day,
}
use srms.Contracts.Billing.{
  BillingPeriod, add_months, period_at, periods_loop, build_billing_periods, overlap_days,
}

january_length : (y : ℕ) → month_length y 1 ≡ 31
unfolding month_length
january_length y = refl

month_offset-last :
    (y m : ℕ) → 12 ≤ m → m ≤ 12 → month_offset y 13 ≡ month_offset y m + month_length y m
unfolding month_offset month_length
month_offset-last y m lo hi = ground arith

-- One month on: the same day of the next month, or its last day if it is shorter.
module _ (d : Date) (v : IsValid d) where
  next_month :
      d.month < 12
      → add_months d 1 ≡ date d.year (d.month + 1) (min d.day (month_length d.year (d.month + 1)))
  unfolding add_months utc_date set_date_zero
  next_month h =
      let same_year : year_after d 1 ≡ d.year = omega arith in
      let month : month_after d 1 ≡ d.month + 1 = omega arith in
      rw (same_year, month)
        (ground (
          arith,
          month_length_range d.year (d.month + 1),
          december d.year,
          month_length_range d.year d.month,
        ))

  january : 12 ≤ d.month → add_months d 1 ≡ date (d.year + 1) 1 d.day
  unfolding add_months utc_date
  january h =
      let next_year : year_after d 1 ≡ d.year + 1 = omega arith in
      let month : month_after d 1 ≡ 1 = omega arith in
      rw (next_year, month)
        (ground (arith, month_length_range d.year d.month, january_length (d.year + 1)))

  add_months-IsValid : IsValid (add_months d 1)
  add_months-IsValid = elim (Bool-cases (ltb d.month 12)) [
    | inl within ↦
        rw (next_month (ground arith)) (ground (arith, month_length_range d.year (d.month + 1)))
    | inr last ↦
        rw (january (ground arith))
          (ground (arith, month_length_range d.year d.month, january_length (d.year + 1)))
  ]

  day_number-add_months : day_number d < day_number (add_months d 1)
  unfolding day_number
  day_number-add_months = elim (Bool-cases (ltb d.month 12)) [
    | inl within ↦
        rw (next_month (ground arith))
          (ground (arith, month_offset-suc d.year d.month, month_length_range d.year (d.month + 1)))
    | inr last ↦ rw (january (ground arith)) (
        ground (
          arith,
          month_offset-suc d.year d.month,
          year_offset-suc d.year,
          month_length_range d.year d.month,
          month_offset-last d.year d.month,
        ))
  ]

-- The periods run on from day `from` to day `to`, numbered from `sequence`: each begins on the day
-- after the one before it, none is empty, and the last ends on day `to`. A full period ends on the
-- day before the same day of the next month; only the last may be a partial one.
abbrev pub Tiles : ℕ → ℕ → ℕ → List BillingPeriod → Type 0
Tiles from to sequence [] = to < from
Tiles from to sequence (p ∷ ps) =
    (p.sequence ≡ sequence)
    × (day_number p.start ≡ from)
    × (from ≤ day_number p.end)
    × (day_number p.end ≤ to)
    × (p.is_partial_tail ≡ false → day_number p.end + 1 ≡ day_number (add_months p.start 1))
    × (p.is_partial_tail ≡ true → day_number p.end ≡ to)
    × Tiles (day_number p.end + 1) to (sequence + 1) ps

day_number_pos : (d : Date) → IsValid d → 1 ≤ day_number d
unfolding day_number
day_number_pos d v = omega (arith, v.day_in)

-- What one round of the loop makes, with the calendar out of sight.
record IsPeriod (cursor end : Date) (sequence : ℕ) (p : BillingPeriod) : Type 0 where
  numbered : p.sequence ≡ sequence
  starts : p.start ≡ cursor
  ends_valid : IsValid p.end
  not_empty : day_number cursor ≤ day_number p.end
  within : day_number p.end ≤ day_number end
  full : p.is_partial_tail ≡ false → day_number p.end + 1 ≡ day_number (add_months cursor 1)
  partial : p.is_partial_tail ≡ true → day_number p.end ≡ day_number end

module _ (cursor end : Date) (v : IsValid cursor) (w : IsValid end) (sequence : ℕ)
    (open_days : day_number cursor ≤ day_number end) where
  period_at-IsPeriod : IsPeriod cursor end sequence (period_at cursor end sequence)
  unfolding period_at
  period_at-IsPeriod =
      let next = add_months cursor 1 in
      let later : 2 ≤ day_number next =
        omega (arith, day_number-add_months cursor v, day_number_pos cursor v) in
      let valid = previous_day-IsValid next (add_months-IsValid cursor v) later in
      let before = day_number-previous_day next (add_months-IsValid cursor v) later in
      elim (Bool-cases (ltb (day_number end) (day_number (previous_day next)))) [
        | inl cut ↦ rw cut (record {
          numbered = refl;
          starts = refl;
          ends_valid = w;
          not_empty = open_days;
          within = omega arith;
          full = λ h. ground arith;
          partial = λ h. refl;
        })
        | inr whole ↦ rw whole (record {
          numbered = refl;
          starts = refl;
          ends_valid = valid;
          not_empty = omega (arith, day_number-add_months cursor v);
          within = ground arith;
          full = λ h. before;
          partial = λ h. ground arith;
        })
      ]

Tiles-cons :
    (cursor end : Date) (sequence : ℕ) (p : BillingPeriod) (ps : List BillingPeriod)
    → IsPeriod cursor end sequence p
    → Tiles (day_number p.end + 1) (day_number end) (sequence + 1) ps
    → Tiles (day_number cursor) (day_number end) sequence (p ∷ ps)
Tiles-cons cursor end sequence p ps h k =
    (h.numbered, ap day_number h.starts, h.not_empty, h.within, rw h.starts h.full, h.partial, k)

loop-Tiles :
    (fuel : ℕ) (cursor end : Date) (sequence : ℕ)
    → IsValid cursor
    → IsValid end
    → 1 ≤ fuel
    → day_number end + 2 ≤ fuel + day_number cursor
    → (ps : List BillingPeriod) × (periods_loop fuel cursor end sequence ≡ some ps)
      × Tiles (day_number cursor) (day_number end) sequence ps
unfolding periods_loop
loop-Tiles zero cursor end sequence v w some_fuel enough = absurd (omega arith)
loop-Tiles (suc fuel) cursor end sequence v w some_fuel enough =
    elim (Bool-cases (leb (day_number cursor) (day_number end))) [
      | inl more ↦
          let p = period_at cursor end sequence in
          let h = period_at-IsPeriod cursor end v w sequence (ground arith) in
          let step = day_number-next_day p.end h.ends_valid in
          let (ps, made, tiles) =
            loop-Tiles fuel (next_day p.end) end (sequence + 1)
              (next_day-IsValid p.end h.ends_valid) w (ground arith)
              (omega (arith, step, h.not_empty)) in
          (p ∷ ps, rw (more, made), Tiles-cons cursor end sequence p ps h (rw step at tiles))
      | inr done ↦ ([], rw done, ground arith)
    ]

-- Between two valid dates the loop ends within its bound, and its periods tile the days from the
-- first to the last. (Where the end lies before the start there are none.)
pub build_billing_periods-Tiles :
    (start end : Date)
    → IsValid start
    → IsValid end
    → (ps : List BillingPeriod) × (build_billing_periods start end ≡ some ps)
      × Tiles (day_number start) (day_number end) 1 ps
unfolding build_billing_periods
build_billing_periods-Tiles start end v w =
    loop-Tiles (suc (day_number end)) start end 1 v w (omega arith)
      (omega (arith, day_number_pos start v))

-- The days of a period that lie in a range, by day numbers.
overlap_days-eq :
    (start end f g : Date)
    → overlap_days start end f g
      ≡ min (day_number end) (day_number g) + 1 - max (day_number start) (day_number f)
unfolding overlap_days
overlap_days-eq start end f g = ground arith

abbrev pub total_overlap : List BillingPeriod → Date → Date → ℕ
total_overlap [] f g = 0
total_overlap (p ∷ ps) f g = overlap_days p.start p.end f g + total_overlap ps f g

Tiles_overlap :
    (from to sequence : ℕ) (ps : List BillingPeriod) (f g : Date)
    → Tiles from to sequence ps
    → total_overlap ps f g ≡ min to (day_number g) + 1 - max from (day_number f)
Tiles_overlap from to sequence [] f g h = omega arith
Tiles_overlap from to sequence (p ∷ ps) f g (_, starts, not_empty, within, _, _, rest) = omega (
  arith,
  overlap_days-eq p.start p.end f g,
  Tiles_overlap (day_number p.end + 1) to (sequence + 1) ps f g rest,
)

-- The rent-free days of a contract are split among its periods without loss: those of all the
-- periods are those of the whole contract.
pub total_overlap-build :
    (start end f g : Date) (ps : List BillingPeriod)
    → IsValid start
    → IsValid end
    → build_billing_periods start end ≡ some ps
    → total_overlap ps f g ≡ overlap_days start end f g
total_overlap-build start end f g ps v w made =
    let (qs, same, tiles) = build_billing_periods-Tiles start end v w in
    let e : ps ≡ qs = cc in rw (e, overlap_days-eq start end f g) (Tiles_overlap _ _ 1 qs f g tiles)
