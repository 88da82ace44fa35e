-- ===== src/Calendar/Laws.antt =====
-- Valid dates, and the day numbers of their neighbours.
use srms.Prelude.{ℕ, ◌+◌, ◌-◌, ◌≤◌, ◌≡◌, refl, arith}
use srms.Calendar.{
  Date, is_leap_year, month_length, month_offset, year_offset, day_number, utc_date, set_date_zero,
  previous_day, next_day,
}

pub record IsValid (d : Date) : Type 0 where
  pub year_in : 1 ≤ d.year
  pub month_in : (1 ≤ d.month) × (d.month ≤ 12)
  pub day_in : (1 ≤ d.day) × (d.day ≤ month_length d.year d.month)

pub month_offset-suc :
    (y m : ℕ) → 1 ≤ m → m ≤ 12 → month_offset y (m + 1) ≡ month_offset y m + month_length y m
unfolding month_offset month_length
month_offset-suc y m lo hi = ground arith

pub month_offset-first : (y : ℕ) → month_offset y 1 ≡ 0
unfolding month_offset
month_offset-first y = ground arith

pub year_offset-suc : (y : ℕ) → 1 ≤ y → year_offset (y + 1) ≡ year_offset y + month_offset y 13
unfolding year_offset month_offset is_leap_year
year_offset-suc y h = ground arith

pub month_length_range : (y m : ℕ) → (28 ≤ month_length y m) × (month_length y m ≤ 31)
unfolding month_length
month_length_range y m = ground arith

pub december : (y : ℕ) → month_length y 12 ≡ 31
unfolding month_length
december y = ground arith

pub next_day-IsValid : (d : Date) → IsValid d → IsValid (next_day d)
unfolding next_day utc_date
next_day-IsValid d v =
    ground (arith, month_length_range d.year (d.month + 1), month_length_range (d.year + 1) 1)

-- The next day has the next number.
pub day_number-next_day : (d : Date) → IsValid d → day_number (next_day d) ≡ day_number d + 1
unfolding day_number next_day utc_date
day_number-next_day d v = ground (
  arith,
  month_offset-suc d.year d.month,
  month_offset-first (d.year + 1),
  year_offset-suc d.year,
)

year_one : year_offset 1 ≡ 0
unfolding year_offset
year_one = refl

-- A date after the first of all has a day before it.
pub previous_day-IsValid : (d : Date) → IsValid d → 2 ≤ day_number d → IsValid (previous_day d)
unfolding previous_day set_date_zero day_number year_offset
previous_day-IsValid d v h = ground (
  arith,
  month_length_range d.year (d.month - 1),
  december (d.year - 1),
  month_offset-first d.year,
)

month_offset-pred :
    (y m : ℕ) → 2 ≤ m → m ≤ 12 → month_offset y m ≡ month_offset y (m - 1) + month_length y (m - 1)
unfolding month_offset month_length
month_offset-pred y m lo hi = ground arith

year_offset-pred :
    (y : ℕ) → 2 ≤ y → year_offset y ≡ year_offset (y - 1) + month_offset (y - 1) 12 + 31
unfolding year_offset month_offset is_leap_year
year_offset-pred y h = ground arith

-- The day before has the number before.
pub day_number-previous_day :
    (d : Date) → IsValid d → 2 ≤ day_number d → day_number (previous_day d) + 1 ≡ day_number d
unfolding day_number previous_day set_date_zero
day_number-previous_day d v h = ground (
  arith,
  month_offset-pred d.year d.month,
  month_offset-first d.year,
  year_offset-pred d.year,
  year_one,
)
