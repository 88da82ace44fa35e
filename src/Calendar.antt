-- ===== src/Calendar.antt =====
-- Days of the calendar as the code uses JavaScript's `Date`: at midnight UTC, by `Date.UTC`,
-- `getUTC…`, `setUTCDate` and `getTime`. Years are positive; months count from 1.
-- `Date.UTC` takes a year below 100 for one of the twentieth century; no date of a contract has one.
pub mod Laws
use srms.Prelude.{
  ℕ, ◌+◌, ◌-◌, ◌*◌, ◌/◌, ◌%◌, ◌≤◌, ◌==◌, ltb, leb, Bool, true, false, not, ◌&&◌, ◌||◌,
  if◌then◌else◌,
}

-- A day by its parts.
pub record Date : Type 0 where
  pub year : ℕ
  pub month : ℕ
  pub day : ℕ

unfoldable pub is_leap_year : ℕ → Bool
is_leap_year y = (y % 4 == 0) && (not (y % 100 == 0) || (y % 400 == 0))

unfoldable pub month_length : ℕ → ℕ → ℕ
month_length y m =
    if (m == 4) || (m == 6) || (m == 9) || (m == 11)
    then 30
    else if not (m == 2)
    then 31
    else if is_leap_year y
    then 29
    else 28

abbrev pub date : ℕ → ℕ → ℕ → Date
date on_year on_month on_day = record { year = on_year; month = on_month; day = on_day }

-- Days of the year before month `m`, in a common year.
abbrev pub common_offset : ℕ → ℕ
common_offset m =
    if leb m 1
    then 0
    else if m == 2
    then 31
    else if m == 3
    then 59
    else if m == 4
    then 90
    else if m == 5
    then 120
    else if m == 6
    then 151
    else if m == 7
    then 181
    else if m == 8
    then 212
    else if m == 9
    then 243
    else if m == 10
    then 273
    else if m == 11
    then 304
    else if m == 12
    then 334
    else 365

unfoldable pub month_offset : ℕ → ℕ → ℕ
month_offset y m = common_offset m + (if is_leap_year y && ltb 2 m then 1 else 0)

unfoldable pub year_offset : ℕ → ℕ
year_offset y = let p = y - 1 in p * 365 + p / 4 - p / 100 + p / 400

-- `getTime()` in days, counted from the first day of year 1.
unfoldable pub day_number : Date → ℕ
day_number d = year_offset d.year + month_offset d.year d.month + d.day

-- The calendar month `months` after that of `d`: its year and number.
abbrev pub year_after : Date → ℕ → ℕ
year_after d months = d.year + (d.month - 1 + months) / 12

abbrev pub month_after : Date → ℕ → ℕ
month_after d months = (d.month - 1 + months) % 12 + 1

-- `Date.UTC(year, month, day)` for a day of at most 31: what exceeds the month goes into the next.
unfoldable pub utc_date : ℕ → ℕ → ℕ → Date
utc_date y m d =
    if leb d (month_length y m)
    then date y m d
    else if ltb m 12
    then date y (m + 1) (d - month_length y m)
    else date (y + 1) 1 (d - month_length y m)

-- `setUTCDate(0)`: the last day of the month before.
unfoldable pub set_date_zero : Date → Date
set_date_zero d =
    if ltb 1 d.month
    then date d.year (d.month - 1) (month_length d.year (d.month - 1))
    else date (d.year - 1) 12 31

-- `setUTCDate(getUTCDate() - 1)` and `setUTCDate(getUTCDate() + 1)`.
unfoldable pub previous_day : Date → Date
unfolding set_date_zero
previous_day d = if ltb 1 d.day then date d.year d.month (d.day - 1) else set_date_zero d

unfoldable pub next_day : Date → Date
unfolding utc_date
next_day d = utc_date d.year d.month (d.day + 1)
