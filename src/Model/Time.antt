-- ===== src/Model/Time.antt =====
-- `datetime` in UTC, with the proleptic Gregorian ordinal that Python compares and subtracts by,
-- and the text of a timestamp column, read as what `datetime.fromisoformat` makes of it.
use watchdirs.Prelude.{
  ℕ, ◌+◌, ◌-◌, ◌*◌, ◌/◌, ◌%◌, ◌≡◌, refl, String, Bool, ◌&&◌, ◌||◌, not, ◌==◌, ltb, if◌then◌else◌,
}

pub record DateTime : Type 0 where
  pub year : ℕ
  pub month : ℕ
  pub day : ℕ
  -- microseconds since midnight
  pub micros : ℕ

abbrev pub micros_per_second : ℕ
micros_per_second = 1000000

abbrev pub micros_per_hour : ℕ
micros_per_hour = 3600 * micros_per_second

abbrev pub micros_per_day : ℕ
micros_per_day = 86400 * micros_per_second

is_leap : ℕ → Bool
is_leap y = y % 4 == 0 && (not (y % 100 == 0) || y % 400 == 0)

days_before_year : ℕ → ℕ
days_before_year year = let y = year - 1 in y * 365 + y / 4 - y / 100 + y / 400

days_before_month : ℕ → ℕ → ℕ
unfolding is_leap
days_before_month y m =
    let leap : ℕ = (if ltb 2 m && is_leap y then 1 else 0) in
    if m == 1
    then 0
    else if m == 2
    then 31
    else if m == 3
    then 59 + leap
    else if m == 4
    then 90 + leap
    else if m == 5
    then 120 + leap
    else if m == 6
    then 151 + leap
    else if m == 7
    then 181 + leap
    else if m == 8
    then 212 + leap
    else if m == 9
    then 243 + leap
    else if m == 10
    then 273 + leap
    else if m == 11
    then 304 + leap
    else 334 + leap

-- Microseconds since the start of the proleptic calendar: what `datetime` compares by.
unfoldable pub instant : DateTime → ℕ
unfolding days_before_year days_before_month
instant t =
    (days_before_year t.year + days_before_month t.year t.month + t.day) * micros_per_day + t.micros

-- The text of a timestamp column.
pub data StoredTime : Type 0 where
  -- an offset or a final `Z`: the instant in UTC
  utc : DateTime → StoredTime
  -- no offset
  naive : DateTime → StoredTime
  -- `fromisoformat` raises
  unparseable : String → StoredTime

leap_day :
    instant (record { year = 2024; month = 3; day = 1; micros = 0 })
    ≡ instant (record { year = 2024; month = 2; day = 29; micros = 0 }) + micros_per_day
unfolding instant
leap_day = refl

epoch : instant (record { year = 1970; month = 1; day = 1; micros = 0 }) ≡ 719163 * micros_per_day
unfolding instant
epoch = refl
