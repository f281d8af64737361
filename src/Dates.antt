-- ===== src/Dates.antt =====
-- UTC dates as milliseconds since 1970, and the month ends at which balances are kept
-- (src/modules/accounts-snapshots/accounts-snapshots.service.ts, `utcMonthEnd`).
pub mod MonthEnd
use babki_back.Prelude.{
  ℕ, zero, suc, ◌+◌, ◌-◌, ◌*◌, ◌/◌, ◌%◌, Bool, ◌&&◌, ◌||◌, not, ltb, ◌==◌, if◌then◌else◌,
}

-- A `Date`, from 1970 on.
abbrev pub Date : Type 0
Date = ℕ

-- A day in milliseconds.
abbrev pub day_ms : ℕ
day_ms = 86400000

unfoldable pub is_leap_year : ℕ → Bool
is_leap_year y = y % 4 == 0 && (not (y % 100 == 0) || y % 400 == 0)

-- The length in days of a month, which is counted from January 1970.
unfoldable pub month_length : ℕ → ℕ
unfolding is_leap_year
month_length k =
    let m = k % 12 in
    if m == 1
    then (if is_leap_year (1970 + k / 12) then 29 else 28)
    else if m == 3 || m == 5 || m == 8 || m == 10
    then 30
    else 31

-- The days before the first of a month: `Date.UTC(y, m, 1)`, in days.
unfoldable pub month_start : ℕ → ℕ
month_start zero = 0
month_start (suc k) = month_start k + month_length k

-- The month that a day lies in, searched from month `k`, which begins `rest` days before it.
-- Every month has a day at least, so a fuel of `rest` is enough.
unfoldable pub find_month : ℕ → ℕ → ℕ → ℕ
find_month zero k rest = k
find_month (suc fuel) k rest =
    let later = find_month fuel (suc k) (rest - month_length k) in
    if ltb rest (month_length k) then k else later

-- `getUTCFullYear` and `getUTCMonth` together.
unfoldable pub utc_month : Date → ℕ
utc_month date = let day = date / day_ms in find_month day 0 day

unfoldable pub utc_month_end : Date → Date
utc_month_end date = month_start (suc (utc_month date)) * day_ms - 1
