-- ===== src/Dates/MonthEnd.antt =====
-- The month end of a date is the first month end that is not before it.
use babki_back.Prelude.{ℕ, zero, suc, ◌+◌, ◌-◌, ◌*◌, ◌/◌, ◌≤◌, ◌<◌, ◌≡◌, refl, ◌⊎◌, inl, inr, arith}
use babki_back.Dates.{Date, day_ms, month_length, month_start, find_month, utc_month, utc_month_end}

month_length_pos : (k : ℕ) → 0 < month_length k
unfolding month_length
month_length_pos k = ground arith

find_month_bounds :
    (fuel k rest : ℕ)
    → rest ≤ fuel
    → (month_start (find_month fuel k rest) ≤ month_start k + rest)
      × (month_start k + rest < month_start (suc (find_month fuel k rest)))
unfolding find_month month_start
find_month_bounds zero k rest h = omega (arith, month_length_pos k)
find_month_bounds (suc fuel) k rest h =
    ground (arith, month_length_pos k, find_month_bounds fuel (suc k) (rest - month_length k))

month_start_mono : (j k : ℕ) → j ≤ k → month_start j ≤ month_start k
unfolding month_start
month_start_mono j zero h = ground arith
month_start_mono j (suc k) h = ground (arith, month_start_mono j k)

month_start_one : 0 < month_start 1
unfolding month_start
month_start_one = omega (arith, month_length_pos 0)

pub le-cases : (a b : ℕ) → (a ≤ b) ⊎ (b < a)
le-cases a b = omega arith

utc_month_bounds :
    (date : Date)
    → (month_start (utc_month date) ≤ date / day_ms)
      × (date / day_ms < month_start (suc (utc_month date)))
unfolding utc_month month_start
utc_month_bounds date = omega (arith, find_month_bounds (date / day_ms) 0 (date / day_ms))

-- The last millisecond of a month.
abbrev pub IsMonthEnd : Date → Type 0
IsMonthEnd e = (k : ℕ) × (e ≡ month_start (suc k) * day_ms - 1)

pub utc_month_end-IsMonthEnd : (date : Date) → IsMonthEnd (utc_month_end date)
unfolding utc_month_end
utc_month_end-IsMonthEnd date = (utc_month date, refl)

pub utc_month_end_upper : (date : Date) → date ≤ utc_month_end date
unfolding utc_month_end
utc_month_end_upper date = omega (arith, utc_month_bounds date)

pub utc_month_end_least : (date e : Date) → IsMonthEnd e → date ≤ e → utc_month_end date ≤ e
unfolding utc_month_end
utc_month_end_least date e (k, q) h = elim (le-cases (suc k) (utc_month date)) [
  | inl late ↦ absurd (
      omega (
        arith,
        utc_month_bounds date,
        month_start_mono (suc k) (utc_month date) late,
        month_start_mono 1 (suc k) (omega arith),
        month_start_one,
      ))
  | inr early ↦ omega (arith, month_start_mono (suc (utc_month date)) (suc k) early)
]

-- The month end of a date is a month end, is not before the date, and no month end from the date
-- on is before it.
pub utc_month_end-first :
    (date : Date)
    → IsMonthEnd (utc_month_end date)
      × (date ≤ utc_month_end date)
      × ((e : Date) → IsMonthEnd e → date ≤ e → utc_month_end date ≤ e)
utc_month_end-first date =
    (utc_month_end-IsMonthEnd date, utc_month_end_upper date, utc_month_end_least date)
