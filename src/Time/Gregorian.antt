-- ===== src/Time/Gregorian.antt =====
-- The Gregorian calendar, against which src/linux-uefi.c is judged: leap years by the rule, and days
-- counted year by year from 1970.
use uefilinux.Base.{
  ℕ, zero, suc, ◌+◌, ◌*◌, ◌/◌, ◌%◌, ◌≡◌, Bool, not, ◌&&◌, ◌||◌, ◌==◌, if◌then◌else◌, arith, refl,
}

-- Every fourth year, but of the centuries only every fourth.
abbrev pub is_leap_year : ℕ → Bool
is_leap_year y = y % 4 == 0 && (not (y % 100 == 0) || y % 400 == 0)

abbrev pub year_days : ℕ → ℕ
year_days y = if is_leap_year y then 366 else 365

-- The days of the years from 1970 to 1970 + n - 1.
unfoldable pub days_to_year : ℕ → ℕ
days_to_year zero = 0
days_to_year (suc n) = days_to_year n + year_days (n + 1970)

-- The leap years among them, counted by the rule.
pub days_to_year_lem :
    (n : ℕ) → days_to_year n + (n + 69) / 100 ≡ 365 * n + (n + 1) / 4 + (n + 369) / 400
unfolding days_to_year
days_to_year_lem zero = refl
days_to_year_lem (suc n) = ground (arith, days_to_year_lem n)
