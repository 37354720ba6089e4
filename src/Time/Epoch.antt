-- ===== src/Time/Epoch.antt =====
-- `time_efi_time_to_time_t` against the calendar.
use uefilinux.Base.{
  ℕ, zero, suc, ◌+◌, ◌-◌, ◌*◌, ◌^◌, ◌≡◌, ◌≤◌, ◌<◌, Bool, true, false, ◌&&◌, ◌==◌, leb,
  if◌then◌else◌, arith, ap, ltb, Bool-cases, inl, inr, ◌∙◌, refl, holds_below, holds_below_sound,
  ==_iff, List, [], ◌∷◌, get_or, to_u64,
}
use uefilinux.Efi.{EfiTime}
use uefilinux.Time.{time_efi_time_to_time_t, tm_year, tm_month, secs_through_month}
use uefilinux.Time.Year.{time_year_to_secs_lem}
use uefilinux.Time.Gregorian.{is_leap_year, days_to_year, days_to_year_lem}

-- The days of the months from January, with February by the kind of the year.
abbrev pub month_days : Bool → List ℕ
month_days leap =
    31 ∷ (if leap then 29 else 28) ∷ 31 ∷ 30 ∷ 31 ∷ 30 ∷ 31 ∷ 31 ∷ 30 ∷ 31 ∷ 30 ∷ 31 ∷ []

-- The sum of the first `n`.
unfoldable pub sum_first : ℕ → List ℕ → ℕ
sum_first zero xs = 0
sum_first (suc n) [] = 0
sum_first (suc n) (x ∷ xs) = x + sum_first n xs

-- A month, a day of at most 31, and a time of day.
pub record IsDate (t : EfiTime) : Type 0 where
  pub month_from : 1 ≤ t.month
  pub month_to : t.month ≤ 12
  pub day_from : 1 ≤ t.day
  pub day_to : t.day ≤ 31
  pub hour_to : t.hour < 24
  pub minute_to : t.minute < 60
  pub second_to : t.second < 60

-- The seconds from the start of 1970 to a time of year `y`.
unfoldable pub unix_time : ℕ → EfiTime → ℕ
unix_time y t =
    86400
      * (days_to_year (y - 1970)
          + sum_first (t.month - 1) (month_days (is_leap_year y))
          + (t.day - 1))
    + 3600 * t.hour
    + 60 * t.minute
    + t.second

abbrev table_sum : ℕ → Bool → ℕ
table_sum m leap = get_or secs_through_month m 0 + (if leap && leb 2 m then 86400 else 0)

month_table :
    (leap : Bool)
    → holds_below 12 (λ m. table_sum m leap == 86400 * sum_first m (month_days leap)) ≡ true
unfolding holds_below sum_first
month_table true = refl
month_table false = refl

-- The table of the code, with its correction for leap years, is the sum of the months' days.
secs_through_month_lem :
    (m : ℕ) (leap : Bool) → m < 12 → table_sum m leap ≡ 86400 * sum_first m (month_days leap)
secs_through_month_lem m leap lt = (==_iff _ _).0 (holds_below_sound 12 _ m (month_table leap) lt)

-- The year of the code's `tm` is counted from 1900.
epoch_of_tm :
    (t : EfiTime)
    → IsDate t
    → 70 ≤ tm_year t.year
    → tm_year t.year < 2 ^ 16
    → time_efi_time_to_time_t t ≡ unix_time (tm_year t.year + 1900) t
unfolding time_efi_time_to_time_t unix_time tm_month to_u64
epoch_of_tm t d lo hi = ground (
  arith,
  time_year_to_secs_lem (tm_year t.year),
  secs_through_month_lem (t.month - 1) (is_leap_year (tm_year t.year + 1900)),
  days_to_year_lem (tm_year t.year - 70),
)

-- A year from 2001 on is told as it is.
pub late_year :
    (t : EfiTime)
    → IsDate t
    → 2000 < t.year
    → t.year < 2 ^ 16
    → time_efi_time_to_time_t t ≡ unix_time t.year t
unfolding tm_year
late_year t d lo hi =
    let year : tm_year t.year + 1900 ≡ t.year = ground arith in
    epoch_of_tm t d (ground arith) (ground arith) ∙ ap (λ (y : ℕ). unix_time y t) year

-- A year up to 2000 is taken for the one 1998 years later.
early_year_shift :
    (t : EfiTime)
    → IsDate t
    → t.year ≤ 2000
    → time_efi_time_to_time_t t ≡ unix_time (t.year + 1998) t
unfolding tm_year
early_year_shift t d hi =
    let year : tm_year t.year + 1900 ≡ t.year + 1998 = ground arith in
    epoch_of_tm t d (ground arith) (ground arith) ∙ ap (λ (y : ℕ). unix_time y t) year

-- The year that a date is told to be in.
abbrev pub year_told : ℕ → ℕ
year_told year = if ltb 2000 year then year else year + 1998

-- A date of month 1 to 12, day 1 to 31 and a time of day, in a year of 16 bits, becomes the seconds
-- from the start of 1970, counted by the Gregorian rule, to that date if the year is from 2001 on,
-- and to the same date 1998 years later if it is up to 2000.
pub time_efi_time_to_time_t_lem :
    (t : EfiTime)
    → IsDate t
    → t.year < 2 ^ 16
    → time_efi_time_to_time_t t ≡ unix_time (year_told t.year) t
time_efi_time_to_time_t_lem t d hi = elim (Bool-cases (ltb 2000 t.year)) [
  | inl late ↦ rw late (late_year t d (ground arith) hi)
  | inr early ↦ rw early (early_year_shift t d (ground arith))
]
