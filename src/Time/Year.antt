-- ===== src/Time/Year.antt =====
-- `time_year_to_secs` against the calendar.
use uefilinux.Base.{
  ℕ, ◌+◌, ◌-◌, ◌*◌, ◌/◌, ◌%◌, ◌^◌, ◌≡◌, ◌≤◌, ◌<◌, true, false, ◌==◌, leb, if◌then◌else◌, arith,
  Bool-cases, inl, inr, to_u64, to_int,
}
use uefilinux.Time.{time_year_to_secs, near_year, far_year, split_centuries, split_leaps, sub64}
use uefilinux.Time.Gregorian.{is_leap_year, days_to_year, days_to_year_lem}

abbrev pub leap_bit : ℕ → ℕ
leap_bit y = if is_leap_year y then 1 else 0

near_year-leap : (y : ℕ) → 70 ≤ y → y ≤ 138 → (near_year y).1 ≡ leap_bit (y + 1900)
unfolding near_year
near_year-leap y lo hi = ground arith

near_year-days : (y : ℕ) → 70 ≤ y → y ≤ 138 → (near_year y).0 ≡ 86400 * days_to_year (y - 70)
unfolding near_year to_u64
near_year-days y lo hi = ground (arith, days_to_year_lem (y - 70))

far_year-leap : (y : ℕ) → 139 ≤ y → y < 2 ^ 17 → (far_year y).1 ≡ leap_bit (y + 1900)
unfolding far_year split_centuries split_leaps
far_year-leap y lo hi = ground arith

-- The leap years strictly between a year that 400 divides and the `r`-th year after it.
split_lem :
    (r : ℕ)
    → 0 < r
    → r < 400
    → 24 * (split_centuries r).0 + (split_leaps (split_centuries r).1).0 + (r - 1) / 100
      ≡ (r - 1) / 4 + (split_leaps (split_centuries r).1).1
unfolding split_centuries split_leaps
split_lem r some_years lt = ground arith

split_bound :
    (r : ℕ) → r < 400 → ((split_centuries r).0 ≤ 3) × ((split_leaps (split_centuries r).1).0 ≤ 99)
unfolding split_centuries split_leaps
split_bound r lt = ground arith

far_year-whole :
    (y : ℕ)
    → 139 ≤ y
    → y < 2 ^ 17
    → (sub64 y 100 % 400 == 0) ≡ true
    → (far_year y).0 ≡ 86400 * days_to_year (y - 70)
unfolding far_year to_u64 to_int
far_year-whole y lo hi whole = rw whole (ground (arith, days_to_year_lem (y - 70)))

far_year-part :
    (y : ℕ)
    → 139 ≤ y
    → y < 2 ^ 17
    → (sub64 y 100 % 400 == 0) ≡ false
    → (far_year y).0 ≡ 86400 * days_to_year (y - 70)
unfolding far_year to_u64 to_int
far_year-part y lo hi part = rw part (
    ground (
      arith,
      days_to_year_lem (y - 70),
      split_lem (sub64 y 100 % 400),
      split_bound (sub64 y 100 % 400),
    ))

far_year-days : (y : ℕ) → 139 ≤ y → y < 2 ^ 17 → (far_year y).0 ≡ 86400 * days_to_year (y - 70)
far_year-days y lo hi = elim (Bool-cases (sub64 y 100 % 400 == 0)) [
  | inl whole ↦ far_year-whole y lo hi whole
  | inr part ↦ far_year-part y lo hi part
]

-- For a year from 1970 on, counted from 1900 and below 2 ^ 17, `time_year_to_secs` gives the
-- seconds from the start of 1970 to it, and whether it is a leap year, as the Gregorian rule does.
pub time_year_to_secs_lem :
    (y : ℕ)
    → 70 ≤ y
    → y < 2 ^ 17
    → ((time_year_to_secs y).0 ≡ 86400 * days_to_year (y - 70))
      × ((time_year_to_secs y).1 ≡ leap_bit (y + 1900))
unfolding time_year_to_secs
time_year_to_secs_lem y lo hi = elim (Bool-cases (leb y 138)) [
  | inl near ↦
      let test : leb (sub64 y 2) 136 ≡ true = ground arith in
      rw test (near_year-days y lo (ground arith), near_year-leap y lo (ground arith))
  | inr far ↦
      let test : leb (sub64 y 2) 136 ≡ false = ground arith in
      rw test (far_year-days y (ground arith) hi, far_year-leap y (ground arith) hi)
]
