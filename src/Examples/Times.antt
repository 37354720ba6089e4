-- ===== src/Examples/Times.antt =====
-- Times of the calendar.
use uefilinux.Base.{ℕ, ◌≡◌, refl, false, ◌==◌, pos, arith}
use uefilinux.Efi.{EfiTime}
use uefilinux.Machine.{Machine, ok}
use uefilinux.Time.{time_year_to_secs, time_efi_time_to_time_t, time_gettimeofday}
use uefilinux.Time.Gregorian.{days_to_year}
use uefilinux.Time.Year.{time_year_to_secs_lem}
use uefilinux.Time.Epoch.{IsDate, unix_time, sum_first, time_efi_time_to_time_t_lem}
use uefilinux.Time.Clock.{gettimeofday_date}
use uefilinux.Examples.Machines.{firmware, date_2024, shared_fds, memory, shared}

date_2024-IsDate : IsDate date_2024
date_2024-IsDate = record {
  month_from = omega arith;
  month_to = omega arith;
  day_from = omega arith;
  day_to = omega arith;
  hour_to = omega arith;
  minute_to = omega arith;
  second_to = omega arith;
}

abbrev date_2000 : EfiTime
date_2000 = record { year = 2000; month = 1; day = 1; hour = 0; minute = 0; second = 0 }

date_2000-IsDate : IsDate date_2000
date_2000-IsDate = record {
  month_from = omega arith;
  month_to = omega arith;
  day_from = omega arith;
  day_to = omega arith;
  hour_to = omega arith;
  minute_to = omega arith;
  second_to = omega arith;
}

-- The start of 2024, a leap year.
time_year_to_secs_lem_example :
    ((time_year_to_secs 124).0 ≡ 1704067200) × ((time_year_to_secs 124).1 ≡ 1)
unfolding days_to_year
time_year_to_secs_lem_example = time_year_to_secs_lem 124 (omega arith) (omega arith)

-- 1 March 2024, 12:30:15
time_efi_time_to_time_t_lem_example : time_efi_time_to_time_t date_2024 ≡ 1709296215
unfolding unix_time days_to_year sum_first
time_efi_time_to_time_t_lem_example =
    time_efi_time_to_time_t_lem date_2024 date_2024-IsDate (omega arith)

gettimeofday_date_example :
    (t : Machine ℕ) × (time_gettimeofday firmware 800 shared ≡ ok (pos 0) t)
    × (t.mem.timevals 800 ≡ record { tv_sec = 1709296215; tv_usec = 0 })
    × ((p : ℕ) → (p == 800) ≡ false → t.mem.timevals p ≡ memory.timevals p)
    × (t.fds ≡ shared_fds)
    × (t.mem.bytes ≡ memory.bytes)
unfolding unix_time days_to_year sum_first
gettimeofday_date_example =
    gettimeofday_date firmware shared 800 date_2024 refl date_2024-IsDate (omega arith)
      (omega arith)
