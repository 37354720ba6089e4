-- ===== src/Time/Clock.antt =====
-- `time_gettimeofday` and `time_sleep` of src/linux-uefi.c.
use uefilinux.Base.{ℕ, ◌+◌, ◌*◌, ◌%◌, ◌^◌, ◌≡◌, ◌<◌, refl, some, false, ◌==◌, pos, arith}
use uefilinux.Efi.{EfiTime, Firmware}
use uefilinux.Machine.{Machine, Timeval, ok, update}
use uefilinux.Fd.{result_of}
use uefilinux.Time.{time_cstd_time, time_gettimeofday, time_sleep}
use uefilinux.Time.Epoch.{IsDate, unix_time, late_year}

module _ {W : Type 0} (fw : Firmware W) (s : Machine W) where
  -- Where the firmware's clock tells a date from 2001 on, in a year of 16 bits, `time_gettimeofday`
  -- returns 0 with the seconds since 1970 and no microseconds in the caller's structure, and no
  -- other such structure, no slot and no byte changes.
  pub gettimeofday_date :
      (tv : ℕ) (d : EfiTime)
      → (fw.get_time s.world).0 ≡ some d
      → IsDate d
      → 2000 < d.year
      → d.year < 2 ^ 16
      → (t : Machine W) × (time_gettimeofday fw tv s ≡ ok (pos 0) t)
        × (t.mem.timevals tv ≡ record { tv_sec = unix_time d.year d; tv_usec = 0 })
        × ((p : ℕ) → (p == tv) ≡ false → t.mem.timevals p ≡ s.mem.timevals p)
        × (t.fds ≡ s.fds)
        × (t.mem.bytes ≡ s.mem.bytes)
  unfolding time_gettimeofday time_cstd_time update
  gettimeofday_date tv d told date lo hi =
      (final, rw (told, late_year d date lo hi), ground arith, (λ p other. rw other), refl, refl)
    where
      now : Timeval
      now = record { tv_sec = unix_time d.year d; tv_usec = 0 }

      final : Machine W
      final = record s {
        mem = record (s.mem) { timevals = update s.mem.timevals tv now };
        world = (fw.get_time s.world).1;
      }

  -- `time_sleep` stalls once for the microseconds of the caller's structure, as long as they are below
  -- 2 ^ 64, and returns 0 or the error of the firmware's status.
  pub time_sleep_lem :
      (duration : ℕ)
      → (s.mem.timevals duration).tv_sec * 1000000 + (s.mem.timevals duration).tv_usec < 2 ^ 64
      → time_sleep fw duration s ≡ (
          let d = s.mem.timevals duration in
          let (status, w) = fw.stall (d.tv_sec * 1000000 + d.tv_usec) s.world in
          ok (result_of fw status) (record s { world = w }))
  unfolding time_sleep
  time_sleep_lem duration small =
      let d = s.mem.timevals duration in
      let e : (d.tv_sec * 1000000 % 2 ^ 64 + d.tv_usec) % 2 ^ 64 ≡ d.tv_sec * 1000000 + d.tv_usec =
        omega arith in
      rw e
