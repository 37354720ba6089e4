-- ===== src/Time.antt =====
-- Timekeeping of src/linux-uefi.c: `time_year_to_secs`, `time_efi_time_to_time_t`, `time_cstd_time`,
-- `time_gettimeofday` and `time_sleep`. 64-bit values are numbers below 2 ^ 64.
pub mod Year
pub mod Gregorian
pub mod Epoch
pub mod Clock
use uefilinux.Base.{
  ℕ, zero, suc, ◌+◌, ◌-◌, ◌*◌, ◌/◌, ◌%◌, ◌^◌, Bool, true, false, ◌&&◌, Option, none, some, List, [],
  ◌∷◌, get_or, ltb, leb, ◌==◌, if◌then◌else◌, ℤ, pos, negsuc, neg, sub_ℕ, to_u64, to_int,
}
use uefilinux.Efi.{EfiTime, Firmware}
use uefilinux.Machine.{Machine, Timeval, Command, pure, efi, get, put_mem, update, ◌>>=◌, ◌>>◌}
use uefilinux.Fd.{result_of}

abbrev pub add64 : ℕ → ℕ → ℕ
add64 a b = (a + b) % 2 ^ 64

abbrev pub sub64 : ℕ → ℕ → ℕ
sub64 a b = (a + 2 ^ 64 - b) % 2 ^ 64

abbrev pub mul64 : ℕ → ℕ → ℕ
mul64 a b = (a * b) % 2 ^ 64

-- `z >> 2`, which rounds down
abbrev pub shift_right_2 : ℤ → ℤ
shift_right_2 (pos n) = pos (n / 4)
shift_right_2 (negsuc n) = negsuc (n / 4)

-- `z & 3`
abbrev pub and_3 : ℤ → ℕ
and_3 (pos n) = n % 4
and_3 (negsuc n) = 3 - n % 4

abbrev pub pred_ℤ : ℤ → ℤ
pred_ℤ (pos zero) = negsuc 0
pred_ℤ (pos (suc n)) = pos n
pred_ℤ (negsuc n) = negsuc (suc n)

-- The first branch of `time_year_to_secs`: years 2 to 138. The result comes with `*is_leap`.
unfoldable pub near_year : ℕ → ℕ × ℕ
near_year year =
    let after = sub_ℕ year 68 in
    let is_leap = and_3 after == 0 in
    let leaps = if is_leap then pred_ℤ (shift_right_2 after) else shift_right_2 after in
    (
      add64 (mul64 31536000 (to_u64 (sub_ℕ year 70))) (mul64 86400 (to_u64 leaps)),
      if is_leap then 1 else 0,
    )

-- The centuries of a cycle before `rem`, and the rest of `rem`.
unfoldable pub split_centuries : ℕ → ℕ × ℕ
split_centuries rem =
    if leb 200 rem
    then (if leb 300 rem then (3, rem - 300) else (2, rem - 200))
    else (if leb 100 rem then (1, rem - 100) else (0, rem))

-- `leaps` and `*is_leap` for the years after the last whole century.
unfoldable pub split_leaps : ℕ → ℕ × ℕ
split_leaps rem = if rem == 0 then (0, 0) else (rem / 4, if rem % 4 == 0 then 1 else 0)

-- The other branch. `rem` is a remainder of an unsigned division, so it is never below 0. The `int`
-- sums are taken modulo 2 ^ 64, in which they are then used.
unfoldable pub far_year : ℕ → ℕ × ℕ
far_year year =
    let since = sub64 year 100 in
    let cycles = to_u64 (to_int (since / 400)) in
    let rem = since % 400 in
    let (centuries, rest) = split_centuries rem in
    let (leaps, is_leap) = if rem == 0 then (0, 1) else split_leaps rest in
    let leaps' =
      add64 leaps
        (sub64 (add64 (mul64 97 cycles) (24 * (if rem == 0 then 0 else centuries))) is_leap) in
    (add64 (add64 (add64 (mul64 since 31536000) (mul64 leaps' 86400)) 946684800) 86400, is_leap)

unfoldable pub time_year_to_secs : ℕ → ℕ × ℕ
time_year_to_secs year = if leb (sub64 year 2) 136 then near_year year else far_year year

abbrev pub secs_through_month : List ℕ
secs_through_month =
    0
    ∷ 31 * 86400
    ∷ 59 * 86400
    ∷ 90 * 86400
    ∷ 120 * 86400
    ∷ 151 * 86400
    ∷ 181 * 86400
    ∷ 212 * 86400
    ∷ 243 * 86400
    ∷ 273 * 86400
    ∷ 304 * 86400
    ∷ 334 * 86400
    ∷ []

-- `Year` is 16 bits wide, `Month` 8.
unfoldable pub tm_year : ℕ → ℕ
tm_year year = (year + (if ltb 2000 year then 2 ^ 16 - 1900 else 98)) % 2 ^ 16

unfoldable pub tm_month : ℕ → ℕ
tm_month month = (month + 2 ^ 8 - 1) % 2 ^ 8

unfoldable pub time_efi_time_to_time_t : EfiTime → ℕ
time_efi_time_to_time_t time =
    let month = tm_month time.month in
    let year = tm_year time.year in
    let year' = if leb 12 month then year + month / 12 else year in
    let month' = if leb 12 month then month % 12 else month in
    let (secs, is_leap) = time_year_to_secs year' in
    let t = add64 secs (get_or secs_through_month month' 0) in
    let t = if is_leap == 1 && leb 2 month' then add64 t 86400 else t in
    let t = add64 t (mul64 86400 (to_u64 (sub_ℕ time.day 1))) in
    let t = add64 t (mul64 3600 time.hour) in
    let t = add64 t (mul64 60 time.minute) in add64 t time.second

-- `EFI_TIME efi_time = {0};`
abbrev pub zero_time : EfiTime
zero_time = record { year = 0; month = 0; day = 0; hour = 0; minute = 0; second = 0 }

module _ {W : Type 0} (fw : Firmware W) where
  -- `time_cstd_time(NULL)`, the only call of it
  unfoldable pub time_cstd_time : Command W ℕ
  time_cstd_time = do
    t ← efi fw.get_time
    elim t [
      | none ↦ pure (time_efi_time_to_time_t zero_time)
      | some efi_time ↦ pure (time_efi_time_to_time_t efi_time)
    ]

  -- The caller's structure is written; any address, NULL included, counts as one.
  unfoldable pub time_gettimeofday : ℕ → Command W ℤ
  time_gettimeofday tv = do
    secs ← time_cstd_time
    s ← get
    put_mem (record (s.mem) {
      timevals = update s.mem.timevals tv (record { tv_sec = secs; tv_usec = 0 });
    })
    pure (pos 0)

  -- The caller's structure is read; any address, NULL included, counts as one.
  unfoldable pub time_sleep : ℕ → Command W ℤ
  time_sleep duration = do
    s ← get
    let d = s.mem.timevals duration
    status ← efi (fw.stall (add64 (mul64 d.tv_sec 1000000) d.tv_usec))
    pure (result_of fw status)
