-- ===== src/Syscall/Bridge.antt =====
-- `my_syscall0` to `my_syscall6` of nolibc/arch.h, by which the C library calls the emulation.
pub mod Signed
pub mod Through
use uefilinux.Base.{
  ℕ, ◌+◌, ◌^◌, ◌<◌, ◌≡◌, refl, ap, ℤ, pos, negsuc, neg, to_int, to_long, to_long-to_u64, contains,
  true, arith,
}
use uefilinux.Efi.{Firmware}
use uefilinux.Errno.{errnos}
use uefilinux.Machine.{Machine, and_then, Run, ok, fault, spin, Command, pure, ◌>>=◌}
use uefilinux.Machine.After.{Results}
use uefilinux.Fd.{fd_close}
use uefilinux.Console.{fd_write}
use uefilinux.Syscall.{Arguments, arguments, call_of, run, syscall_emu_x86_64, int_result}
use uefilinux.Syscall.Results.{ResultProperty}
use uefilinux.Syscall.Results.Tables.{Results-fd_close}
use uefilinux.Syscall.Results.Counts.{Results-fd_write}

module _ {W : Type 0} (fw : Firmware W) where
  -- The macros differ in the number of arguments only. The 64-bit word becomes a `long`.
  unfoldable pub my_syscall : ℕ → Arguments → Command W ℤ
  my_syscall number args = syscall_emu_x86_64 fw number args >>= λ r. pure (to_long r)

-- A result that a 64-bit word carries.
abbrev pub Carried : ℤ → Type 0
Carried (pos n) = n < 2 ^ 63
Carried (negsuc n) = n < 2 ^ 63

pub Carried-ResultProperty : ResultProperty Carried
Carried-ResultProperty = record { small = λ n h. omega arith; error = λ e h. ground arith }

pub Carried-to_long : (w : ℕ) → Carried (to_long w)
unfolding to_long
Carried-to_long w = ground arith

pub Carried-to_int : (w : ℕ) → Carried (to_int w)
unfolding to_int
Carried-to_int w = ground arith

module _ {W : Type 0} where
  -- A result that a word carries is the one that the C library gets.
  pub to_word-and_back :
      (m : Run W ℤ)
      → Results Carried m
      → and_then (and_then m int_result) (λ r. pure (to_long r)) ≡ m
  to_word-and_back (ok (pos n) s) h =
      ap {B = Run W ℤ} (λ z. ok z s) (to_long-to_u64 (pos n) h (omega arith))
  to_word-and_back (ok (negsuc n) s) h =
      ap {B = Run W ℤ} (λ z. ok z s) (to_long-to_u64 (negsuc n) (omega arith) (omega arith))
  to_word-and_back fault h = refl
  to_word-and_back (spin s) h = refl

module _ {W : Type 0} (fw : Firmware W) where
  pub my_syscall-fd_write :
      (a0 a1 a2 a3 a4 a5 : ℕ) (s : Machine W)
      → my_syscall fw 1 (arguments a0 a1 a2 a3 a4 a5) s ≡ fd_write fw (to_int a0) a1 a2 s
  unfolding my_syscall syscall_emu_x86_64 run call_of
  my_syscall-fd_write a0 a1 a2 a3 a4 a5 s =
      to_word-and_back (fd_write fw (to_int a0) a1 a2 s)
        (Results-fd_write fw Carried Carried-ResultProperty Carried-to_long (to_int a0) a1 a2 s)
