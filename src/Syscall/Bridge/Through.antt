-- ===== src/Syscall/Bridge/Through.antt =====
-- Every system call through `my_syscall`.
use uefilinux.Base.{
  ℕ, ◌≡◌, refl, true, Bool-cases, inl, inr, ◌+◌, ℤ, pos, negsuc, to_long, contains, arith,
}
use uefilinux.Efi.{Firmware}
use uefilinux.Errno.{errnos}
use uefilinux.Machine.{Machine, and_then, pure}
use uefilinux.Machine.After.{Results}
use uefilinux.Fd.Table.{IsTable}
use uefilinux.Process.{proc_exit}
use uefilinux.Syscall.{Call, Arguments, arguments, call_of, run, syscall_emu_x86_64}
use uefilinux.Syscall.Results.{ResultProperty}
use uefilinux.Syscall.Bridge.{
  my_syscall, Carried, Carried-ResultProperty, Carried-to_long, Carried-to_int, to_word-and_back,
}
use uefilinux.Syscall.Bridge.Signed.{signed, is_plain, Results-plain, Results-counted}

module _ {W : Type 0} (fw : Firmware W) where
  Results-signed :
      (c : Call) (a : Arguments) (s : Machine W) → IsTable s.fds → Results Carried (signed fw c a s)
  Results-signed c a s t = elim (Bool-cases (is_plain c)) [
    | inl plain ↦ Results-plain fw Carried Carried-ResultProperty c a s t plain
    | inr counted ↦
        Results-counted fw Carried Carried-ResultProperty c a s Carried-to_long Carried-to_int
          counted
  ]

  run-signed :
      (c : Call) (a : Arguments) (s : Machine W)
      → Results Carried (signed fw c a s)
      → and_then (run fw c a s) (λ r. pure (to_long r)) ≡ signed fw c a s
  unfolding run signed proc_exit to_long
  run-signed Call.open_file (arguments a0 a1 a2 a3 a4 a5) s h =
      to_word-and_back (signed fw Call.open_file (arguments a0 a1 a2 a3 a4 a5) s) h
  run-signed Call.close (arguments a0 a1 a2 a3 a4 a5) s h =
      to_word-and_back (signed fw Call.close (arguments a0 a1 a2 a3 a4 a5) s) h
  run-signed Call.stat (arguments a0 a1 a2 a3 a4 a5) s h =
      to_word-and_back (signed fw Call.stat (arguments a0 a1 a2 a3 a4 a5) s) h
  run-signed Call.fstat (arguments a0 a1 a2 a3 a4 a5) s h =
      to_word-and_back (signed fw Call.fstat (arguments a0 a1 a2 a3 a4 a5) s) h
  run-signed Call.lstat (arguments a0 a1 a2 a3 a4 a5) s h =
      to_word-and_back (signed fw Call.lstat (arguments a0 a1 a2 a3 a4 a5) s) h
  run-signed Call.munmap (arguments a0 a1 a2 a3 a4 a5) s h =
      to_word-and_back (signed fw Call.munmap (arguments a0 a1 a2 a3 a4 a5) s) h
  run-signed Call.select (arguments a0 a1 a2 a3 a4 a5) s h =
      to_word-and_back (signed fw Call.select (arguments a0 a1 a2 a3 a4 a5) s) h
  run-signed Call.dup (arguments a0 a1 a2 a3 a4 a5) s h =
      to_word-and_back (signed fw Call.dup (arguments a0 a1 a2 a3 a4 a5) s) h
  run-signed Call.dup2 (arguments a0 a1 a2 a3 a4 a5) s h =
      to_word-and_back (signed fw Call.dup2 (arguments a0 a1 a2 a3 a4 a5) s) h
  run-signed Call.exit (arguments a0 a1 a2 a3 a4 a5) s h = refl
  run-signed Call.fsync (arguments a0 a1 a2 a3 a4 a5) s h =
      to_word-and_back (signed fw Call.fsync (arguments a0 a1 a2 a3 a4 a5) s) h
  run-signed Call.fdatasync (arguments a0 a1 a2 a3 a4 a5) s h =
      to_word-and_back (signed fw Call.fdatasync (arguments a0 a1 a2 a3 a4 a5) s) h
  run-signed Call.kill (arguments a0 a1 a2 a3 a4 a5) s h =
      to_word-and_back (signed fw Call.kill (arguments a0 a1 a2 a3 a4 a5) s) h
  run-signed Call.gettimeofday (arguments a0 a1 a2 a3 a4 a5) s h =
      to_word-and_back (signed fw Call.gettimeofday (arguments a0 a1 a2 a3 a4 a5) s) h
  run-signed Call.reboot (arguments a0 a1 a2 a3 a4 a5) s h =
      to_word-and_back (signed fw Call.reboot (arguments a0 a1 a2 a3 a4 a5) s) h
  run-signed Call.read (arguments a0 a1 a2 a3 a4 a5) s h =
      to_word-and_back (signed fw Call.read (arguments a0 a1 a2 a3 a4 a5) s) h
  run-signed Call.write (arguments a0 a1 a2 a3 a4 a5) s h =
      to_word-and_back (signed fw Call.write (arguments a0 a1 a2 a3 a4 a5) s) h
  run-signed Call.lseek (arguments a0 a1 a2 a3 a4 a5) s h =
      to_word-and_back (signed fw Call.lseek (arguments a0 a1 a2 a3 a4 a5) s) h
  run-signed Call.getdents64 (arguments a0 a1 a2 a3 a4 a5) s h =
      to_word-and_back (signed fw Call.getdents64 (arguments a0 a1 a2 a3 a4 a5) s) h
  run-signed Call.setuid (arguments a0 a1 a2 a3 a4 a5) s h =
      to_word-and_back (signed fw Call.setuid (arguments a0 a1 a2 a3 a4 a5) s) h
  run-signed Call.setgid (arguments a0 a1 a2 a3 a4 a5) s h =
      to_word-and_back (signed fw Call.setgid (arguments a0 a1 a2 a3 a4 a5) s) h
  run-signed Call.unknown a s h = to_word-and_back (signed fw Call.unknown a s) h
  run-signed Call.mmap (arguments a0 a1 a2 a3 a4 a5) s h = refl
  run-signed Call.mprotect (arguments a0 a1 a2 a3 a4 a5) s h = refl
  run-signed Call.sched_yield (arguments a0 a1 a2 a3 a4 a5) s h = refl
  run-signed Call.getpid (arguments a0 a1 a2 a3 a4 a5) s h = refl
  run-signed Call.getuid (arguments a0 a1 a2 a3 a4 a5) s h = refl
  run-signed Call.getgid (arguments a0 a1 a2 a3 a4 a5) s h = refl
  run-signed Call.geteuid (arguments a0 a1 a2 a3 a4 a5) s h = refl
  run-signed Call.getegid (arguments a0 a1 a2 a3 a4 a5) s h = refl
  run-signed Call.getppid (arguments a0 a1 a2 a3 a4 a5) s h = refl
  run-signed Call.gettid (arguments a0 a1 a2 a3 a4 a5) s h = refl

  -- On a table of 16 slots, every system call through `my_syscall` does and returns what its
  -- function does, as a signed number: no result is cut off by the 64-bit word between, and every
  -- error stays negative.
  pub my_syscall_lem :
      (number : ℕ) (a : Arguments) (s : Machine W)
      → IsTable s.fds
      → my_syscall fw number a s ≡ signed fw (call_of number) a s
  unfolding my_syscall syscall_emu_x86_64
  my_syscall_lem number a s t =
      run-signed (call_of number) a s (Results-signed (call_of number) a s t)

-- A result that is no error, or an error number of the header, negated.
abbrev pub IsReply : ℤ → Type 0
IsReply (pos n) = Unit {0}
IsReply (negsuc n) = contains errnos (n + 1) ≡ true

IsReply-ResultProperty : ResultProperty IsReply
IsReply-ResultProperty = record { small = λ n h. tt; error = λ e h. ground arith }

module _ {W : Type 0} (fw : Firmware W) where
  -- On a table of 16 slots, a system call other than read, write, lseek, getdents64 and mmap gives
  -- the C library no negative result but the negated error numbers of the header.
  pub my_syscall_errors :
      (number : ℕ) (a : Arguments) (s : Machine W)
      → IsTable s.fds
      → is_plain (call_of number) ≡ true
      → Results IsReply (my_syscall fw number a s)
  my_syscall_errors number a s t plain =
      rw (my_syscall_lem fw number a s t)
        (Results-plain fw IsReply IsReply-ResultProperty (call_of number) a s t plain)
