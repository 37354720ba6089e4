-- ===== src/Syscall/Safe.antt =====
-- The system calls that cannot run into undefined behaviour.
use uefilinux.Base.{ℕ, ◌≡◌, Bool, true, false, inl, inr, ℤ, pos, negsuc, to_int, arith}
use mathlib.Core.Bool.{false≢true}
use uefilinux.Efi.{Firmware}
use uefilinux.Machine.{Machine, Run, ok, fault, spin, Command, and_then}
use uefilinux.Machine.After.{Returns}
use uefilinux.Fd.{Found, found, missing, find_fd, fd_close, fd_fsync, fd_dup}
use uefilinux.Fd.Table.{IsTable, IsOpen-or_IsClosed, find_fd-IsOpen, find_fd-IsClosed, closed_error}
use uefilinux.Fd.Total.{close_total, dup_total}
use uefilinux.Process.{proc_exit, proc_abort, proc_kill, mem_mmap, mem_munmap}
use uefilinux.Syscall.{Call, Arguments, arguments, call_of, run, syscall_emu_x86_64, int_result}

-- The run does not end in undefined behaviour.
abbrev pub NoFault : {W A : Type 0} → Run W A → Type 0
NoFault (ok a s) = Unit {0}
NoFault fault = ⊥
NoFault (spin s) = Unit {0}

-- The calls that follow no pointer of their caller, without `lseek` and `dup2`.
abbrev pub is_careful : Call → Bool
is_careful Call.read = false
is_careful Call.write = false
is_careful Call.open_file = false
is_careful Call.stat = false
is_careful Call.fstat = false
is_careful Call.lstat = false
is_careful Call.lseek = false
is_careful Call.select = false
is_careful Call.dup2 = false
is_careful Call.gettimeofday = false
is_careful Call.reboot = false
is_careful Call.getdents64 = false
is_careful _ = true

module _ {W A : Type 0} where
  Returns-NoFault : (P : A → Machine W → Type 0) (r : Run W A) → Returns P r → NoFault r
  Returns-NoFault P (ok a s) h = tt
  Returns-NoFault P fault h = h
  Returns-NoFault P (spin s) h = tt

module _ {W A B : Type 0} where
  NoFault-and_then :
      (r : Run W A) (k : A → Command W B)
      → NoFault r
      → ((a : A) (s : Machine W) → NoFault (k a s))
      → NoFault (and_then r k)
  NoFault-and_then (ok a s) k h next = next a s
  NoFault-and_then fault k h next = h
  NoFault-and_then (spin s) k h next = tt

module _ {W : Type 0} (fw : Firmware W) (s : Machine W) where
  find_fd-ok : (fd : ℤ) → IsTable s.fds → (f : Found) × (find_fd fd s ≡ ok f s)
  find_fd-ok fd t = elim (IsOpen-or_IsClosed s.fds fd t) [
    | inl (i, handle, o) ↦ (found i handle, find_fd-IsOpen s i handle o)
    | inr c ↦ (missing (closed_error fd), find_fd-IsClosed s fd t c)
  ]

  fsync-NoFault : (fd : ℤ) → IsTable s.fds → NoFault (fd_fsync fw fd s)
  unfolding fd_fsync
  fsync-NoFault fd t = at (find_fd-ok fd t)
    where
      at : (f : Found) × (find_fd fd s ≡ ok f s) → NoFault (fd_fsync fw fd s)
      at (found i handle, e) = rw (fd_fsync, e) tt
      at (missing r, e) = rw (fd_fsync, e) tt

module _ {W : Type 0} (fw : Firmware W) where
  kill-NoFault : (pid sig : ℤ) (s : Machine W) → NoFault (proc_kill fw pid sig s)
  unfolding proc_kill proc_abort
  kill-NoFault pid sig s = ground arith

  mmap-NoFault : (length : ℕ) (fd : ℤ) (s : Machine W) → NoFault (mem_mmap fw length fd s)
  unfolding mem_mmap
  mmap-NoFault length (negsuc n) s = ground arith
  mmap-NoFault length (pos n) s = ground arith

  -- The result becomes a word.
  word : (m : Run W ℤ) → NoFault m → NoFault (and_then m int_result)
  word m h = NoFault-and_then m int_result h λ a s. tt

  run-NoFault :
      (c : Call) (a : Arguments) (s : Machine W)
      → IsTable s.fds
      → is_careful c ≡ true
      → NoFault (run fw c a s)
  unfolding run proc_exit mem_munmap
  run-NoFault Call.close (arguments a0 a1 a2 a3 a4 a5) s t h =
      word (fd_close fw (to_int a0) s) (Returns-NoFault _ _ (close_total fw s (to_int a0) t))
  run-NoFault Call.mmap (arguments a0 a1 a2 a3 a4 a5) s t h = mmap-NoFault a1 (to_int a4) s
  run-NoFault Call.munmap (arguments a0 a1 a2 a3 a4 a5) s t h = tt
  run-NoFault Call.dup (arguments a0 a1 a2 a3 a4 a5) s t h =
      word (fd_dup fw (to_int a0) s) (Returns-NoFault _ _ (dup_total fw s (to_int a0) t))
  run-NoFault Call.exit (arguments a0 a1 a2 a3 a4 a5) s t h = tt
  run-NoFault Call.fsync (arguments a0 a1 a2 a3 a4 a5) s t h =
      word (fd_fsync fw (to_int a0) s) (fsync-NoFault fw s (to_int a0) t)
  run-NoFault Call.fdatasync (arguments a0 a1 a2 a3 a4 a5) s t h =
      word (fd_fsync fw (to_int a0) s) (fsync-NoFault fw s (to_int a0) t)
  run-NoFault Call.kill (arguments a0 a1 a2 a3 a4 a5) s t h =
      word (proc_kill fw (to_int a0) (to_int a1) s) (kill-NoFault (to_int a0) (to_int a1) s)
  run-NoFault Call.mprotect (arguments a0 a1 a2 a3 a4 a5) s t h = tt
  run-NoFault Call.sched_yield (arguments a0 a1 a2 a3 a4 a5) s t h = tt
  run-NoFault Call.getpid (arguments a0 a1 a2 a3 a4 a5) s t h = tt
  run-NoFault Call.getuid (arguments a0 a1 a2 a3 a4 a5) s t h = tt
  run-NoFault Call.getgid (arguments a0 a1 a2 a3 a4 a5) s t h = tt
  run-NoFault Call.setuid (arguments a0 a1 a2 a3 a4 a5) s t h = tt
  run-NoFault Call.setgid (arguments a0 a1 a2 a3 a4 a5) s t h = tt
  run-NoFault Call.geteuid (arguments a0 a1 a2 a3 a4 a5) s t h = tt
  run-NoFault Call.getegid (arguments a0 a1 a2 a3 a4 a5) s t h = tt
  run-NoFault Call.getppid (arguments a0 a1 a2 a3 a4 a5) s t h = tt
  run-NoFault Call.gettid (arguments a0 a1 a2 a3 a4 a5) s t h = tt
  run-NoFault Call.unknown (arguments a0 a1 a2 a3 a4 a5) s t h = tt
  run-NoFault Call.read a s t h = absurd (false≢true h)
  run-NoFault Call.write a s t h = absurd (false≢true h)
  run-NoFault Call.lseek a s t h = absurd (false≢true h)
  run-NoFault Call.dup2 a s t h = absurd (false≢true h)
  run-NoFault Call.open_file a s t h = absurd (false≢true h)
  run-NoFault Call.stat a s t h = absurd (false≢true h)
  run-NoFault Call.fstat a s t h = absurd (false≢true h)
  run-NoFault Call.lstat a s t h = absurd (false≢true h)
  run-NoFault Call.select a s t h = absurd (false≢true h)
  run-NoFault Call.gettimeofday a s t h = absurd (false≢true h)
  run-NoFault Call.reboot a s t h = absurd (false≢true h)
  run-NoFault Call.getdents64 a s t h = absurd (false≢true h)

  -- On a table of 16 slots, and where every handle in it counts as one of the firmware, the system
  -- calls that follow no pointer of their caller, but for lseek and dup2, do not run into undefined
  -- behaviour, whatever their arguments and the replies of the firmware: these are close, dup,
  -- fsync, fdatasync, exit, kill, mmap, munmap, the calls that only return a constant, and every
  -- unknown number.
  pub syscall_safe :
      (number : ℕ) (a : Arguments) (s : Machine W)
      → IsTable s.fds
      → is_careful (call_of number) ≡ true
      → NoFault (syscall_emu_x86_64 fw number a s)
  unfolding syscall_emu_x86_64
  syscall_safe number a s t h = run-NoFault (call_of number) a s t h
