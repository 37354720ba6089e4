-- ===== src/Syscall/Bridge/Signed.antt =====
-- What every system call comes to without the 64-bit word between, and what its results have in common.
use uefilinux.Base.{
  ℕ, ◌-◌, ◌%◌, ◌^◌, ◌≡◌, refl, Bool, true, false, ℤ, pos, neg, to_int, to_long, arith,
}
use mathlib.Core.Bool.{false≢true, true≢false}
use uefilinux.Efi.{Firmware}
use uefilinux.Errno.{eperm, enosys}
use uefilinux.Machine.{Machine, Command, pure, ◌>>=◌, ◌>>◌}
use uefilinux.Machine.After.{Results, Results-and_then}
use uefilinux.Fd.{fd_close, fd_fsync, fd_dup, fd_dup2, fd_lseek}
use uefilinux.Fd.Table.{IsTable}
use uefilinux.File.{fd_open}
use uefilinux.Console.{fd_read, fd_write}
use uefilinux.Time.{time_gettimeofday}
use uefilinux.Stat.{emu_uid, emu_gid, fd_stat, fd_fstat}
use uefilinux.Directory.{fd_getdents64}
use uefilinux.Process.{emu_pid, proc_exit, proc_kill, power_reboot, fd_select, mem_mmap, mem_munmap}
use uefilinux.Syscall.{Call, Arguments, arguments}
use uefilinux.Syscall.Results.{ResultProperty}
use uefilinux.Syscall.Results.Tables.{
  Results-fd_close, Results-fd_fsync, Results-fd_dup, Results-fd_dup2,
}
use uefilinux.Syscall.Results.Others.{
  Results-fd_open, Results-fd_fstat, Results-fd_stat, Results-proc_kill, Results-power_reboot,
  Results-gettimeofday, Results-fd_select, Results-munmap,
}
use uefilinux.Syscall.Results.Counts.{
  Results-fd_read, Results-fd_write, Results-fd_lseek, Results-getdents64,
}

module _ {W : Type 0} (fw : Firmware W) where
  -- What a system call does, with its result as the number that C's types give: no word between.
  unfoldable pub signed : Call → Arguments → Command W ℤ
  signed Call.read (arguments a0 a1 a2 a3 a4 a5) = fd_read fw (to_int a0) a1 a2
  signed Call.write (arguments a0 a1 a2 a3 a4 a5) = fd_write fw (to_int a0) a1 a2
  signed Call.open_file (arguments a0 a1 a2 a3 a4 a5) = fd_open fw a0 (a1 % 2 ^ 32)
  signed Call.close (arguments a0 a1 a2 a3 a4 a5) = fd_close fw (to_int a0)
  signed Call.stat (arguments a0 a1 a2 a3 a4 a5) = fd_stat fw a0 a1
  signed Call.fstat (arguments a0 a1 a2 a3 a4 a5) = fd_fstat fw (to_int a0) a1
  signed Call.lstat (arguments a0 a1 a2 a3 a4 a5) = fd_stat fw a0 a1
  signed Call.lseek (arguments a0 a1 a2 a3 a4 a5) = fd_lseek fw (to_int a0) a1 (to_int a2)
  signed Call.mmap (arguments a0 a1 a2 a3 a4 a5) =
      mem_mmap fw a1 (to_int a4) >>= λ p. pure (to_long p)
  signed Call.munmap (arguments a0 a1 a2 a3 a4 a5) = mem_munmap fw a0
  signed Call.select (arguments a0 a1 a2 a3 a4 a5) = fd_select fw (to_int a0) a1 a2 a3 a4
  signed Call.dup (arguments a0 a1 a2 a3 a4 a5) = fd_dup fw (to_int a0)
  signed Call.dup2 (arguments a0 a1 a2 a3 a4 a5) = fd_dup2 fw (to_int a0) (to_int a1)
  signed Call.exit (arguments a0 a1 a2 a3 a4 a5) = proc_exit fw (to_int a0) >> pure (pos 0)
  signed Call.fsync (arguments a0 a1 a2 a3 a4 a5) = fd_fsync fw (to_int a0)
  signed Call.fdatasync (arguments a0 a1 a2 a3 a4 a5) = fd_fsync fw (to_int a0)
  signed Call.kill (arguments a0 a1 a2 a3 a4 a5) = proc_kill fw (to_int a0) (to_int a1)
  signed Call.gettimeofday (arguments a0 a1 a2 a3 a4 a5) = time_gettimeofday fw a0
  signed Call.reboot (arguments a0 a1 a2 a3 a4 a5) =
      power_reboot fw (to_int a0) (to_int a1) (to_int a2) a3
  signed Call.getdents64 (arguments a0 a1 a2 a3 a4 a5) = fd_getdents64 fw (to_int a0) a1 (to_int a2)
  signed Call.mprotect (arguments a0 a1 a2 a3 a4 a5) = pure (pos 0)
  signed Call.sched_yield (arguments a0 a1 a2 a3 a4 a5) = pure (pos 0)
  signed Call.getpid (arguments a0 a1 a2 a3 a4 a5) = pure (pos emu_pid)
  signed Call.getuid (arguments a0 a1 a2 a3 a4 a5) = pure (pos emu_uid)
  signed Call.getgid (arguments a0 a1 a2 a3 a4 a5) = pure (pos emu_gid)
  signed Call.setuid (arguments a0 a1 a2 a3 a4 a5) = pure (neg eperm)
  signed Call.setgid (arguments a0 a1 a2 a3 a4 a5) = pure (neg eperm)
  signed Call.geteuid (arguments a0 a1 a2 a3 a4 a5) = pure (pos emu_uid)
  signed Call.getegid (arguments a0 a1 a2 a3 a4 a5) = pure (pos emu_gid)
  signed Call.getppid (arguments a0 a1 a2 a3 a4 a5) = pure (pos (emu_pid - 1))
  signed Call.gettid (arguments a0 a1 a2 a3 a4 a5) = pure (pos emu_pid)
  signed Call.unknown a = pure (neg enosys)

-- The calls whose result is an error, 0, a descriptor or an identifier: all but those that return a
-- number of bytes, a position or an address.
abbrev pub is_plain : Call → Bool
is_plain Call.read = false
is_plain Call.write = false
is_plain Call.lseek = false
is_plain Call.getdents64 = false
is_plain Call.mmap = false
is_plain _ = true

module _ {W : Type 0} (fw : Firmware W) (Q : ℤ → Type 0) (q : ResultProperty Q) where
  pub Results-plain :
      (c : Call) (a : Arguments) (s : Machine W)
      → IsTable s.fds
      → is_plain c ≡ true
      → Results Q (signed fw c a s)
  unfolding signed proc_exit
  Results-plain Call.open_file (arguments a0 a1 a2 a3 a4 a5) s t h =
      Results-fd_open fw Q q a0 (a1 % 2 ^ 32) s t
  Results-plain Call.close (arguments a0 a1 a2 a3 a4 a5) s t h =
      Results-fd_close fw Q q (to_int a0) s
  Results-plain Call.stat (arguments a0 a1 a2 a3 a4 a5) s t h = Results-fd_stat fw Q q a0 a1 s
  Results-plain Call.fstat (arguments a0 a1 a2 a3 a4 a5) s t h =
      Results-fd_fstat fw Q q (to_int a0) a1 s
  Results-plain Call.lstat (arguments a0 a1 a2 a3 a4 a5) s t h = Results-fd_stat fw Q q a0 a1 s
  Results-plain Call.munmap (arguments a0 a1 a2 a3 a4 a5) s t h = Results-munmap fw Q q a0 s
  Results-plain Call.select (arguments a0 a1 a2 a3 a4 a5) s t h =
      Results-fd_select fw Q q (to_int a0) a1 a2 a3 a4 s
  Results-plain Call.dup (arguments a0 a1 a2 a3 a4 a5) s t h = Results-fd_dup fw Q q (to_int a0) s t
  Results-plain Call.dup2 (arguments a0 a1 a2 a3 a4 a5) s t h =
      Results-fd_dup2 fw Q q (to_int a0) (to_int a1) s t
  Results-plain Call.exit (arguments a0 a1 a2 a3 a4 a5) s t h = q.small 0 (omega arith)
  Results-plain Call.fsync (arguments a0 a1 a2 a3 a4 a5) s t h =
      Results-fd_fsync fw Q q (to_int a0) s
  Results-plain Call.fdatasync (arguments a0 a1 a2 a3 a4 a5) s t h =
      Results-fd_fsync fw Q q (to_int a0) s
  Results-plain Call.kill (arguments a0 a1 a2 a3 a4 a5) s t h =
      Results-proc_kill fw Q q (to_int a0) (to_int a1) s
  Results-plain Call.gettimeofday (arguments a0 a1 a2 a3 a4 a5) s t h =
      Results-gettimeofday fw Q q a0 s
  Results-plain Call.reboot (arguments a0 a1 a2 a3 a4 a5) s t h =
      Results-power_reboot fw Q q (to_int a0) (to_int a1) (to_int a2) a3 s
  Results-plain Call.mprotect (arguments a0 a1 a2 a3 a4 a5) s t h = q.small 0 (omega arith)
  Results-plain Call.sched_yield (arguments a0 a1 a2 a3 a4 a5) s t h = q.small 0 (omega arith)
  Results-plain Call.getpid (arguments a0 a1 a2 a3 a4 a5) s t h = q.small 2 (omega arith)
  Results-plain Call.getuid (arguments a0 a1 a2 a3 a4 a5) s t h = q.small 1000 (omega arith)
  Results-plain Call.getgid (arguments a0 a1 a2 a3 a4 a5) s t h = q.small 1000 (omega arith)
  Results-plain Call.geteuid (arguments a0 a1 a2 a3 a4 a5) s t h = q.small 1000 (omega arith)
  Results-plain Call.getegid (arguments a0 a1 a2 a3 a4 a5) s t h = q.small 1000 (omega arith)
  Results-plain Call.getppid (arguments a0 a1 a2 a3 a4 a5) s t h = q.small 1 (omega arith)
  Results-plain Call.gettid (arguments a0 a1 a2 a3 a4 a5) s t h = q.small 2 (omega arith)
  Results-plain Call.setuid (arguments a0 a1 a2 a3 a4 a5) s t h = q.error eperm refl
  Results-plain Call.setgid (arguments a0 a1 a2 a3 a4 a5) s t h = q.error eperm refl
  Results-plain Call.unknown (arguments a0 a1 a2 a3 a4 a5) s t h = q.error enosys refl
  Results-plain Call.read a s t h = absurd (false≢true h)
  Results-plain Call.write a s t h = absurd (false≢true h)
  Results-plain Call.lseek a s t h = absurd (false≢true h)
  Results-plain Call.getdents64 a s t h = absurd (false≢true h)
  Results-plain Call.mmap a s t h = absurd (false≢true h)

  pub Results-counted :
      (c : Call) (a : Arguments) (s : Machine W)
      → ((w : ℕ) → Q (to_long w))
      → ((w : ℕ) → Q (to_int w))
      → is_plain c ≡ false
      → Results Q (signed fw c a s)
  unfolding signed
  Results-counted Call.read (arguments a0 a1 a2 a3 a4 a5) s long int h =
      Results-fd_read fw Q q long (to_int a0) a1 a2 s
  Results-counted Call.write (arguments a0 a1 a2 a3 a4 a5) s long int h =
      Results-fd_write fw Q q long (to_int a0) a1 a2 s
  Results-counted Call.lseek (arguments a0 a1 a2 a3 a4 a5) s long int h =
      Results-fd_lseek fw Q q long (to_int a0) a1 (to_int a2) s
  Results-counted Call.getdents64 (arguments a0 a1 a2 a3 a4 a5) s long int h =
      Results-getdents64 fw Q q int (to_int a0) a1 (to_int a2) s
  Results-counted Call.mmap (arguments a0 a1 a2 a3 a4 a5) s long int h =
      Results-and_then Q (mem_mmap fw a1 (to_int a4) s) _ λ p t. long p
  Results-counted Call.open_file a s long int h = absurd (true≢false h)
  Results-counted Call.close a s long int h = absurd (true≢false h)
  Results-counted Call.stat a s long int h = absurd (true≢false h)
  Results-counted Call.fstat a s long int h = absurd (true≢false h)
  Results-counted Call.lstat a s long int h = absurd (true≢false h)
  Results-counted Call.munmap a s long int h = absurd (true≢false h)
  Results-counted Call.select a s long int h = absurd (true≢false h)
  Results-counted Call.dup a s long int h = absurd (true≢false h)
  Results-counted Call.dup2 a s long int h = absurd (true≢false h)
  Results-counted Call.exit a s long int h = absurd (true≢false h)
  Results-counted Call.fsync a s long int h = absurd (true≢false h)
  Results-counted Call.fdatasync a s long int h = absurd (true≢false h)
  Results-counted Call.kill a s long int h = absurd (true≢false h)
  Results-counted Call.gettimeofday a s long int h = absurd (true≢false h)
  Results-counted Call.reboot a s long int h = absurd (true≢false h)
  Results-counted Call.mprotect a s long int h = absurd (true≢false h)
  Results-counted Call.sched_yield a s long int h = absurd (true≢false h)
  Results-counted Call.getpid a s long int h = absurd (true≢false h)
  Results-counted Call.getuid a s long int h = absurd (true≢false h)
  Results-counted Call.getgid a s long int h = absurd (true≢false h)
  Results-counted Call.geteuid a s long int h = absurd (true≢false h)
  Results-counted Call.getegid a s long int h = absurd (true≢false h)
  Results-counted Call.getppid a s long int h = absurd (true≢false h)
  Results-counted Call.gettid a s long int h = absurd (true≢false h)
  Results-counted Call.setuid a s long int h = absurd (true≢false h)
  Results-counted Call.setgid a s long int h = absurd (true≢false h)
  Results-counted Call.unknown a s long int h = absurd (true≢false h)
