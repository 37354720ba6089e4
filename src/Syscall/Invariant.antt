-- ===== src/Syscall/Invariant.antt =====
-- A property of the descriptor table that `fd_close`, `fd_dup` and `fd_dup2` preserve is preserved by
-- every system call.
use uefilinux.Base.{ℕ, ◌-◌, ◌%◌, ◌^◌, ℤ, neg, to_int, to_u64}
use uefilinux.Efi.{Firmware}
use uefilinux.Errno.{eperm, enosys}
use uefilinux.Machine.{Machine, Command, ◌>>=◌}
use uefilinux.Machine.Keeps.{SameTable, Keeps}
use uefilinux.Machine.Preserves.{Preserves, Preserves-pure, Preserves->>=, Preserves-Keeps}
use uefilinux.Fd.{fd_close, fd_dup, fd_dup2, fd_fsync, fd_lseek}
use uefilinux.File.{fd_open}
use uefilinux.Console.{fd_read, fd_write}
use uefilinux.Directory.{fd_getdents64}
use uefilinux.Time.{time_gettimeofday}
use uefilinux.Process.{emu_pid, proc_exit, proc_kill, power_reboot, fd_select, mem_mmap, mem_munmap}
use uefilinux.Stat.{emu_uid, emu_gid, fd_stat, fd_fstat}
use uefilinux.Syscall.{Call, Arguments, arguments, int_result, run, call_of, syscall_emu_x86_64}
use uefilinux.Syscall.Frame.Transfers.{Keeps-fd_read, Keeps-fd_write}
use uefilinux.Syscall.Frame.{
  Keeps-fd_open, Keeps-fd_stat, Keeps-fd_fstat, Keeps-lseek, Keeps-mem_mmap, Keeps-mem_munmap,
  Keeps-fd_select, Keeps-fsync, Keeps-proc_exit, Keeps-proc_kill, Keeps-time_gettimeofday,
  Keeps-power_reboot, Keeps-fd_getdents64,
}

-- Every function that a system call ends in preserves the property.
pub record CallsPreserve {W : Type 0} (fw : Firmware W) (P : Machine W → Type 0) : Type 0 where
  pub read : (fd : ℤ) (buf count : ℕ) → Preserves P (fd_read fw fd buf count)
  pub write : (fd : ℤ) (buf count : ℕ) → Preserves P (fd_write fw fd buf count)
  pub open_file : (pathname flags : ℕ) → Preserves P (fd_open fw pathname flags)
  pub stat : (path buf : ℕ) → Preserves P (fd_stat fw path buf)
  pub fstat : (fd : ℤ) (buf : ℕ) → Preserves P (fd_fstat fw fd buf)
  pub lseek : (fd : ℤ) (offset : ℕ) (whence : ℤ) → Preserves P (fd_lseek fw fd offset whence)
  pub mmap : (length : ℕ) (fd : ℤ) → Preserves P (mem_mmap fw length fd)
  pub munmap : (addr : ℕ) → Preserves P (mem_munmap fw addr)
  pub select : (nfds : ℤ) (a b c timeout : ℕ) → Preserves P (fd_select fw nfds a b c timeout)
  pub exit : (status : ℤ) → Preserves P (proc_exit fw status)
  pub fsync : (fd : ℤ) → Preserves P (fd_fsync fw fd)
  pub kill : (pid sig : ℤ) → Preserves P (proc_kill fw pid sig)
  pub gettimeofday : (tv : ℕ) → Preserves P (time_gettimeofday fw tv)
  pub reboot :
      (magic1 magic2 cmd : ℤ) (arg : ℕ) → Preserves P (power_reboot fw magic1 magic2 cmd arg)
  pub getdents64 : (fd : ℤ) (dirp : ℕ) (count : ℤ) → Preserves P (fd_getdents64 fw fd dirp count)
  pub close : (fd : ℤ) → Preserves P (fd_close fw fd)
  pub dup : (fd : ℤ) → Preserves P (fd_dup fw fd)
  pub dup2 : (old_fd new_fd : ℤ) → Preserves P (fd_dup2 fw old_fd new_fd)

module _ {W : Type 0} (fw : Firmware W) (P : Machine W → Type 0) (calls : CallsPreserve fw P) where
  result : (c : Command W ℤ) → Preserves P c → Preserves P (c >>= int_result)
  result c h = Preserves->>= P c int_result h λ r. Preserves-pure P (to_u64 r)

  Preserves-run : (c : Call) (a : Arguments) → Preserves P (run fw c a)
  unfolding run
  Preserves-run Call.read (arguments a0 a1 a2 a3 a4 a5) = result _ ((calls.read (to_int a0) a1 a2))
  Preserves-run Call.write (arguments a0 a1 a2 a3 a4 a5) =
      result _ ((calls.write (to_int a0) a1 a2))
  Preserves-run Call.open_file (arguments a0 a1 a2 a3 a4 a5) =
      result _ ((calls.open_file a0 (a1 % 2 ^ 32)))
  Preserves-run Call.close (arguments a0 a1 a2 a3 a4 a5) = result _ (calls.close (to_int a0))
  Preserves-run Call.stat (arguments a0 a1 a2 a3 a4 a5) = result _ ((calls.stat a0 a1))
  Preserves-run Call.fstat (arguments a0 a1 a2 a3 a4 a5) = result _ ((calls.fstat (to_int a0) a1))
  Preserves-run Call.lstat (arguments a0 a1 a2 a3 a4 a5) = result _ ((calls.stat a0 a1))
  Preserves-run Call.lseek (arguments a0 a1 a2 a3 a4 a5) =
      result _ ((calls.lseek (to_int a0) a1 (to_int a2)))
  Preserves-run Call.mmap (arguments a0 a1 a2 a3 a4 a5) = (calls.mmap a1 (to_int a4))
  Preserves-run Call.munmap (arguments a0 a1 a2 a3 a4 a5) = result _ ((calls.munmap a0))
  Preserves-run Call.select (arguments a0 a1 a2 a3 a4 a5) =
      result _ ((calls.select (to_int a0) a1 a2 a3 a4))
  Preserves-run Call.dup (arguments a0 a1 a2 a3 a4 a5) = result _ (calls.dup (to_int a0))
  Preserves-run Call.dup2 (arguments a0 a1 a2 a3 a4 a5) =
      result _ (calls.dup2 (to_int a0) (to_int a1))
  Preserves-run Call.exit (arguments a0 a1 a2 a3 a4 a5) =
      Preserves->>= P _ _ ((calls.exit (to_int a0))) λ u. Preserves-pure P 0
  Preserves-run Call.fsync (arguments a0 a1 a2 a3 a4 a5) = result _ ((calls.fsync (to_int a0)))
  Preserves-run Call.fdatasync (arguments a0 a1 a2 a3 a4 a5) = result _ ((calls.fsync (to_int a0)))
  Preserves-run Call.kill (arguments a0 a1 a2 a3 a4 a5) =
      result _ ((calls.kill (to_int a0) (to_int a1)))
  Preserves-run Call.gettimeofday (arguments a0 a1 a2 a3 a4 a5) = result _ ((calls.gettimeofday a0))
  Preserves-run Call.reboot (arguments a0 a1 a2 a3 a4 a5) =
      result _ ((calls.reboot (to_int a0) (to_int a1) (to_int a2) a3))
  Preserves-run Call.getdents64 (arguments a0 a1 a2 a3 a4 a5) =
      result _ ((calls.getdents64 (to_int a0) a1 (to_int a2)))
  Preserves-run Call.mprotect (arguments a0 a1 a2 a3 a4 a5) = Preserves-pure P 0
  Preserves-run Call.sched_yield (arguments a0 a1 a2 a3 a4 a5) = Preserves-pure P 0
  Preserves-run Call.getpid (arguments a0 a1 a2 a3 a4 a5) = Preserves-pure P emu_pid
  Preserves-run Call.getuid (arguments a0 a1 a2 a3 a4 a5) = Preserves-pure P emu_uid
  Preserves-run Call.getgid (arguments a0 a1 a2 a3 a4 a5) = Preserves-pure P emu_gid
  Preserves-run Call.setuid (arguments a0 a1 a2 a3 a4 a5) = Preserves-pure P (to_u64 (neg eperm))
  Preserves-run Call.setgid (arguments a0 a1 a2 a3 a4 a5) = Preserves-pure P (to_u64 (neg eperm))
  Preserves-run Call.geteuid (arguments a0 a1 a2 a3 a4 a5) = Preserves-pure P emu_uid
  Preserves-run Call.getegid (arguments a0 a1 a2 a3 a4 a5) = Preserves-pure P emu_gid
  Preserves-run Call.getppid (arguments a0 a1 a2 a3 a4 a5) = Preserves-pure P (emu_pid - 1)
  Preserves-run Call.gettid (arguments a0 a1 a2 a3 a4 a5) = Preserves-pure P emu_pid
  Preserves-run Call.unknown a = Preserves-pure P (to_u64 (neg enosys))

  pub Preserves-calls : (number : ℕ) (a : Arguments) → Preserves P (syscall_emu_x86_64 fw number a)
  unfolding syscall_emu_x86_64
  Preserves-calls number a = Preserves-run (call_of number) a

-- What has to be shown of a property: it says nothing of what `SameTable` leaves out, and the three
-- calls that write the table preserve it.
pub record TableProperty {W : Type 0} (fw : Firmware W) (P : Machine W → Type 0) : Type 0 where
  pub stable : (s t : Machine W) → SameTable s t → P s → P t
  pub close_safe : (fd : ℤ) → Preserves P (fd_close fw fd)
  pub dup_safe : (fd : ℤ) → Preserves P (fd_dup fw fd)
  pub dup2_safe : (old_fd new_fd : ℤ) → Preserves P (fd_dup2 fw old_fd new_fd)

module _ {W : Type 0} (fw : Firmware W) (P : Machine W → Type 0) (table : TableProperty fw P) where
  kept : {A : Type 0} (c : Command W A) → Keeps c → Preserves P c
  kept c k = Preserves-Keeps P c table.stable k

  pub Preserves-syscall :
      (number : ℕ) (a : Arguments) → Preserves P (syscall_emu_x86_64 fw number a)
  Preserves-syscall number a =
      Preserves-calls fw P
        (record {
          read = λ fd buf count. kept _ (Keeps-fd_read fw fd buf count);
          write = λ fd buf count. kept _ (Keeps-fd_write fw fd buf count);
          open_file = λ pathname flags. kept _ (Keeps-fd_open fw pathname flags);
          stat = λ path buf. kept _ (Keeps-fd_stat fw path buf);
          fstat = λ fd buf. kept _ (Keeps-fd_fstat fw fd buf);
          lseek = λ fd offset whence. kept _ (Keeps-lseek fw fd offset whence);
          mmap = λ length fd. kept _ (Keeps-mem_mmap fw length fd);
          munmap = λ addr. kept _ (Keeps-mem_munmap fw addr);
          select = λ nfds a b c timeout. kept _ (Keeps-fd_select fw nfds a b c timeout);
          exit = λ status. kept _ (Keeps-proc_exit fw status);
          fsync = λ fd. kept _ (Keeps-fsync fw fd);
          kill = λ pid sig. kept _ (Keeps-proc_kill fw pid sig);
          gettimeofday = λ tv. kept _ (Keeps-time_gettimeofday fw tv);
          reboot = λ magic1 magic2 cmd arg. kept _ (Keeps-power_reboot fw magic1 magic2 cmd arg);
          getdents64 = λ fd dirp count. kept _ (Keeps-fd_getdents64 fw fd dirp count);
          close = table.close_safe;
          dup = table.dup_safe;
          dup2 = table.dup2_safe;
        })
        number a
