-- ===== src/Syscall.antt =====
-- `syscall_emu_x86_64` of src/linux-uefi.c: the number chooses a call, whose arguments are converted
-- from 64-bit words and whose result is converted to one.
pub mod Results
pub mod Memory
pub mod Refines
pub mod Bridge
pub mod Prototypes
pub mod Dispatch
pub mod Frame
pub mod Safe
pub mod Table
pub mod Invariant
use uefilinux.Base.{ℕ, ◌-◌, ◌%◌, ◌^◌, ◌==◌, if◌then◌else◌, ℤ, pos, negsuc, neg, to_int, to_u64}
use uefilinux.Efi.{Firmware}
use uefilinux.Errno.{eperm, enosys}
use uefilinux.Machine.{Machine, Command, pure, ◌>>=◌, ◌>>◌}
use uefilinux.Fd.{fd_close, fd_fsync, fd_dup, fd_dup2, fd_lseek}
use uefilinux.File.{fd_open}
use uefilinux.Console.{fd_read, fd_write}
use uefilinux.Time.{time_gettimeofday}
use uefilinux.Stat.{emu_uid, emu_gid, fd_stat, fd_fstat}
use uefilinux.Directory.{fd_getdents64}
use uefilinux.Process.{emu_pid, proc_exit, proc_kill, power_reboot, fd_select, mem_mmap, mem_munmap}

-- The cases of the switch, by the names of the Linux system calls; the last is its default.
pub data Call : Type 0 where
  read write open_file close stat fstat lstat lseek mmap munmap select dup dup2 exit fsync fdatasync
        kill gettimeofday reboot getdents64 mprotect sched_yield getpid getuid getgid setuid setgid
        geteuid getegid getppid gettid unknown :
      Call

unfoldable pub call_of : ℕ → Call
call_of number =
    if number == 0
    then Call.read
    else if number == 1
    then Call.write
    else if number == 2
    then Call.open_file
    else if number == 3
    then Call.close
    else if number == 4
    then Call.stat
    else if number == 5
    then Call.fstat
    else if number == 6
    then Call.lstat
    else if number == 8
    then Call.lseek
    else if number == 9
    then Call.mmap
    else if number == 11
    then Call.munmap
    else if number == 23
    then Call.select
    else if number == 32
    then Call.dup
    else if number == 33
    then Call.dup2
    else if number == 60
    then Call.exit
    else if number == 74
    then Call.fsync
    else if number == 75
    then Call.fdatasync
    else if number == 62
    then Call.kill
    else if number == 96
    then Call.gettimeofday
    else if number == 169
    then Call.reboot
    else if number == 217
    then Call.getdents64
    else if number == 10
    then Call.mprotect
    else if number == 24
    then Call.sched_yield
    else if number == 39
    then Call.getpid
    else if number == 102
    then Call.getuid
    else if number == 104
    then Call.getgid
    else if number == 105
    then Call.setuid
    else if number == 106
    then Call.setgid
    else if number == 107
    then Call.geteuid
    else if number == 108
    then Call.getegid
    else if number == 110
    then Call.getppid
    else if number == 186
    then Call.gettid
    else Call.unknown

-- The array `args`.
pub data Arguments : Type 0 where
  arguments : (a0 a1 a2 a3 a4 a5 : ℕ) → Arguments

module _ {W : Type 0} where
  -- A signed result as the 64-bit word that is returned.
  abbrev pub int_result : ℤ → Command W ℕ
  int_result r = pure (to_u64 r)

module _ {W : Type 0} (fw : Firmware W) where
  unfoldable pub run : Call → Arguments → Command W ℕ
  run Call.read (arguments a0 a1 a2 a3 a4 a5) = fd_read fw (to_int a0) a1 a2 >>= int_result
  run Call.write (arguments a0 a1 a2 a3 a4 a5) = fd_write fw (to_int a0) a1 a2 >>= int_result
  run Call.open_file (arguments a0 a1 a2 a3 a4 a5) = fd_open fw a0 (a1 % 2 ^ 32) >>= int_result
  run Call.close (arguments a0 a1 a2 a3 a4 a5) = fd_close fw (to_int a0) >>= int_result
  run Call.stat (arguments a0 a1 a2 a3 a4 a5) = fd_stat fw a0 a1 >>= int_result
  run Call.fstat (arguments a0 a1 a2 a3 a4 a5) = fd_fstat fw (to_int a0) a1 >>= int_result
  run Call.lstat (arguments a0 a1 a2 a3 a4 a5) = fd_stat fw a0 a1 >>= int_result
  run Call.lseek (arguments a0 a1 a2 a3 a4 a5) =
      fd_lseek fw (to_int a0) a1 (to_int a2) >>= int_result
  run Call.mmap (arguments a0 a1 a2 a3 a4 a5) = mem_mmap fw a1 (to_int a4)
  run Call.munmap (arguments a0 a1 a2 a3 a4 a5) = mem_munmap fw a0 >>= int_result
  run Call.select (arguments a0 a1 a2 a3 a4 a5) =
      fd_select fw (to_int a0) a1 a2 a3 a4 >>= int_result
  run Call.dup (arguments a0 a1 a2 a3 a4 a5) = fd_dup fw (to_int a0) >>= int_result
  run Call.dup2 (arguments a0 a1 a2 a3 a4 a5) = fd_dup2 fw (to_int a0) (to_int a1) >>= int_result
  run Call.exit (arguments a0 a1 a2 a3 a4 a5) = proc_exit fw (to_int a0) >> pure 0
  run Call.fsync (arguments a0 a1 a2 a3 a4 a5) = fd_fsync fw (to_int a0) >>= int_result
  run Call.fdatasync (arguments a0 a1 a2 a3 a4 a5) = fd_fsync fw (to_int a0) >>= int_result
  run Call.kill (arguments a0 a1 a2 a3 a4 a5) = proc_kill fw (to_int a0) (to_int a1) >>= int_result
  run Call.gettimeofday (arguments a0 a1 a2 a3 a4 a5) = time_gettimeofday fw a0 >>= int_result
  run Call.reboot (arguments a0 a1 a2 a3 a4 a5) =
      power_reboot fw (to_int a0) (to_int a1) (to_int a2) a3 >>= int_result
  run Call.getdents64 (arguments a0 a1 a2 a3 a4 a5) =
      fd_getdents64 fw (to_int a0) a1 (to_int a2) >>= int_result
  run Call.mprotect (arguments a0 a1 a2 a3 a4 a5) = pure 0
  run Call.sched_yield (arguments a0 a1 a2 a3 a4 a5) = pure 0
  run Call.getpid (arguments a0 a1 a2 a3 a4 a5) = pure emu_pid
  run Call.getuid (arguments a0 a1 a2 a3 a4 a5) = pure emu_uid
  run Call.getgid (arguments a0 a1 a2 a3 a4 a5) = pure emu_gid
  run Call.setuid (arguments a0 a1 a2 a3 a4 a5) = int_result (neg eperm)
  run Call.setgid (arguments a0 a1 a2 a3 a4 a5) = int_result (neg eperm)
  run Call.geteuid (arguments a0 a1 a2 a3 a4 a5) = pure emu_uid
  run Call.getegid (arguments a0 a1 a2 a3 a4 a5) = pure emu_gid
  run Call.getppid (arguments a0 a1 a2 a3 a4 a5) = pure (emu_pid - 1)
  run Call.gettid (arguments a0 a1 a2 a3 a4 a5) = pure emu_pid
  run Call.unknown a = int_result (neg enosys)

  unfoldable pub syscall_emu_x86_64 : ℕ → Arguments → Command W ℕ
  syscall_emu_x86_64 number args = run (call_of number) args
