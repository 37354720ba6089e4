-- ===== src/Handles/Every.antt =====
-- Every system call.
use uefilinux.Base.{ℕ}
use uefilinux.Efi.{Firmware}
use uefilinux.Machine.{Machine}
use uefilinux.Machine.After.{After}
use uefilinux.Syscall.{Arguments, syscall_emu_x86_64}
use uefilinux.Syscall.Invariant.{Preserves-calls}
use uefilinux.Handles.{Handles, IsOwned}
use uefilinux.Handles.Commands.{IsOwned-IsStable}
use uefilinux.Handles.Devices.{
  Preserves-time_gettimeofday, Preserves-fd_select, Preserves-mem_mmap, Preserves-mem_munmap,
  Preserves-proc_exit, Preserves-proc_kill, Preserves-power_reboot,
}
use uefilinux.Handles.Calls.{
  Preserves-fsync, Preserves-lseek, Preserves-fd_fstat, Preserves-fd_getdents64, Preserves-fd_write,
  Preserves-fd_read, Preserves-fd_stat, Preserves-fd_open,
}
use uefilinux.Handles.Slots.{Preserves-close, Preserves-dup, Preserves-dup2}

module _ {W : Type 0} {fw : Firmware W} (d : Handles fw) where
  -- Where the firmware keeps account of its handles: if every handle in the table of 16 slots is
  -- open and not the volume's, which is open, slot 0 is free, and no entry was given a handle that
  -- was not open, then the same holds after any system call, also after one that does not return,
  -- unless it runs into undefined behaviour.
  pub syscall-IsOwned :
      (number : ℕ) (a : Arguments) (s : Machine W)
      → IsOwned d s
      → After (IsOwned d) (syscall_emu_x86_64 fw number a s)
  syscall-IsOwned number a s o =
      (Preserves-calls fw (IsOwned d)
          (record {
            read = Preserves-fd_read d;
            write = Preserves-fd_write d;
            open_file = Preserves-fd_open d;
            stat = Preserves-fd_stat d;
            fstat = Preserves-fd_fstat d;
            lseek = Preserves-lseek d;
            mmap = Preserves-mem_mmap d (IsOwned d) (IsOwned-IsStable d);
            munmap = Preserves-mem_munmap d (IsOwned d) (IsOwned-IsStable d);
            select = Preserves-fd_select d (IsOwned d) (IsOwned-IsStable d);
            exit = Preserves-proc_exit d (IsOwned d) (IsOwned-IsStable d);
            fsync = Preserves-fsync d;
            kill = Preserves-proc_kill d (IsOwned d) (IsOwned-IsStable d);
            gettimeofday = Preserves-time_gettimeofday d (IsOwned d) (IsOwned-IsStable d);
            reboot = Preserves-power_reboot d (IsOwned d) (IsOwned-IsStable d);
            getdents64 = Preserves-fd_getdents64 d;
            close = Preserves-close d;
            dup = Preserves-dup d;
            dup2 = Preserves-dup2 d;
          })
          number a).after
        s o
