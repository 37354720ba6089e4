-- ===== src/Examples/Calls.antt =====
-- The start of the program and its system calls.
use uefilinux.Base.{
  ◌⊎◌, false, some, contains, length, List, ℕ, ◌-◌, ◌^◌, ◌≡◌, refl, pos, neg, to_u32, to_u64,
  to_int, arith,
}
use uefilinux.Errno.{emfile}
use uefilinux.Machine.{Machine, ok, spin, load_fd, store_fd}
use uefilinux.Machine.After.{After}
use uefilinux.Fd.{check_fd, find_fd, fd_close}
use uefilinux.File.{fd_open}
use uefilinux.Process.{cmd_power_off, known_magic2, proc_kill, power_reboot, print}
use uefilinux.Process.Calls.{proc_kill_lem}
use uefilinux.Process.Reboot.{power_reboot_lem}
use uefilinux.Fd.View.{Removed, view}
use uefilinux.Syscall.Refines.{syscall_refines}
use uefilinux.Syscall.Memory.{syscall_keeps_memory}
use uefilinux.Boot.{prepare, set_image, set_volume, get_volume, clear_fds}
use uefilinux.Boot.Start.{AllFree-replicate, never_opens}
use uefilinux.Boot.Ready.{prepare_ready}
use uefilinux.Syscall.{Call, Arguments, arguments, call_of, run, syscall_emu_x86_64}
use uefilinux.Syscall.Dispatch.{emulated, linux_number, syscall_numbers}
use uefilinux.Syscall.Safe.{NoFault, syscall_safe}
use uefilinux.Syscall.Table.{IsEmpty, here, call, Reach-IsEmpty}
use uefilinux.Examples.Machines.{firmware, shared, empty}

abbrev close_5 : Arguments
close_5 = arguments 5 0 0 0 0 0

empty-IsEmpty : IsEmpty empty
empty-IsEmpty = record { table = refl; free = AllFree-replicate 16 }

-- Descriptor 5 is not open: EBADF.
empty_close : syscall_emu_x86_64 firmware 3 close_5 empty ≡ ok (2 ^ 64 - 9) empty
unfolding syscall_emu_x86_64 call_of run fd_close find_fd check_fd load_fd to_int to_u64
empty_close = refl

empty_prepared : prepare firmware 1 shared ≡ ok tt empty
unfolding prepare set_image set_volume get_volume clear_fds store_fd print
empty_prepared = refl

syscall_numbers_example :
    ((c : Call) × (linux_number c ≡ some 3)
      × (syscall_emu_x86_64 firmware 3 close_5 empty ≡ run firmware c close_5 empty))
    ⊎ ((contains emulated 3 ≡ false)
        × (syscall_emu_x86_64 firmware 3 close_5 empty ≡ ok (2 ^ 64 - 38) empty))
syscall_numbers_example = syscall_numbers firmware 3 close_5 empty

syscall_safe_example : NoFault (syscall_emu_x86_64 firmware 32 close_5 shared)
unfolding call_of
syscall_safe_example = syscall_safe firmware 32 close_5 shared refl refl

Reach-IsEmpty_example : IsEmpty empty
Reach-IsEmpty_example = Reach-IsEmpty firmware empty-IsEmpty (call 3 close_5 here empty_close)

prepare_ready_example :
    (t : Machine ℕ) × (prepare firmware 1 shared ≡ ok tt t)
    × IsEmpty t
    × (t.image ≡ 1)
    × (t.volume ≡ 5)
    × (t.mem ≡ shared.mem)
prepare_ready_example =
    prepare_ready firmware 1 shared refl (record {
      loaded_image = 3;
      system = 3;
      root = 5;
      loaded = refl;
      found = refl;
      opened = refl;
    })

never_opens_example : fd_open firmware 200 0 empty ≡ ok (neg emfile) empty
never_opens_example =
    never_opens firmware 1 200 0 shared empty empty refl empty_prepared
      (call 3 close_5 here empty_close)

-- A signal to the process itself ends the image; one from 30 on is refused.
proc_kill_lem_example : proc_kill firmware (pos 2) (pos 6) shared ≡ spin shared
proc_kill_lem_example = proc_kill_lem firmware shared 2 (pos 6) (omega arith) (λ n e. ground arith)

-- A power off that the firmware lets return.
power_reboot_lem_example :
    (fres : List ℕ) × (length fres ≡ 1024)
    × (power_reboot firmware (pos 0xfee1_dead) (pos 0x2812_1969) (pos cmd_power_off) 0 shared
        ≡ ok (pos 0) (record shared { fres = fres }))
unfolding to_u32 known_magic2
power_reboot_lem_example =
    power_reboot_lem firmware (pos 0xfee1_dead) (pos 0x2812_1969) (pos cmd_power_off) 0 shared refl

syscall_refines_example :
    After
      (λ t. Removed (to_int 5) (view shared.fds) (view t.fds))
      (syscall_emu_x86_64 firmware 3 (arguments 5 300 3 0 0 0) shared)
unfolding call_of
syscall_refines_example = syscall_refines firmware 3 (arguments 5 300 3 0 0 0) shared refl

syscall_keeps_memory_example :
    After (λ t. t.mem ≡ shared.mem) (syscall_emu_x86_64 firmware 1 (arguments 1 300 3 0 0 0) shared)
unfolding call_of
syscall_keeps_memory_example = syscall_keeps_memory firmware 1 (arguments 1 300 3 0 0 0) shared refl
