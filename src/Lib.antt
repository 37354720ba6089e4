-- ===== src/Lib.antt =====
-- UEFILinux: the system calls of Linux for a C program that runs as a UEFI application.
--
-- The program. src/linux-uefi.c starts as the application `efi_main`, prepares its global variables
-- (the image handle, the volume, and the table `fds` of 16 file handles) and calls the `main` that is
-- linked in. Whatever that program does through the C library nolibc ends in
-- `syscall_emu_x86_64(no, args)`, which answers a Linux system call by the functions `fd_…`,
-- `proc_…`, `time_…`, `mem_…` and `power_reboot`, and these by calls of the UEFI firmware.
--
-- The files.
--   Base, Base/*          numbers with C's conversions, Boolean tests, lists
--   Efi                   the firmware: a record of one function per entry that the code calls, over a
--                         state of its own, an argument of everything that uses it
--   Errno                 include/linux-uefi.h, the constants; `efi_status_to_errno`
--   Machine, Machine/*    the state (global variables, memory, firmware), and commands on it
--   Fd, Fd/*              `fd_real_find_free`, `fd_real_for_handle`, `fd_close`, `fd_fsync`, `fd_dup`,
--                         `fd_dup2`, `fd_lseek`; what they do to the table
--   Wide, Wide/*          `bstr_to_wstr`
--   File, File/*          `fd_open`, and `fd_read` and `fd_write` on files
--   Console, Console/*    `fd_read` and `fd_write` on the console
--   Time, Time/*          the clock, against the calendar of Time/Gregorian
--   Stat, Stat/*          `fd_efi_stat`, `fd_fstat`, `fd_stat`
--   Directory, Directory/*  `fd_getdents64`
--   Process, Process/*    `proc_…`, `power_reboot`, `fd_select`, `mem_mmap`, `mem_munmap`
--   Boot, Boot/*          `efi_main`, `GetVolume`
--   Syscall, Syscall/*    `syscall_emu_x86_64`, and invariants over all system calls
--   Handles, Handles/*    which handles the firmware is given, over all system calls
--   Getdelim, Getdelim/*  include/getdelim.h, over reads and allocations as arguments
--   UserImpl, UserImpl/*  src/clibc-user-impl.c, over the calls of nolibc as arguments; nolibc/arch.h has
--                         the system call macros, Syscall/Bridge
--   Syscall/Prototypes    include/linux-uefi-int.h and include/linux-uefi-syscalls.h: the types
--   Main, Main/*          src/main.c, over the C library and the type `float` as arguments
--   Examples, Examples/*  a concrete firmware, machines, and the theorems on them
--
-- The model. A function of the code is a command: from a machine to a result and a machine (`ok`), to
-- undefined behaviour (`fault`: an access outside an array, a read of what was never written), or to
-- an endless loop (`spin`). Words are natural numbers with `% 2 ^ w` written out; an `int` or `long`
-- result is an integer. Memory is kept by the type of the object at an address, so that
-- objects of different types do not overlap: the entries of a directory are whole objects, and that
-- one of them covers the end of the caller's buffer, or a long name the next place, is not shown.
-- Every address is one that the code may use: no access by a caller's pointer, NULL or wild, is a
-- `fault`. What the firmware reads by a pointer is its own: the read of SetInfo past the 8 bytes that
-- `fd_efi_set_file_info` hands over is no `fault` either.
--
-- Fuel. The conversion of a console write runs on count + 1 rounds, and the key loop on count + 1;
-- both are enough where the 32-bit counters reach `count`. A write of a larger `count` has an array of
-- more than 2 ^ 33 bytes on the stack, which counts as undefined behaviour. A read of a larger `count`
-- goes round in the code until a line ends, its counter wrapping around; the model gives up after
-- count + 1 rounds, as an endless loop, and no result is stated about such a read. `my_getdelim` runs
-- on fuel of its caller, one round for each byte that is read; the loop for a line feed at the end of
-- main.c likewise. The loops of its picture run on fuel too: 112 is enough for each, since `k` stops
-- at 112.
--
-- Not modelled. nolibc/, but for the macros, is a copy of another project's library; Makefile,
-- Makefile_cst and prep.sh build the program; the firmware and gnu-efi are not in the repository. The
-- stack that `CHAR16 str_buf[count*2]` takes has no bound in the model. The rounding of `float` is left
-- open: its operations are arguments, of which only whole numbers up to 2 ^ 24 are taken to be exact.
pub mod Base
pub mod Efi
pub mod Errno
pub mod Machine
pub mod Fd
pub mod Wide
pub mod File
pub mod Console
pub mod Time
pub mod Stat
pub mod Directory
pub mod Process
pub mod Boot
pub mod Syscall
pub mod Handles
pub mod Getdelim
pub mod UserImpl
pub mod Main
mod Examples
