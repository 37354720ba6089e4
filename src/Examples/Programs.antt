-- ===== src/Examples/Programs.antt =====
-- The C library's calls over the concrete firmware, and the program on them.
use uefilinux.Base.{
  ℕ, ◌+◌, ◌-◌, length, ◌^◌, ◌≡◌, refl, if◌then◌else◌, ℤ, pos, negsuc, is_neg, to_u64,
}
use uefilinux.Machine.{Command, pure, and_then}
use uefilinux.Syscall.{Call, call_of, arguments, syscall_emu_x86_64}
use uefilinux.Machine.After.{Results}
use uefilinux.Syscall.Bridge.{my_syscall}
use uefilinux.Syscall.Bridge.Signed.{signed}
use uefilinux.Syscall.Bridge.Through.{IsReply, my_syscall_lem, my_syscall_errors}
use uefilinux.Syscall.Prototypes.{CType, prototype}
use uefilinux.Syscall.Prototypes.Narrow.{HasType, my_syscall-Prototype}
use uefilinux.UserImpl.{Nolibc, puts}
use uefilinux.UserImpl.Print.{WritesBySyscall}
use uefilinux.Main.{Stdio}
use uefilinux.Examples.Machines.{firmware, shared}

abbrev emulated_write : ℤ → ℕ → ℕ → Command ℕ ℤ
emulated_write fd buf count s =
    and_then (my_syscall firmware 1 (arguments (to_u64 fd) buf count 0 0 0) s)
      (λ r. pure (if is_neg r then negsuc 0 else r))

abbrev pub nolibc : Nolibc ℕ
nolibc = record {
  write = emulated_write;
  read = λ fd buf count. pure (pos 0);
  mmap = λ size fd. pure 4096;
  munmap = λ p size. pure (pos 0);
  strlen = λ p. pure (p - 300);
}

pub nolibc-WritesBySyscall : WritesBySyscall firmware nolibc
nolibc-WritesBySyscall = record { write_lem = λ fd buf count s. refl }

abbrev pub stdio : Stdio ℕ
stdio = record {
  puts = λ text. puts nolibc 700 (300 + length text);
  write = λ fd text count. pure (pos count);
  perror = λ text. pure tt;
  printf = λ text args. pure tt;
  printf_text = λ text arg. pure tt;
  putchar = λ c. pure tt;
  sleep = λ seconds. pure tt;
  malloc = λ n. pure 4096;
  strcpy = λ p text. pure tt;
  free = λ p. pure tt;
  getchar = pure b'\n';
  exit = λ status. pure tt;
}

my_syscall_lem_example :
    my_syscall firmware 3 (arguments 5 300 3 0 0 0) shared
    ≡ signed firmware Call.close (arguments 5 300 3 0 0 0) shared
unfolding call_of
my_syscall_lem_example = my_syscall_lem firmware 3 (arguments 5 300 3 0 0 0) shared refl

my_syscall_errors_example :
    Results IsReply (my_syscall firmware 3 (arguments 77 300 3 0 0 0) shared)
unfolding call_of
my_syscall_errors_example = my_syscall_errors firmware 3 (arguments 77 300 3 0 0 0) shared refl refl

my_syscall-Prototype_example :
    (syscall_emu_x86_64 firmware 3 (arguments 5 0 0 0 0 0) shared
      ≡ syscall_emu_x86_64 firmware 3 (arguments (2 ^ 32 + 5) 300 3 0 0 0) shared)
    × Results
        (HasType CType.int)
        (my_syscall firmware 3 (arguments (2 ^ 32 + 5) 300 3 0 0 0) shared)
unfolding call_of prototype
my_syscall-Prototype_example =
    my_syscall-Prototype firmware 3 (arguments (2 ^ 32 + 5) 300 3 0 0 0) shared refl
