-- ===== src/Syscall/Dispatch.antt =====
-- Which numbers `syscall_emu_x86_64` knows, and for which system calls.
use uefilinux.Base.{
  ℕ, ◌-◌, ◌^◌, ◌≡◌, ◌⊎◌, inl, inr, refl, Bool-cases, false, true, Option, none, some, List, [], ◌∷◌,
  contains, arith, to_u64,
}
use uefilinux.Efi.{Firmware}
use uefilinux.Machine.{Machine, ok}
use uefilinux.Syscall.{Call, Arguments, call_of, run, syscall_emu_x86_64}

-- The numbers of the system calls that are emulated, in ascending order.
abbrev pub emulated : List ℕ
emulated =
    0 ∷ 1 ∷ 2 ∷ 3 ∷ 4 ∷ 5 ∷ 6 ∷ 8 ∷ 9 ∷ 10 ∷ 11 ∷ 23 ∷ 24 ∷ 32 ∷ 33 ∷ 39 ∷ 60 ∷ 62 ∷ 74 ∷ 75 ∷ 96
    ∷ 102 ∷ 104 ∷ 105 ∷ 106 ∷ 107 ∷ 108 ∷ 110 ∷ 169 ∷ 186 ∷ 217 ∷ []

-- A system call whose number is not among the 31 emulated ones returns the word of ENOSYS and
-- changes nothing.
pub syscall_unknown :
    {W : Type 0} (fw : Firmware W) (number : ℕ) (a : Arguments) (s : Machine W)
    → contains emulated number ≡ false
    → syscall_emu_x86_64 fw number a s ≡ ok (2 ^ 64 - 38) s
unfolding syscall_emu_x86_64 run call_of to_u64
syscall_unknown fw number a s h = ground arith

-- The numbers that Linux gives to these system calls on x86-64.
abbrev pub linux_number : Call → Option ℕ
linux_number Call.read = some 0
linux_number Call.write = some 1
linux_number Call.open_file = some 2
linux_number Call.close = some 3
linux_number Call.stat = some 4
linux_number Call.fstat = some 5
linux_number Call.lstat = some 6
linux_number Call.lseek = some 8
linux_number Call.mmap = some 9
linux_number Call.mprotect = some 10
linux_number Call.munmap = some 11
linux_number Call.select = some 23
linux_number Call.sched_yield = some 24
linux_number Call.dup = some 32
linux_number Call.dup2 = some 33
linux_number Call.getpid = some 39
linux_number Call.exit = some 60
linux_number Call.kill = some 62
linux_number Call.fsync = some 74
linux_number Call.fdatasync = some 75
linux_number Call.gettimeofday = some 96
linux_number Call.getuid = some 102
linux_number Call.getgid = some 104
linux_number Call.setuid = some 105
linux_number Call.setgid = some 106
linux_number Call.geteuid = some 107
linux_number Call.getegid = some 108
linux_number Call.getppid = some 110
linux_number Call.reboot = some 169
linux_number Call.gettid = some 186
linux_number Call.getdents64 = some 217
linux_number Call.unknown = none

linux_number-call_of :
    (number : ℕ) → contains emulated number ≡ true → linux_number (call_of number) ≡ some number
unfolding call_of
linux_number-call_of number h = ground arith

-- A number that `syscall_emu_x86_64` gets is either the one that Linux on x86-64 gives to one of
-- the 31 emulated system calls, and that call is then run with the arguments, or it is none of
-- these 31 numbers, and the word of -ENOSYS is then returned and nothing changes.
pub syscall_numbers :
    {W : Type 0} (fw : Firmware W) (number : ℕ) (a : Arguments) (s : Machine W)
    → ((c : Call) × (linux_number c ≡ some number)
        × (syscall_emu_x86_64 fw number a s ≡ run fw c a s))
      ⊎ ((contains emulated number ≡ false)
          × (syscall_emu_x86_64 fw number a s ≡ ok (2 ^ 64 - 38) s))
unfolding syscall_emu_x86_64
syscall_numbers fw number a s = elim (Bool-cases (contains emulated number)) [
  | inl known ↦ inl (call_of number, linux_number-call_of number known, refl)
  | inr other ↦ inr (other, syscall_unknown fw number a s other)
]
