-- ===== src/Syscall/Prototypes/Narrow.antt =====
-- What the types of the functions say of the system calls.
use uefilinux.Base.{
  ℕ, ◌%◌, ◌^◌, ◌<◌, ◌≤◌, ◌≡◌, refl, false, Option, none, some, List, [], get_elem?, ℤ, pos, is_neg,
  pos_part, neg_part, to_int, to_long, true, arith,
}
use uefilinux.Efi.{Firmware}
use uefilinux.Machine.{Machine}
use uefilinux.Machine.After.{Results, Results-and_then}
use uefilinux.Fd.Table.{IsTable}
use uefilinux.Syscall.{Call, Arguments, arguments, call_of, run, syscall_emu_x86_64}
use uefilinux.Process.{mem_mmap, proc_exit}
use uefilinux.Syscall.Results.{ResultProperty}
use uefilinux.Syscall.Results.Counts.{
  Results-fd_read, Results-fd_write, Results-fd_lseek, Results-getdents64,
}
use uefilinux.Syscall.Bridge.{my_syscall}
use uefilinux.Syscall.Bridge.Signed.{signed, is_plain, Results-plain}
use uefilinux.Syscall.Bridge.Through.{my_syscall_lem}
use uefilinux.Syscall.Prototypes.{CType, Prototype, prototype}

-- A 64-bit word as an argument of a type: the bits that the type has.
abbrev narrow_word : CType → ℕ → ℕ
narrow_word CType.unsigned_short w = w % 2 ^ 16
narrow_word CType.int w = w % 2 ^ 32
narrow_word CType.unsigned_int w = w % 2 ^ 32
narrow_word _ w = w

-- A word without a parameter is dropped.
abbrev narrow_at : Option CType → ℕ → ℕ
narrow_at none w = 0
narrow_at (some t) w = narrow_word t w

abbrev pub narrow : List CType → Arguments → Arguments
narrow types (arguments a0 a1 a2 a3 a4 a5) =
    arguments (narrow_at (get_elem? types 0) a0) (narrow_at (get_elem? types 1) a1)
      (narrow_at (get_elem? types 2) a2) (narrow_at (get_elem? types 3) a3)
      (narrow_at (get_elem? types 4) a4) (narrow_at (get_elem? types 5) a5)

abbrev types_of : Option Prototype → List CType
types_of none = []
types_of (some p) = p.parameters

abbrev result_of_type : Option Prototype → CType
result_of_type none = CType.int
result_of_type (some p) = p.result

-- The parameters of the function behind a call; the switch itself reads no argument.
abbrev pub parameters_of : Call → List CType
parameters_of c = types_of (prototype c)

-- The type of the result; the answers of the switch itself are `int` constants.
abbrev pub result_type : Call → CType
result_type c = result_of_type (prototype c)

-- A result that the type has; a pointer comes back as a `long`.
abbrev pub HasType : CType → ℤ → Type 0
HasType CType.unsigned_short z = (is_neg z ≡ false) × (pos_part z < 2 ^ 16)
HasType CType.int z = (pos_part z < 2 ^ 31) × (neg_part z ≤ 2 ^ 31)
HasType CType.unsigned_int z = (is_neg z ≡ false) × (pos_part z < 2 ^ 32)
HasType CType.long z = (pos_part z < 2 ^ 63) × (neg_part z ≤ 2 ^ 63)
HasType CType.unsigned_long z = (is_neg z ≡ false) × (pos_part z < 2 ^ 64)
HasType CType.pointer z = (pos_part z < 2 ^ 63) × (neg_part z ≤ 2 ^ 63)
HasType CType.void z = z ≡ pos 0

int-ResultProperty : ResultProperty (HasType CType.int)
int-ResultProperty = record {
  small = λ n h. (omega arith, omega arith);
  error = λ e h. ground arith;
}

long-ResultProperty : ResultProperty (HasType CType.long)
long-ResultProperty = record {
  small = λ n h. (omega arith, omega arith);
  error = λ e h. ground arith;
}

to_int-HasType : (w : ℕ) → HasType CType.int (to_int w)
unfolding to_int
to_int-HasType w = ground arith

to_long-HasType : (w : ℕ) → HasType CType.long (to_long w)
unfolding to_long
to_long-HasType w = ground arith

-- A conversion to `int` reads the low 32 bits.
to_int-low : (w : ℕ) → to_int (w % 2 ^ 32) ≡ to_int w
unfolding to_int
to_int-low w = let same : w % 2 ^ 32 % 2 ^ 32 ≡ w % 2 ^ 32 = omega arith in rw same

low-low : (w : ℕ) → w % 2 ^ 32 % 2 ^ 32 ≡ w % 2 ^ 32
low-low w = omega arith

module _ {W : Type 0} (fw : Firmware W) where
  run-narrow :
      (c : Call) (a : Arguments) (s : Machine W)
      → run fw c (narrow (parameters_of c) a) s ≡ run fw c a s
  unfolding run prototype
  run-narrow Call.read (arguments a0 a1 a2 a3 a4 a5) s = rw (to_int-low a0)
  run-narrow Call.write (arguments a0 a1 a2 a3 a4 a5) s = rw (to_int-low a0)
  run-narrow Call.close (arguments a0 a1 a2 a3 a4 a5) s = rw (to_int-low a0)
  run-narrow Call.fstat (arguments a0 a1 a2 a3 a4 a5) s = rw (to_int-low a0)
  run-narrow Call.lseek (arguments a0 a1 a2 a3 a4 a5) s = rw (to_int-low a0, to_int-low a2)
  run-narrow Call.mmap (arguments a0 a1 a2 a3 a4 a5) s = rw (to_int-low a4)
  run-narrow Call.select (arguments a0 a1 a2 a3 a4 a5) s = rw (to_int-low a0)
  run-narrow Call.dup (arguments a0 a1 a2 a3 a4 a5) s = rw (to_int-low a0)
  run-narrow Call.dup2 (arguments a0 a1 a2 a3 a4 a5) s = rw (to_int-low a0, to_int-low a1)
  run-narrow Call.exit (arguments a0 a1 a2 a3 a4 a5) s = rw (to_int-low a0)
  run-narrow Call.fsync (arguments a0 a1 a2 a3 a4 a5) s = rw (to_int-low a0)
  run-narrow Call.fdatasync (arguments a0 a1 a2 a3 a4 a5) s = rw (to_int-low a0)
  run-narrow Call.kill (arguments a0 a1 a2 a3 a4 a5) s = rw (to_int-low a0, to_int-low a1)
  run-narrow Call.reboot (arguments a0 a1 a2 a3 a4 a5) s =
      rw (to_int-low a0, to_int-low a1, to_int-low a2)
  run-narrow Call.getdents64 (arguments a0 a1 a2 a3 a4 a5) s = rw (to_int-low a0, to_int-low a2)
  run-narrow Call.open_file (arguments a0 a1 a2 a3 a4 a5) s = rw (low-low a1)
  run-narrow Call.stat (arguments a0 a1 a2 a3 a4 a5) s = refl
  run-narrow Call.lstat (arguments a0 a1 a2 a3 a4 a5) s = refl
  run-narrow Call.munmap (arguments a0 a1 a2 a3 a4 a5) s = refl
  run-narrow Call.gettimeofday (arguments a0 a1 a2 a3 a4 a5) s = refl
  run-narrow Call.mprotect (arguments a0 a1 a2 a3 a4 a5) s = refl
  run-narrow Call.sched_yield (arguments a0 a1 a2 a3 a4 a5) s = refl
  run-narrow Call.getpid (arguments a0 a1 a2 a3 a4 a5) s = refl
  run-narrow Call.getuid (arguments a0 a1 a2 a3 a4 a5) s = refl
  run-narrow Call.getgid (arguments a0 a1 a2 a3 a4 a5) s = refl
  run-narrow Call.setuid (arguments a0 a1 a2 a3 a4 a5) s = refl
  run-narrow Call.setgid (arguments a0 a1 a2 a3 a4 a5) s = refl
  run-narrow Call.geteuid (arguments a0 a1 a2 a3 a4 a5) s = refl
  run-narrow Call.getegid (arguments a0 a1 a2 a3 a4 a5) s = refl
  run-narrow Call.getppid (arguments a0 a1 a2 a3 a4 a5) s = refl
  run-narrow Call.gettid (arguments a0 a1 a2 a3 a4 a5) s = refl
  run-narrow Call.unknown (arguments a0 a1 a2 a3 a4 a5) s = refl

  plain :
      (c : Call) (a : Arguments) (s : Machine W)
      → IsTable s.fds
      → is_plain c ≡ true
      → Results (HasType CType.int) (signed fw c a s)
  plain c a s t h = Results-plain fw (HasType CType.int) int-ResultProperty c a s t h

  signed-HasType :
      (c : Call) (a : Arguments) (s : Machine W)
      → IsTable s.fds
      → Results (HasType (result_type c)) (signed fw c a s)
  unfolding signed prototype proc_exit
  signed-HasType Call.open_file a s t = plain Call.open_file a s t refl
  signed-HasType Call.close a s t = plain Call.close a s t refl
  signed-HasType Call.stat a s t = plain Call.stat a s t refl
  signed-HasType Call.fstat a s t = plain Call.fstat a s t refl
  signed-HasType Call.lstat a s t = plain Call.lstat a s t refl
  signed-HasType Call.munmap a s t = plain Call.munmap a s t refl
  signed-HasType Call.select a s t = plain Call.select a s t refl
  signed-HasType Call.dup a s t = plain Call.dup a s t refl
  signed-HasType Call.dup2 a s t = plain Call.dup2 a s t refl
  signed-HasType Call.fsync a s t = plain Call.fsync a s t refl
  signed-HasType Call.fdatasync a s t = plain Call.fdatasync a s t refl
  signed-HasType Call.kill a s t = plain Call.kill a s t refl
  signed-HasType Call.gettimeofday a s t = plain Call.gettimeofday a s t refl
  signed-HasType Call.reboot a s t = plain Call.reboot a s t refl
  signed-HasType Call.mprotect a s t = plain Call.mprotect a s t refl
  signed-HasType Call.sched_yield a s t = plain Call.sched_yield a s t refl
  signed-HasType Call.getpid a s t = plain Call.getpid a s t refl
  signed-HasType Call.getuid a s t = plain Call.getuid a s t refl
  signed-HasType Call.getgid a s t = plain Call.getgid a s t refl
  signed-HasType Call.setuid a s t = plain Call.setuid a s t refl
  signed-HasType Call.setgid a s t = plain Call.setgid a s t refl
  signed-HasType Call.geteuid a s t = plain Call.geteuid a s t refl
  signed-HasType Call.getegid a s t = plain Call.getegid a s t refl
  signed-HasType Call.getppid a s t = plain Call.getppid a s t refl
  signed-HasType Call.gettid a s t = plain Call.gettid a s t refl
  signed-HasType Call.unknown a s t = plain Call.unknown a s t refl
  signed-HasType Call.exit (arguments a0 a1 a2 a3 a4 a5) s t = refl
  signed-HasType Call.read (arguments a0 a1 a2 a3 a4 a5) s t =
      Results-fd_read fw _ long-ResultProperty to_long-HasType (to_int a0) a1 a2 s
  signed-HasType Call.write (arguments a0 a1 a2 a3 a4 a5) s t =
      Results-fd_write fw _ long-ResultProperty to_long-HasType (to_int a0) a1 a2 s
  signed-HasType Call.lseek (arguments a0 a1 a2 a3 a4 a5) s t =
      Results-fd_lseek fw _ long-ResultProperty to_long-HasType (to_int a0) a1 (to_int a2) s
  signed-HasType Call.getdents64 (arguments a0 a1 a2 a3 a4 a5) s t =
      Results-getdents64 fw _ int-ResultProperty to_int-HasType (to_int a0) a1 (to_int a2) s
  signed-HasType Call.mmap (arguments a0 a1 a2 a3 a4 a5) s t =
      Results-and_then (HasType CType.pointer) (mem_mmap fw a1 (to_int a4) s) _
        λ p u. to_long-HasType p

  -- On a table of 16 slots, every system call reads of its argument words only the bits that the
  -- types of its function's parameters have, and no word without a parameter; and every result that
  -- the C library gets is in the range of its function's result type.
  pub my_syscall-Prototype :
      (number : ℕ) (a : Arguments) (s : Machine W)
      → IsTable s.fds
      → (syscall_emu_x86_64 fw number (narrow (parameters_of (call_of number)) a) s
          ≡ syscall_emu_x86_64 fw number a s)
        × Results (HasType (result_type (call_of number))) (my_syscall fw number a s)
  unfolding syscall_emu_x86_64
  my_syscall-Prototype number a s t = (
    run-narrow (call_of number) a s,
    rw (my_syscall_lem fw number a s t) (signed-HasType (call_of number) a s t),
  )
