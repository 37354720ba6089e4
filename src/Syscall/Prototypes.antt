-- ===== src/Syscall/Prototypes.antt =====
-- include/linux-uefi-int.h and include/linux-uefi-syscalls.h: the integer types, and the types of the
-- functions that answer system calls.
pub mod Narrow
use uefilinux.Base.{ℕ, ◌-◌, ◌%◌, ◌^◌, ◌<◌, ◌≤◌, Option, none, some, List, [], ◌∷◌, ℤ, pos, negsuc}
use uefilinux.Syscall.{Call, Arguments, arguments}

-- C's types on this machine.
pub data CType : Type 0 where
  unsigned_short int unsigned_int long unsigned_long pointer void : CType

-- The typedefs.
abbrev pub wchar_t : CType
wchar_t = CType.unsigned_short

abbrev pub size_t : CType
size_t = CType.unsigned_long

abbrev pub ssize_t : CType
ssize_t = CType.long

abbrev pub time_t : CType
time_t = CType.long

abbrev pub off_t : CType
off_t = CType.long

abbrev pub pid_t : CType
pid_t = CType.int

abbrev pub uid_t : CType
uid_t = CType.unsigned_int

abbrev pub gid_t : CType
gid_t = CType.unsigned_int

abbrev pub dev_t : CType
dev_t = CType.unsigned_int

abbrev pub ino_t : CType
ino_t = CType.unsigned_long

abbrev pub mode_t : CType
mode_t = CType.unsigned_int

abbrev pub nlink_t : CType
nlink_t = CType.unsigned_long

abbrev pub blksize_t : CType
blksize_t = CType.long

abbrev pub blkcnt_t : CType
blkcnt_t = CType.long

abbrev pub clock_t : CType
clock_t = CType.unsigned_long

abbrev pub nfds_t : CType
nfds_t = CType.unsigned_long

-- A function's types.
pub record Prototype : Type 0 where
  pub result : CType
  pub parameters : List CType

-- The function behind a call; none where the switch itself has the answer.
unfoldable pub prototype : Call → Option Prototype
prototype Call.read =
    some (record { result = ssize_t; parameters = CType.int ∷ CType.pointer ∷ size_t ∷ [] })
prototype Call.write =
    some (record { result = ssize_t; parameters = CType.int ∷ CType.pointer ∷ size_t ∷ [] })
prototype Call.open_file =
    some (record { result = CType.int; parameters = CType.pointer ∷ CType.int ∷ [] })
prototype Call.close = some (record { result = CType.int; parameters = CType.int ∷ [] })
prototype Call.stat =
    some (record { result = CType.int; parameters = CType.pointer ∷ CType.pointer ∷ [] })
prototype Call.fstat =
    some (record { result = CType.int; parameters = CType.int ∷ CType.pointer ∷ [] })
prototype Call.lstat =
    some (record { result = CType.int; parameters = CType.pointer ∷ CType.pointer ∷ [] })
prototype Call.lseek =
    some (record { result = off_t; parameters = CType.int ∷ off_t ∷ CType.int ∷ [] })
prototype Call.mmap = some (record {
  result = CType.pointer;
  parameters = CType.pointer ∷ size_t ∷ CType.int ∷ CType.int ∷ CType.int ∷ off_t ∷ [];
})
prototype Call.munmap =
    some (record { result = CType.int; parameters = CType.pointer ∷ size_t ∷ [] })
prototype Call.select = some (record {
  result = CType.int;
  parameters = CType.int ∷ CType.pointer ∷ CType.pointer ∷ CType.pointer ∷ CType.pointer ∷ [];
})
prototype Call.dup = some (record { result = CType.int; parameters = CType.int ∷ [] })
prototype Call.dup2 = some (record { result = CType.int; parameters = CType.int ∷ CType.int ∷ [] })
prototype Call.exit = some (record { result = CType.void; parameters = CType.int ∷ [] })
prototype Call.fsync = some (record { result = CType.int; parameters = CType.int ∷ [] })
prototype Call.fdatasync = some (record { result = CType.int; parameters = CType.int ∷ [] })
prototype Call.kill = some (record { result = CType.int; parameters = pid_t ∷ CType.int ∷ [] })
prototype Call.gettimeofday = some (record { result = CType.int; parameters = CType.pointer ∷ [] })
prototype Call.reboot = some (record {
  result = CType.int;
  parameters = CType.int ∷ CType.int ∷ CType.int ∷ CType.pointer ∷ [];
})
prototype Call.getdents64 =
    some (record { result = CType.int; parameters = CType.int ∷ CType.pointer ∷ CType.int ∷ [] })
prototype _ = none
