-- ===== src/Directory.antt =====
-- `fd_getdents64` of src/linux-uefi.c.
pub mod Entries
pub mod Listing
use uefilinux.Base.{
  ℕ, zero, suc, ◌+◌, ◌-◌, ◌*◌, ◌/◌, ◌%◌, ◌^◌, Bool, Option, none, some, List, map, length, ◌==◌,
  if◌then◌else◌, ℤ, pos, negsuc, neg, to_int, to_u64, to_u32,
}
use uefilinux.Efi.{Firmware, FileInfo}
use uefilinux.Errno.{efi_status_to_errno}
use uefilinux.Machine.{
  Machine, Dirent, Command, pure, efi, undefined, get, put_mem, update, ◌>>=◌, ◌>>◌,
}
use uefilinux.Fd.{find_fd, found, missing}

-- `sizeof(struct linux_dirent64)`: 19 bytes before the name, padded to the alignment of 8.
abbrev pub sizeof_dirent : ℕ
sizeof_dirent = 24

-- `count = count / sizeof(struct linux_dirent64)`: an unsigned 64-bit division, stored in an `int`
unfoldable pub entry_count : ℤ → ℤ
entry_count count = to_int (to_u64 count / sizeof_dirent)

-- `d_reclen`, of 16 bits
unfoldable pub record_length : ℕ → ℕ
record_length name_length = (8 + 8 + 2 + 1 + name_length + 1) % 2 ^ 16

-- The entry for a file, as one object; only the low byte of each character is kept, and `d_type`
-- stays. The bytes of a name of 5 or more characters, which lie behind the 24 of the entry, are not
-- written to any other object.
unfoldable pub dirent_of : FileInfo → Dirent → Dirent
dirent_of info old = record old {
  d_ino = 0;
  d_off = record_length (length info.file_name);
  d_reclen = record_length (length info.file_name);
  d_name = map (λ c. c % 2 ^ 8) info.file_name;
}

module _ {W : Type 0} where
  -- The entry is written, and `next` goes on with the new sum. The end of a directory, where the
  -- firmware writes no information, is a read of what was never written.
  unfoldable pub enter : (ℕ → Command W ℤ) → ℕ → ℕ → Option FileInfo → Command W ℤ
  enter next dire fres none = undefined
  enter next dire fres (some info) = do
    s ← get
    put_mem (record (s.mem) {
      dirents = update s.mem.dirents dire (dirent_of info (s.mem.dirents dire));
    })
    next ((fres + record_length (length info.file_name)) % 2 ^ 64)

module _ {W : Type 0} (fw : Firmware W) where
  -- The rounds that are left, the address `dirp + count`, and the sum `fres`. Every round writes to
  -- that address.
  unfoldable pub read_entries : ℕ → ℕ → ℕ → ℕ → Command W ℤ
  read_entries handle zero dire fres = pure (to_int fres)
  read_entries handle (suc left) dire fres = do
    (status, read) ← efi (fw.read_directory handle)
    if fw.is_error status
        then pure (neg (efi_status_to_errno fw status))
        else enter (λ sum. read_entries handle left dire sum) dire fres read

  unfoldable pub fd_getdents64 : ℤ → ℕ → ℤ → Command W ℤ
  fd_getdents64 fd dirp count = do
    f ← find_fd fd
    elim f [
      | missing e ↦ pure e
      | found i handle ↦
          let n = entry_count count in
          read_entries handle (to_u32 n) ((dirp + sizeof_dirent * to_u64 n) % 2 ^ 64) 0
    ]
