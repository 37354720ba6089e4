-- ===== src/File.antt =====
-- `fd_open`, and `fd_read` and `fd_write` on a file, of src/linux-uefi.c.
pub mod Open
pub mod Transfer
pub mod Contents
use uefilinux.Base.{
  ℕ, zero, suc, ◌+◌, ◌%◌, ◌^◌, Bool, true, false, not, ◌&&◌, ◌||◌, List, [], ◌∷◌, bit_and, ◌==◌,
  if◌then◌else◌, ℤ, pos, negsuc, neg, to_long,
}
use uefilinux.Efi.{OpenMode, Firmware, FileInfo, pointer_to_pointer}
use uefilinux.Errno.{emfile, enotdir, eisdir, efi_status_to_errno}
use uefilinux.Machine.{Machine, Command, pure, efi, get, put_mem, update, ◌>>=◌, ◌>>◌}
use uefilinux.Wide.{bstr_to_wstr}
use uefilinux.Fd.{to_virtual_fd, fd_real_find_free, find_fd, found, missing}

abbrev pub o_wronly : ℕ
o_wronly = 0o1

abbrev pub o_rdwr : ℕ
o_rdwr = 0o2

abbrev pub o_creat : ℕ
o_creat = 0o100

abbrev pub o_append : ℕ
o_append = 0o2000

abbrev pub o_directory : ℕ
o_directory = 0o200000

-- `flags & bit`, as a test
unfoldable pub has : ℕ → ℕ → Bool
has flags bit = not (bit_and flags bit == 0)

unfoldable pub open_mode : ℕ → OpenMode
open_mode flags = record {
  mode_read = true;
  mode_write = has flags o_append || (has flags o_wronly || has flags o_rdwr);
  mode_create = has flags o_creat;
}

-- The `count` bytes from `p` on.
unfoldable pub load_bytes : (ℕ → ℕ) → ℕ → ℕ → List ℕ
load_bytes bytes p zero = []
load_bytes bytes p (suc count) = bytes p ∷ load_bytes bytes (p + 1) count

-- The memory with bytes written from `p` on.
unfoldable pub store_bytes : (ℕ → ℕ) → ℕ → List ℕ → ℕ → ℕ
store_bytes bytes p [] = bytes
store_bytes bytes p (b ∷ bs) = store_bytes (update bytes p b) (p + 1) bs

module _ {W : Type 0} (fw : Firmware W) where
  abbrev pub fd_efi_get_file_info : ℕ → Command W (ℕ × FileInfo)
  fd_efi_get_file_info handle = efi (fw.get_info handle)

  -- `SetInfo` is handed the address of the parameter `info`, which is a pointer, with the size of the
  -- information: what the firmware then reads behind the pointer is left to `set_info`.
  abbrev pub fd_efi_set_file_info : ℕ → Command W ℕ
  fd_efi_set_file_info handle = efi (fw.set_info handle pointer_to_pointer)

  -- To the end for O_APPEND; else the size 0 is to be set.
  unfoldable pub position_or_truncate : ℕ → ℕ → Command W (Unit {0})
  position_or_truncate flags handle =
      if has flags o_append
      then (do status ← efi (fw.set_position handle 0xffff_ffff_ffff_ffff); pure tt)
      else (if OpenMode.mode_write (open_mode flags)
          then (do status ← fd_efi_set_file_info handle; pure tt)
          else pure tt)

  -- The last checks of `fd_open`.
  unfoldable pub check_directory : ℕ → ℕ → FileInfo → ℤ
  check_directory flags n info =
      let is_directory = not (bit_and info.attribute fw.file_directory == 0) in
      if has flags o_directory
      then (if is_directory then to_virtual_fd n else neg enotdir)
      else (if is_directory then neg eisdir else to_virtual_fd n)

  -- `fd_open` after a slot is found.
  unfoldable pub open_at : ℕ → ℕ → ℕ → Command W ℤ
  open_at n pathname flags = do
    name ← bstr_to_wstr pathname
    s ← get
    (status, handle) ← efi (
        fw.open_file s.volume name (open_mode flags)
          (if has flags o_directory then fw.file_directory else 0))
    if fw.is_error status then pure (neg (efi_status_to_errno fw status)) else do
      (status', info) ← fd_efi_get_file_info handle
      if fw.is_error status'
          then pure (neg (efi_status_to_errno fw status'))
          else do position_or_truncate flags handle; pure (check_directory flags n info)

  -- `if (fd < 0) return -EMFILE;` and what follows it
  unfoldable pub open_found : ℤ → ℕ → ℕ → Command W ℤ
  open_found (negsuc n) pathname flags = pure (neg emfile)
  open_found (pos n) pathname flags = open_at n pathname flags

  unfoldable pub fd_open : ℕ → ℕ → Command W ℤ
  fd_open pathname flags = do s ← get; open_found (fd_real_find_free s.fds) pathname flags

  -- `fd_read` on a descriptor that is not standard input.
  unfoldable pub read_file : ℤ → ℕ → ℕ → Command W ℤ
  read_file fd buf count = do
    f ← find_fd fd
    elim f [
      | missing e ↦ pure e
      | found i handle ↦ do
        (status, done, bytes) ← efi (fw.read handle count)
        s ← get
        put_mem (record (s.mem) { bytes = store_bytes s.mem.bytes buf bytes })
        if fw.is_error status
            then pure (neg (efi_status_to_errno fw status))
            else pure (to_long done)
    ]

  -- `fd_write` on a descriptor that is not standard output or error.
  unfoldable pub write_file : ℤ → ℕ → ℕ → Command W ℤ
  write_file fd buf count = do
    f ← find_fd fd
    elim f [
      | missing e ↦ pure e
      | found i handle ↦ do
        s ← get
        (status, done) ← efi (fw.write handle (load_bytes s.mem.bytes buf count))
        if fw.is_error status
            then pure (neg (efi_status_to_errno fw status))
            else pure (to_long done)
    ]
