-- ===== src/Stat.antt =====
-- `fd_efi_stat`, `fd_fstat` and `fd_stat` of src/linux-uefi.c.
pub mod Fields
pub mod Queries
use uefilinux.Base.{ℕ, ◌%◌, ◌^◌, ◌≡◌, ℤ, pos, neg, ◌==◌, if◌then◌else◌, true, false}
use uefilinux.Efi.{Firmware, FileInfo, OpenMode}
use uefilinux.Errno.{efi_status_to_errno}
use uefilinux.Machine.{Machine, Stat, Command, pure, efi, get, put_mem, update, ◌>>=◌, ◌>>◌}
use uefilinux.Wide.{bstr_to_wstr}
use uefilinux.Fd.{find_fd, found, missing}
use uefilinux.File.{fd_efi_get_file_info}
use uefilinux.Time.{time_efi_time_to_time_t}

abbrev pub emu_uid : ℕ
emu_uid = 1000

abbrev pub emu_gid : ℕ
emu_gid = 1000

-- The fields that are set before the firmware is asked. A time's second half is its nanoseconds.
unfoldable pub stat_head : ℕ → Stat → Stat
stat_head volume st = record st {
  st_dev = volume;
  st_ino = 0;
  st_nlink = 1;
  st_mode = 0o666;
  st_uid = emu_uid;
  st_gid = emu_gid;
  st_blksize = 0;
  st_atim = (st.st_atim.0, 0);
  st_mtim = (st.st_mtim.0, 0);
  st_ctim = (st.st_ctim.0, 0);
}

-- The fields that are set from the firmware's file information.
unfoldable pub stat_tail : FileInfo → Stat → Stat
stat_tail info st = record st {
  st_size = info.file_size;
  st_blocks = info.physical_size;
  st_atim = (time_efi_time_to_time_t info.last_access_time, st.st_atim.1);
  st_mtim = (time_efi_time_to_time_t info.modification_time, st.st_mtim.1);
  st_ctim = (time_efi_time_to_time_t info.create_time, st.st_ctim.1);
}

module _ {W : Type 0} where
  unfoldable pub change_stat : ℕ → (Stat → Stat) → Command W (Unit {0})
  change_stat buf f = do
    s ← get
    put_mem (record (s.mem) { stats = update s.mem.stats buf (f (s.mem.stats buf)) })

module _ {W : Type 0} (fw : Firmware W) where
  unfoldable pub fd_efi_stat : ℕ → ℕ → Command W ℤ
  fd_efi_stat handle buf = do
    s ← get
    change_stat buf (stat_head s.volume)
    (status, info) ← fd_efi_get_file_info fw handle
    if fw.is_error status
        then pure (neg (efi_status_to_errno fw status))
        else do change_stat buf (stat_tail info); pure (pos 0)

  unfoldable pub fd_fstat : ℤ → ℕ → Command W ℤ
  fd_fstat fd buf = do
    f ← find_fd fd
    elim f [ missing e ↦ pure e | found i handle ↦ fd_efi_stat handle buf ]

  unfoldable pub fd_stat : ℕ → ℕ → Command W ℤ
  fd_stat path buf = do
    name ← bstr_to_wstr path
    s ← get
    (status, handle) ← efi (
        fw.open_file s.volume name
          (record { mode_read = true; mode_write = false; mode_create = false }) 0)
    if fw.is_error status
        then pure (neg (efi_status_to_errno fw status))
        else fd_efi_stat handle buf
