-- ===== src/Handles/Files.antt =====
-- What a call does with the handle that it has: seeking, file information, the entries of a directory.
use uefilinux.Base.{ℕ, zero, suc, ◌+◌, ◌%◌, ◌^◌, Option, none, some, length, ℤ, pos, neg, to_int}
use uefilinux.Efi.{OpenMode, Firmware, FileInfo, pointer_to_pointer}
use uefilinux.Errno.{efi_status_to_errno}
use uefilinux.Machine.{Command}
use uefilinux.Machine.Preserves.{
  Preserves, Preserves-pure, Preserves-get, Preserves-undefined, Preserves->>=, Preserves-if,
}
use uefilinux.Handles.{Handles}
use uefilinux.Handles.Commands.{Using, Using-IsStable, Preserves-put_mem, Preserves-use}
use uefilinux.Fd.{seek_set, seek_cur, seek_end, seek_result}
use uefilinux.File.{has, o_append, open_mode, position_or_truncate}
use uefilinux.Machine.{Stat}
use uefilinux.Stat.{change_stat, stat_tail, stat_head, fd_efi_stat}
use uefilinux.Directory.{record_length, enter, read_entries}

module _ {W : Type 0} {fw : Firmware W} (d : Handles fw) (h : ℕ) where
  pub Preserves-seek_set : (offset : ℕ) → Preserves (Using d h) (seek_set fw h offset)
  unfolding seek_set
  Preserves-seek_set offset =
      Preserves->>= (Using d h) _ _
        (Preserves-use d h (fw.set_position h (offset % 2 ^ 64))
          (d.set_position h (offset % 2 ^ 64)))
        λ status. Preserves-pure (Using d h) (seek_result fw status (offset % 2 ^ 64))

  pub Preserves-seek_cur : (offset : ℕ) → Preserves (Using d h) (seek_cur fw h offset)
  unfolding seek_cur
  Preserves-seek_cur offset =
      Preserves->>= (Using d h) _ _ (Preserves-use d h (fw.get_position h) (d.get_position h)) λ x.
        let target = (x.1 + offset) % 2 ^ 64 in
        Preserves-if (Using d h) (fw.is_error x.0) _ _
          (Preserves-pure (Using d h) (neg (efi_status_to_errno fw x.0)))
          (Preserves->>= (Using d h) _ _
            (Preserves-use d h (fw.set_position h target) (d.set_position h target))
            λ status. Preserves-pure (Using d h) (seek_result fw status target))

  pub Preserves-seek_end : (offset : ℕ) → Preserves (Using d h) (seek_end fw h offset)
  unfolding seek_end
  Preserves-seek_end offset =
      Preserves->>= (Using d h) _ _
        (Preserves-use d h (fw.set_position h 0xffff_ffff_ffff_ffff)
          (d.set_position h 0xffff_ffff_ffff_ffff))
        λ status.
          Preserves-if (Using d h) (fw.is_error status) _ _
            (Preserves-pure (Using d h) (neg (efi_status_to_errno fw status)))
            (Preserves-seek_cur offset)

  Preserves-change_stat : (buf : ℕ) (f : Stat → Stat) → Preserves (Using d h) (change_stat buf f)
  unfolding change_stat
  Preserves-change_stat buf f =
      Preserves->>= (Using d h) _ _ (Preserves-get (Using d h))
        λ s. Preserves-put_mem d (Using d h) (Using-IsStable d h) _

  pub Preserves-fd_efi_stat : (buf : ℕ) → Preserves (Using d h) (fd_efi_stat fw h buf)
  unfolding fd_efi_stat
  Preserves-fd_efi_stat buf = Preserves->>= (Using d h) _ _ (Preserves-get (Using d h)) λ s.
      Preserves->>= (Using d h) _ _ (Preserves-change_stat buf (stat_head s.volume)) λ u.
        Preserves->>= (Using d h) _ _ (Preserves-use d h (fw.get_info h) (d.get_info h)) λ x.
          Preserves-if (Using d h) (fw.is_error x.0) _ _
            (Preserves-pure (Using d h) (neg (efi_status_to_errno fw x.0)))
            (Preserves->>= (Using d h) _ _ (Preserves-change_stat buf (stat_tail x.1))
              λ u. Preserves-pure (Using d h) (pos 0))

  pub Preserves-position_or_truncate :
      (flags : ℕ) → Preserves (Using d h) (position_or_truncate fw flags h)
  unfolding position_or_truncate
  Preserves-position_or_truncate flags =
      Preserves-if (Using d h) (has flags o_append) _ _
        (Preserves->>= (Using d h) _ _
          (Preserves-use d h (fw.set_position h 0xffff_ffff_ffff_ffff)
            (d.set_position h 0xffff_ffff_ffff_ffff))
          λ status. Preserves-pure (Using d h) tt)
        (Preserves-if (Using d h) (OpenMode.mode_write (open_mode flags)) _ _
          (Preserves->>= (Using d h) _ _
            (Preserves-use d h (fw.set_info h pointer_to_pointer) (d.set_info h pointer_to_pointer))
            λ status. Preserves-pure (Using d h) tt)
          (Preserves-pure (Using d h) tt))

  Preserves-enter :
      (next : ℕ → Command W ℤ) (dire fres : ℕ) (read : Option FileInfo)
      → ((sum : ℕ) → Preserves (Using d h) (next sum))
      → Preserves (Using d h) (enter next dire fres read)
  unfolding enter
  Preserves-enter next dire fres none go = Preserves-undefined (Using d h)
  Preserves-enter next dire fres (some info) go =
      Preserves->>= (Using d h) _ _ (Preserves-get (Using d h)) λ s.
        Preserves->>= (Using d h) _ _ (Preserves-put_mem d (Using d h) (Using-IsStable d h) _)
          λ u. go ((fres + record_length (length info.file_name)) % 2 ^ 64)

  pub Preserves-read_entries :
      (left dire fres : ℕ) → Preserves (Using d h) (read_entries fw h left dire fres)
  unfolding read_entries
  Preserves-read_entries zero dire fres = Preserves-pure (Using d h) (to_int fres)
  Preserves-read_entries (suc left) dire fres =
      Preserves->>= (Using d h) _ _ (Preserves-use d h (fw.read_directory h) (d.read_directory h))
        λ x.
          Preserves-if (Using d h) (fw.is_error x.0) _ _
            (Preserves-pure (Using d h) (neg (efi_status_to_errno fw x.0)))
            (Preserves-enter (λ sum. read_entries fw h left dire sum) dire fres x.1
              λ sum. Preserves-read_entries left dire sum)
