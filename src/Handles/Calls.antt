-- ===== src/Handles/Calls.antt =====
-- The calls on a descriptor or a name that leave the descriptor table alone.
use uefilinux.Base.{
  ℕ, ◌+◌, ◌||◌, true, false, Bool-cases, inl, inr, List, ltb, ◌==◌, if◌then◌else◌, ℤ, pos, negsuc,
  neg, to_long,
}
use uefilinux.Efi.{OpenMode, Firmware}
use uefilinux.Errno.{ebadf, emfile, efi_status_to_errno}
use uefilinux.Machine.{Machine, Command, pure, efi, and_then}
use uefilinux.Machine.After.{After}
use uefilinux.Machine.Preserves.{
  Preserves, Preserves-pure, Preserves-get, Preserves-undefined, Preserves->>=, Preserves-if,
}
use uefilinux.Handles.{Handles, IsOwned}
use uefilinux.Handles.Commands.{
  Using, IsOwned-IsStable, Using-IsStable, Preserves-put_mem, Preserves-use, Preserves-find_fd,
  Preserves-bstr_to_wstr,
}
use uefilinux.Handles.Devices.{Preserves-console_write, Preserves-read_keys}
use uefilinux.Fd.{max_fds, fd_real_find_free, fd_fsync, fd_lseek, result_of}
use uefilinux.File.{
  has, o_directory, open_mode, check_directory, open_at, open_found, fd_open, load_bytes,
  store_bytes, read_file, write_file,
}
use uefilinux.Stat.{fd_efi_stat, fd_fstat, fd_stat}
use uefilinux.Directory.{fd_getdents64}
use uefilinux.Console.{fd_read, fd_write}
use uefilinux.Handles.Files.{
  Preserves-seek_set, Preserves-seek_cur, Preserves-seek_end, Preserves-fd_efi_stat,
  Preserves-position_or_truncate, Preserves-read_entries,
}
use uefilinux.Handles.Commands.{After-IsOwned}

module _ {W : Type 0} {fw : Firmware W} (d : Handles fw) where
  pub Preserves-fsync : (fd : ℤ) → Preserves (IsOwned d) (fd_fsync fw fd)
  unfolding fd_fsync
  Preserves-fsync fd =
      Preserves-find_fd d fd _ (λ e. Preserves-pure (IsOwned d) e)
        λ i h.
          Preserves->>= (Using d h) _ _ (Preserves-use d h (fw.flush h) (d.flush h))
            λ status. Preserves-pure (Using d h) (result_of fw status)

  pub Preserves-lseek :
      (fd : ℤ) (offset : ℕ) (whence : ℤ) → Preserves (IsOwned d) (fd_lseek fw fd offset whence)
  unfolding fd_lseek
  Preserves-lseek fd offset (negsuc n) =
      Preserves-find_fd d fd _ (λ e. Preserves-pure (IsOwned d) e)
        λ i h. Preserves-undefined (Using d h)
  Preserves-lseek fd offset (pos n) =
      Preserves-find_fd d fd _ (λ e. Preserves-pure (IsOwned d) e)
        λ i h. Preserves-if (Using d h) (n == 0) _ _ (Preserves-seek_set d h offset) (
          Preserves-if (Using d h) (n == 1) _ _ (Preserves-seek_cur d h offset) (
            Preserves-if (Using d h) (n == 2) _ _ (Preserves-seek_end d h offset)
              (Preserves-undefined (Using d h))))

  pub Preserves-fd_fstat : (fd : ℤ) (buf : ℕ) → Preserves (IsOwned d) (fd_fstat fw fd buf)
  unfolding fd_fstat
  Preserves-fd_fstat fd buf =
      Preserves-find_fd d fd _ (λ e. Preserves-pure (IsOwned d) e)
        λ i h. Preserves-fd_efi_stat d h buf

  pub Preserves-fd_getdents64 :
      (fd : ℤ) (dirp : ℕ) (count : ℤ) → Preserves (IsOwned d) (fd_getdents64 fw fd dirp count)
  unfolding fd_getdents64
  Preserves-fd_getdents64 fd dirp count =
      Preserves-find_fd d fd _ (λ e. Preserves-pure (IsOwned d) e)
        λ i h. Preserves-read_entries d h _ _ 0

  Preserves-read_file : (fd : ℤ) (buf count : ℕ) → Preserves (IsOwned d) (read_file fw fd buf count)
  unfolding read_file
  Preserves-read_file fd buf count =
      Preserves-find_fd d fd _ (λ e. Preserves-pure (IsOwned d) e)
        λ i h.
          Preserves->>= (Using d h) _ _ (Preserves-use d h (fw.read h count) (d.read h count)) λ x.
            Preserves->>= (Using d h) _ _ (Preserves-get (Using d h)) λ s.
              Preserves->>= (Using d h) _ _
                (Preserves-put_mem d (Using d h) (Using-IsStable d h)
                  (record (s.mem) { bytes = store_bytes s.mem.bytes buf x.2 }))
                λ u.
                  Preserves-if (Using d h) (fw.is_error x.0) _ _
                    (Preserves-pure (Using d h) (neg (efi_status_to_errno fw x.0)))
                    (Preserves-pure (Using d h) (to_long x.1))

  Preserves-write_file :
      (fd : ℤ) (buf count : ℕ) → Preserves (IsOwned d) (write_file fw fd buf count)
  unfolding write_file
  Preserves-write_file fd buf count =
      Preserves-find_fd d fd _ (λ e. Preserves-pure (IsOwned d) e)
        λ i h. Preserves->>= (Using d h) _ _ (Preserves-get (Using d h)) λ s.
          Preserves->>= (Using d h) _ _
            (Preserves-use d h (fw.write h (load_bytes s.mem.bytes buf count))
              (d.write h (load_bytes s.mem.bytes buf count)))
            λ x.
              Preserves-if (Using d h) (fw.is_error x.0) _ _
                (Preserves-pure (Using d h) (neg (efi_status_to_errno fw x.0)))
                (Preserves-pure (Using d h) (to_long x.1))

  pub Preserves-fd_write :
      (fd : ℤ) (buf count : ℕ) → Preserves (IsOwned d) (fd_write fw fd buf count)
  unfolding fd_write
  Preserves-fd_write (negsuc n) buf count = Preserves-write_file (negsuc n) buf count
  Preserves-fd_write (pos n) buf count =
      Preserves-if (IsOwned d) (ltb max_fds n) _ _ (Preserves-pure (IsOwned d) (neg ebadf)) (
        Preserves-if (IsOwned d) (n == 1 || n == 2) _ _
          (Preserves-console_write d (IsOwned d) (IsOwned-IsStable d) buf count)
          (Preserves-write_file (pos n) buf count))

  pub Preserves-fd_read : (fd : ℤ) (buf count : ℕ) → Preserves (IsOwned d) (fd_read fw fd buf count)
  unfolding fd_read
  Preserves-fd_read (negsuc n) buf count = Preserves-read_file (negsuc n) buf count
  Preserves-fd_read (pos n) buf count =
      Preserves-if (IsOwned d) (ltb max_fds n) _ _ (Preserves-pure (IsOwned d) (neg ebadf)) (
        Preserves-if (IsOwned d) (n == 0) _ _
          (Preserves-read_keys d (IsOwned d) (IsOwned-IsStable d) (count + 1) buf count 0)
          (Preserves-read_file (pos n) buf count))

  -- A file is opened on the volume: what follows may use its handle where the firmware reports no error.
  Preserves-open :
      (name : List ℕ) (mode : OpenMode) (attributes : ℕ) (refuse : ℕ → ℤ) (k : ℕ → Command W ℤ)
      → ((h : ℕ) → Preserves (Using d h) (k h))
      → (s : Machine W) → IsOwned d s
      → After (IsOwned d) (
          and_then
            (efi (fw.open_file s.volume name mode attributes) s)
            (λ x. if fw.is_error x.0 then pure (refuse x.0) else k x.1))
  Preserves-open name mode attributes refuse k use_it s o =
      let x = fw.open_file s.volume name mode attributes s.world in
      let moved : IsOwned d (record s { world = x.1 }) =
        IsOwned-IsStable d s x.1 s.mem s.fres
          (d.open_steps s.volume name mode attributes s.world o.volume_open) o in
      elim (Bool-cases (fw.is_error (fw.open_file s.volume name mode attributes s.world).0.0)) [
        | inl bad ↦ rw bad moved
        | inr good ↦ rw good (
            After-IsOwned d x.0.1 (k x.0.1 (record s { world = x.1 })) (
              (use_it x.0.1).after (record s { world = x.1 })
                (record {
                  owned = moved;
                  handle_open = d.open_opens s.volume name mode attributes s.world good;
                })))
      ]

  pub Preserves-fd_stat : (path buf : ℕ) → Preserves (IsOwned d) (fd_stat fw path buf)
  unfolding fd_stat
  Preserves-fd_stat path buf =
      Preserves->>= (IsOwned d) _ _ (Preserves-bstr_to_wstr d (IsOwned d) (IsOwned-IsStable d) path)
        λ name. record {
          after = λ s o.
              Preserves-open name
                (record { mode_read = true; mode_write = false; mode_create = false }) 0
                (λ status. neg (efi_status_to_errno fw status)) (λ h. fd_efi_stat fw h buf)
                (λ h. Preserves-fd_efi_stat d h buf) s o;
        }

  Preserves-open_at : (n pathname flags : ℕ) → Preserves (IsOwned d) (open_at fw n pathname flags)
  unfolding open_at
  Preserves-open_at n pathname flags =
      Preserves->>= (IsOwned d) _ _
        (Preserves-bstr_to_wstr d (IsOwned d) (IsOwned-IsStable d) pathname)
        λ name. record {
          after = λ s o.
              Preserves-open name (open_mode flags)
                (if has flags o_directory then fw.file_directory else 0)
                (λ status. neg (efi_status_to_errno fw status)) _
                (λ h.
                  Preserves->>= (Using d h) _ _ (Preserves-use d h (fw.get_info h) (d.get_info h))
                    λ x.
                      Preserves-if (Using d h) (fw.is_error x.0) _ _
                        (Preserves-pure (Using d h) (neg (efi_status_to_errno fw x.0)))
                        (Preserves->>= (Using d h) _ _ (Preserves-position_or_truncate d h flags)
                          λ u. Preserves-pure (Using d h) (check_directory fw flags n x.1)))
                s o;
        }

  pub Preserves-fd_open : (pathname flags : ℕ) → Preserves (IsOwned d) (fd_open fw pathname flags)
  unfolding fd_open
  Preserves-fd_open pathname flags =
      Preserves->>= (IsOwned d) _ _ (Preserves-get (IsOwned d))
        λ s. opened (fd_real_find_free s.fds)
    where
      opened : (r : ℤ) → Preserves (IsOwned d) (open_found fw r pathname flags)
      opened (negsuc n) = unfold open_found in Preserves-pure (IsOwned d) (neg emfile)
      opened (pos n) = unfold open_found in Preserves-open_at n pathname flags
