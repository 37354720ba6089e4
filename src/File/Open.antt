-- ===== src/File/Open.antt =====
-- What `fd_open` does with the descriptor table, and how it fails.
use uefilinux.Base.{
  ℕ, ◌+◌, ◌-◌, ◌≤◌, ◌≡◌, refl, true, false, List, bit_and, if◌then◌else◌, ℤ, pos, negsuc, neg,
  arith,
}
use uefilinux.Efi.{Firmware}
use uefilinux.Errno.{emfile, efi_status_to_errno}
use uefilinux.Errno.Range.{neg-efi_status_to_errno}
use uefilinux.Machine.{Machine, ok}
use uefilinux.Machine.After.{Returns, Returns-and, Returns-mono}
use uefilinux.Wide.{bstr_to_wstr, wide_buffer, read_wide}
use uefilinux.Fd.{to_virtual_fd, fd_real_find_free}
use uefilinux.Fd.Search.{
  AllFree, AllFree-find_free, FirstTaken, FreeSearch, find_free-FirstTaken, fd_real_find_free_lem,
}
use uefilinux.File.{
  has, open_mode, position_or_truncate, check_directory, open_at, open_found, fd_open, o_append,
  o_directory, o_wronly, o_rdwr,
}

-- The table and everything else but the firmware's state and the name buffer are as before.
pub record SameBut {W : Type 0} (s s' : Machine W) : Type 0 where
  pub fds : s'.fds ≡ s.fds
  pub mem : s'.mem ≡ s.mem
  pub volume : s'.volume ≡ s.volume
  pub image : s'.image ≡ s.image

-- What a result of `fd_open` says of the table: an error nothing, a descriptor that its slot is the
-- first that is taken.
abbrev pub Opened : List ℕ → ℤ → Type 0
Opened fds (negsuc e) = Unit {0}
Opened fds (pos v) = (4 ≤ v) × FirstTaken fds (v - 4)

module _ {W : Type 0} (fw : Firmware W) (s : Machine W) where
  open_at-SameBut :
      (n pathname flags : ℕ) → Returns (λ r s'. SameBut s s') (open_at fw n pathname flags s)
  unfolding open_at bstr_to_wstr position_or_truncate
  open_at-SameBut n pathname flags = ground arith

  -- A result that is no error is the descriptor of slot `n`.
  open_at-slot :
      (n pathname flags : ℕ)
      → Returns (λ r s'. (v : ℕ) → r ≡ pos v → v ≡ n + 4) (open_at fw n pathname flags s)
  unfolding open_at bstr_to_wstr position_or_truncate check_directory
  open_at-slot n pathname flags = grind (arith, neg-efi_status_to_errno)

  fd_open_lem :
      (pathname flags : ℕ)
      → fd_open fw pathname flags s ≡ open_found fw (fd_real_find_free s.fds) pathname flags s
  unfolding fd_open
  fd_open_lem pathname flags = refl

  open_found-Opened :
      (pathname flags : ℕ) (slot : ℤ)
      → FreeSearch 0 s.fds slot
      → Returns (λ r s'. SameBut s s' × Opened s.fds r) (open_found fw slot pathname flags s)
  unfolding open_found
  open_found-Opened pathname flags (negsuc n) f =
      (record { fds = refl; mem = refl; volume = refl; image = refl }, tt)
  open_found-Opened pathname flags (pos n) f =
      Returns-mono _ (λ r s'. SameBut s s' × Opened s.fds r) (open_at fw n pathname flags s)
        (Returns-and _ _ (open_at fw n pathname flags s) (open_at-SameBut n pathname flags)
          (open_at-slot n pathname flags))
        λ r s' (same, at). (same, of_slot r at)
    where
      of_slot : (r : ℤ) → ((v : ℕ) → r ≡ pos v → v ≡ n + 4) → Opened s.fds r
      of_slot (negsuc e) at = tt
      of_slot (pos v) at =
          let number : v ≡ n + 4 = at v refl in
          let slot : v - 4 ≡ n - 0 = omega arith in (omega arith, rw slot f.1)

  -- `fd_open` always returns, and leaves the descriptor table, the caller's memory, the volume and
  -- the image as they were; a descriptor that it returns is that of the first slot that was taken
  -- before the call.
  pub open_keeps_table :
      (pathname flags : ℕ)
      → Returns (λ r s'. SameBut s s' × Opened s.fds r) (fd_open fw pathname flags s)
  open_keeps_table pathname flags =
      rw (fd_open_lem pathname flags)
        (open_found-Opened pathname flags (fd_real_find_free s.fds) (fd_real_find_free_lem s.fds))

  -- With no slot taken `fd_open` returns EMFILE, and changes nothing.
  pub open-AllFree :
      (pathname flags : ℕ) → AllFree s.fds → fd_open fw pathname flags s ≡ ok (neg emfile) s
  unfolding open_found
  open-AllFree pathname flags free = rw (fd_open_lem pathname flags, AllFree-find_free s.fds free)

  -- The name buffer after the path is copied, and the firmware's reply to the call of `Open`.
  abbrev pub name_buffer : ℕ → List ℕ
  name_buffer pathname = wide_buffer s.mem.bytes pathname s.fres

  abbrev pub open_reply : ℕ → ℕ → (ℕ × ℕ) × W
  open_reply pathname flags =
      fw.open_file s.volume (read_wide (name_buffer pathname)) (open_mode flags)
        (if has flags o_directory then fw.file_directory else 0) s.world

  -- If the firmware refuses to open the file, and a slot is taken, `fd_open` returns the error of
  -- its status, with the firmware's state and the name buffer as they were after that one call.
  pub open_refused :
      (pathname flags n : ℕ)
      → FirstTaken s.fds n
      → fw.is_error (open_reply pathname flags).0.0 ≡ true
      → fd_open fw pathname flags s
        ≡ ok
            (neg (efi_status_to_errno fw (open_reply pathname flags).0.0))
            (record s { fres = name_buffer pathname; world = (open_reply pathname flags).1 })
  unfolding open_found open_at bstr_to_wstr
  open_refused pathname flags n first bad =
      rw (fd_open_lem pathname flags, find_free-FirstTaken n s.fds first, bad)

  -- A regular file opened without O_APPEND, O_WRONLY, O_RDWR and O_DIRECTORY, while a slot is
  -- taken: after the firmware has opened it and told its attributes `fd_open` makes no further
  -- firmware call, and returns the descriptor of the first taken slot.
  pub open_read_only :
      (pathname flags n : ℕ)
      → FirstTaken s.fds n
      → has flags o_append ≡ false
      → has flags o_wronly ≡ false
      → has flags o_rdwr ≡ false
      → has flags o_directory ≡ false
      → fw.is_error (open_reply pathname flags).0.0 ≡ false
      → (let ((status, info), w) =
            fw.get_info (open_reply pathname flags).0.1 (open_reply pathname flags).1 in
          (fw.is_error status ≡ false) × (bit_and info.attribute fw.file_directory ≡ 0))
      → fd_open fw pathname flags s
        ≡ ok (to_virtual_fd n) (record s {
          fres = name_buffer pathname;
          world = (fw.get_info (open_reply pathname flags).0.1 (open_reply pathname flags).1).1;
        })
  unfolding open_found open_at bstr_to_wstr position_or_truncate check_directory open_mode
  open_read_only pathname flags n first a b c d good (known, plain) =
      rw (fd_open_lem pathname flags, find_free-FirstTaken n s.fds first, good, known)
        (ground arith)
