-- ===== src/Stat/Queries.antt =====
-- `fd_fstat` and `fd_stat`: how they come to the file that `fd_efi_stat` asks for.
use uefilinux.Base.{ℕ, ◌≡◌, refl, ◌⊎◌, inl, inr, true, false, Bool-cases, length, List, ℤ, neg}
use uefilinux.Efi.{Firmware}
use uefilinux.Errno.{efi_status_to_errno}
use uefilinux.Machine.{Machine}
use uefilinux.Machine.After.{Returns, Returns-mono}
use uefilinux.Wide.{max_wide}
use uefilinux.Wide.Copy.{c_string, bstr_to_wstr_lem}
use uefilinux.Fd.Table.{
  IsTable, IsOpen, IsClosed, closed_error, IsOpen-or_IsClosed, find_fd-IsOpen, find_fd-IsClosed,
}
use uefilinux.Stat.{fd_efi_stat, fd_fstat, fd_stat}
use uefilinux.Stat.Fields.{Told, fd_efi_stat_lem}

module _ {W : Type 0} (fw : Firmware W) where
  -- The file of an open descriptor is asked for; any other descriptor is refused.
  pub Answered : ℤ → ℕ → Machine W → ℤ → Machine W → Type 0
  Answered fd buf s r t =
      ((i : ℕ) × (handle : ℕ) × IsOpen s.fds fd i handle × Told fw handle buf s r t)
      ⊎ (IsClosed s.fds fd × (r ≡ closed_error fd) × (t ≡ s))

  fstat_lem :
      (fd : ℤ) (buf : ℕ) (s : Machine W)
      → IsTable s.fds
      → Returns (λ r t. Answered fd buf s r t) (fd_fstat fw fd buf s)
  unfolding fd_fstat Answered
  fstat_lem fd buf s table = elim (IsOpen-or_IsClosed s.fds fd table) [
    | inl (i, handle, o) ↦ rw (find_fd-IsOpen s i handle o) (
        Returns-mono _ _ (fd_efi_stat fw handle buf s) (fd_efi_stat_lem fw handle buf s)
          (λ r t told. inl (i, handle, o, told)))
    | inr c ↦ rw (find_fd-IsClosed s fd table c) (inr (c, refl, refl))
  ]

  -- What the firmware makes of the name: the status, the handle, and its state.
  abbrev pub opened : List ℕ → Machine W → (ℕ × ℕ) × W
  opened name s =
      fw.open_file s.volume name
        (record { mode_read = true; mode_write = false; mode_create = false }) 0 s.world

  -- The file of that name is opened and asked for, and not closed; an error of the firmware is returned.
  pub Looked : List ℕ → ℕ → Machine W → ℤ → Machine W → Type 0
  Looked name buf s r t =
      (b : List ℕ) × (let s' = record s { fres = b; world = (opened name s).1 } in
        ((fw.is_error (opened name s).0.0 ≡ false) × Told fw (opened name s).0.1 buf s' r t)
        ⊎ ((fw.is_error (opened name s).0.0 ≡ true)
            × (r ≡ neg (efi_status_to_errno fw (opened name s).0.0))
            × (t ≡ s')))

  stat_lem :
      (path buf : ℕ) (s : Machine W)
      → length s.fres ≡ 1024
      → Returns
          (λ r t. Looked (c_string max_wide s.mem.bytes path) buf s r t)
          (fd_stat fw path buf s)
  unfolding fd_stat Looked
  stat_lem path buf s wide =
      let (b, named, kept, inside) = bstr_to_wstr_lem path s wide in
      let name = c_string max_wide s.mem.bytes path in
      let s' = record s { fres = b; world = (opened name s).1 } in
      elim (Bool-cases (fw.is_error (opened name s).0.0)) [
        | inl bad ↦ rw (named, bad) (b, inr (refl, refl, refl))
        | inr good ↦
            rw (named, good)
              (Returns-mono _ _ (fd_efi_stat fw (opened name s).0.1 buf s')
                (fd_efi_stat_lem fw (opened name s).0.1 buf s') (λ r t told. (b, inl (refl, told))))
      ]

  -- On a table of 16 slots and with a name buffer of 1024 bytes, `fd_fstat` and `fd_stat` return.
  -- `fd_fstat` of an open descriptor and `fd_stat` of a name that the firmware opens, cut off at
  -- 510 bytes, return 0 with the volume, the sizes, the three times and mode 0666 in the caller's
  -- structure, or the firmware's error with the sizes that were there, the volume and the mode;
  -- every other descriptor and every other name gives the error of the descriptor or of the
  -- firmware. No other structure, no byte and no slot changes, and `fd_stat` leaves the file open.
  pub stat_calls_lem :
      (fd : ℤ) (path buf : ℕ) (s : Machine W)
      → IsTable s.fds
      → length s.fres ≡ 1024
      → Returns (λ r t. Answered fd buf s r t) (fd_fstat fw fd buf s)
        × Returns
            (λ r t. Looked (c_string max_wide s.mem.bytes path) buf s r t)
            (fd_stat fw path buf s)
  stat_calls_lem fd path buf s table wide = (fstat_lem fd buf s table, stat_lem path buf s wide)
