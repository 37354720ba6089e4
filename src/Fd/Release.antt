-- ===== src/Fd/Release.antt =====
-- `fd_close` of src/linux-uefi.c for every descriptor: what it returns, and when the firmware closes the
-- handle.
use uefilinux.Base.{
  ℕ, suc, ◌+◌, ◌-◌, ◌≡◌, refl, none, some, List, [], ◌∷◌, get_or, set, contains, not, ◌||◌, Bool,
  Bool-cases, inl, inr, ◌==◌, if◌then◌else◌, ℤ, pos, pos_part, arith,
}
use uefilinux.Efi.{Firmware}
use uefilinux.Machine.{Machine, ok}
use uefilinux.Fd.{virtual_fd_base, fd_real_for_handle, for_handle_from, result_of, fd_close}
use uefilinux.Fd.Table.{IsTable, IsOpen, closed_error, IsOpen-or_IsClosed, find_fd-IsOpen}
use uefilinux.Fd.Close.{cleared, reset-IsOpen, close_closed}
use uefilinux.Fd.View.{view, view-IsOpen, view-IsClosed}

for_handle_from-contains :
    (handle it : ℕ) (fds : List ℕ)
    → (for_handle_from handle (suc it) fds == 0) ≡ not (contains fds handle)
unfolding for_handle_from
for_handle_from-contains handle it [] = refl
for_handle_from-contains handle it (x ∷ fds) =
    ground (arith, for_handle_from-contains handle (it + 1) fds)

-- Whether `fd_close` takes a handle for unused in a table: in slot 0 it is not seen.
abbrev pub unseen : List ℕ → ℕ → Bool
unseen fds handle = get_or fds 0 0 == handle || not (contains fds handle)

for_handle-unseen :
    (handle : ℕ) (fds : List ℕ) → (fd_real_for_handle handle fds == 0) ≡ unseen fds handle
unfolding fd_real_for_handle for_handle_from
for_handle-unseen handle [] = ground arith
for_handle-unseen handle (x ∷ fds) = ground (arith, for_handle_from-contains handle 0 fds)

module _ {W : Type 0} (fw : Firmware W) (s : Machine W) where
  close_open :
      (fd : ℤ) (i handle : ℕ)
      → IsOpen s.fds fd i handle
      → fd_close fw fd s ≡ (
          let (status, w) = fw.close handle s.world in
          if unseen (set s.fds i 0) handle
          then ok (result_of fw status) (record s { fds = set s.fds i 0; world = w })
          else ok (pos 0) (cleared i s))
  unfolding fd_close
  close_open fd i handle o = elim (Bool-cases (unseen (set s.fds i 0) handle)) [
    | inl last ↦ rw (
      find_fd-IsOpen s i handle o,
      reset-IsOpen fw s fd i handle o,
      for_handle-unseen handle (set s.fds i 0),
      last,
    )
    | inr more ↦ rw (
      find_fd-IsOpen s i handle o,
      reset-IsOpen fw s fd i handle o,
      for_handle-unseen handle (set s.fds i 0),
      more,
    )
  ]

  -- On a table of 16 slots, for every descriptor: `fd_close` of one that stands for no handle
  -- returns the error for it and changes nothing; else it frees the slot, and if slot 0 then holds
  -- the handle or no slot does, it closes the handle in the firmware and returns 0 or the error of
  -- its status, and if not, it returns 0 with no firmware call.
  pub close_lem :
      (fd : ℤ)
      → IsTable s.fds
      → fd_close fw fd s ≡ elim (view s.fds fd) [
        | none ↦ ok (closed_error fd) s
        | some handle ↦
            let i = pos_part fd - virtual_fd_base in
            let (status, w) = fw.close handle s.world in
            if unseen (set s.fds i 0) handle
            then ok (result_of fw status) (record s { fds = set s.fds i 0; world = w })
            else ok (pos 0) (cleared i s)
      ]
  close_lem fd t = elim (IsOpen-or_IsClosed s.fds fd t) [
    | inl (i, handle, o) ↦
        let back : pos_part fd - virtual_fd_base ≡ i = ground (arith, o.number) in
        rw (view-IsOpen s.fds fd i handle o, back) (close_open fd i handle o)
    | inr c ↦ rw (view-IsClosed s.fds fd c) ((close_closed fw s fd t c).0)
  ]
