-- ===== src/Examples/Slots.antt =====
-- The calls on descriptors.
use uefilinux.Base.{
  ◌+◌, ℕ, zero, suc, ◌<◌, ◌≡◌, ◌⊎◌, inr, refl, none, some, ◌∷◌, get_elem?, replicate, pos, arith,
}
use uefilinux.Machine.{ok, fault}
use uefilinux.Machine.After.{Returns}
use uefilinux.Fd.{
  fd_real_find_free, fd_real_for_handle, check_fd, fd_close, fd_fsync, fd_dup, fd_dup2, fd_lseek,
  to_virtual_fd, seek_result,
}
use uefilinux.Fd.Search.{FirstTaken}
use uefilinux.Fd.Table.{IsOpen, IsClosed, closed_error}
use uefilinux.Fd.Release.{close_lem}
use uefilinux.Fd.Dup2.{dup2-OutOfBounds}
use uefilinux.Fd.Dup2.Every.{dup2_lem}
use uefilinux.Fd.Seek.{seek_tell}
use uefilinux.Fd.Seek.Lands.{from_end, SoughtFrom, lseek_refines}
use uefilinux.Fd.View.{Removed, view, close_refines}
use uefilinux.Fd.Share.{Assigned, dup_refines}
use uefilinux.Examples.Machines.{
  firmware, firmware-KeepsPositions, firmware-HasPositions, shared_fds, shared, machine,
}

pub IsOpen-5 : IsOpen shared_fds (pos 5) 1 7
IsOpen-5 = record { number = refl; small = omega arith; holds = refl; not_null = λ e. omega arith }

pub IsOpen-7 : IsOpen shared_fds (pos 7) 3 9
IsOpen-7 = record { number = refl; small = omega arith; holds = refl; not_null = λ e. omega arith }

pub shared-FirstTaken : FirstTaken shared_fds 1
shared-FirstTaken = record { taken = λ e. omega arith; in_range = omega arith; before = at }
  where
    at : (j : ℕ) → j < 1 → get_elem? shared_fds j ≡ some 0
    at zero lt = refl
    at (suc j) lt = absurd (omega arith)

close_lem_example :
    fd_close firmware (pos 7) shared ≡ ok (pos 0) (machine (0 ∷ 7 ∷ 7 ∷ replicate 13 0))
unfolding uefilinux.Fd.result_of view check_fd
close_lem_example = close_lem firmware shared (pos 7) refl

close_refines_example :
    Returns
      (λ r t. Removed (pos 5) (view shared_fds) (view t.fds) × (t.mem ≡ shared.mem))
      (fd_close firmware (pos 5) shared)
close_refines_example = close_refines firmware (pos 5) shared refl

dup_refines_example :
    Returns
      (λ r t.
        (t.world ≡ 0)
        × (t.mem ≡ shared.mem)
        × (((handle k : ℕ) × (view shared_fds (pos 7) ≡ some handle)
              × FirstTaken shared_fds k
              × (r ≡ pos (k + 4))
              × Assigned r handle (view shared_fds) (view t.fds))
            ⊎ ((view shared_fds (pos 7) ≡ none)
                × (r ≡ closed_error (pos 7))
                × (t.fds ≡ shared_fds))))
      (fd_dup firmware (pos 7) shared)
dup_refines_example = dup_refines firmware (pos 7) shared refl

dup2_lem_example :
    fd_dup2 firmware (pos 5) (pos 7) shared
    ≡ ok (pos 11) (machine (0 ∷ 7 ∷ 7 ∷ 0 ∷ 0 ∷ 0 ∷ 0 ∷ 7 ∷ replicate 8 0))
unfolding view check_fd fd_close uefilinux.Fd.find_fd uefilinux.Fd.fd_real_reset fd_real_for_handle
    uefilinux.Fd.for_handle_from uefilinux.Fd.result_of uefilinux.Machine.load_fd
    uefilinux.Machine.store_fd
dup2_lem_example = dup2_lem firmware shared (pos 5) 1 7 7 refl IsOpen-5 (omega arith) (omega arith)

dup2-OutOfBounds_example : fd_dup2 firmware (pos 5) (pos 16) shared ≡ fault
dup2-OutOfBounds_example =
    dup2-OutOfBounds firmware shared (pos 5) 1 7 (pos 16) refl IsOpen-5
      (inr (12, refl, omega arith, refl))

lseek_refines_example :
    Returns
      (λ r t.
        ((i : ℕ) × (handle : ℕ) × IsOpen shared_fds (pos 5) i handle
          × SoughtFrom firmware firmware-HasPositions handle from_end 10 shared r t)
        ⊎ (IsClosed shared_fds (pos 5) × (r ≡ closed_error (pos 5)) × (t ≡ shared)))
      (fd_lseek firmware (pos 5) 10 (pos 2) shared)
lseek_refines_example = lseek_refines firmware firmware-HasPositions from_end 10 (pos 5) shared refl

seek_tell_example :
    (w w' : ℕ) × (fd_lseek firmware (pos 5) 40 (pos 0) shared
      ≡ ok (pos 40) (record shared { world = w }))
    × (fd_lseek firmware (pos 5) 0 (pos 1) (record shared { world = w })
        ≡ ok (pos 40) (record shared { world = w' }))
seek_tell_example =
    seek_tell firmware shared (λ h w. 100) (pos 5) 1 7 40 firmware-KeepsPositions IsOpen-5
      (omega arith) (λ w. refl)
