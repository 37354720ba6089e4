-- ===== src/Fd/Dup.antt =====
-- `fd_dup` of src/linux-uefi.c.
use uefilinux.Base.{ℕ, ◌<◌, ◌≡◌, length, set, ℤ, pos}
use uefilinux.Efi.{Firmware}
use uefilinux.Machine.{Machine, ok}
use uefilinux.Machine.Slots.{store_fd_lem}
use uefilinux.Fd.{to_virtual_fd, assign_fd, dup_found, fd_dup}
use uefilinux.Fd.Search.{FirstTaken, find_free-FirstTaken}
use uefilinux.Fd.Table.{IsOpen, get_elem?-lt, find_fd-IsOpen}

module _ {W : Type 0} (fw : Firmware W) (s : Machine W) where
  pub assign_fd_lem :
      (n handle : ℕ)
      → n < length s.fds
      → assign_fd fw (pos n) handle s ≡ ok (to_virtual_fd n) (record s { fds = set s.fds n handle })
  unfolding assign_fd
  assign_fd_lem n handle lt =
      let (old, held) = get_elem?-lt s.fds n lt in rw (store_fd_lem s n old handle held)

  -- `fd_dup` of an open descriptor puts its handle into the first slot that is taken, over the
  -- handle there, and returns that slot's descriptor.
  pub dup-FirstTaken :
      (fd : ℤ) (i handle k : ℕ)
      → IsOpen s.fds fd i handle
      → FirstTaken s.fds k
      → fd_dup fw fd s ≡ ok (to_virtual_fd k) (record s { fds = set s.fds k handle })
  unfolding fd_dup dup_found
  dup-FirstTaken fd i handle k o f =
      rw (find_fd-IsOpen s i handle o, find_free-FirstTaken k s.fds f)
        (assign_fd_lem k handle f.in_range)
