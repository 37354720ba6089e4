-- ===== src/Fd.antt =====
-- The descriptor table of src/linux-uefi.c and the calls that work on one descriptor: `fd_close`,
-- `fd_fsync`, `fd_dup`, `fd_dup2` and `fd_lseek`. A descriptor `fd` stands for the slot `fd - 4`.
pub mod Search
pub mod Table
pub mod Close
pub mod Dup
pub mod Dup2
pub mod Seek
pub mod Total
pub mod View
pub mod Release
pub mod Share
use uefilinux.Base.{
  ℕ, ◌+◌, ◌-◌, ◌%◌, ◌^◌, ◌≡◌, Bool, true, false, Option, none, some, List, [], ◌∷◌, get_elem?, set,
  ltb, ◌==◌, if◌then◌else◌, ℤ, pos, negsuc, neg, is_neg, to_long,
}
use uefilinux.Efi.{Firmware}
use uefilinux.Errno.{ebadf, eacces, emfile, efi_status_to_errno}
use uefilinux.Machine.{
  Machine, ok, fault, Command, pure, efi, undefined, get, ◌>>=◌, ◌>>◌, load_fd, store_fd,
}

abbrev pub max_fds : ℕ
max_fds = 16

abbrev pub virtual_fd_base : ℕ
virtual_fd_base = 4

abbrev pub to_virtual_fd : ℕ → ℤ
to_virtual_fd fd = pos (fd + virtual_fd_base)

abbrev pub whence_set : ℕ
whence_set = 0

abbrev pub whence_cur : ℕ
whence_cur = 1

abbrev pub whence_end : ℕ
whence_end = 2

-- `fd_real_find_free`: the loop over `fds` from index `it` on.
unfoldable pub find_free_from : ℕ → List ℕ → ℤ
find_free_from it [] = negsuc 0
find_free_from it (h ∷ rest) = if h == 0 then find_free_from (it + 1) rest else pos it

unfoldable pub fd_real_find_free : List ℕ → ℤ
fd_real_find_free fds = find_free_from 0 fds

-- `fd_real_for_handle`: the loop over `fds` from index `it` on.
unfoldable pub for_handle_from : ℕ → ℕ → List ℕ → ℕ
for_handle_from handle it [] = 0
for_handle_from handle it (h ∷ rest) =
    if h == handle then it else for_handle_from handle (it + 1) rest

unfoldable pub fd_real_for_handle : ℕ → List ℕ → ℕ
fd_real_for_handle handle fds = for_handle_from handle 0 fds

-- The checks on a descriptor: `refused` is the error that the call returns.
pub data Checked : Type 0 where
  slot : ℕ → Checked
  refused : ℤ → Checked

unfoldable pub check_fd : ℤ → Checked
check_fd (negsuc n) = refused (neg eacces)
check_fd (pos n) =
    if ltb max_fds n
    then refused (neg ebadf)
    else if ltb n virtual_fd_base
    then refused (neg eacces)
    else slot (n - virtual_fd_base)

-- An open descriptor: its slot and its handle.
pub data Found : Type 0 where
  found : ℕ → ℕ → Found
  missing : ℤ → Found

module _ {W : Type 0} where
  unfoldable pub fd_real_reset : ℕ → Command W (Unit {0})
  fd_real_reset fd = store_fd fd 0

  -- The checks with which every call on a descriptor begins.
  unfoldable pub find_fd : ℤ → Command W Found
  find_fd fd = elim (check_fd fd) [
    | refused e ↦ pure (missing e)
    | slot i ↦ do
      handle ← load_fd i
      if handle == 0 then pure (missing (neg ebadf)) else pure (found i handle)
  ]

module _ {W : Type 0} (fw : Firmware W) where
  -- `if (EFI_ERROR(status)) return -efi_status_to_errno(status); return 0;`
  unfoldable pub result_of : ℕ → ℤ
  result_of status = if fw.is_error status then neg (efi_status_to_errno fw status) else pos 0

  unfoldable pub fd_close : ℤ → Command W ℤ
  fd_close fd = do
    f ← find_fd fd
    elim f [
      | missing e ↦ pure e
      | found i handle ↦ do
        fd_real_reset i
        s ← get
        if fd_real_for_handle handle s.fds == 0
            then (do status ← efi (fw.close handle); pure (result_of status))
            else pure (pos 0)
    ]

  unfoldable pub fd_fsync : ℤ → Command W ℤ
  fd_fsync fd = do
    f ← find_fd fd
    elim f [
      | missing e ↦ pure e
      | found i handle ↦ do status ← efi (fw.flush handle); pure (result_of status)
    ]

  -- `fds[new_fd] = FileHandle; return TO_VIRTUAL_FD(new_fd);` with the test before it
  unfoldable pub assign_fd : ℤ → ℕ → Command W ℤ
  assign_fd (negsuc n) handle = pure (neg emfile)
  assign_fd (pos n) handle = do store_fd n handle; pure (to_virtual_fd n)

  -- `fd_dup` after the checks
  unfoldable pub dup_found : Found → Command W ℤ
  dup_found (missing e) = pure e
  dup_found (found i handle) = do s ← get; assign_fd (fd_real_find_free s.fds) handle

  unfoldable pub fd_dup : ℤ → Command W ℤ
  fd_dup old_fd = find_fd old_fd >>= dup_found

  -- `fds[TO_REAL_FD(fd)]` at an unchecked descriptor
  unfoldable pub peek_fd : ℤ → Command W ℕ
  peek_fd (negsuc n) = undefined
  peek_fd (pos n) = if ltb n virtual_fd_base then undefined else load_fd (n - virtual_fd_base)

  -- the second half of `fd_dup2`
  unfoldable pub dup2_assign : ℕ → ℤ → Command W ℤ
  dup2_assign i new_fd = do
    handle ← load_fd i
    if handle == 0 then pure (neg ebadf) else assign_fd new_fd handle

  -- `fd_dup2` after the checks: what stands in the new descriptor's slot is closed first.
  unfoldable pub dup2_checked : Checked → ℤ → Command W ℤ
  dup2_checked (refused e) new_fd = pure e
  dup2_checked (slot i) new_fd = do
    taken ← peek_fd new_fd
    if taken == 0
        then dup2_assign i new_fd
        else do res ← fd_close new_fd; if is_neg res then pure res else dup2_assign i new_fd

  unfoldable pub fd_dup2 : ℤ → ℤ → Command W ℤ
  fd_dup2 old_fd new_fd = dup2_checked (check_fd old_fd) new_fd

  -- what `fd_lseek` returns: an error, or the new position
  unfoldable pub seek_result : ℕ → ℕ → ℤ
  seek_result status offset64 =
      if fw.is_error status then neg (efi_status_to_errno fw status) else to_long offset64

  unfoldable pub seek_set : ℕ → ℕ → Command W ℤ
  seek_set handle offset = do
    status ← efi (fw.set_position handle (offset % 2 ^ 64))
    pure (seek_result status (offset % 2 ^ 64))

  unfoldable pub seek_cur : ℕ → ℕ → Command W ℤ
  seek_cur handle offset = do
    (status, position) ← efi (fw.get_position handle)
    let offset64 = (position + offset) % 2 ^ 64
    if fw.is_error status
        then pure (neg (efi_status_to_errno fw status))
        else do status' ← efi (fw.set_position handle offset64); pure (seek_result status' offset64)

  -- The case falls through to `SEEK_CUR`.
  unfoldable pub seek_end : ℕ → ℕ → Command W ℤ
  seek_end handle offset = do
    status ← efi (fw.set_position handle 0xffff_ffff_ffff_ffff)
    if fw.is_error status
        then pure (neg (efi_status_to_errno fw status))
        else seek_cur handle offset

  -- `offset` is the 64-bit pattern of the `off_t`. No case for another `whence`: `status` is read
  -- unwritten.
  unfoldable pub fd_lseek : ℤ → ℕ → ℤ → Command W ℤ
  fd_lseek fd offset whence = do
    f ← find_fd fd
    elim f [
      | missing e ↦ pure e
      | found i handle ↦ elim whence [
        | pos n ↦
            if n == 0
            then seek_set handle offset
            else if n == 1
            then seek_cur handle offset
            else if n == 2
            then seek_end handle offset
            else undefined
        | negsuc n ↦ undefined
      ]
    ]
