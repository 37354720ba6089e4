-- ===== src/Errno.antt =====
-- include/linux-uefi.h: the error numbers and the other constants; and `efi_status_to_errno` of
-- src/linux-uefi.c.
pub mod Range
use uefilinux.Base.{ℕ, ◌%◌, ◌^◌, List, [], ◌∷◌, ◌==◌, if◌then◌else◌}
use uefilinux.Efi.{Firmware}

abbrev pub eperm : ℕ
eperm = 1

abbrev pub enoent : ℕ
enoent = 2

abbrev pub esrch : ℕ
esrch = 3

abbrev pub eio : ℕ
eio = 5

abbrev pub enxio : ℕ
enxio = 6

abbrev pub e2big : ℕ
e2big = 7

abbrev pub ebadf : ℕ
ebadf = 9

abbrev pub enomem : ℕ
enomem = 12

abbrev pub eacces : ℕ
eacces = 13

abbrev pub efault : ℕ
efault = 14

abbrev pub enotblk : ℕ
enotblk = 15

abbrev pub eexist : ℕ
eexist = 17

abbrev pub enodev : ℕ
enodev = 19

abbrev pub enotdir : ℕ
enotdir = 20

abbrev pub eisdir : ℕ
eisdir = 21

abbrev pub einval : ℕ
einval = 22

abbrev pub emfile : ℕ
emfile = 24

abbrev pub enotty : ℕ
enotty = 25

abbrev pub efbig : ℕ
efbig = 27

abbrev pub enospc : ℕ
enospc = 28

abbrev pub espipe : ℕ
espipe = 29

abbrev pub erofs : ℕ
erofs = 30

abbrev pub enametoolong : ℕ
enametoolong = 36

abbrev pub enosys : ℕ
enosys = 38

abbrev pub enotsup : ℕ
enotsup = 95

-- The error numbers of the header.
abbrev pub errnos : List ℕ
errnos =
    eperm ∷ enoent ∷ esrch ∷ eio ∷ enxio ∷ e2big ∷ ebadf ∷ enomem ∷ eacces ∷ efault ∷ enotblk
    ∷ eexist ∷ enodev ∷ enotdir ∷ eisdir ∷ einval ∷ emfile ∷ enotty ∷ efbig ∷ enospc ∷ espipe
    ∷ erofs ∷ enametoolong ∷ enosys ∷ enotsup ∷ []

-- The low 16 bits of a status, by which the switch goes.
abbrev pub low16 : ℕ → ℕ
low16 s = s % 2 ^ 16

unfoldable pub efi_status_to_errno : {W : Type 0} → Firmware W → ℕ → ℕ
efi_status_to_errno fw status =
    let s = low16 status in
    if s == low16 fw.write_protected
    then erofs
    else if s == low16 fw.access_denied
    then eacces
    else if s == low16 fw.volume_full
    then enospc
    else if s == low16 fw.not_found
    then enoent
    else if s == low16 fw.invalid_parameter
    then einval
    else eio
