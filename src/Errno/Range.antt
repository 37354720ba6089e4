-- ===== src/Errno/Range.antt =====
-- The range of `efi_status_to_errno`.
use uefilinux.Base.{ℕ, ◌-◌, ◌≤◌, ◌≡◌, neg, negsuc, true, contains, arith}
use uefilinux.Efi.{Firmware}
use uefilinux.Errno.{errnos, efi_status_to_errno}

pub efi_status_to_errno_range :
    {W : Type 0} (fw : Firmware W) (s : ℕ)
    → (2 ≤ efi_status_to_errno fw s) × (efi_status_to_errno fw s ≤ 30)
unfolding efi_status_to_errno
efi_status_to_errno_range fw s = ground arith

-- What is returned for a firmware error is negative.
pub neg-efi_status_to_errno :
    {W : Type 0} (fw : Firmware W) (s : ℕ)
    → neg (efi_status_to_errno fw s) ≡ negsuc (efi_status_to_errno fw s - 1)
neg-efi_status_to_errno fw s = ground (arith, efi_status_to_errno_range fw s)

pub efi_status_to_errno-listed :
    {W : Type 0} (fw : Firmware W) (s : ℕ) → contains errnos (efi_status_to_errno fw s) ≡ true
unfolding efi_status_to_errno
efi_status_to_errno-listed fw s = ground arith
