-- ===== src/Syscall/Results/Others.antt =====
-- The results of the calls that leave the descriptor table alone.
use uefilinux.Base.{ℕ, ◌+◌, ◌<◌, ◌≡◌, refl, ℤ, pos, negsuc, to_u32, arith}
use uefilinux.Efi.{Firmware, FileInfo}
use uefilinux.Errno.{eperm, esrch, eisdir, enotdir, einval, emfile, enotsup}
use uefilinux.Machine.{Machine}
use uefilinux.Machine.After.{Results, Results-and_then}
use uefilinux.Fd.{fd_real_find_free}
use uefilinux.Fd.Table.{IsTable}
use uefilinux.Wide.{bstr_to_wstr}
use uefilinux.File.{check_directory, position_or_truncate, open_at, open_found, fd_open}
use uefilinux.Time.{time_cstd_time, time_gettimeofday, time_sleep}
use uefilinux.Stat.{change_stat, fd_efi_stat, fd_fstat, fd_stat}
use uefilinux.Process.{
  proc_kill, power_reboot, reboot_command, reset, restart_with, fd_select, mem_munmap,
}
use uefilinux.Syscall.Results.{ResultProperty, result_of-Q, Results-status, Results-find}
use uefilinux.Syscall.Results.Tables.{find_free-lt}

module _ {W : Type 0} (fw : Firmware W) (Q : ℤ → Type 0) (q : ResultProperty Q) where
  check_directory-Q : (flags n : ℕ) (info : FileInfo) → n < 16 → Q (check_directory fw flags n info)
  unfolding check_directory
  check_directory-Q flags n info lt =
      ground (arith, q.error enotdir refl, q.error eisdir refl, q.small (n + 4) (omega arith))

  Results-open_at :
      (n pathname flags : ℕ) (s : Machine W) → n < 16 → Results Q (open_at fw n pathname flags s)
  unfolding open_at
  Results-open_at n pathname flags s lt = Results-and_then Q (bstr_to_wstr pathname s) _ λ name t.
      Results-status fw Q q _ _ _ (
        Results-status fw Q q _ _ _ (
          Results-and_then Q (position_or_truncate fw flags _ _) _
            λ u t'. check_directory-Q flags n _ lt))

  pub Results-fd_open :
      (pathname flags : ℕ) (s : Machine W) → IsTable s.fds → Results Q (fd_open fw pathname flags s)
  unfolding fd_open open_found
  Results-fd_open pathname flags s t = at (fd_real_find_free s.fds) refl
    where
      at : (r : ℤ) → fd_real_find_free s.fds ≡ r → Results Q (open_found fw r pathname flags s)
      at (negsuc n) e = q.error emfile refl
      at (pos n) e = Results-open_at n pathname flags s (find_free-lt s.fds n t e)

  Results-efi_stat : (handle buf : ℕ) (s : Machine W) → Results Q (fd_efi_stat fw handle buf s)
  unfolding fd_efi_stat change_stat
  Results-efi_stat handle buf s = Results-status fw Q q _ _ _ (q.small 0 (omega arith))

  pub Results-fd_fstat : (fd : ℤ) (buf : ℕ) (s : Machine W) → Results Q (fd_fstat fw fd buf s)
  unfolding fd_fstat
  Results-fd_fstat fd buf s =
      Results-find fw Q q fd _ s (λ e h. h) λ i handle. Results-efi_stat handle buf s

  pub Results-fd_stat : (path buf : ℕ) (s : Machine W) → Results Q (fd_stat fw path buf s)
  unfolding fd_stat
  Results-fd_stat path buf s =
      Results-and_then Q (bstr_to_wstr path s) _
        λ name t. Results-status fw Q q _ _ _ (Results-efi_stat _ buf _)

  pub Results-proc_kill : (pid sig : ℤ) (s : Machine W) → Results Q (proc_kill fw pid sig s)
  unfolding proc_kill
  Results-proc_kill pid sig s =
      ground (arith, q.error eperm refl, q.error esrch refl, q.error einval refl)

  Results-reboot_command : (cmd arg : ℕ) (s : Machine W) → Results Q (reboot_command fw cmd arg s)
  unfolding reboot_command restart_with reset
  Results-reboot_command cmd arg s = ground (arith, q.error einval refl, q.small 0 (omega arith))

  pub Results-power_reboot :
      (magic1 magic2 cmd : ℤ) (arg : ℕ) (s : Machine W)
      → Results Q (power_reboot fw magic1 magic2 cmd arg s)
  unfolding power_reboot
  Results-power_reboot magic1 magic2 cmd arg s =
      ground (arith, q.error einval refl, Results-reboot_command (to_u32 cmd) arg s)

  pub Results-gettimeofday : (tv : ℕ) (s : Machine W) → Results Q (time_gettimeofday fw tv s)
  unfolding time_gettimeofday
  Results-gettimeofday tv s =
      Results-and_then Q (time_cstd_time fw s) _ λ u t. q.small 0 (omega arith)

  Results-time_sleep : (timeout : ℕ) (s : Machine W) → Results Q (time_sleep fw timeout s)
  unfolding time_sleep
  Results-time_sleep timeout s = result_of-Q fw Q q _

  pub Results-fd_select :
      (nfds : ℤ) (readfds writefds exceptfds timeout : ℕ) (s : Machine W)
      → Results Q (fd_select fw nfds readfds writefds exceptfds timeout s)
  unfolding fd_select
  Results-fd_select nfds readfds writefds exceptfds timeout s =
      ground (arith, q.small enotsup (omega arith), Results-time_sleep timeout s)

  pub Results-munmap : (addr : ℕ) (s : Machine W) → Results Q (mem_munmap fw addr s)
  unfolding mem_munmap
  Results-munmap addr s = result_of-Q fw Q q _
