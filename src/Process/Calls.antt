-- ===== src/Process/Calls.antt =====
-- What `proc_kill`, `power_reboot`, `fd_select` and `mem_mmap` do on each of their branches.
use uefilinux.Base.{
  ℕ, ◌-◌, ◌^◌, ◌≤◌, ◌<◌, ◌≡◌, ◌≢◌, ◌⊎◌, inl, inr, refl, Bool, false, not, ◌==◌, ◌&&◌, ◌||◌,
  if◌then◌else◌, ltb, Bool-cases, ℤ, pos, negsuc, neg, is_neg, to_u32, to_u64, arith,
}
use uefilinux.Efi.{Firmware}
use uefilinux.Errno.{eperm, esrch, einval, enotsup, efi_status_to_errno}
use uefilinux.Errno.Range.{efi_status_to_errno_range}
use uefilinux.Machine.{Machine, Run, ok, spin}
use uefilinux.Machine.After.{Returns}
use uefilinux.Process.{
  known_magic2, reboot_magic1, cmd_halt, cmd_restart, cmd_restart2, cmd_power_off, proc_abort,
  proc_kill, power_reboot, reboot_command, fd_select, mem_mmap,
}

-- What `proc_kill` makes of a process number and a signal.
abbrev pub kill_result : {W : Type 0} → Firmware W → ℕ → ℤ → Machine W → Run W ℤ
kill_result fw pid sig s =
    if pid == 1 then ok (neg eperm) s else if not (pid == 2) then ok (neg esrch) s else elim sig [
      | negsuc n ↦ spin (record s { world = fw.exit_image s.image fw.aborted s.world })
      | pos n ↦
          if ltb n 30
          then spin (record s { world = fw.exit_image s.image fw.aborted s.world })
          else ok (neg einval) s
    ]

-- The commands that are carried out.
abbrev pub can_reboot : ℕ → Bool
can_reboot cmd =
    cmd == cmd_halt || cmd == cmd_power_off || cmd == cmd_restart || cmd == cmd_restart2

-- A word that C reads as an error number: from -4095 to -1.
abbrev pub IsErrorWord : ℕ → Type 0
IsErrorWord w = (2 ^ 64 - 4095 ≤ w) × (w < 2 ^ 64)

module _ {W : Type 0} (fw : Firmware W) (s : Machine W) where
  -- For a process number from 0 on and a signal, both below 2 ^ 31, `proc_kill` refuses process 1
  -- with EPERM, every process but 2 with ESRCH and, for process 2, a signal from 30 on with EINVAL;
  -- for any other signal, 0 and negative ones included, it ends the image and never returns.
  pub proc_kill_lem :
      (pid : ℕ) (sig : ℤ)
      → pid < 2 ^ 31
      → ((n : ℕ) → sig ≡ pos n → n < 2 ^ 31)
      → proc_kill fw (pos pid) sig s ≡ kill_result fw pid sig s
  unfolding proc_kill proc_abort to_u32
  proc_kill_lem pid (negsuc n) small range = ground arith
  proc_kill_lem pid (pos n) small range = ground (arith, range n refl)

  -- `power_reboot` does nothing but return EINVAL unless both magic numbers are right and the
  -- command is one of halt, power off, restart and restart with a text.
  pub power_reboot_refused :
      (magic1 magic2 cmd : ℤ) (arg : ℕ)
      → (to_u32 magic1 == reboot_magic1 && known_magic2 (to_u32 magic2) && can_reboot (to_u32 cmd))
        ≡ false
      → power_reboot fw magic1 magic2 cmd arg s ≡ ok (neg einval) s
  unfolding power_reboot reboot_command
  power_reboot_refused magic1 magic2 cmd arg refused = ground arith

  -- With a set of descriptors `fd_select` returns ENOTSUP as a positive number, which no caller takes
  -- for an error, and changes nothing.
  pub fd_select_sets :
      (nfds : ℤ) (readfds writefds exceptfds timeout : ℕ)
      → (readfds ≢ 0) ⊎ ((writefds ≢ 0) ⊎ (exceptfds ≢ 0))
      → fd_select fw nfds readfds writefds exceptfds timeout s ≡ ok (pos enotsup) s
  unfolding fd_select
  fd_select_sets nfds readfds writefds exceptfds timeout h = ground arith

  error_word : (status : ℕ) → IsErrorWord (to_u64 (neg (efi_status_to_errno fw status)))
  unfolding to_u64
  error_word status = ground (arith, efi_status_to_errno_range fw status)

  -- What `mem_mmap` returns for the firmware's reply.
  abbrev pub Allocated : ℕ → ℕ → Machine W → Type 0
  Allocated length r t =
      (t ≡ record s { world = (fw.allocate_pool length s.world).1 })
      × (if fw.is_error (fw.allocate_pool length s.world).0.0
          then IsErrorWord r
          else (r ≡ (fw.allocate_pool length s.world).0.1))

  allocate-Allocated : (length : ℕ) → Returns (Allocated length) (mem_mmap fw length (negsuc 0) s)
  unfolding mem_mmap
  allocate-Allocated length =
      elim (Bool-cases (fw.is_error (fw.allocate_pool length s.world).0.0)) [
        | inl bad ↦ rw bad (refl, rw bad (error_word (fw.allocate_pool length s.world).0.0))
        | inr good ↦ rw good (refl, rw good)
      ]

  -- `mem_mmap` with a descriptor above 0 returns an error word and changes nothing; else it returns
  -- the address that the firmware allocates, or an error word if that reports an error, and changes
  -- nothing but the firmware's state.
  pub mem_mmap_lem :
      (length : ℕ) (fd : ℤ)
      → Returns
          (λ r t.
            if not (is_neg fd) && not (to_u32 fd == 0)
            then IsErrorWord r × (t ≡ s)
            else Allocated length r t)
          (mem_mmap fw length fd s)
  unfolding mem_mmap to_u64
  mem_mmap_lem length (negsuc n) = allocate-Allocated length
  mem_mmap_lem length (pos n) = elim (Bool-cases (to_u32 (pos n) == 0)) [
    | inl none_given ↦ rw none_given (allocate-Allocated length)
    | inr given ↦ rw given (omega arith, refl)
  ]
