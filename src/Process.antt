-- ===== src/Process.antt =====
-- "Process" and "power" handling, waiting and memory of src/linux-uefi.c: `proc_exit`, `proc_abort`,
-- `proc_kill`, `power_reboot`, `fd_select`, `mem_mmap` and `mem_munmap`.
pub mod Calls
pub mod Reboot
pub mod Bags
pub mod Pool
use uefilinux.Base.{
  ℕ, ◌+◌, ◌-◌, ◌*◌, ◌%◌, ◌^◌, ◌≡◌, Bool, true, false, not, ◌&&◌, ◌||◌, List, [], ◌∷◌, ltb, leb,
  ◌==◌, if◌then◌else◌, ℤ, pos, negsuc, neg, to_u32, to_u64, is_neg,
}
use uefilinux.Efi.{Firmware, ResetType, reset_shutdown, reset_warm}
use uefilinux.Errno.{eperm, esrch, einval, enotsup, efi_status_to_errno}
use uefilinux.Machine.{Machine, Command, pure, efi, efi_void, forever, get, ◌>>=◌, ◌>>◌}
use uefilinux.Wide.{bstr_to_wstr}
use uefilinux.Fd.{result_of}
use uefilinux.Time.{time_sleep}
use uefilinux.Process.Texts.{
  halted, power_down, restarting, restarting_with, quote_end, power_off_called, restart_called,
  restart2_called,
}
pub mod Texts

abbrev pub emu_pid : ℕ
emu_pid = 2

abbrev pub reboot_magic1 : ℕ
reboot_magic1 = 0xfee1_dead

abbrev pub cmd_cad_off : ℕ
cmd_cad_off = 0

abbrev pub cmd_cad_on : ℕ
cmd_cad_on = 0x89ab_cdef

abbrev pub cmd_halt : ℕ
cmd_halt = 0xcdef_0123

abbrev pub cmd_kexec : ℕ
cmd_kexec = 0x4558_4543

abbrev pub cmd_power_off : ℕ
cmd_power_off = 0x4321_fedc

abbrev pub cmd_restart : ℕ
cmd_restart = 0x0123_4567

abbrev pub cmd_restart2 : ℕ
cmd_restart2 = 0xa1b2_c3d4

abbrev pub cmd_sw_suspend : ℕ
cmd_sw_suspend = 0xd000_fce1

abbrev pub reboot_magic2 : ℕ
reboot_magic2 = 0x2812_1969

abbrev pub reboot_magic2a : ℕ
reboot_magic2a = 0x0512_1996

abbrev pub reboot_magic2b : ℕ
reboot_magic2b = 0x1604_1998

abbrev pub reboot_magic2c : ℕ
reboot_magic2c = 0x2011_2000

-- `magic2` is one of the four numbers.
unfoldable pub known_magic2 : ℕ → Bool
known_magic2 magic2 =
    magic2 == reboot_magic2
    || magic2 == reboot_magic2a
    || magic2 == reboot_magic2b
    || magic2 == reboot_magic2c

module _ {W : Type 0} (fw : Firmware W) where
  unfoldable pub proc_exit : ℤ → Command W (Unit {0})
  proc_exit status = do
    s ← get
    efi_void (fw.exit_image s.image (if to_u32 status == 0 then fw.success else fw.end_of_file))

  unfoldable pub proc_abort : Command W (Unit {0})
  proc_abort = do s ← get; efi_void (fw.exit_image s.image fw.aborted)

  -- Every signal below 30 ends the image; if that returns, the call does not.
  unfoldable pub proc_kill : ℤ → ℤ → Command W ℤ
  proc_kill pid sig =
      if to_u32 pid == emu_pid - 1
      then pure (neg eperm)
      else if not (to_u32 pid == emu_pid)
      then pure (neg esrch)
      else if not (is_neg sig) && leb 30 (to_u32 sig)
      then pure (neg einval)
      else (do proc_abort; forever)

  -- `OutputString`, its status unused
  unfoldable pub print : List ℕ → Command W (Unit {0})
  print text = do status ← efi (fw.output_string text); pure tt

  unfoldable pub reset : ResetType → ℕ → List ℕ → Command W ℤ
  reset kind size text = do efi_void (fw.reset_system kind fw.success size text); pure (pos 0)

  unfoldable pub restart_with : ℕ → Command W ℤ
  restart_with arg = do
    print restarting_with
    text ← bstr_to_wstr arg
    print text
    print quote_end
    reset reset_warm 33 restart2_called

  -- `power_reboot` after the magic numbers; `cmd` is compared as an unsigned number.
  unfoldable pub reboot_command : ℕ → ℕ → Command W ℤ
  reboot_command cmd arg =
      if cmd == cmd_cad_off || cmd == cmd_cad_on
      then pure (neg einval)
      else if cmd == cmd_halt
      then (do print halted; forever)
      else if cmd == cmd_kexec
      then pure (neg einval)
      else if cmd == cmd_sw_suspend
      then pure (neg einval)
      else if cmd == cmd_power_off
      then (do print power_down; reset reset_shutdown (34 * 2) power_off_called)
      else if cmd == cmd_restart
      then (do print restarting; reset reset_warm 32 restart_called)
      else if cmd == cmd_restart2
      then restart_with arg
      else pure (neg einval)

  unfoldable pub power_reboot : ℤ → ℤ → ℤ → ℕ → Command W ℤ
  power_reboot magic1 magic2 cmd arg =
      if not (to_u32 magic1 == reboot_magic1)
      then pure (neg einval)
      else if not (known_magic2 (to_u32 magic2))
      then pure (neg einval)
      else reboot_command (to_u32 cmd) arg

  unfoldable pub fd_select : ℤ → ℕ → ℕ → ℕ → ℕ → Command W ℤ
  fd_select nfds readfds writefds exceptfds timeout =
      if not (to_u32 nfds == 0) || not (readfds == 0) || not (writefds == 0) || not (exceptfds == 0)
      then pure (pos enotsup)
      else time_sleep fw timeout

  -- The other arguments are unused. The pointer that is returned is a 64-bit pattern.
  unfoldable pub mem_mmap : ℕ → ℤ → Command W ℕ
  mem_mmap length fd =
      if not (is_neg fd) && not (to_u32 fd == 0) then pure (to_u64 (neg enotsup)) else (do
        (status, fres) ← efi (fw.allocate_pool length)
        if fw.is_error status
            then pure (to_u64 (neg (efi_status_to_errno fw status)))
            else pure fres)

  unfoldable pub mem_munmap : ℕ → Command W ℤ
  mem_munmap addr = do status ← efi (fw.free_pool addr); pure (result_of fw status)
