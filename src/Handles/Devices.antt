-- ===== src/Handles/Devices.antt =====
-- The console, the clock, the memory and the ends of the program, none of which uses a file handle.
use uefilinux.Base.{
  ℕ, zero, suc, ◌+◌, ◌-◌, ◌*◌, ◌%◌, ◌^◌, Bool-cases, inl, inr, Option, none, some, List, [], ◌∷◌,
  ◌==◌, ◌&&◌, ◌||◌, leb, not, if◌then◌else◌, ℤ, pos, neg, is_neg, to_u32, to_u64, to_long,
}
use uefilinux.Efi.{EfiTime, Firmware, ResetType, reset_warm, reset_shutdown}
use uefilinux.Errno.{eperm, esrch, einval, enotsup, efi_status_to_errno}
use uefilinux.Machine.{Machine, Command, pure, efi, efi_void}
use uefilinux.Machine.Preserves.{
  Preserves, Preserves-pure, Preserves-get, Preserves-undefined, Preserves-forever, Preserves->>=,
  Preserves-if,
}
use uefilinux.Handles.{Handles}
use uefilinux.Handles.Commands.{
  IsStable, Preserves-efi, Preserves-efi_void, Preserves-put_mem, Preserves-bstr_to_wstr,
}
use uefilinux.Fd.{result_of}
use uefilinux.Time.{
  zero_time, time_efi_time_to_time_t, time_cstd_time, time_gettimeofday, time_sleep,
}
use uefilinux.Process.Texts.{
  restart2_called, halted, power_down, power_off_called, restarting, restart_called,
}
use uefilinux.Process.{
  proc_exit, proc_abort, proc_kill, print, reset, restart_with, reboot_command, power_reboot,
  fd_select, mem_mmap, mem_munmap, cmd_cad_off, cmd_cad_on, cmd_halt, cmd_kexec, cmd_sw_suspend,
  cmd_power_off, cmd_restart, cmd_restart2, emu_pid, reboot_magic1, known_magic2,
}
use uefilinux.Console.{
  show, console_write, wait_key, echo, key_char, store_key, take_key, read_keys,
}

module _ {W : Type 0} {fw : Firmware W} (d : Handles fw) (P : Machine W → Type 0)
    (stable : IsStable d P) where
  Preserves-output : (text : List ℕ) → Preserves P (efi (fw.output_string text))
  Preserves-output text = Preserves-efi d P stable (fw.output_string text) (d.output_string text)

  Preserves-show : (text : Option (List ℕ)) (count : ℕ) → Preserves P (show fw text count)
  unfolding show
  Preserves-show none count = Preserves-undefined P
  Preserves-show (some text) count = Preserves->>= P _ _ (Preserves-output text) λ status.
      Preserves-if P (fw.is_error status) _ _
        (Preserves-pure P (neg (efi_status_to_errno fw status))) (Preserves-pure P (to_long count))

  pub Preserves-console_write : (buf count : ℕ) → Preserves P (console_write fw buf count)
  unfolding console_write
  Preserves-console_write buf count =
      Preserves->>= P _ _ (Preserves-get P) λ s. Preserves-show _ count

  Preserves-wait_key : Preserves P (wait_key fw)
  unfolding wait_key
  Preserves-wait_key =
      Preserves->>= P _ _ (Preserves-efi d P stable (fw.stall 1000) (d.stall 1000)) λ status.
        Preserves->>= P _ _ (Preserves-efi_void d P stable fw.wait_for_key d.wait_for_key)
          λ u. Preserves-efi d P stable fw.read_key_stroke d.read_key_stroke

  Preserves-echo : (key : ℕ) → Preserves P (echo fw key)
  unfolding echo
  Preserves-echo key =
      Preserves->>= P _ _ (Preserves-output (if key == 0 then [] else key ∷ [])) λ status.
        Preserves-if P (key % 256 == b'\r') _ _
          (Preserves->>= P _ _ (Preserves-output (b'\n' ∷ [])) λ u. Preserves-pure P tt)
          (Preserves-pure P tt)

  Preserves-store_key : (p c : ℕ) → Preserves P (store_key fw p c)
  unfolding store_key
  Preserves-store_key p c =
      Preserves->>= P _ _ (Preserves-get P) λ s. Preserves-put_mem d P stable _

  Preserves-take_key :
      (next : ℕ → Command W ℤ) (buf it : ℕ) (key : Option ℕ)
      → ((i : ℕ) → Preserves P (next i))
      → Preserves P (take_key fw next buf it key)
  unfolding take_key
  Preserves-take_key next buf it none h = Preserves-undefined P
  Preserves-take_key next buf it (some key) h =
      Preserves-if P (it == 0 && key % 256 == 8) _ _ (h ((it + 1) % 2 ^ 32)) (
        Preserves->>= P _ _ (Preserves-echo key) λ u.
          Preserves->>= P _ _ (Preserves-store_key (buf + it) (key_char fw key)) λ u.
            Preserves-if P (key_char fw key == b'\n') _ _ (Preserves-pure P _)
              (h ((it + 1) % 2 ^ 32)))

  pub Preserves-read_keys : (fuel buf count it : ℕ) → Preserves P (read_keys fw fuel buf count it)
  unfolding read_keys
  Preserves-read_keys zero buf count it = Preserves-forever P
  Preserves-read_keys (suc fuel) buf count it = elim (Bool-cases (it == count)) [
    | inl done ↦ rw (read_keys, done) (Preserves-pure P (pos ((it + 1) % 2 ^ 32)))
    | inr more ↦
        rw (read_keys, more)
          (Preserves->>= P _ _ Preserves-wait_key λ k.
            Preserves-take_key (λ i. read_keys fw fuel buf count i) buf it k
              λ i. Preserves-read_keys fuel buf count i)
  ]

  Preserves-time_cstd_time : Preserves P (time_cstd_time fw)
  unfolding time_cstd_time
  Preserves-time_cstd_time =
      Preserves->>= P _ _ (Preserves-efi d P stable fw.get_time d.get_time) λ t. elapsed t
    where
      elapsed :
          (t : Option EfiTime)
          → Preserves P (elim t [
            | none ↦ pure (time_efi_time_to_time_t zero_time)
            | some efi_time ↦ pure (time_efi_time_to_time_t efi_time)
          ])
      elapsed none = Preserves-pure P (time_efi_time_to_time_t zero_time)
      elapsed (some t) = Preserves-pure P (time_efi_time_to_time_t t)

  pub Preserves-time_gettimeofday : (tv : ℕ) → Preserves P (time_gettimeofday fw tv)
  unfolding time_gettimeofday
  Preserves-time_gettimeofday tv = Preserves->>= P _ _ Preserves-time_cstd_time λ secs.
      Preserves->>= P _ _ (Preserves-get P)
        λ s. Preserves->>= P _ _ (Preserves-put_mem d P stable _) λ u. Preserves-pure P (pos 0)

  Preserves-time_sleep : (duration : ℕ) → Preserves P (time_sleep fw duration)
  unfolding time_sleep
  Preserves-time_sleep duration = Preserves->>= P _ _ (Preserves-get P) λ s.
      Preserves->>= P _ _ (Preserves-efi d P stable (fw.stall _) (d.stall _))
        λ status. Preserves-pure P (result_of fw status)

  pub Preserves-fd_select : (nfds : ℤ) (a b c t : ℕ) → Preserves P (fd_select fw nfds a b c t)
  unfolding fd_select
  Preserves-fd_select nfds a b c t =
      Preserves-if P _ _ _ (Preserves-pure P (pos enotsup)) (Preserves-time_sleep t)

  pub Preserves-mem_mmap : (length : ℕ) (fd : ℤ) → Preserves P (mem_mmap fw length fd)
  unfolding mem_mmap
  Preserves-mem_mmap length fd = Preserves-if P _ _ _ (Preserves-pure P (to_u64 (neg enotsup))) (
      Preserves->>= P _ _
        (Preserves-efi d P stable (fw.allocate_pool length) (d.allocate_pool length))
        λ x.
          Preserves-if P (fw.is_error x.0) _ _
            (Preserves-pure P (to_u64 (neg (efi_status_to_errno fw x.0)))) (Preserves-pure P x.1))

  pub Preserves-mem_munmap : (addr : ℕ) → Preserves P (mem_munmap fw addr)
  unfolding mem_munmap
  Preserves-mem_munmap addr =
      Preserves->>= P _ _ (Preserves-efi d P stable (fw.free_pool addr) (d.free_pool addr))
        λ status. Preserves-pure P (result_of fw status)

  Preserves-exit_image : (image status : ℕ) → Preserves P (efi_void (fw.exit_image image status))
  Preserves-exit_image image status =
      Preserves-efi_void d P stable (fw.exit_image image status) (d.exit_image image status)

  pub Preserves-proc_exit : (status : ℤ) → Preserves P (proc_exit fw status)
  unfolding proc_exit
  Preserves-proc_exit status =
      Preserves->>= P _ _ (Preserves-get P) λ s. Preserves-exit_image s.image _

  pub Preserves-proc_kill : (pid sig : ℤ) → Preserves P (proc_kill fw pid sig)
  unfolding proc_kill proc_abort
  Preserves-proc_kill pid sig =
      Preserves-if P (to_u32 pid == emu_pid - 1) _ _ (Preserves-pure P (neg eperm)) (
        Preserves-if P (not (to_u32 pid == emu_pid)) _ _ (Preserves-pure P (neg esrch)) (
          Preserves-if P (not (is_neg sig) && leb 30 (to_u32 sig)) _ _
            (Preserves-pure P (neg einval))
            (Preserves->>= P _ _
              (Preserves->>= P _ _ (Preserves-get P) λ s. Preserves-exit_image s.image fw.aborted)
              λ u. Preserves-forever P)))

  Preserves-print : (text : List ℕ) → Preserves P (print fw text)
  unfolding print
  Preserves-print text = Preserves->>= P _ _ (Preserves-output text) λ status. Preserves-pure P tt

  Preserves-reset :
      (kind : ResetType) (size : ℕ) (text : List ℕ) → Preserves P (reset fw kind size text)
  unfolding reset
  Preserves-reset kind size text =
      Preserves->>= P _ _
        (Preserves-efi_void d P stable (fw.reset_system kind fw.success size text)
          (d.reset_system kind fw.success size text))
        λ u. Preserves-pure P (pos 0)

  Preserves-restart_with : (arg : ℕ) → Preserves P (restart_with fw arg)
  unfolding restart_with
  Preserves-restart_with arg = Preserves->>= P _ _ (Preserves-print _) λ u.
      Preserves->>= P _ _ (Preserves-bstr_to_wstr d P stable arg) λ text.
        Preserves->>= P _ _ (Preserves-print text) λ u.
          Preserves->>= P _ _ (Preserves-print _) λ u. Preserves-reset reset_warm 33 restart2_called

  Preserves-reboot_command : (cmd arg : ℕ) → Preserves P (reboot_command fw cmd arg)
  unfolding reboot_command
  Preserves-reboot_command cmd arg =
      Preserves-if P (cmd == cmd_cad_off || cmd == cmd_cad_on) _ _ invalid (
        Preserves-if P (cmd == cmd_halt) _ _
          (Preserves->>= P _ _ (Preserves-print halted) λ u. Preserves-forever P)
          (Preserves-if P (cmd == cmd_kexec) _ _ invalid (
            Preserves-if P (cmd == cmd_sw_suspend) _ _ invalid (
              Preserves-if P (cmd == cmd_power_off) _ _
                (Preserves->>= P _ _ (Preserves-print power_down)
                  λ u. Preserves-reset reset_shutdown (34 * 2) power_off_called)
                (Preserves-if P (cmd == cmd_restart) _ _
                  (Preserves->>= P _ _ (Preserves-print restarting)
                    λ u. Preserves-reset reset_warm 32 restart_called)
                  (Preserves-if P (cmd == cmd_restart2) _ _ (Preserves-restart_with arg)
                    invalid))))))
    where
      invalid : Preserves P (pure {W = W} (neg einval))
      invalid = Preserves-pure P (neg einval)

  pub Preserves-power_reboot :
      (magic1 magic2 cmd : ℤ) (arg : ℕ) → Preserves P (power_reboot fw magic1 magic2 cmd arg)
  unfolding power_reboot
  Preserves-power_reboot magic1 magic2 cmd arg =
      Preserves-if P (not (to_u32 magic1 == reboot_magic1)) _ _ (Preserves-pure P (neg einval)) (
        Preserves-if P (not (known_magic2 (to_u32 magic2))) _ _ (Preserves-pure P (neg einval))
          (Preserves-reboot_command (to_u32 cmd) arg))
