-- ===== src/Process/Reboot.antt =====
-- `power_reboot` of src/linux-uefi.c on every branch.
use uefilinux.Base.{
  ℕ, ◌≡◌, refl, ◌∙◌, Bool, Bool-cases, true, inl, inr, List, [], ◌∷◌, length, ◌==◌, ◌&&◌,
  if◌then◌else◌, ℤ, pos, neg, to_u32, arith,
}
use uefilinux.Efi.{Firmware, ResetType, reset_shutdown, reset_warm}
use uefilinux.Errno.{einval}
use uefilinux.Machine.{Machine, Run, ok, spin}
use uefilinux.Wide.{max_wide}
use uefilinux.Wide.Copy.{c_string, bstr_to_wstr_lem}
use uefilinux.Process.Texts.{
  halted, power_down, restarting, restarting_with, quote_end, power_off_called, restart_called,
  restart2_called,
}
use uefilinux.Process.{
  known_magic2, reboot_magic1, cmd_halt, cmd_restart, cmd_restart2, cmd_power_off, print, reset,
  restart_with, power_reboot, reboot_command,
}
use uefilinux.Process.Calls.{can_reboot, power_reboot_refused}

-- What is shown for a command that is carried out; `name` is the text that comes with the last one.
abbrev pub shown_texts : ℕ → List ℕ → List (List ℕ)
shown_texts cmd name =
    if cmd == cmd_halt
    then halted ∷ []
    else if cmd == cmd_power_off
    then power_down ∷ []
    else if cmd == cmd_restart
    then restarting ∷ []
    else restarting_with ∷ name ∷ quote_end ∷ []

-- How the firmware resets the machine, with the size that is told for the text.
abbrev pub reset_arguments : ℕ → ResetType × ℕ × List ℕ
reset_arguments cmd =
    if cmd == cmd_power_off
    then (reset_shutdown, 68, power_off_called)
    else if cmd == cmd_restart
    then (reset_warm, 32, restart_called)
    else (reset_warm, 33, restart2_called)

module _ {W : Type 0} (fw : Firmware W) where
  abbrev pub show_all : List (List ℕ) → W → W
  show_all [] w = w
  show_all (text ∷ texts) w = show_all texts (fw.output_string text w).1

  -- What a command that is carried out comes to, with the name buffer that it leaves.
  abbrev pub rebooted : ℕ → ℕ → List ℕ → Machine W → Run W ℤ
  rebooted cmd arg fres s =
      let w = show_all (shown_texts cmd (c_string max_wide s.mem.bytes arg)) s.world in
      let (kind, size, text) = reset_arguments cmd in
      if cmd == cmd_halt
      then spin (record s { world = w })
      else ok (pos 0)
          (record s { fres = fres; world = fw.reset_system kind fw.success size text w })

  restart_with_lem :
      (arg : ℕ) (s : Machine W)
      → length s.fres ≡ 1024
      → (fres : List ℕ) × (length fres ≡ 1024)
        × (restart_with fw arg s ≡ rebooted cmd_restart2 arg fres s)
  unfolding restart_with print reset
  restart_with_lem arg s room =
      let (fres, named, size, inside) =
        bstr_to_wstr_lem arg (record s { world = (fw.output_string restarting_with s.world).1 })
          room in
      (fres, size, rw (restart_with, named))

  reboot_command_lem :
      (cmd arg : ℕ) (s : Machine W)
      → length s.fres ≡ 1024
      → can_reboot cmd ≡ true
      → (fres : List ℕ) × (length fres ≡ 1024)
        × (reboot_command fw cmd arg s ≡ rebooted cmd arg fres s)
  unfolding reboot_command print reset
  reboot_command_lem cmd arg s room known = elim (Bool-cases (cmd == cmd_halt)) [
    | inl halt ↦ let e : cmd ≡ cmd_halt = ground arith in rw e (s.fres, room, refl)
    | inr a ↦ elim (Bool-cases (cmd == cmd_power_off)) [
      | inl off ↦ let e : cmd ≡ cmd_power_off = ground arith in rw e (s.fres, room, refl)
      | inr b ↦ elim (Bool-cases (cmd == cmd_restart)) [
        | inl restart ↦ let e : cmd ≡ cmd_restart = ground arith in rw e (s.fres, room, refl)
        | inr c ↦ let e : cmd ≡ cmd_restart2 = ground arith in rw e (restart_with_lem arg s room)
      ]
    ]
  ]

  -- The numbers and the command by which a reboot is carried out.
  abbrev pub granted : ℤ → ℤ → ℤ → Bool
  granted magic1 magic2 cmd =
      to_u32 magic1 == reboot_magic1 && known_magic2 (to_u32 magic2) && can_reboot (to_u32 cmd)

  power_reboot-granted :
      (magic1 magic2 cmd : ℤ) (arg : ℕ) (s : Machine W)
      → granted magic1 magic2 cmd ≡ true
      → power_reboot fw magic1 magic2 cmd arg s ≡ reboot_command fw (to_u32 cmd) arg s
  unfolding power_reboot
  power_reboot-granted magic1 magic2 cmd arg s g =
      let first : (to_u32 magic1 == reboot_magic1) ≡ true = ground arith in
      let second : known_magic2 (to_u32 magic2) ≡ true = ground arith in
      rw (power_reboot, first, second)

  -- With a name buffer of 1024 bytes: `power_reboot` does nothing but return EINVAL unless both
  -- magic numbers are right and the command is one of halt, power off, restart and restart with a
  -- text; for these it shows the command's texts, the last one's with the caller's string cut off
  -- at 510 bytes, and then halts for ever or resets the machine in the command's way, with 0 if
  -- that returns.
  pub power_reboot_lem :
      (magic1 magic2 cmd : ℤ) (arg : ℕ) (s : Machine W)
      → length s.fres ≡ 1024
      → (fres : List ℕ) × (length fres ≡ 1024)
        × (power_reboot fw magic1 magic2 cmd arg s ≡ (
            if granted magic1 magic2 cmd
            then rebooted (to_u32 cmd) arg fres s
            else ok (neg einval) s))
  power_reboot_lem magic1 magic2 cmd arg s room = elim (Bool-cases (granted magic1 magic2 cmd)) [
    | inr refused ↦
        (s.fres, room, rw refused (power_reboot_refused fw s magic1 magic2 cmd arg refused))
    | inl g ↦
        let known : can_reboot (to_u32 cmd) ≡ true = ground arith in
        let (fres, size, done) = reboot_command_lem (to_u32 cmd) arg s room known in
        (fres, size, rw g (power_reboot-granted magic1 magic2 cmd arg s g ∙ done))
  ]
