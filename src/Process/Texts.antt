-- ===== src/Process/Texts.antt =====
-- The texts that `power_reboot` of src/linux-uefi.c prints and hands to the firmware.
use Prim.Native.Char.{code}
use Prim.Native.String.{String}
use uefilinux.Base.{ℕ, List, [], ◌∷◌}

-- The code points of a text.
abbrev pub codes : String → List ℕ
codes String.[] = []
codes (String.◌∷◌ c s) = code c ∷ codes s

-- A text on a new line.
abbrev new_line : String → List ℕ
new_line text = b'\r' ∷ b'\n' ∷ codes text

abbrev pub halted : List ℕ
halted = new_line "System halted."

abbrev pub power_down : List ℕ
power_down = new_line "Power down."

abbrev pub restarting : List ℕ
restarting = new_line "Restarting system."

abbrev pub restarting_with : List ℕ
restarting_with = new_line "Restarting system with command '"

abbrev pub quote_end : List ℕ
quote_end = codes "'"

abbrev pub power_off_called : List ℕ
power_off_called = codes "LINUX_REBOOT_CMD_POWER_OFF called"

abbrev pub restart_called : List ℕ
restart_called = codes "LINUX_REBOOT_CMD_RESTART called"

abbrev pub restart2_called : List ℕ
restart2_called = codes "LINUX_REBOOT_CMD_RESTART2 called"
