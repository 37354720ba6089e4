-- ===== src/Boot.antt =====
-- `efi_main` and `GetVolume` of src/linux-uefi.c: the start of the program.
pub mod Start
pub mod Ready
use Prim.Native.String.{String}
use uefilinux.Base.{
  ℕ, zero, suc, ◌+◌, Option, none, some, List, ◌++◌, [], ◌∷◌, ℤ, ◌==◌, if◌then◌else◌, to_u32,
}
use uefilinux.Efi.{Firmware, loaded_image_protocol, simple_file_system_protocol}
use uefilinux.Machine.{
  Machine, Command, ok, pure, efi, efi_void, undefined, get, store_fd, ◌>>=◌, ◌>>◌,
}
use uefilinux.Process.{print}
use uefilinux.Process.Texts.{codes}
use uefilinux.Fd.{max_fds}

abbrev pub initialized : List ℕ
initialized = codes "Initialized! Calling main()..." ++ (b'\r' ∷ b'\n' ∷ [])

module _ {W : Type 0} where
  -- An output argument that has to be written before it is used.
  abbrev pub written : Option ℕ → Command W ℕ
  written none = undefined
  written (some p) = pure p

  -- The loop of `efi_main` over `fds`, with the rounds left.
  unfoldable pub clear_fds : ℕ → ℕ → Command W (Unit {0})
  clear_fds zero it = pure tt
  clear_fds (suc left) it = do store_fd it 0; clear_fds left (it + 1)

  unfoldable pub set_image : ℕ → Command W (Unit {0})
  set_image image s = ok tt (record s { image = image })

  unfoldable pub set_volume : ℕ → Command W (Unit {0})
  set_volume volume s = ok tt (record s { volume = volume })

module _ {W : Type 0} (fw : Firmware W) where
  -- The statuses are not looked at: a pointer that the firmware left unwritten is used all the same.
  unfoldable pub get_volume : ℕ → Command W ℕ
  get_volume image = do
    loaded ← efi (fw.handle_protocol image loaded_image_protocol)
    loaded_image ← written loaded
    system ← efi (fw.handle_protocol (fw.device_handle loaded_image) simple_file_system_protocol)
    io_volume ← written system
    volume ← efi (fw.open_volume io_volume)
    written volume

  -- `efi_main` up to the call of `main`
  unfoldable pub prepare : ℕ → Command W (Unit {0})
  prepare image_handle = do
    efi_void (fw.initialize_lib image_handle)
    set_image image_handle
    volume ← get_volume image_handle
    set_volume volume
    clear_fds max_fds 0
    print fw initialized

  -- `main` is the program that is linked in; its result decides the status.
  unfoldable pub efi_main : Command W ℤ → ℕ → Command W ℕ
  efi_main main image_handle = do
    prepare image_handle
    result ← main
    pure (if to_u32 result == 0 then fw.success else fw.end_of_file)
