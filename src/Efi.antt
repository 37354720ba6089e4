-- ===== src/Efi.antt =====
-- What src/linux-uefi.c relies on of the UEFI firmware and of gnu-efi: the types that it passes, and
-- one function for each firmware entry that it calls. Nothing of it is under the repository, so it
-- is an argument of every definition that uses it.
use uefilinux.Base.{ℕ, Bool, Option, List}

-- The access bits of `OpenMode`, which are distinct bits of the firmware's 64-bit mode.
pub record OpenMode : Type 0 where
  pub mode_read : Bool
  pub mode_write : Bool
  pub mode_create : Bool

pub record EfiTime : Type 0 where
  pub year : ℕ
  pub month : ℕ
  pub day : ℕ
  pub hour : ℕ
  pub minute : ℕ
  pub second : ℕ

-- `file_name` is the name up to its terminating 0.
pub record FileInfo : Type 0 where
  pub file_size : ℕ
  pub physical_size : ℕ
  pub attribute : ℕ
  pub create_time : EfiTime
  pub last_access_time : EfiTime
  pub modification_time : EfiTime
  pub file_name : List ℕ

-- What a caller of `SetInfo` may hand over: file information, or the address of a pointer to it.
pub data InfoArgument : Type 0 where
  file_info : FileInfo → InfoArgument
  pointer_to_pointer : InfoArgument

pub data ResetType : Type 0 where
  reset_shutdown reset_warm : ResetType

pub data Guid : Type 0 where
  loaded_image_protocol simple_file_system_protocol : Guid

-- The firmware over its own state `W`. A status comes first in a reply that has one. An `Option` is
-- an output argument that the firmware may leave unwritten.
pub record Firmware (W : Type 0) : Type 0 where
  -- `EFI_ERROR` and the status codes
  pub is_error : ℕ → Bool
  pub success : ℕ
  pub end_of_file : ℕ
  pub aborted : ℕ
  pub write_protected : ℕ
  pub access_denied : ℕ
  pub volume_full : ℕ
  pub not_found : ℕ
  pub invalid_parameter : ℕ
  -- the bit `EFI_FILE_DIRECTORY`
  pub file_directory : ℕ
  -- start-up
  pub initialize_lib : ℕ → W → W
  pub handle_protocol : ℕ → Guid → W → Option ℕ × W
  pub device_handle : ℕ → ℕ
  pub open_volume : ℕ → W → Option ℕ × W
  -- files
  pub open_file : ℕ → List ℕ → OpenMode → ℕ → W → (ℕ × ℕ) × W
  pub close : ℕ → W → ℕ × W
  pub flush : ℕ → W → ℕ × W
  pub set_position : ℕ → ℕ → W → ℕ × W
  pub get_position : ℕ → W → (ℕ × ℕ) × W
  pub read : ℕ → ℕ → W → (ℕ × ℕ × List ℕ) × W
  pub read_directory : ℕ → W → (ℕ × Option FileInfo) × W
  pub write : ℕ → List ℕ → W → (ℕ × ℕ) × W
  pub get_info : ℕ → W → (ℕ × FileInfo) × W
  pub set_info : ℕ → InfoArgument → W → ℕ × W
  -- console
  pub output_string : List ℕ → W → ℕ × W
  pub wait_for_key : W → W
  pub read_key_stroke : W → Option ℕ × W
  -- services
  pub stall : ℕ → W → ℕ × W
  pub get_time : W → Option EfiTime × W
  pub exit_image : ℕ → ℕ → W → W
  pub reset_system : ResetType → ℕ → ℕ → List ℕ → W → W
  pub allocate_pool : ℕ → W → (ℕ × ℕ) × W
  pub free_pool : ℕ → W → ℕ × W
