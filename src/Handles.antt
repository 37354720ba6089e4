-- ===== src/Handles.antt =====
-- The file handles that src/linux-uefi.c hands to the firmware: that none is used after it was closed.
pub mod Commands
pub mod Devices
pub mod Files
pub mod Calls
pub mod Slots
pub mod Every
use uefilinux.Base.{ℕ, ◌≡◌, ◌≢◌, Bool, true, false, Option, some, List, get_elem?}
use uefilinux.Efi.{OpenMode, InfoArgument, ResetType, Firmware}
use uefilinux.Machine.{Machine}
use uefilinux.Fd.Table.{IsTable}

-- An entry that closes nothing: what is open stays open, and a clean record of its use stays clean.
pub record Steps {W : Type 0} (is_open : ℕ → W → Bool) (clean : W → Bool) (w w' : W) : Type 0 where
  pub still_open : (h : ℕ) → is_open h w ≡ true → is_open h w' ≡ true
  pub still_clean : clean w ≡ true → clean w' ≡ true

-- A firmware that keeps account of its handles: `is_open` tells which are open, and `clean` that no
-- entry was given a handle that was not. What UEFI says of the entries: only Close closes, and only the
-- handle that it is given, and Open without an error gives an open handle.
pub record Handles {W : Type 0} (fw : Firmware W) : Type 0 where
  pub is_open : ℕ → W → Bool
  pub clean : W → Bool
  pub open_steps :
      (volume : ℕ) (name : List ℕ) (mode : OpenMode) (attributes : ℕ) (w : W)
      → is_open volume w ≡ true
      → Steps is_open clean w (fw.open_file volume name mode attributes w).1
  pub open_opens :
      (volume : ℕ) (name : List ℕ) (mode : OpenMode) (attributes : ℕ) (w : W)
      → fw.is_error (fw.open_file volume name mode attributes w).0.0 ≡ false
      → is_open
          (fw.open_file volume name mode attributes w).0.1
          (fw.open_file volume name mode attributes w).1
        ≡ true
  pub close_clean :
      (h : ℕ) (w : W) → is_open h w ≡ true → clean w ≡ true → clean (fw.close h w).1 ≡ true
  pub close_open :
      (h other : ℕ) (w : W)
      → other ≢ h
      → is_open other w ≡ true
      → is_open other (fw.close h w).1 ≡ true
  pub flush : (h : ℕ) (w : W) → is_open h w ≡ true → Steps is_open clean w (fw.flush h w).1
  pub set_position :
      (h p : ℕ) (w : W) → is_open h w ≡ true → Steps is_open clean w (fw.set_position h p w).1
  pub get_position :
      (h : ℕ) (w : W) → is_open h w ≡ true → Steps is_open clean w (fw.get_position h w).1
  pub read :
      (h count : ℕ) (w : W) → is_open h w ≡ true → Steps is_open clean w (fw.read h count w).1
  pub read_directory :
      (h : ℕ) (w : W) → is_open h w ≡ true → Steps is_open clean w (fw.read_directory h w).1
  pub write :
      (h : ℕ) (bytes : List ℕ) (w : W)
      → is_open h w ≡ true
      → Steps is_open clean w (fw.write h bytes w).1
  pub get_info : (h : ℕ) (w : W) → is_open h w ≡ true → Steps is_open clean w (fw.get_info h w).1
  pub set_info :
      (h : ℕ) (info : InfoArgument) (w : W)
      → is_open h w ≡ true
      → Steps is_open clean w (fw.set_info h info w).1
  pub output_string : (text : List ℕ) (w : W) → Steps is_open clean w (fw.output_string text w).1
  pub wait_for_key : (w : W) → Steps is_open clean w (fw.wait_for_key w)
  pub read_key_stroke : (w : W) → Steps is_open clean w (fw.read_key_stroke w).1
  pub stall : (n : ℕ) (w : W) → Steps is_open clean w (fw.stall n w).1
  pub get_time : (w : W) → Steps is_open clean w (fw.get_time w).1
  pub exit_image : (image status : ℕ) (w : W) → Steps is_open clean w (fw.exit_image image status w)
  pub reset_system :
      (kind : ResetType) (status size : ℕ) (text : List ℕ) (w : W)
      → Steps is_open clean w (fw.reset_system kind status size text w)
  pub allocate_pool : (size : ℕ) (w : W) → Steps is_open clean w (fw.allocate_pool size w).1
  pub free_pool : (p : ℕ) (w : W) → Steps is_open clean w (fw.free_pool p w).1

-- Every handle in the table of 16 slots is open and is not the volume's, which is open too; slot 0 is
-- free; and no entry was given a handle that was not open.
pub record IsOwned {W : Type 0} {fw : Firmware W} (d : Handles fw) (s : Machine W) : Type 0 where
  pub table : IsTable s.fds
  pub first_free : get_elem? s.fds 0 ≡ some 0
  pub held :
      (i h : ℕ) → get_elem? s.fds i ≡ some h → h ≢ 0 → (d.is_open h s.world ≡ true) × (h ≢ s.volume)
  pub volume_open : d.is_open s.volume s.world ≡ true
  pub clean : d.clean s.world ≡ true
