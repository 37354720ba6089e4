-- ===== src/Boot/Ready.antt =====
-- The preparations of `efi_main` with a firmware that provides the volume.
use uefilinux.Base.{ℕ, ◌≡◌, refl, some, [], replicate}
use uefilinux.Efi.{Firmware, loaded_image_protocol, simple_file_system_protocol}
use uefilinux.Machine.{Machine, ok}
use uefilinux.Fd.{max_fds}
use uefilinux.Fd.Table.{IsTable}
use uefilinux.Process.{print}
use uefilinux.Syscall.Table.{IsEmpty}
use uefilinux.Boot.{initialized, clear_fds, set_image, set_volume, get_volume, prepare}
use uefilinux.Boot.Start.{clear_fds_lem, AllFree-replicate}

-- From the state `w` on, the image was loaded, from a device with a file system whose volume can be
-- opened: the answers to the three requests for it, in their order.
pub record ProvidesVolume {W : Type 0} (fw : Firmware W) (image_handle : ℕ) (w : W) : Type 0 where
  pub loaded_image : ℕ
  pub system : ℕ
  pub root : ℕ
  pub loaded : (fw.handle_protocol image_handle loaded_image_protocol w).0 ≡ some loaded_image
  pub found :
      (fw.handle_protocol
        (fw.device_handle loaded_image)
        simple_file_system_protocol
        (fw.handle_protocol image_handle loaded_image_protocol w).1).0
      ≡ some system
  pub opened :
      (fw.open_volume system
        (fw.handle_protocol
          (fw.device_handle loaded_image)
          simple_file_system_protocol
          (fw.handle_protocol image_handle loaded_image_protocol w).1).1).0
      ≡ some root

module _ {W : Type 0} (fw : Firmware W) (image_handle : ℕ) (s : Machine W) where
  get_volume_lem :
      (p : ProvidesVolume fw image_handle s.world)
      → (w : W) × (get_volume fw image_handle s ≡ ok p.root (record s { world = w }))
  unfolding get_volume
  get_volume_lem p =
      let w1 =
        (fw.handle_protocol (fw.device_handle p.loaded_image) simple_file_system_protocol
          (fw.handle_protocol image_handle loaded_image_protocol s.world).1).1 in
      ((fw.open_volume p.system w1).1, rw (p.loaded, p.found, p.opened))

module _ {W : Type 0} (fw : Firmware W) (image_handle : ℕ) (s : Machine W) where
  -- From a table of 16 slots of any content, and with a firmware that, once InitializeLib has run,
  -- answers the requests for the image's own protocol, for the file system of the image's device
  -- and for its volume: the preparations of `efi_main` return with every slot free, the image
  -- handle and that volume stored, and the memory as before.
  pub prepare_ready :
      IsTable s.fds
      → (p : ProvidesVolume fw image_handle (fw.initialize_lib image_handle s.world))
      → (t : Machine W) × (prepare fw image_handle s ≡ ok tt t)
        × IsEmpty t
        × (t.image ≡ image_handle)
        × (t.volume ≡ p.root)
        × (t.mem ≡ s.mem)
  unfolding prepare set_image set_volume print
  prepare_ready h p =
      let (w, e) = get_volume_lem fw image_handle started p in
      let ready = record started { world = w; volume = p.root } in
      let cleared : clear_fds max_fds 0 ready ≡ ok tt (record ready { fds = replicate max_fds 0 }) =
        clear_fds_lem max_fds [] s.fds ready refl h in
      (
        record ready { world = (fw.output_string initialized w).1; fds = replicate max_fds 0 },
        rw (e, cleared) refl,
        record { table = refl; free = AllFree-replicate max_fds },
        refl,
        refl,
        refl,
      )
    where
      started : Machine W
      started = record s { world = fw.initialize_lib image_handle s.world; image = image_handle }
