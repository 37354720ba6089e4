-- ===== src/Examples/Contents.antt =====
-- A firmware that keeps the contents of one file, and a write that is read back through it.
use uefilinux.Base.{
  ℕ, ◌+◌, ◌≡◌, refl, false, none, some, List, [], ◌∷◌, take, drop, length, pos, arith,
}
use uefilinux.Efi.{Firmware}
use uefilinux.Machine.{Machine, ok}
use uefilinux.Fd.{fd_lseek}
use uefilinux.File.{load_bytes}
use uefilinux.File.Contents.{overwritten, KeepsContents, Succeeds, write_read}
use uefilinux.Console.{fd_read, fd_write}
use uefilinux.Examples.Machines.{notes, shared}
use uefilinux.Examples.Slots.{IsOpen-5}

-- The file's contents and the position.
abbrev Disk : Type 0
Disk = List ℕ × ℕ

abbrev disk_firmware : Firmware Disk
disk_firmware = record {
  is_error = λ s. false;
  success = 0;
  end_of_file = 31;
  aborted = 21;
  write_protected = 8;
  access_denied = 15;
  volume_full = 11;
  not_found = 14;
  invalid_parameter = 2;
  file_directory = 16;
  initialize_lib = λ h w. w;
  handle_protocol = λ h g w. (some 3, w);
  device_handle = λ h. 4;
  open_volume = λ h w. (some 5, w);
  open_file = λ v name mode attributes w. ((0, 7), w);
  close = λ h w. (0, w);
  flush = λ h w. (0, w);
  set_position = λ h p w. (0, (w.0, p));
  get_position = λ h w. ((0, w.1), w);
  read = λ h count w. (
    (0, length (take count (drop w.1 w.0)), take count (drop w.1 w.0)),
    (w.0, w.1 + length (take count (drop w.1 w.0))),
  );
  read_directory = λ h w. ((0, none), w);
  write = λ h bytes w. ((0, length bytes), (overwritten w.0 w.1 bytes, w.1 + length bytes));
  get_info = λ h w. ((0, notes), w);
  set_info = λ h info w. (0, w);
  output_string = λ text w. (0, w);
  wait_for_key = λ w. w;
  read_key_stroke = λ w. (none, w);
  stall = λ n w. (0, w);
  get_time = λ w. (none, w);
  exit_image = λ h status w. w;
  reset_system = λ kind status size text w. w;
  allocate_pool = λ n w. ((0, 4096), w);
  free_pool = λ p w. (0, w);
}

abbrev disk-KeepsContents : KeepsContents disk_firmware 7
disk-KeepsContents = record {
  contents = λ w. w.0;
  position = λ w. w.1;
  write_all = λ bytes w good. (refl, refl);
  seek = λ p w small good. (refl, refl);
  read_on = λ count w good. (refl, refl);
}

disk-Succeeds : Succeeds disk_firmware 7
disk-Succeeds = record { written = λ bytes w. refl; set = λ p w. refl; delivered = λ count w. refl }

-- The file holds four bytes, and the position is behind the first.
abbrev disk_machine : Disk → Machine Disk
disk_machine w = record {
  image = 1;
  volume = 2;
  fds = shared.fds;
  fres = shared.fres;
  mem = shared.mem;
  world = w;
}

abbrev four_bytes : Disk
four_bytes = (1 ∷ 2 ∷ 3 ∷ 4 ∷ [], 1)

write_read_example :
    (w1 w2 : Disk) × (t : Machine Disk) × (fd_write disk_firmware
        (pos 5)
        300
        2
        (disk_machine four_bytes)
      ≡ ok (pos 2) (disk_machine w1))
    × (fd_lseek disk_firmware (pos 5) 1 (pos 0) (disk_machine w1) ≡ ok (pos 1) (disk_machine w2))
    × (fd_read disk_firmware (pos 5) 500 2 (disk_machine w2) ≡ ok (pos 2) t)
    × (load_bytes t.mem.bytes 500 2 ≡ load_bytes shared.mem.bytes 300 2)
write_read_example =
    write_read disk_firmware 7 disk-Succeeds disk-KeepsContents (disk_machine four_bytes) (pos 5) 1
      300 500 2 IsOpen-5 (omega arith) (omega arith) (omega arith)
